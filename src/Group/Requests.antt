-- ===== src/Group/Requests.antt =====
-- domain/group/join_request.go and join_request_status.go, and the queries of
-- adapter/group/join_request_repository.go on the table of requests.
use training_center_back.Prelude.{
  ℕ, suc, String, Bool, true, false, Option, none, some, List, [], ◌∷◌, str_eq, ltb, leb,
  if◌then◌else◌, ◌&&◌, ◌||◌, not,
}
use training_center_back.Apperror.{Result, ok, err, conflict, bad_request, internal}

-- A text that `RestoreJoinRequestStatus` took from storage may be none of the three.
pub data JoinRequestStatus : Type 0 where
  pending approved rejected : JoinRequestStatus
  unrecognised : String → JoinRequestStatus

pub record JoinRequest : Type 0 where
  pub id : String
  pub group_id : String
  pub requester_user_id : String
  pub message : Option String
  pub status : JoinRequestStatus
  pub created_at : ℕ

abbrev pub waits : JoinRequestStatus → Bool
waits pending = true
waits _ = false

unfoldable pub new_join_request :
    (id group_id requester : String) (message : Option String) (now : ℕ) → Result JoinRequest
new_join_request id group_id requester message now =
    if str_eq id "" || str_eq group_id "" || str_eq requester ""
    then err internal
    else ok (record {
      id = id;
      group_id = group_id;
      requester_user_id = requester;
      message = message;
      status = pending;
      created_at = now;
    })

unfoldable pub approve : JoinRequest → Result JoinRequest
approve r =
    if not (waits r.status)
    then err (bad_request "REQUEST_ALREADY_PROCESSED")
    else ok (record r { status = approved })

unfoldable pub reject : JoinRequest → Result JoinRequest
reject r =
    if not (waits r.status)
    then err (bad_request "REQUEST_ALREADY_PROCESSED")
    else ok (record r { status = rejected })

unfoldable pub find_request : String → List JoinRequest → Option JoinRequest
find_request id [] = none
find_request id (r ∷ rs) = if str_eq r.id id then some r else find_request id rs

-- `ORDER BY` pending first, then the latest; two rows that tie come in the table's order.
abbrev comes_before : JoinRequest → JoinRequest → Bool
comes_before r s =
    if waits r.status
    then (not (waits s.status) || leb s.created_at r.created_at)
    else (not (waits s.status) && leb s.created_at r.created_at)

abbrev first_of : JoinRequest → Option JoinRequest → JoinRequest
first_of r none = r
first_of r (some s) = if comes_before r s then r else s

unfoldable pub find_request_of : String → String → List JoinRequest → Option JoinRequest
find_request_of g u [] = none
find_request_of g u (r ∷ rs) =
    let rest = find_request_of g u rs in
    if str_eq r.group_id g && str_eq r.requester_user_id u then some (first_of r rest) else rest

-- The rows that the partial unique index is over, for one group and user.
unfoldable pub count_waiting : String → String → List JoinRequest → ℕ
count_waiting g u [] = 0
count_waiting g u (r ∷ rs) =
    let rest = count_waiting g u rs in
    if str_eq r.group_id g && str_eq r.requester_user_id u && waits r.status then suc rest else rest

-- `ON CONFLICT (id) DO UPDATE SET status`.
unfoldable pub set_status : String → JoinRequestStatus → List JoinRequest → List JoinRequest
set_status id status [] = []
set_status id status (r ∷ rs) =
    let rest = set_status id status rs in
    if str_eq r.id id then record r { status = status } ∷ rest else r ∷ rest

abbrev upserted : JoinRequest → Option JoinRequest → List JoinRequest → List JoinRequest
upserted r none rs = r ∷ rs
upserted r (some row) rs = set_status r.id r.status rs

unfoldable pub save_request : JoinRequest → List JoinRequest → Result (List JoinRequest)
save_request r rs =
    if ltb 1 (count_waiting r.group_id r.requester_user_id (upserted r (find_request r.id rs) rs))
    then err (conflict "REQUEST_ALREADY_PENDING")
    else ok (upserted r (find_request r.id rs) rs)

unfoldable pub drop_waiting : String → List JoinRequest → List JoinRequest
drop_waiting id [] = []
drop_waiting id (r ∷ rs) =
    let rest = drop_waiting id rs in if str_eq r.id id && waits r.status then rest else r ∷ rest

abbrev if_waiting : Option JoinRequest → List JoinRequest → Result (List JoinRequest)
if_waiting none rows = err (conflict "REQUEST_ALREADY_PROCESSED")
if_waiting (some r) rows =
    if waits r.status then ok rows else err (conflict "REQUEST_ALREADY_PROCESSED")

-- `DELETE … WHERE id = $1 AND status = 'PENDING'`, which fails when no row matches.
unfoldable pub delete_request : String → List JoinRequest → Result (List JoinRequest)
delete_request id rs = if_waiting (find_request id rs) (drop_waiting id rs)
