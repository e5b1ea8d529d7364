-- ===== src/Group/Invitations.antt =====
-- domain/group/invitation.go and invitation_status.go, and the queries of
-- adapter/group/invitation_repository.go that accepting an invitation runs.
use training_center_back.Prelude.{
  ℕ, ◌+◌, String, Bool, true, false, Option, List, [], ◌∷◌, str_eq, ltb, if◌then◌else◌, ◌&&◌, ◌||◌,
  not,
}
use training_center_back.Apperror.{Result, ok, err, conflict, not_found, bad_request, internal}

-- A text that `RestoreInvitationStatus` took from storage may be none of the four.
pub data InvitationStatus : Type 0 where
  pending accepted revoked expired : InvitationStatus
  unrecognised : String → InvitationStatus

pub record GroupInvitation : Type 0 where
  pub id : String
  pub group_id : String
  pub invitee_id : Option String
  pub invited_by : String
  pub status : InvitationStatus
  pub expires_at : ℕ
  pub created_at : ℕ

abbrev pub stands : InvitationStatus → Bool
stands pending = true
stands _ = false

-- 72 hours.
abbrev invitation_expiry_duration : ℕ
invitation_expiry_duration = 259200000000000

unfoldable pub new_group_invitation :
    (id group_id : String) (invitee : Option String) (invited_by : String) (now : ℕ)
    → Result GroupInvitation
new_group_invitation id group_id invitee invited_by now =
    if str_eq id "" || str_eq group_id "" || str_eq invited_by ""
    then err internal
    else ok (record {
      id = id;
      group_id = group_id;
      invitee_id = invitee;
      invited_by = invited_by;
      status = pending;
      expires_at = now + invitation_expiry_duration;
      created_at = now;
    })

unfoldable pub is_past : ℕ → GroupInvitation → Bool
is_past now i = ltb i.expires_at now

unfoldable pub accept : GroupInvitation → Result GroupInvitation
accept i =
    if not (stands i.status)
    then err (bad_request "INVITATION_ALREADY_PROCESSED")
    else ok (record i { status = accepted })

abbrev pub invitation_not_pending_code : InvitationStatus → String
invitation_not_pending_code revoked = "INVITATION_REVOKED"
invitation_not_pending_code expired = "INVITATION_EXPIRED"
invitation_not_pending_code _ = "INVITATION_ALREADY_PROCESSED"

unfoldable pub find_invitation : String → List GroupInvitation → Result GroupInvitation
find_invitation id [] = err (not_found "INVITATION_NOT_FOUND")
find_invitation id (i ∷ is) =
    let rest = find_invitation id is in if str_eq i.id id then ok i else rest

unfoldable pub move_pending :
    String → InvitationStatus → List GroupInvitation → List GroupInvitation
move_pending id status [] = []
move_pending id status (i ∷ is) =
    let rest = move_pending id status is in
    if str_eq i.id id && stands i.status then record i { status = status } ∷ rest else i ∷ rest

abbrev if_pending : Result GroupInvitation → List GroupInvitation → Result (List GroupInvitation)
if_pending (err e) rows = err (conflict "INVITATION_ALREADY_PROCESSED")
if_pending (ok i) rows =
    if stands i.status then ok rows else err (conflict "INVITATION_ALREADY_PROCESSED")

-- `TransitionStatus` from pending: `UPDATE … WHERE id = $2 AND status = $3`, which fails when no
-- row matches.
unfoldable pub transition_pending :
    String → InvitationStatus → List GroupInvitation → Result (List GroupInvitation)
transition_pending id status is = if_pending (find_invitation id is) (move_pending id status is)
