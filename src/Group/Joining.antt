-- ===== src/Group/Joining.antt =====
-- join_group.go, request_join.go, approve_request.go, reject_request.go, cancel_my_request.go,
-- accept_invite.go and add_member.go of internal/application/group, and the insert of
-- adapter/group/member_repository.go. What other requests do between the checks of ApproveRequest
-- or AcceptInvite and its transaction is the argument `meanwhile`.
use training_center_back.Prelude.{
  ℕ, String, Bool, false, Option, none, some, List, [], ◌∷◌, str_eq, if◌then◌else◌, is_some, not,
  ◌++◌,
}
use training_center_back.Apperror.{
  Error, Result, ok, err, validation, conflict, not_found, forbidden, bad_request, fail_if, require,
  ◌>>=◌, ◌>>◌,
}
use training_center_back.Group.Members.{
  MemberRole, member, GroupMember, new_member_role, new_group_member, find_by_group_and_user,
}
use training_center_back.Group.Policies.{
  Group, is_hidden, takes_invites, takes_requests, takes_anyone,
}
use training_center_back.Group.Requests.{
  JoinRequest, waits, new_join_request, approve, reject, find_request, find_request_of,
  save_request, delete_request,
}
use training_center_back.Group.Invitations.{
  GroupInvitation, stands, is_past, accept, invitation_not_pending_code, find_invitation,
  transition_pending, accepted, expired,
}
use training_center_back.Group.Operations.{
  CurrentUser, Answers, query, write, require_lead_or_admin, require_not_contestant_for_lead,
  resolve,
}

-- The three tables.
pub record Joins : Type 0 where
  pub members : List GroupMember
  pub requests : List JoinRequest
  pub invitations : List GroupInvitation

-- The keys that are drawn, the clock, and what the queries answer.
pub record Joiner : Type 0 where
  pub answers : Answers
  pub find_group : String → Result Group
  pub member_id : String
  pub request_id : String
  pub now : ℕ
  pub request_fault : Option Error
  pub invitation_fault : Option Error
  pub save_request_fault : Option Error
  pub transition_fault : Option Error
  pub commit_fault : Option Error
  pub meanwhile : Joins → Joins

-- `INSERT INTO group_members`, under the key of group and user.
unfoldable pub save_member : GroupMember → List GroupMember → Result (List GroupMember)
save_member m table =
    if is_some (find_by_group_and_user m.group_id m.user_id table)
    then err (conflict "ALREADY_MEMBER")
    else ok (m ∷ table)

unfoldable pub require_outsider : Joiner → String → String → Joins → Result (Unit {0})
require_outsider env g u s =
    query (env.answers.find_fault u) (find_by_group_and_user g u s.members) >>= λ existing.
    fail_if (is_some existing) (conflict "ALREADY_MEMBER")

unfoldable pub new_row :
    Joiner → String → String → MemberRole → String → Option String → Result GroupMember
new_row env g u role method added_by =
    new_group_member env.member_id g u role method added_by env.now

abbrev insert : Joiner → GroupMember → Joins → Result Joins
insert env m s = write env.answers.write_fault (save_member m s.members) >>= λ rows.
    ok (record s { members = rows })

unfoldable pub enrol :
    Joiner → String → String → MemberRole → String → Option String → Joins → Result Joins
enrol env g u role method added_by s =
    require_outsider env g u s >> new_row env g u role method added_by >>= λ m. insert env m s

unfoldable pub join_group : Joiner → CurrentUser → String → Joins → Result Joins
join_group env caller g s =
    fail_if (str_eq g "") (validation ("groupId" ∷ [])) >> env.find_group g >>= λ found.
    fail_if (not (takes_anyone found.join_policy)) (forbidden "INSUFFICIENT_PERMISSIONS")
    >> enrol env g caller.id member "OPEN_JOIN" none s

abbrev already_waiting : Option JoinRequest → Bool
already_waiting none = false
already_waiting (some r) = waits r.status

abbrev store_request : Joiner → JoinRequest → Joins → Result Joins
store_request env r s = write env.save_request_fault (save_request r s.requests) >>= λ rows.
    ok (record s { requests = rows })

unfoldable pub request_join : Joiner → CurrentUser → String → Option String → Joins → Result Joins
request_join env caller g message s = env.find_group g >>= λ found.
    fail_if (is_hidden found.visibility) (not_found "GROUP_NOT_FOUND")
    >> fail_if (not (takes_requests found.join_policy)) (bad_request "INVALID_JOIN_POLICY")
    >> require_outsider env found.id caller.id s
    >> query env.request_fault (find_request_of found.id caller.id s.requests)
    >>= λ existing.
        fail_if (already_waiting existing) (conflict "REQUEST_ALREADY_PENDING")
        >> new_join_request env.request_id found.id caller.id message env.now
        >>= λ r. store_request env r s

-- The request that a lead answers.
unfoldable pub load_request : Joiner → CurrentUser → String → String → Joins → Result JoinRequest
load_request env caller g id s =
    require_lead_or_admin env.answers g caller s.members
    >> query env.request_fault (find_request id s.requests)
    >>= λ found. require found (not_found "REQUEST_NOT_FOUND") >>= λ r.
        fail_if (not (str_eq r.group_id g)) (not_found "REQUEST_NOT_FOUND") >> ok r

abbrev pub committed : Option Error → Joins → Result Joins
committed none s = ok s
committed (some e) s = err e

-- The transaction of ApproveRequest. The request is the one read before it, and is saved whatever its
-- row has become.
unfoldable pub admit_requester : Joiner → JoinRequest → GroupMember → Joins → Result Joins
admit_requester env r m s =
    require_outsider env m.group_id m.user_id s >> store_request env r s >>= λ t.
    insert env m t >>= committed env.commit_fault

unfoldable pub approve_request : Joiner → CurrentUser → String → String → Joins → Result Joins
approve_request env caller g id s = load_request env caller g id s >>= λ r. approve r >>= λ done.
    new_row env g done.requester_user_id member "REQUEST_APPROVED" none >>= λ m.
    admit_requester env done m (env.meanwhile s)

unfoldable pub reject_request : Joiner → CurrentUser → String → String → Joins → Result Joins
reject_request env caller g id s =
    load_request env caller g id s >>= λ r. reject r >>= λ done. store_request env done s

unfoldable pub cancel_my_request : Joiner → CurrentUser → String → Joins → Result Joins
cancel_my_request env caller g s =
    query env.request_fault (find_request_of g caller.id s.requests) >>= λ found.
    require found (not_found "REQUEST_NOT_FOUND") >>= λ r.
    fail_if (not (waits r.status)) (bad_request "REQUEST_ALREADY_PROCESSED")
    >> write env.save_request_fault (delete_request r.id s.requests)
    >>= λ rows. ok (record s { requests = rows })

abbrev for_another : CurrentUser → Option String → Bool
for_another caller none = false
for_another caller (some u) = not (str_eq u caller.id)

-- What AcceptInvite checks before it looks at the clock.
unfoldable pub check_invitation :
    Joiner → CurrentUser → String → String → Joins → Result GroupInvitation
check_invitation env caller g id s =
    fail_if (str_eq id "") (validation ("invitationId" ∷ []))
    >> query env.invitation_fault s.invitations
    >>= find_invitation id
    >>= λ i.
        fail_if (not (str_eq i.group_id g)) (not_found "INVITATION_NOT_FOUND")
        >> fail_if (for_another caller i.invitee_id) (forbidden "INSUFFICIENT_PERMISSIONS")
        >> fail_if (not (stands i.status)) (bad_request (invitation_not_pending_code i.status))
        >> ok i

-- The failure of this write is only logged.
abbrev pub expire_row : Joiner → GroupInvitation → Joins → Joins
expire_row env i s =
    elim (write env.transition_fault (transition_pending i.id expired s.invitations)) [
      | err e ↦ s
      | ok rows ↦ record s { invitations = rows }
    ]

-- Only an invitation with an invitee is used up.
unfoldable pub consume : Joiner → GroupInvitation → Joins → Result Joins
consume env i s =
    if not (is_some i.invitee_id)
    then ok s
    else (write env.transition_fault (transition_pending i.id accepted s.invitations) >>= λ rows.
        ok (record s { invitations = rows }))

-- The transaction, which reads the invitation again.
unfoldable pub admit_invitee : Joiner → CurrentUser → GroupInvitation → Joins → Result Joins
admit_invitee env caller i s =
    query env.invitation_fault s.invitations >>= find_invitation i.id >>= λ current.
    fail_if (not (stands current.status)) (conflict (invitation_not_pending_code current.status))
    >> env.find_group i.group_id
    >>= λ found.
        fail_if (not (takes_invites found.join_policy)) (forbidden "INSUFFICIENT_PERMISSIONS")
        >> enrol env i.group_id caller.id member "INVITATION" none s
        >>= consume env i
        >>= committed env.commit_fault

-- A transaction that fails leaves the tables as it found them.
abbrev pub settled : Joins → Result Joins → Result (Unit {0}) × Joins
settled s (err e) = (err e, s)
settled s (ok t) = (ok tt, t)

unfoldable pub accept_checked :
    Joiner → CurrentUser → Joins → Result GroupInvitation → Result (Unit {0}) × Joins
accept_checked env caller s (err e) = (err e, s)
accept_checked env caller s (ok i) =
    if is_past env.now i
    then (err (bad_request "INVITATION_EXPIRED"), expire_row env i s)
    else settled (env.meanwhile s)
        (accept i >>= λ taken. admit_invitee env caller taken (env.meanwhile s))

unfoldable pub accept_invite :
    Joiner → CurrentUser → String → String → Joins → Result (Unit {0}) × Joins
accept_invite env caller g id s = accept_checked env caller s (check_invitation env caller g id s)

abbrev missing : String → String → List String
missing field text = if str_eq text "" then field ∷ [] else []

abbrev no_missing : List String → Result (Unit {0})
no_missing [] = ok tt
no_missing (f ∷ fs) = err (validation (f ∷ fs))

unfoldable pub add_member : Joiner → CurrentUser → String → String → String → Joins → Result Joins
add_member env caller g nickname role s =
    no_missing (missing "nickname" nickname ++ missing "role" role)
    >> new_member_role role
    >>= λ new_role. env.find_group g >>= λ found.
        require_lead_or_admin env.answers g caller s.members
        >> fail_if found.is_default (bad_request "CANNOT_ADD_TO_GLOBAL_GROUP")
        >> resolve env.answers nickname
        >>= λ target.
            require_not_contestant_for_lead new_role target
            >> enrol env g target.id new_role "DIRECT_ADD" (some caller.id) s
