-- ===== src/Group/Examples.antt =====
-- The theorems on groups at a concrete table: two leads and a member.
use training_center_back.Prelude.{
  String, is_some, ◌&&◌, false, none, some, List, [], ◌∷◌, ◌≡◌, refl,
}
use training_center_back.Apperror.{is_ok, ok, ◌>>=◌}
use training_center_back.Group.Members.{
  lead, member, GroupMember, find_by_group_and_user, count_leads, new_member_role, set_role_rows,
  delete_rows, update_member, delete_member, promote, demote, new_group_member,
}
use training_center_back.Group.Operations.{
  CurrentUser, Answers, change_role, leave_group, remove_member, check_leave, drop_member,
  require_lead_or_admin, require_not_contestant_for_lead, keep_a_lead, change_to, apply_role,
  find_target, resolve,
}
use training_center_back.Group.Policies.{Group, not_visible, by_invite}
use training_center_back.Group.Requests.{
  JoinRequest, pending, approved, find_request, approve, save_request, count_waiting, set_status,
}
use training_center_back.Group.Invitations.{
  GroupInvitation, pending, accepted, find_invitation, is_past, accept, transition_pending,
  move_pending,
}
use training_center_back.Group.Joining.{
  Joins, Joiner, approve_request, load_request, new_row, admit_requester, require_outsider,
  save_member, accept_invite, check_invitation, accept_checked, admit_invitee, enrol, consume,
}
use training_center_back.Group.Approvals.{Approval, approve_request-once}
use training_center_back.Group.Acceptances.{Acceptance, accept_invite-once}
use training_center_back.Group.Counts.{IsUnique}
use training_center_back.Group.Leads.{Keeps, leave_group-Keeps, remove_member-Keeps}
use training_center_back.Group.Races.{CanLeave, leaves_lose_leads}

abbrev anna : GroupMember
anna = record {
  id = "m1";
  group_id = "g1";
  user_id = "u1";
  role = lead;
  joined_at = 10;
  added_by = none;
  join_method = "CREATED";
}

abbrev berta : GroupMember
berta = record anna { id = "m2"; user_id = "u2" }

abbrev carla : GroupMember
carla = record anna { id = "m3"; user_id = "u3"; role = member }

abbrev table : List GroupMember
table = anna ∷ berta ∷ carla ∷ []

abbrev env : Answers
env = record {
  is_default = λ g. ok false;
  resolve_by_nickname = λ n. ok (some (record { id = "u2"; system_role = "COACH" }));
  find_fault = λ u. none;
  count_fault = none;
  write_fault = none;
  delete_scheduled = λ g u. ok tt;
  remove_from_scheduled = λ g u. ok tt;
}

abbrev caller : CurrentUser
caller = record { id = "u1"; is_admin = false }

table-IsUnique : IsUnique table
unfolding find_by_group_and_user
table-IsUnique = (refl, (refl, (refl, tt)))

anna_left : leave_group env "g1" "u1" table ≡ ok (berta ∷ carla ∷ [])
unfolding leave_group check_leave drop_member find_target keep_a_lead find_by_group_and_user
    count_leads delete_member delete_rows
anna_left = refl

leave_group-Keeps_example : Keeps table (berta ∷ carla ∷ [])
leave_group-Keeps_example =
    leave_group-Keeps env "g1" "u1" table {t' = berta ∷ carla ∷ []} table-IsUnique anna_left

berta_removed : remove_member env caller "g1" "berta" table ≡ ok (anna ∷ carla ∷ [])
unfolding remove_member require_lead_or_admin resolve drop_member find_target keep_a_lead
    find_by_group_and_user count_leads delete_member delete_rows
berta_removed = refl

remove_member-Keeps_example : Keeps table (anna ∷ carla ∷ [])
remove_member-Keeps_example =
    remove_member-Keeps env caller "g1" "berta" table {t' = anna ∷ carla ∷ []} table-IsUnique
      berta_removed

abbrev demoted : List GroupMember
demoted = anna ∷ record berta { role = member } ∷ carla ∷ []

berta_demoted : change_role env caller "g1" "berta" "MEMBER" table ≡ ok demoted
unfolding change_role new_member_role require_lead_or_admin require_not_contestant_for_lead resolve
    find_target keep_a_lead apply_role change_to promote demote find_by_group_and_user count_leads
    update_member set_role_rows
berta_demoted = refl

two_leads : count_leads "g1" table ≡ 2
unfolding count_leads
two_leads = refl

anna-CanLeave : CanLeave env "g1" "u1" table anna
unfolding find_by_group_and_user
anna-CanLeave = record {
  ordinary = refl;
  read = refl;
  counted = refl;
  written = refl;
  contests = refl;
  teams = refl;
  listed = refl;
  leads = refl;
}

berta-CanLeave : CanLeave env "g1" "u2" table berta
unfolding find_by_group_and_user
berta-CanLeave = record {
  ordinary = refl;
  read = refl;
  counted = refl;
  written = refl;
  contests = refl;
  teams = refl;
  listed = refl;
  leads = refl;
}

leaves_lose_leads_example :
    (check_leave env "g1" "u1" table ≡ ok tt)
    × (check_leave env "g1" "u2" table ≡ ok tt)
    × (t' : List GroupMember) × ((drop_member env "g1" "u1" table >>= drop_member env "g1" "u2")
        ≡ ok t')
    × (count_leads "g1" t' ≡ 0)
leaves_lose_leads_example =
    leaves_lose_leads env "g1" "u1" "u2" table anna berta table-IsUnique refl two_leads
      anna-CanLeave berta-CanLeave

abbrev asked : JoinRequest
asked = record {
  id = "r1";
  group_id = "g1";
  requester_user_id = "u4";
  message = none;
  status = pending;
  created_at = 20;
}

abbrev invited : GroupInvitation
invited = record {
  id = "i1";
  group_id = "g1";
  invitee_id = some "u4";
  invited_by = "u1";
  status = pending;
  expires_at = 90;
  created_at = 20;
}

abbrev club : Group
club = record {
  id = "g1";
  name = "Club";
  description = none;
  visibility = not_visible;
  join_policy = by_invite;
  is_default = false;
  created_by = "u1";
  created_at = 1;
  updated_at = 1;
}

abbrev joiner : Joiner
joiner = record {
  answers = env;
  find_group = λ g. ok club;
  member_id = "m4";
  request_id = "r2";
  now = 30;
  request_fault = none;
  invitation_fault = none;
  save_request_fault = none;
  transition_fault = none;
  commit_fault = none;
  meanwhile = λ s. s;
}

abbrev before : Joins
before = record { members = table; requests = asked ∷ []; invitations = invited ∷ [] }

abbrev dora : String → GroupMember
dora method = record {
  id = "m4";
  group_id = "g1";
  user_id = "u4";
  role = member;
  joined_at = 30;
  added_by = none;
  join_method = method;
}

abbrev after_approval : Joins
after_approval = record before {
  members = dora "REQUEST_APPROVED" ∷ table;
  requests = record asked { status = approved } ∷ [];
}

asked_approved : approve_request joiner caller "g1" "r1" before ≡ ok after_approval
unfolding approve_request load_request require_lead_or_admin find_by_group_and_user find_request
    approve new_row new_group_member admit_requester require_outsider save_request count_waiting
    set_status save_member
asked_approved = refl

-- A lead whose transaction comes after the approval.
abbrev late : Joiner
late = record joiner { meanwhile = λ s. after_approval }

approve_request-once_example :
    (Approval joiner "g1" "r1" before before after_approval)
    × (is_ok (approve_request late caller "g1" "r1" before) ≡ false)
    × (is_ok (approve_request late caller "g1" "r1" after_approval) ≡ false)
approve_request-once_example =
    approve_request-once joiner late caller caller "g1" "g1" "r1" before after_approval
      asked_approved refl

abbrev guest : CurrentUser
guest = record { id = "u4"; is_admin = false }

abbrev after_acceptance : Joins
after_acceptance = record before {
  members = dora "INVITATION" ∷ table;
  invitations = record invited { status = accepted } ∷ [];
}

invited_accepted : accept_invite joiner guest "g1" "i1" before ≡ (ok tt, after_acceptance)
unfolding accept_invite check_invitation find_invitation accept_checked is_past accept admit_invitee
    enrol require_outsider find_by_group_and_user new_row new_group_member save_member consume
    transition_pending move_pending
invited_accepted = refl

accept_invite-once_example :
    (a : Acceptance joiner guest "g1" "i1" before after_acceptance) × ((is_some
          a.invitation.invitee_id
        && is_ok (accept_invite joiner caller "g1" "i1" after_acceptance).0)
      ≡ false)
accept_invite-once_example =
    accept_invite-once joiner joiner guest caller "g1" "g1" "i1" before after_acceptance
      invited_accepted
