-- ===== src/Group/Operations.antt =====
-- change_role.go, leave_group.go, remove_member.go and permissions.go of internal/application/group.
-- An operation returns the table of members that it leaves; an error leaves the table as it was,
-- since the only write is the last step, and the transaction around it rolls back.
use training_center_back.Prelude.{
  ℕ, String, Bool, false, Option, none, some, List, [], ◌∷◌, str_eq, leb, if◌then◌else◌, ◌&&◌, not,
}
use training_center_back.Apperror.{
  Error, Result, ok, err, validation, not_found, forbidden, bad_request, fail_if, require, ◌>>=◌,
  ◌>>◌,
}
use training_center_back.Group.Members.{
  MemberRole, lead, member, GroupMember, is_lead, is_lead_role, is_member_role, new_member_role,
  promote, demote, find_by_group_and_user, count_leads, update_member, delete_member,
}

pub record UserDisplay : Type 0 where
  pub id : String
  pub system_role : String

pub record CurrentUser : Type 0 where
  pub id : String
  pub is_admin : Bool

-- What the other repositories answer, and which queries on the members fail.
pub record Answers : Type 0 where
  pub is_default : String → Result Bool
  pub resolve_by_nickname : String → Result (Option UserDisplay)
  pub find_fault : String → Option Error
  pub count_fault : Option Error
  pub write_fault : Option Error
  pub delete_scheduled : String → String → Result (Unit {0})
  pub remove_from_scheduled : String → String → Result (Unit {0})

-- A query that fails, or gives its answer.
abbrev pub query {ℓ} : {A : Type ℓ} → Option Error → A → Result A
query none answer = ok answer
query (some e) answer = err e

-- A write that the database refuses, or does.
abbrev pub write {ℓ} : {A : Type ℓ} → Option Error → Result A → Result A
write none done = done
write (some e) done = err e

abbrev leads : Option GroupMember → Bool
leads none = false
leads (some m) = is_lead m

unfoldable pub require_lead_or_admin :
    Answers → String → CurrentUser → List GroupMember → Result (Unit {0})
require_lead_or_admin env g caller table =
    if caller.is_admin
    then ok tt
    else query (env.find_fault caller.id) (find_by_group_and_user g caller.id table) >>= λ m.
        fail_if (not (leads m)) (forbidden "INSUFFICIENT_PERMISSIONS")

unfoldable pub require_not_contestant_for_lead : MemberRole → UserDisplay → Result (Unit {0})
require_not_contestant_for_lead role target =
    fail_if (is_lead_role role && str_eq target.system_role "CONTESTANT")
      (bad_request "INVALID_LEAD_ASSIGNMENT")

abbrev pub not_last : String → ℕ → Result (Unit {0})
not_last code n = fail_if (leb n 1) (bad_request code)

-- `if member.IsLead() { CountLeads … <= 1 }`, which refuses to lose the last lead.
unfoldable pub keep_a_lead : Answers → String → Bool → String → List GroupMember → Result (Unit {0})
keep_a_lead env g loses code table =
    if loses then query env.count_fault (count_leads g table) >>= not_last code else ok tt

abbrev pub same_role : MemberRole → GroupMember → Bool
same_role lead m = is_lead m
same_role member m = is_member_role m.role
same_role _ m = false

unfoldable pub change_to : MemberRole → GroupMember → Result GroupMember
change_to role m = if is_lead_role role then promote m else demote m

-- From the checks on: nothing is written if the member has the role already.
unfoldable pub apply_role :
    Answers → MemberRole → GroupMember → List GroupMember → Result (List GroupMember)
apply_role env role m table =
    if same_role role m
    then ok table
    else change_to role m >>= λ changed. write env.write_fault (update_member changed table)

unfoldable pub find_target : Answers → String → String → List GroupMember → Result GroupMember
find_target env g user_id table =
    query (env.find_fault user_id) (find_by_group_and_user g user_id table) >>= λ found.
    require found (not_found "NOT_A_MEMBER")

unfoldable pub resolve : Answers → String → Result UserDisplay
resolve env nickname =
    env.resolve_by_nickname nickname >>= λ found. require found (not_found "NICKNAME_NOT_FOUND")

unfoldable pub change_role :
    Answers → CurrentUser → String → String → String → List GroupMember → Result (List GroupMember)
change_role env caller g nickname role table =
    fail_if (str_eq role "") (validation ("role" ∷ [])) >> new_member_role role >>= λ new_role.
    require_lead_or_admin env g caller table >> resolve env nickname >>= λ target.
    require_not_contestant_for_lead new_role target >> find_target env g target.id table >>= λ m.
    keep_a_lead env g (is_member_role new_role && is_lead m) "CANNOT_REMOVE_LAST_LEAD" table
    >> apply_role env new_role m table

-- The transaction: scheduled contests and teams of the group are left too.
unfoldable pub drop_member :
    Answers → String → String → List GroupMember → Result (List GroupMember)
drop_member env g u table =
    env.delete_scheduled g u
    >> env.remove_from_scheduled g u
    >> write env.write_fault (delete_member g u table)

-- What `LeaveGroup` checks before its transaction.
unfoldable pub check_leave : Answers → String → String → List GroupMember → Result (Unit {0})
check_leave env g caller_id table = env.is_default g >>= λ default.
    fail_if default (bad_request "CANNOT_LEAVE_GLOBAL_GROUP")
    >> find_target env g caller_id table
    >>= λ m. keep_a_lead env g (is_lead m) "CANNOT_LEAVE_AS_LAST_LEAD" table

unfoldable pub leave_group :
    Answers → String → String → List GroupMember → Result (List GroupMember)
leave_group env g caller_id table =
    check_leave env g caller_id table >> drop_member env g caller_id table

unfoldable pub remove_member :
    Answers → CurrentUser → String → String → List GroupMember → Result (List GroupMember)
remove_member env caller g nickname table = env.is_default g >>= λ default.
    fail_if default (bad_request "CANNOT_REMOVE_FROM_GLOBAL_GROUP")
    >> require_lead_or_admin env g caller table
    >> resolve env nickname
    >>= λ target. find_target env g target.id table >>= λ m.
        keep_a_lead env g (is_lead m) "CANNOT_REMOVE_LAST_LEAD" table
        >> drop_member env g target.id table
