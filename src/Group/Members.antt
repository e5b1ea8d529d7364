-- ===== src/Group/Members.antt =====
-- domain/group/member_role.go and group_member.go, and the queries of
-- adapter/group/member_repository.go on the table of members.
use training_center_back.Prelude.{
  ℕ, suc, String, Bool, true, false, Option, none, some, List, [], ◌∷◌, str_eq, if◌then◌else◌, ◌&&◌,
  ◌||◌,
}
use training_center_back.Apperror.{Result, ok, err, validation, conflict, not_found, internal}

-- A text that `RestoreMemberRole` took from storage may be neither of the two.
pub data MemberRole : Type 0 where
  lead member : MemberRole
  unrecognised : String → MemberRole

unfoldable pub new_member_role : String → Result MemberRole
new_member_role s =
    if str_eq s "LEAD"
    then ok lead
    else if str_eq s "MEMBER"
    then ok member
    else err (validation ("role" ∷ []))

abbrev pub is_lead_role : MemberRole → Bool
is_lead_role lead = true
is_lead_role _ = false

abbrev pub is_member_role : MemberRole → Bool
is_member_role member = true
is_member_role _ = false

pub record GroupMember : Type 0 where
  pub id : String
  pub group_id : String
  pub user_id : String
  pub role : MemberRole
  pub joined_at : ℕ
  pub added_by : Option String
  pub join_method : String

unfoldable pub new_group_member :
    (id group_id user_id : String) (role : MemberRole) (join_method : String)
    (added_by : Option String) (now : ℕ)
    → Result GroupMember
new_group_member id group_id user_id role join_method added_by now =
    if str_eq id "" || str_eq group_id "" || str_eq user_id ""
    then err internal
    else ok (record {
      id = id;
      group_id = group_id;
      user_id = user_id;
      role = role;
      joined_at = now;
      added_by = added_by;
      join_method = join_method;
    })

abbrev pub is_lead : GroupMember → Bool
is_lead m = is_lead_role m.role

unfoldable pub promote : GroupMember → Result GroupMember
promote m =
    if is_lead_role m.role then err (conflict "ROLE_UNCHANGED") else ok (record m { role = lead })

unfoldable pub demote : GroupMember → Result GroupMember
demote m =
    if is_member_role m.role
    then err (conflict "ROLE_UNCHANGED")
    else ok (record m { role = member })

-- `WHERE group_id = $1 AND user_id = $2`.
abbrev pub is_row : String → String → GroupMember → Bool
is_row g u m = str_eq m.group_id g && str_eq m.user_id u

unfoldable pub find_by_group_and_user : String → String → List GroupMember → Option GroupMember
find_by_group_and_user g u [] = none
find_by_group_and_user g u (m ∷ ms) = if is_row g u m then some m else find_by_group_and_user g u ms

unfoldable pub count_leads : String → List GroupMember → ℕ
count_leads g [] = 0
count_leads g (m ∷ ms) =
    if str_eq m.group_id g && is_lead m then suc (count_leads g ms) else count_leads g ms

-- `UPDATE group_members SET member_role`.
unfoldable pub set_role_rows : String → String → MemberRole → List GroupMember → List GroupMember
set_role_rows g u r [] = []
set_role_rows g u r (m ∷ ms) =
    (if is_row g u m then record m { role = r } else m) ∷ set_role_rows g u r ms

unfoldable pub delete_rows : String → String → List GroupMember → List GroupMember
delete_rows g u [] = []
delete_rows g u (m ∷ ms) = if is_row g u m then delete_rows g u ms else m ∷ delete_rows g u ms

-- The two writes fail when no row matches.
abbrev pub if_any : Option GroupMember → List GroupMember → Result (List GroupMember)
if_any none rows = err (not_found "NOT_A_MEMBER")
if_any (some m) rows = ok rows

unfoldable pub update_member : GroupMember → List GroupMember → Result (List GroupMember)
update_member m table =
    if_any (find_by_group_and_user m.group_id m.user_id table)
      (set_role_rows m.group_id m.user_id m.role table)

unfoldable pub delete_member : String → String → List GroupMember → Result (List GroupMember)
delete_member g u table = if_any (find_by_group_and_user g u table) (delete_rows g u table)
