-- ===== src/Group/Counts.antt =====
-- How the writes on the table of members change the number of leads of a group.
use training_center_back.Prelude.{
  ℕ, ◌+◌, String, false, none, some, List, [], ◌∷◌, ◌≡◌, refl, arith, str_eq, str_eq_iff,
  if◌then◌else◌,
}
use training_center_back.Group.Members.{
  MemberRole, GroupMember, is_lead, is_lead_role, find_by_group_and_user, count_leads,
  set_role_rows, delete_rows,
}

-- The unique key of the table: no user has two rows in a group.
abbrev pub IsUnique : List GroupMember → Type 0
IsUnique [] = Unit
IsUnique (m ∷ ms) = (find_by_group_and_user m.group_id m.user_id ms ≡ none) × IsUnique ms

abbrev pub weight : GroupMember → ℕ
weight m = if is_lead m then 1 else 0

delete-absent :
    (g u : String) (ms : List GroupMember)
    → find_by_group_and_user g u ms ≡ none
    → delete_rows g u ms ≡ ms
unfolding find_by_group_and_user delete_rows
delete-absent g u [] h = refl
delete-absent g u (m ∷ ms) h = ground (arith, delete-absent g u ms)

pub find-keys :
    (g u : String) (ms : List GroupMember) {m : GroupMember}
    → find_by_group_and_user g u ms ≡ some m
    → (m.group_id ≡ g) × (m.user_id ≡ u)
unfolding find_by_group_and_user
find-keys g u [] h = cc
find-keys g u (x ∷ ms) {m} h =
    ground (arith, find-keys g u ms {m = m}, str_eq_iff x.group_id g, str_eq_iff x.user_id u)

-- Deleting the row of a user takes that row's weight from the leads of the group.
pub count-delete :
    (g u : String) (ms : List GroupMember) {m : GroupMember}
    → IsUnique ms
    → find_by_group_and_user g u ms ≡ some m
    → count_leads g (delete_rows g u ms) + weight m ≡ count_leads g ms
unfolding find_by_group_and_user delete_rows count_leads
count-delete g u [] d h = cc
count-delete g u (x ∷ ms) {m} (fresh, d) h = ground (
  arith,
  str_eq_iff x.group_id g,
  str_eq_iff x.user_id u,
  count-delete g u ms {m = m} d,
  delete-absent g u ms,
)

-- The leads of other groups are not counted otherwise.
pub count-delete_other :
    (g u h : String) (ms : List GroupMember)
    → str_eq g h ≡ false
    → count_leads h (delete_rows g u ms) ≡ count_leads h ms
unfolding delete_rows count_leads
count-delete_other g u h [] e = refl
count-delete_other g u h (x ∷ ms) e = ground (
  arith,
  str_eq_iff x.group_id g,
  str_eq_iff x.group_id h,
  str_eq_iff g h,
  count-delete_other g u h ms e,
)

find-delete :
    (g u h v : String) (ms : List GroupMember)
    → find_by_group_and_user h v ms ≡ none
    → find_by_group_and_user h v (delete_rows g u ms) ≡ none
unfolding find_by_group_and_user delete_rows
find-delete g u h v [] e = refl
find-delete g u h v (x ∷ ms) e = ground (arith, find-delete g u h v ms)

pub delete-IsUnique :
    (g u : String) (ms : List GroupMember) → IsUnique ms → IsUnique (delete_rows g u ms)
unfolding delete_rows
delete-IsUnique g u [] d = tt
delete-IsUnique g u (x ∷ ms) (fresh, d) =
    ground (arith, delete-IsUnique g u ms d, find-delete g u x.group_id x.user_id ms fresh)

find-set_role :
    (g u h v : String) (r : MemberRole) (ms : List GroupMember)
    → find_by_group_and_user h v ms ≡ none
    → find_by_group_and_user h v (set_role_rows g u r ms) ≡ none
unfolding find_by_group_and_user set_role_rows
find-set_role g u h v r [] e = refl
find-set_role g u h v r (x ∷ ms) e = ground (arith, find-set_role g u h v r ms)

pub set_role-IsUnique :
    (g u : String) (r : MemberRole) (ms : List GroupMember)
    → IsUnique ms
    → IsUnique (set_role_rows g u r ms)
unfolding set_role_rows
set_role-IsUnique g u r [] d = tt
set_role-IsUnique g u r (x ∷ ms) (fresh, d) =
    ground (arith, set_role-IsUnique g u r ms d, find-set_role g u x.group_id x.user_id r ms fresh)

set_role-absent :
    (g u h : String) (r : MemberRole) (ms : List GroupMember)
    → find_by_group_and_user g u ms ≡ none
    → count_leads h (set_role_rows g u r ms) ≡ count_leads h ms
unfolding find_by_group_and_user set_role_rows count_leads
set_role-absent g u h r [] e = refl
set_role-absent g u h r (x ∷ ms) e = ground (arith, set_role-absent g u h r ms)

-- Changing the role of a user exchanges the weights of the two roles.
pub count-set_role :
    (g u : String) (r : MemberRole) (ms : List GroupMember) {m : GroupMember}
    → IsUnique ms
    → find_by_group_and_user g u ms ≡ some m
    → count_leads g (set_role_rows g u r ms) + weight m
      ≡ count_leads g ms + (if is_lead_role r then 1 else 0)
unfolding find_by_group_and_user set_role_rows count_leads
count-set_role g u r [] d h = cc
count-set_role g u r (x ∷ ms) {m} (fresh, d) h = ground (
  arith,
  str_eq_iff x.group_id g,
  str_eq_iff x.user_id u,
  count-set_role g u r ms {m = m} d,
  set_role-absent g u g r ms,
)

pub count-set_role_other :
    (g u h : String) (r : MemberRole) (ms : List GroupMember)
    → str_eq g h ≡ false
    → count_leads h (set_role_rows g u r ms) ≡ count_leads h ms
unfolding set_role_rows count_leads
count-set_role_other g u h r [] e = refl
count-set_role_other g u h r (x ∷ ms) e = ground (
  arith,
  str_eq_iff x.group_id g,
  str_eq_iff x.group_id h,
  str_eq_iff g h,
  count-set_role_other g u h r ms e,
)
