-- ===== src/Group/Leads.antt =====
-- The leads of a group under a change of role, a leave and a removal.
use training_center_back.Prelude.{
  ◌<◌, String, Bool, true, false, some, List, ◌≡◌, sym, ◌∙◌, arith, str_eq, str_eq_iff, Bool-cases,
  inl, inr, if◌then◌else◌, ◌&&◌, subst, ◌⊎◌,
}
use training_center_back.Apperror.{ok, Result-cases}
use training_center_back.Group.Members.{
  MemberRole, lead, member, GroupMember, is_lead, is_lead_role, is_member_role, new_member_role,
  promote, demote, find_by_group_and_user, count_leads, set_role_rows, delete_rows, update_member,
  delete_member,
}
use training_center_back.Group.Operations.{
  CurrentUser, Answers, same_role, keep_a_lead, change_to, apply_role, find_target, resolve,
  change_role, drop_member, check_leave, leave_group, remove_member,
}
use training_center_back.Group.Counts.{
  IsUnique, find-keys, count-delete, count-delete_other, delete-IsUnique, set_role-IsUnique,
  count-set_role, count-set_role_other,
}

-- The key stays unique, and every group that had a lead has one.
pub record Keeps (before after : List GroupMember) : Type 0 where
  pub unique : IsUnique after
  pub led : (g : String) → 0 < count_leads g before → 0 < count_leads g after

drop_member-rows :
    (env : Answers) (g u : String) (t : List GroupMember) {t' : List GroupMember}
    → drop_member env g u t ≡ ok t'
    → t' ≡ delete_rows g u t
unfolding drop_member delete_member
drop_member-rows env g u t h = ground arith

keep_a_lead-ok :
    (env : Answers) (g : String) (loses : Bool) (code : String) (t : List GroupMember)
    → keep_a_lead env g loses code t ≡ ok tt
    → loses ≡ true
    → 1 < count_leads g t
unfolding keep_a_lead
keep_a_lead-ok env g loses code t h l = ground arith

find_target-found :
    (env : Answers) (g u : String) (t : List GroupMember) {m : GroupMember}
    → find_target env g u t ≡ ok m
    → find_by_group_and_user g u t ≡ some m
unfolding find_target
find_target-found env g u t h = ground arith

delete-Keeps :
    (g u : String) (t : List GroupMember) {m : GroupMember}
    → IsUnique t
    → find_by_group_and_user g u t ≡ some m
    → (is_lead m ≡ true → 1 < count_leads g t)
    → Keeps t (delete_rows g u t)
delete-Keeps g u t {m} d found others = record {
  unique = delete-IsUnique g u t d;
  led = λ h had. elim (Bool-cases (str_eq g h)) [
    | inl same ↦
        subst (λ x. 0 < count_leads x (delete_rows g u t)) ((str_eq_iff g h).0 same)
          (here (subst (λ x. 0 < count_leads x t) (sym ((str_eq_iff g h).0 same)) had))
    | inr other ↦ ground (arith, count-delete_other g u h t other)
  ];
}
  where
    here : 0 < count_leads g t → 0 < count_leads g (delete_rows g u t)
    here had = ground (arith, count-delete g u t {m = m} d found)

-- In a table where no user has two rows in a group, a leave that succeeds keeps it so, and every
-- group that had a lead has one afterwards, whatever the other repositories answer.
pub leave_group-Keeps :
    (env : Answers) (g caller_id : String) (t : List GroupMember) {t' : List GroupMember}
    → IsUnique t
    → leave_group env g caller_id t ≡ ok t'
    → Keeps t t'
unfolding leave_group check_leave
leave_group-Keeps env g u t {t'} d h = elim (Result-cases (find_target env g u t)) [
  | inl (e, p) ↦ absurd (ground arith)
  | inr (m, p) ↦
      subst (λ x. Keeps t x) (sym (drop_member-rows env g u t (ground arith)))
        (delete-Keeps g u t {m = m} d (find_target-found env g u t p)
          (keep_a_lead-ok env g (is_lead m) "CANNOT_LEAVE_AS_LAST_LEAD" t (ground arith)))
]

-- In a table where no user has two rows in a group, a removal that succeeds keeps it so, and every
-- group that had a lead has one afterwards, whoever removes whom.
pub remove_member-Keeps :
    (env : Answers) (caller : CurrentUser) (g nickname : String) (t : List GroupMember)
    {t' : List GroupMember}
    → IsUnique t
    → remove_member env caller g nickname t ≡ ok t'
    → Keeps t t'
unfolding remove_member
remove_member-Keeps env caller g nickname t {t'} d h = elim (Result-cases (resolve env nickname)) [
  | inl (e, p) ↦ absurd (ground arith)
  | inr (target, p) ↦ elim (Result-cases (find_target env g target.id t)) [
    | inl (e, q) ↦ absurd (ground arith)
    | inr (m, q) ↦
        subst (λ x. Keeps t x) (sym (drop_member-rows env g target.id t (ground arith)))
          (delete-Keeps g target.id t {m = m} d (find_target-found env g target.id t q)
            (keep_a_lead-ok env g (is_lead m) "CANNOT_REMOVE_LAST_LEAD" t (ground arith)))
  ]
]

abbrev written_role : MemberRole → MemberRole
written_role r = if is_lead_role r then lead else member

-- What applying a role does to the table, unless the member has the role.
apply_role-rows :
    (env : Answers) (r : MemberRole) (m : GroupMember) (t : List GroupMember)
    {t' : List GroupMember}
    → apply_role env r m t ≡ ok t'
    → (t' ≡ t)
      ⊎ ((t' ≡ set_role_rows m.group_id m.user_id (written_role r) t) × (same_role r m ≡ false))
unfolding apply_role change_to promote demote update_member
apply_role-rows env r m t h = ground arith

set_role-Keeps :
    (g u : String) (r : MemberRole) (t : List GroupMember) {m : GroupMember}
    → IsUnique t
    → find_by_group_and_user g u t ≡ some m
    → (is_lead_role r ≡ false → is_lead m ≡ true → 1 < count_leads g t)
    → Keeps t (set_role_rows g u r t)
set_role-Keeps g u r t {m} d found others = record {
  unique = set_role-IsUnique g u r t d;
  led = λ h had. elim (Bool-cases (str_eq g h)) [
    | inl same ↦
        subst (λ x. 0 < count_leads x (set_role_rows g u r t)) ((str_eq_iff g h).0 same)
          (here (subst (λ x. 0 < count_leads x t) (sym ((str_eq_iff g h).0 same)) had))
    | inr other ↦ ground (arith, count-set_role_other g u h r t other)
  ];
}
  where
    here : 0 < count_leads g t → 0 < count_leads g (set_role_rows g u r t)
    here had = ground (arith, count-set_role g u r t {m = m} d found)

new_member_role-known :
    (s : String) {r : MemberRole} → new_member_role s ≡ ok r → (r ≡ lead) ⊎ (r ≡ member)
unfolding new_member_role
new_member_role-known s h = ground arith

apply_role-Keeps :
    (env : Answers) (g : String) (r : MemberRole) (u : String) (m : GroupMember)
    (t : List GroupMember) {t' : List GroupMember}
    → IsUnique t
    → (r ≡ lead) ⊎ (r ≡ member)
    → find_by_group_and_user g u t ≡ some m
    → keep_a_lead env g (is_member_role r && is_lead m) "CANNOT_REMOVE_LAST_LEAD" t ≡ ok tt
    → apply_role env r m t ≡ ok t'
    → Keeps t t'
apply_role-Keeps env g r u m t {t'} d known found k applied =
    elim (apply_role-rows env r m t applied) [
      | inl same ↦ subst (λ x. Keeps t x) (sym same) (record { unique = d; led = λ x had. had })
      | inr (rows, changes) ↦
          subst (λ x. Keeps t x) (sym (rows ∙ cc (keys.0, keys.1)))
            (set_role-Keeps g u (written_role r) t {m = m} d found kept)
    ]
  where
    keys : (m.group_id ≡ g) × (m.user_id ≡ u)
    keys = find-keys g u t {m = m} found

    kept : is_lead_role (written_role r) ≡ false → is_lead m ≡ true → 1 < count_leads g t
    kept demotes was =
        keep_a_lead-ok env g (is_member_role r && is_lead m) "CANNOT_REMOVE_LAST_LEAD" t k
          (ground arith)

-- In a table where no user has two rows in a group, a change of role that succeeds keeps it so, and
-- every group that had a lead has one afterwards, whoever changes whose role.
pub change_role-Keeps :
    (env : Answers) (caller : CurrentUser) (g nickname role : String) (t : List GroupMember)
    {t' : List GroupMember}
    → IsUnique t
    → change_role env caller g nickname role t ≡ ok t'
    → Keeps t t'
unfolding change_role
change_role-Keeps env caller g nickname role t {t'} d h =
    elim (Result-cases (new_member_role role)) [
      | inl (e, o) ↦ absurd (ground arith)
      | inr (r, o) ↦ elim (Result-cases (resolve env nickname)) [
        | inl (e, p) ↦ absurd (ground arith)
        | inr (target, p) ↦ elim (Result-cases (find_target env g target.id t)) [
          | inl (e, q) ↦ absurd (ground arith)
          | inr (m, q) ↦
              apply_role-Keeps env g r target.id m t d (new_member_role-known role o)
                (find_target-found env g target.id t q) (ground arith) (ground arith)
        ]
      ]
    ]
