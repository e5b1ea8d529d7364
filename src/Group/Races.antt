-- ===== src/Group/Races.antt =====
-- Two leads who leave at the same time. `LeaveGroup` counts the leads before its transaction and
-- deletes the row inside it; nothing ties the count to the rows that the transaction finds.
use training_center_back.Prelude.{
  String, true, false, none, some, List, [], ◌∷◌, ◌≡◌, refl, ◌∙◌, arith, str_eq, str_eq_iff,
}
use training_center_back.Apperror.{ok, ◌>>=◌}
use training_center_back.Group.Members.{
  GroupMember, is_lead, find_by_group_and_user, count_leads, delete_rows, delete_member,
}
use training_center_back.Group.Operations.{
  Answers, keep_a_lead, find_target, drop_member, check_leave,
}
use training_center_back.Group.Counts.{IsUnique, count-delete, delete-IsUnique}

-- A user who leads an ordinary group, and for whom every query succeeds.
pub record CanLeave (env : Answers) (g u : String) (t : List GroupMember) (m : GroupMember)
    : Type 0 where
  pub ordinary : env.is_default g ≡ ok false
  pub read : env.find_fault u ≡ none
  pub counted : env.count_fault ≡ none
  pub written : env.write_fault ≡ none
  pub contests : env.delete_scheduled g u ≡ ok tt
  pub teams : env.remove_from_scheduled g u ≡ ok tt
  pub listed : find_by_group_and_user g u t ≡ some m
  pub leads : is_lead m ≡ true

find-delete_other :
    (g u v : String) (t : List GroupMember)
    → str_eq u v ≡ false
    → find_by_group_and_user g v (delete_rows g u t) ≡ find_by_group_and_user g v t
unfolding find_by_group_and_user delete_rows
find-delete_other g u v [] e = refl
find-delete_other g u v (x ∷ t) e = ground (
  arith,
  str_eq_iff x.group_id g,
  str_eq_iff x.user_id u,
  str_eq_iff x.user_id v,
  str_eq_iff u v,
  find-delete_other g u v t e,
)

CanLeave-checked :
    (env : Answers) (g u : String) (t : List GroupMember) (m : GroupMember)
    → CanLeave env g u t m
    → count_leads g t ≡ 2
    → check_leave env g u t ≡ ok tt
unfolding check_leave find_target keep_a_lead
CanLeave-checked env g u t m c two = rw (c.ordinary, c.read, c.listed, c.leads, c.counted, two) refl

-- Two leads of an ordinary group who are its only ones can both pass the check on the table as it
-- is, and then both leave, if no query fails: both transactions succeed, and the group has no lead.
pub leaves_lose_leads :
    (env : Answers) (g a b : String) (t : List GroupMember) (m n : GroupMember)
    → IsUnique t
    → str_eq a b ≡ false
    → count_leads g t ≡ 2
    → CanLeave env g a t m
    → CanLeave env g b t n
    → (check_leave env g a t ≡ ok tt)
      × (check_leave env g b t ≡ ok tt)
      × (t' : List GroupMember) × ((drop_member env g a t >>= drop_member env g b) ≡ ok t')
      × (count_leads g t' ≡ 0)
unfolding drop_member delete_member
leaves_lose_leads env g a b t m n d apart two first second = (
  CanLeave-checked env g a t m first two,
  CanLeave-checked env g b t n second two,
  delete_rows g b (delete_rows g a t),
  rw
      (
        first.contests, first.teams, first.written, first.listed, second.contests, second.teams,
        still,
      )
      refl,
  ground (
    arith,
    count-delete g a t {m = m} d first.listed,
    count-delete g b (delete_rows g a t) {m = n} (delete-IsUnique g a t d) still,
    first.leads,
    second.leads,
  ),
)
  where
    still : find_by_group_and_user g b (delete_rows g a t) ≡ some n
    still = find-delete_other g a b t apart ∙ second.listed
