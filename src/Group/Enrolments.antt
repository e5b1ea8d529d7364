-- ===== src/Group/Enrolments.antt =====
-- What a way into a group leaves in the table of members.
use training_center_back.Prelude.{String, Option, none, ◌∷◌, ◌≡◌, refl, arith}
use training_center_back.Apperror.{ok}
use training_center_back.Group.Members.{
  MemberRole, member, GroupMember, new_group_member, find_by_group_and_user,
}
use training_center_back.Group.Counts.{IsUnique}
use training_center_back.Group.Operations.{CurrentUser}
use training_center_back.Group.Joining.{
  Joins, Joiner, save_member, require_outsider, new_row, enrol, join_group,
}

-- One row more, for this user and role, who had none.
pub record Enrolled (env : Joiner) (g u : String) (role : MemberRole) (s t : Joins) : Type 0 where
  pub new : GroupMember
  pub added : t.members ≡ new ∷ s.members
  pub same_group : new.group_id ≡ g
  pub same_user : new.user_id ≡ u
  pub same_role : new.role ≡ role
  pub absent : find_by_group_and_user g u s.members ≡ none

pub enrol-Enrolled :
    (env : Joiner) (g u : String) (role : MemberRole) (method : String) (by : Option String)
    (s t : Joins)
    → enrol env g u role method by s ≡ ok t
    → Enrolled env g u role s t
unfolding enrol require_outsider new_row new_group_member save_member
enrol-Enrolled env g u role method by s t h = record {
  new = record {
    id = env.member_id;
    group_id = g;
    user_id = u;
    role = role;
    joined_at = env.now;
    added_by = by;
    join_method = method;
  };
  added = ground arith;
  same_group = refl;
  same_user = refl;
  same_role = refl;
  absent = ground arith;
}

pub enrol-invitations :
    (env : Joiner) (g u : String) (role : MemberRole) (method : String) (by : Option String)
    (s t : Joins)
    → enrol env g u role method by s ≡ ok t
    → t.invitations ≡ s.invitations
unfolding enrol
enrol-invitations env g u role method by s t h = ground arith

pub IsUnique-Enrolled :
    (env : Joiner) (g u : String) (role : MemberRole) (s t : Joins)
    → Enrolled env g u role s t
    → IsUnique s.members
    → IsUnique t.members
IsUnique-Enrolled env g u role s t e d = rw (e.added, e.same_group, e.same_user) (e.absent, d)

join_group-enrols :
    (env : Joiner) (caller : CurrentUser) (g : String) (s t : Joins)
    → join_group env caller g s ≡ ok t
    → enrol env g caller.id member "OPEN_JOIN" none s ≡ ok t
unfolding join_group
join_group-enrols env caller g s t h = ground arith

-- Joining an open group keeps the key of the table.
join_group-IsUnique :
    (env : Joiner) (caller : CurrentUser) (g : String) (s t : Joins)
    → join_group env caller g s ≡ ok t
    → IsUnique s.members
    → IsUnique t.members
join_group-IsUnique env caller g s t h = IsUnique-Enrolled env g caller.id member s t (
    enrol-Enrolled env g caller.id member "OPEN_JOIN" none s t
      (join_group-enrols env caller g s t h))
