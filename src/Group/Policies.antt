-- ===== src/Group/Policies.antt =====
-- domain/group/group.go, visibility.go and join_policy.go: a group, who sees it and how one joins.
use training_center_back.Prelude.{
  ℕ, String, Bool, true, false, Option, none, some, [], ◌∷◌, str_eq, ◌&&◌, not,
}
use training_center_back.Apperror.{Result, ok, validation, internal, fail_if, ◌>>◌}

-- Texts that storage gave and that are none of the known ones are kept.
pub data Visibility : Type 0 where
  visible not_visible : Visibility
  unknown_visibility : String → Visibility

pub data JoinPolicy : Type 0 where
  by_invite by_request open_to_all : JoinPolicy
  unknown_policy : String → JoinPolicy

pub record Group : Type 0 where
  pub id : String
  pub name : String
  pub description : Option String
  pub visibility : Visibility
  pub join_policy : JoinPolicy
  pub is_default : Bool
  pub created_by : String
  pub created_at : ℕ
  pub updated_at : ℕ

abbrev pub is_hidden : Visibility → Bool
is_hidden not_visible = true
is_hidden _ = false

abbrev pub takes_invites : JoinPolicy → Bool
takes_invites by_invite = true
takes_invites _ = false

abbrev pub takes_requests : JoinPolicy → Bool
takes_requests by_request = true
takes_requests _ = false

abbrev pub takes_anyone : JoinPolicy → Bool
takes_anyone open_to_all = true
takes_anyone _ = false

unfoldable pub validate_policy_combination : Visibility → JoinPolicy → Result (Unit {0})
validate_policy_combination v jp =
    fail_if (is_hidden v && not (takes_invites jp)) (validation ("joinPolicy" ∷ []))

unfoldable pub new_group :
    (id name : String) (description : Option String) (v : Visibility) (jp : JoinPolicy)
    (created_by : String) (now : ℕ)
    → Result Group
new_group id name description v jp created_by now =
    fail_if (str_eq id "") internal
    >> validate_policy_combination v jp
    >> ok (record {
      id = id;
      name = name;
      description = description;
      visibility = v;
      join_policy = jp;
      is_default = false;
      created_by = created_by;
      created_at = now;
      updated_at = now;
    })

abbrev given {ℓ} : {A : Type ℓ} → Option A → A → A
given none old = old
given (some new) old = new

-- A description is left, cleared or set.
unfoldable pub update_metadata : Option String → Option (Option String) → ℕ → Group → Group
update_metadata none none now g = g
update_metadata (some name) description now g = record g {
  name = name;
  description = given description g.description;
  updated_at = now;
}
update_metadata none (some description) now g = record g {
  description = description;
  updated_at = now;
}

abbrev with_policies : Visibility → JoinPolicy → ℕ → Group → Result Group
with_policies v jp now g =
    validate_policy_combination v jp
    >> ok (record g { visibility = v; join_policy = jp; updated_at = now })

unfoldable pub update_policies : Option Visibility → Option JoinPolicy → ℕ → Group → Result Group
update_policies none none now g = ok g
update_policies (some v) jp now g = with_policies v (given jp g.join_policy) now g
update_policies none (some jp) now g = with_policies g.visibility jp now g
