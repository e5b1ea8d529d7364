-- ===== src/Contest/Settings.antt =====
-- participation_mode.go, penalty.go, team_size.go, status.go, contest_problem.go of
-- internal/domain/contest, and the two validations of contest.go.
use Prim.Native.String.{count}
use training_center_back.Prelude.{
  ℕ, zero, suc, ◌*◌, String, Bool, true, false, Option, none, some, List, [], ◌∷◌, ◌++◌, ltb,
  str_eq, if◌then◌else◌, ◌||◌, ◌&&◌, ℤ, pos, negsuc, ltb_ℤ, int64,
}
use training_center_back.Apperror.{Result, ok, err, validation, bad_request, fail_if}

pub data Status : Type 0 where
  scheduled active finished : Status

-- A text that `RestoreParticipationMode` took from storage may be none of the three.
pub data ParticipationMode : Type 0 where
  individual team mixed : ParticipationMode
  unrecognised : String → ParticipationMode

unfoldable pub new_participation_mode : String → Result ParticipationMode
new_participation_mode raw =
    if str_eq raw "INDIVIDUAL"
    then ok individual
    else if str_eq raw "TEAM"
    then ok team
    else if str_eq raw "MIXED"
    then ok mixed
    else err (validation ("participationMode" ∷ []))

abbrev pub allows_teams : ParticipationMode → Bool
allows_teams team = true
allows_teams mixed = true
allows_teams _ = false

unfoldable pub new_penalty : ℤ → Result ℤ
new_penalty v =
    if ltb_ℤ v (pos 0) || ltb_ℤ (pos 1440) v then err (validation ("penalty" ∷ [])) else ok v

pub record TeamSize : Type 0 where
  pub min_size : ℤ
  pub max_size : ℤ

abbrev if_bad : Bool → String → List String
if_bad true field = field ∷ []
if_bad false field = []

abbrev refuse_fields {ℓ} : {A : Type ℓ} → List String → A → Result A
refuse_fields [] a = ok a
refuse_fields (f ∷ fs) a = err (validation (f ∷ fs))

unfoldable pub new_team_size : ℤ → ℤ → Result TeamSize
new_team_size min_size max_size =
    refuse_fields
      (if_bad (ltb_ℤ min_size (pos 1)) "teamSizeMin"
        ++ if_bad (ltb_ℤ max_size min_size) "teamSizeMax")
      (record { min_size = min_size; max_size = max_size })

unfoldable pub is_valid_count : TeamSize → ℤ → Bool
is_valid_count t n = not_less n t.min_size && not_less t.max_size n
  where
    not_less : ℤ → ℤ → Bool
    not_less a b = if ltb_ℤ a b then false else true

pub record ContestProblem : Type 0 where
  pub id : String
  pub problem_id : String
  pub order : ℤ

abbrev pub max_description_length : ℕ
max_description_length = 5000

unfoldable pub validate_description : Option String → Result (Unit {0})
validate_description none = ok tt
validate_description (some d) =
    fail_if (ltb max_description_length (count d)) (validation ("description" ∷ []))

-- A minute, in nanoseconds.
abbrev pub minute : ℕ
minute = 60000000000

-- `duration` is a signed difference of instants. The minutes are turned into nanoseconds in a signed
-- word of 64 bits, which wraps.
unfoldable pub validate_freeze_minutes : ℤ → ℤ → Result (Unit {0})
validate_freeze_minutes (negsuc n) duration = err (validation ("freezeMinutes" ∷ []))
validate_freeze_minutes (pos zero) duration = ok tt
validate_freeze_minutes (pos (suc n)) duration =
    fail_if (if ltb_ℤ (int64 (suc n * minute)) duration then false else true)
      (bad_request "FREEZE_TOO_LONG")
