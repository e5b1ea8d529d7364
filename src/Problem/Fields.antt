-- ===== src/Problem/Fields.antt =====
-- The fields that creating and updating a problem validate: title.go, statement.go, time_limit.go,
-- memory_limit.go, language_override.go and tags.go of internal/domain/problem, with the loop over
-- the overrides in create_problem.go and update_problem.go. A rejected field adds the name of each
-- violation to a list, as `AccumulateFieldErrors` does.
use Prim.Native.String.{count}
use training_center_back.Prelude.{
  ℕ, String, Bool, true, false, Option, none, some, List, [], ◌∷◌, ◌++◌, ltb, str_eq, ℤ, pos,
  pos_part, ltb_ℤ, ◌&&◌, not, if◌then◌else◌,
}
use training_center_back.Apperror.{Result, ok, err, validation}
use training_center_back.Problem.Aggregate.{LanguageOverride, has_id}

-- The library's trimming and its Unicode normalisation with trimming.
pub record Texts : Type 0 where
  pub trim_space : String → String
  pub normalize : String → String

unfoldable pub new_title : Texts → String → Result String
new_title env value =
    if str_eq (env.trim_space value) ""
    then err (validation ("title" ∷ []))
    else if str_eq (env.normalize value) ""
    then err (validation ("title" ∷ []))
    else if ltb 200 (count (env.normalize value))
    then err (validation ("title" ∷ []))
    else ok (env.normalize value)

abbrev too_long : Option String → Bool
too_long none = false
too_long (some text) = ltb 150000 (count text)

unfoldable pub new_statement : Option String → Result (Option String)
new_statement value = if too_long value then err (validation ("statement" ∷ [])) else ok value

abbrev pub positive : ℤ → Bool
positive v = ltb_ℤ (pos 0) v

-- `NewTimeLimit` and `NewMemoryLimit`, which differ in the name of the field.
unfoldable pub new_limit : String → ℤ → ℤ → Result ℕ
new_limit field value max_global =
    if not (positive value)
    then err (validation (field ∷ []))
    else if ltb_ℤ max_global value
    then err (validation (field ∷ []))
    else ok (pos_part value)

pub record LanguageLimit : Type 0 where
  pub language : String
  pub max_time_limit : ℤ
  pub max_memory_limit : ℤ

pub record OverrideInput : Type 0 where
  pub language : String
  pub time_limit : Option ℤ
  pub memory_limit : Option ℤ

-- The settings of the platform.
pub record PlatformSettings : Type 0 where
  pub global_max_time : ℤ
  pub global_max_memory : ℤ
  pub is_language_supported : String → Bool
  pub language_limit : String → Option LanguageLimit
  pub allowed_tags : String → Bool

abbrev pub violated : Bool → String → List String
violated true field = field ∷ []
violated false field = []

abbrev pub not_positive : Option ℤ → Bool
not_positive none = false
not_positive (some v) = not (positive v)

abbrev pub exceeds : Option ℤ → ℤ → Bool
exceeds none limit = false
exceeds (some v) limit = positive v && ltb_ℤ limit v

-- The maxima that hold for a language: its own, or those of the platform; without a language, none.
unfoldable pub override_exceeds :
    String → Option ℤ → Option ℤ → Option LanguageLimit → ℤ → ℤ → List String
override_exceeds language time memory (some l) global_time global_memory =
    violated (exceeds time l.max_time_limit) "languageOverrides.timeLimit"
    ++ violated (exceeds memory l.max_memory_limit) "languageOverrides.memoryLimit"
override_exceeds language time memory none global_time global_memory =
    if str_eq language ""
    then []
    else violated (exceeds time global_time) "languageOverrides.timeLimit"
      ++ violated (exceeds memory global_memory) "languageOverrides.memoryLimit"

abbrev pub limit_of : Option ℤ → Option ℕ
limit_of none = none
limit_of (some v) = some (pos_part v)

abbrev pub built_unless {ℓ} : {A : Type ℓ} → List String → A → Result A
built_unless [] built = ok built
built_unless (f ∷ fs) built = err (validation (f ∷ fs))

unfoldable pub new_language_override :
    String → Option ℤ → Option ℤ → Option LanguageLimit → ℤ → ℤ → Result LanguageOverride
new_language_override language time memory limit global_time global_memory =
    built_unless
      (violated (str_eq language "") "languageOverrides.language"
        ++ violated (not_positive time) "languageOverrides.timeLimit"
        ++ violated (not_positive memory) "languageOverrides.memoryLimit"
        ++ override_exceeds language time memory limit global_time global_memory)
      (record { language = language; time_limit = limit_of time; memory_limit = limit_of memory })

-- What one round of the loop over the overrides adds.
pub data OverrideRound : Type 0 where
  rejected : List String → OverrideRound
  accepted : LanguageOverride → OverrideRound

-- `AccumulateFieldErrors`: an application error adds its details, which only one of validation has.
abbrev round_of : Result LanguageOverride → OverrideRound
round_of (ok lo) = accepted lo
round_of (err (validation fields)) = rejected fields
round_of (err _) = rejected []

-- The languages that were seen come last.
unfoldable pub override_round : PlatformSettings → OverrideInput → List String → OverrideRound
override_round env o seen =
    if str_eq o.language ""
    then rejected ("languageOverrides" ∷ [])
    else if not (env.is_language_supported o.language)
    then rejected ("languageOverrides.language" ∷ [])
    else if has_id o.language seen
    then rejected ("languageOverrides.language" ∷ [])
    else round_of (
        new_language_override o.language o.time_limit o.memory_limit (env.language_limit o.language)
          env.global_max_time env.global_max_memory)

-- A language that is empty or unsupported is not marked as seen.
abbrev pub seen_after : PlatformSettings → OverrideInput → List String → List String
seen_after env o seen =
    if not (str_eq o.language "") && env.is_language_supported o.language
    then o.language ∷ seen
    else seen

-- The violations, and the overrides that are valid.
unfoldable pub check_overrides :
    PlatformSettings → List OverrideInput → List String → List String × List LanguageOverride
check_overrides env [] seen = ([], [])
check_overrides env (o ∷ os) seen =
    let rest = check_overrides env os (seen_after env o seen) in
    elim (override_round env o seen) [
      | rejected fields ↦ (fields ++ rest.0, rest.1)
      | accepted lo ↦ (rest.0, lo ∷ rest.1)
    ]

-- The violations of the tags; only a tag that is valid is marked as seen.
unfoldable pub check_tags : (String → Bool) → List String → List String → List String
check_tags allowed [] seen = []
check_tags allowed (tag ∷ tags) seen =
    let refused = check_tags allowed tags seen in
    let kept = check_tags allowed tags (tag ∷ seen) in
    if str_eq tag ""
    then "tags" ∷ refused
    else if has_id tag seen
    then "tags" ∷ refused
    else if not (allowed tag)
    then "tags" ∷ refused
    else kept

unfoldable pub new_tags : (String → Bool) → List String → Result (List String)
new_tags allowed values = built_unless (check_tags allowed values []) values
