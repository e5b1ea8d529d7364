-- ===== src/Problem/Aggregate.antt =====
-- internal/domain/problem/problem.go, status.go, accessibility.go and judging_file.go: the problem
-- and the operations that change it. A time is a number; `nil` is `none`; a value object such as a
-- title or a slug is the text it wraps.
use training_center_back.Prelude.{
  ℕ, String, Bool, true, false, Option, none, some, List, [], ◌∷◌, ◌++◌, length, leb, str_eq, ◌||◌,
  if◌then◌else◌,
}
use training_center_back.Apperror.{
  Result, ok, err, validation, conflict, not_found, bad_request, internal, fail_if, ◌>>◌,
}

pub data Status : Type 0 where
  draft published : Status

pub data Accessibility : Type 0 where
  public private : Accessibility

pub record JudgingFile : Type 0 where
  pub filename : String
  pub file_key : String
  pub language : String
  pub compiled_key : Option String
  pub compiled_at : Option ℕ

pub record LanguageOverride : Type 0 where
  pub language : String
  pub time_limit : Option ℕ
  pub memory_limit : Option ℕ

pub record Problem : Type 0 where
  pub id : String
  pub slug : String
  pub title : String
  pub statement : Option String
  pub time_limit : Option ℕ
  pub memory_limit : Option ℕ
  pub lang_overrides : List LanguageOverride
  pub tags : List String
  pub status : Status
  pub accessibility : Accessibility
  pub author_id : String
  pub modifier_ids : List String
  pub test_cases_key : Option String
  pub solutions : List JudgingFile
  pub checker : Option JudgingFile
  pub validator : Option JudgingFile
  pub judging_updated_at : Option ℕ
  pub created_at : ℕ
  pub updated_at : ℕ

abbrev pub is_published : Problem → Bool
is_published p = elim p.status [ draft ↦ false | published ↦ true ]

unfoldable pub new_status : String → Result Status
new_status value =
    if str_eq value "DRAFT"
    then ok draft
    else if str_eq value "PUBLISHED"
    then ok published
    else err (validation ("status" ∷ []))

unfoldable pub new_accessibility : String → Result Accessibility
new_accessibility value =
    if str_eq value "PUBLIC"
    then ok public
    else if str_eq value "PRIVATE"
    then ok private
    else err (validation ("accessibility" ∷ []))

unfoldable pub new_judging_file : String → String → String → Result JudgingFile
new_judging_file filename file_key language =
    if str_eq language ""
    then err (validation ("file" ∷ []))
    else ok (record {
      filename = filename;
      file_key = file_key;
      language = language;
      compiled_key = none;
      compiled_at = none;
    })

-- The first arguments are those of `NewProblem` in its order.
unfoldable pub new_problem :
    String
    → String
    → String
    → Option String
    → Option ℕ
    → Option ℕ
    → List LanguageOverride
    → List String
    → String
    → ℕ
    → Result Problem
new_problem id slug title statement time_limit memory_limit overrides tags author now =
    if str_eq id ""
    then err internal
    else ok (record {
      id = id;
      slug = slug;
      title = title;
      statement = statement;
      time_limit = time_limit;
      memory_limit = memory_limit;
      lang_overrides = overrides;
      tags = tags;
      status = draft;
      accessibility = private;
      author_id = author;
      modifier_ids = author ∷ [];
      test_cases_key = none;
      solutions = [];
      checker = none;
      validator = none;
      judging_updated_at = none;
      created_at = now;
      updated_at = now;
    })

-- `if x != nil { field = *x }`.
abbrev pub overwrite {ℓ} : {A : Type ℓ} → Option A → A → A
overwrite none old = old
overwrite (some new) old = new

-- A limit is a pointer in the problem too, and is only ever set.
abbrev pub overwrite_limit {ℓ} : {A : Type ℓ} → Option A → Option A → Option A
overwrite_limit none old = old
overwrite_limit (some new) old = some new

-- The new values of `UpdateMetadata`. A statement that is given wraps a pointer, as the field does.
pub record Metadata : Type 0 where
  pub title : Option String
  pub statement : Option (Option String)
  pub time_limit : Option ℕ
  pub memory_limit : Option ℕ
  pub lang_overrides : Option (List LanguageOverride)
  pub tags : Option (List String)

unfoldable pub update_metadata : Metadata → ℕ → Problem → Problem
update_metadata m now p = record p {
  title = overwrite m.title p.title;
  statement = overwrite m.statement p.statement;
  time_limit = overwrite_limit m.time_limit p.time_limit;
  memory_limit = overwrite_limit m.memory_limit p.memory_limit;
  lang_overrides = overwrite m.lang_overrides p.lang_overrides;
  tags = overwrite m.tags p.tags;
  updated_at = now;
}

unfoldable pub has_id : String → List String → Bool
has_id u [] = false
has_id u (m ∷ ms) = str_eq m u || has_id u ms

unfoldable pub can_be_edited_by : String → Bool → Problem → Bool
can_be_edited_by u is_admin p = (str_eq p.author_id u || is_admin) || has_id u p.modifier_ids

unfoldable pub publish : ℕ → Problem → Result Problem
publish now p =
    fail_if (is_published p) (conflict "ALREADY_PUBLISHED")
    >> ok (record p { status = published; updated_at = now })

unfoldable pub unpublish : ℕ → Problem → Result Problem
unpublish now p =
    if is_published p
    then ok (record p { status = draft; updated_at = now })
    else err (conflict "ALREADY_DRAFT")

unfoldable pub update_accessibility : Accessibility → ℕ → Problem → Problem
update_accessibility acc now p = record p { accessibility = acc; updated_at = now }

abbrev pub max_modifiers : ℕ
max_modifiers = 20

unfoldable pub add_modifier : String → ℕ → Problem → Result Problem
add_modifier u now p =
    fail_if (leb max_modifiers (length p.modifier_ids)) (bad_request "TOO_MANY_MODIFIERS")
    >> fail_if (has_id u p.modifier_ids) (conflict "MODIFIER_ALREADY_EXISTS")
    >> ok (record p { modifier_ids = p.modifier_ids ++ u ∷ []; updated_at = now })

unfoldable pub without_id : String → List String → List String
without_id u [] = []
without_id u (m ∷ ms) = let rest = without_id u ms in if str_eq m u then rest else m ∷ rest

unfoldable pub remove_modifier : String → ℕ → Problem → Result Problem
remove_modifier u now p =
    if has_id u p.modifier_ids
    then ok (record p { modifier_ids = without_id u p.modifier_ids; updated_at = now })
    else err (not_found "MODIFIER_NOT_FOUND")

abbrev pub touch_judging_updated_at : ℕ → Problem → Problem
touch_judging_updated_at now p = record p { judging_updated_at = some now; updated_at = now }

unfoldable pub set_test_cases : String → ℕ → Problem → Problem
set_test_cases key now p = touch_judging_updated_at now (record p { test_cases_key = some key })

unfoldable pub remove_test_cases : ℕ → Problem → Problem
remove_test_cases now p = touch_judging_updated_at now (record p { test_cases_key = none })

-- The loops of `AddSolution` over the files: the list that they leave, and the file they replace.
unfoldable pub put_solution : JudgingFile → List JudgingFile → List JudgingFile
put_solution s [] = s ∷ []
put_solution s (x ∷ xs) =
    let rest = put_solution s xs in if str_eq x.filename s.filename then s ∷ xs else x ∷ rest

unfoldable pub find_solution : String → List JudgingFile → Option JudgingFile
find_solution name [] = none
find_solution name (x ∷ xs) =
    let rest = find_solution name xs in if str_eq x.filename name then some x else rest

unfoldable pub drop_solution : String → List JudgingFile → List JudgingFile
drop_solution name [] = []
drop_solution name (x ∷ xs) =
    let rest = drop_solution name xs in if str_eq x.filename name then xs else x ∷ rest

-- The problem, and the file that was replaced.
unfoldable pub add_solution : JudgingFile → ℕ → Problem → Problem × Option JudgingFile
add_solution s now p = (
  record p { solutions = put_solution s p.solutions; updated_at = now },
  find_solution s.filename p.solutions,
)

unfoldable pub remove_solution : String → ℕ → Problem → Result Problem
remove_solution name now p = elim (find_solution name p.solutions) [
  | none ↦ err (not_found "SOLUTION_NOT_FOUND")
  | some _ ↦ ok (record p { solutions = drop_solution name p.solutions; updated_at = now })
]

unfoldable pub set_checker : JudgingFile → ℕ → Problem → Problem
set_checker f now p = touch_judging_updated_at now (record p { checker = some f })

unfoldable pub remove_checker : ℕ → Problem → Problem
remove_checker now p = touch_judging_updated_at now (record p { checker = none })

unfoldable pub set_validator : JudgingFile → ℕ → Problem → Problem
set_validator f now p = touch_judging_updated_at now (record p { validator = some f })

unfoldable pub remove_validator : ℕ → Problem → Problem
remove_validator now p = touch_judging_updated_at now (record p { validator = none })
