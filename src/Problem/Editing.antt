-- ===== src/Problem/Editing.antt =====
-- The use cases of internal/application/problem that change a stored problem: create_problem.go,
-- update_problem.go, delete_file.go, unpublish_problem.go, add_modifier.go, remove_modifier.go and
-- change_accessibility.go. Each returns the problem that it saves; an error saves nothing. The
-- last call is the save, and a fault of storage comes before it.
use training_center_back.Prelude.{
  ℕ, String, Bool, Option, none, some, List, [], ◌∷◌, ◌++◌, ℤ, str_eq, not, ◌&&◌, if◌then◌else◌,
}
use training_center_back.Apperror.{
  Error, Result, ok, err, validation, not_found, forbidden, conflict, bad_request, fail_if, require,
  ◌>>=◌, ◌>>◌,
}
use training_center_back.Group.Operations.{CurrentUser, query}
use training_center_back.Problem.Aggregate.{
  Problem, Metadata, LanguageOverride, is_published, new_problem, update_metadata,
  update_accessibility, unpublish, add_modifier, remove_modifier, new_accessibility, Accessibility,
  remove_test_cases, remove_solution, remove_checker, remove_validator, find_solution,
}
use training_center_back.Problem.Store.{
  Store, Lookup, new_slug, locate, require_editor, ensure_no_active_validation,
}
use training_center_back.Problem.Fields.{
  Texts, PlatformSettings, OverrideInput, new_title, new_statement, new_limit, new_tags,
  check_overrides,
}

-- What the other dependencies of an edit answer. `to_lower` is the library's.
pub record Editing : Type 0 where
  pub lookup : Lookup
  pub texts : Texts
  pub settings : PlatformSettings
  pub to_lower : String → String
  pub now : ℕ
  pub in_active_contest : String → Result Bool
  pub get_id_by_nickname : String → Result (Option String)
  pub delete_fault : Option Error
  pub save_fault : Option Error

-- `repo.Save`.
abbrev pub saved : Editing → Problem → Result Problem
saved env p = query env.save_fault p

-- `AccumulateFieldErrors` with the value that is kept beside it.
abbrev pub field_errors {ℓ} : {A : Type ℓ} → Result A → List String
field_errors (ok a) = []
field_errors (err (validation fields)) = fields
field_errors (err _) = []

abbrev pub kept {ℓ} : {A : Type ℓ} → Result A → Option A
kept (ok a) = some a
kept (err e) = none

-- A field that is given is validated.
abbrev pub checked {ℓ κ} : {A : Type ℓ} {B : Type κ} → (A → Result B) → Option A → List String
checked check none = []
checked check (some a) = field_errors (check a)

abbrev pub value_of {ℓ κ} : {A : Type ℓ} {B : Type κ} → (A → Result B) → Option A → Option B
value_of check none = none
value_of check (some a) = kept (check a)

pub record UpdateProblemInput : Type 0 where
  pub title : Option String
  pub statement : Option String
  pub time_limit : Option ℤ
  pub memory_limit : Option ℤ
  pub lang_overrides : Option (List OverrideInput)
  pub tags : Option (List String)
  pub accessibility : Option String

abbrev time_check : Editing → ℤ → Result ℕ
time_check env v = new_limit "timeLimit" v env.settings.global_max_time

abbrev memory_check : Editing → ℤ → Result ℕ
memory_check env v = new_limit "memoryLimit" v env.settings.global_max_memory

abbrev given_overrides : Editing → Option (List OverrideInput) → List String × List LanguageOverride
given_overrides env none = ([], [])
given_overrides env (some os) = check_overrides env.settings os []

-- The slice of overrides is `nil` unless one of them is valid, and `nil` changes nothing.
abbrev given {ℓ} : {A : Type ℓ} → List A → Option (List A)
given [] = none
given (x ∷ xs) = some (x ∷ xs)

-- A statement that is given is a pointer to a text.
abbrev statement_check : String → Result (Option String)
statement_check text = new_statement (some text)

unfoldable pub update_errors : Editing → UpdateProblemInput → List String
update_errors env i =
    checked (new_title env.texts) i.title
    ++ checked (time_check env) i.time_limit
    ++ checked (memory_check env) i.memory_limit
    ++ (given_overrides env i.lang_overrides).0
    ++ checked (new_tags env.settings.allowed_tags) i.tags
    ++ checked new_accessibility i.accessibility
    ++ checked statement_check i.statement

unfoldable pub update_values : Editing → UpdateProblemInput → Metadata
update_values env i = record {
  title = value_of (new_title env.texts) i.title;
  statement = value_of statement_check i.statement;
  time_limit = value_of (time_check env) i.time_limit;
  memory_limit = value_of (memory_check env) i.memory_limit;
  lang_overrides = given (given_overrides env i.lang_overrides).1;
  tags = value_of (new_tags env.settings.allowed_tags) i.tags;
}

abbrev pub no_errors : List String → Result (Unit {0})
no_errors [] = ok tt
no_errors (f ∷ fs) = err (validation (f ∷ fs))

abbrev pub with_accessibility : Option Accessibility → ℕ → Problem → Problem
with_accessibility none now p = p
with_accessibility (some acc) now p = update_accessibility acc now p

unfoldable pub update_problem :
    Editing → CurrentUser → String → UpdateProblemInput → Store → Result Problem
update_problem env caller raw i s = locate env.lookup raw s >>= λ p.
    fail_if (is_published p) (bad_request "PROBLEM_IS_PUBLISHED")
    >> require_editor caller p
    >> ensure_no_active_validation env.lookup s
    >> no_errors (update_errors env i)
    >> saved env (
        with_accessibility (value_of new_accessibility i.accessibility) env.now
          (update_metadata (update_values env i) env.now p))

pub record CreateProblemInput : Type 0 where
  pub slug : String
  pub title : String
  pub statement : Option String
  pub time_limit : Option ℤ
  pub memory_limit : Option ℤ
  pub lang_overrides : List OverrideInput
  pub tags : List String

unfoldable pub create_errors : Editing → CreateProblemInput → List String
create_errors env i =
    field_errors (new_title env.texts i.title)
    ++ field_errors (new_statement i.statement)
    ++ checked (time_check env) i.time_limit
    ++ checked (memory_check env) i.memory_limit
    ++ (check_overrides env.settings i.lang_overrides []).0
    ++ field_errors (new_tags env.settings.allowed_tags i.tags)

-- The first text is the identifier that is drawn, the flag whether the caller is a coach.
unfoldable pub create_problem :
    Editing → String → CurrentUser → Bool → CreateProblemInput → Result Problem
create_problem env id caller is_coach i =
    fail_if (not is_coach && not caller.is_admin) (forbidden "INSUFFICIENT_PERMISSIONS")
    >> new_slug env.lookup.matches_slug i.slug
    >>= λ slug. no_errors (create_errors env i) >> new_title env.texts i.title >>= λ title.
        new_statement i.statement >>= λ statement.
        new_tags env.settings.allowed_tags i.tags >>= λ tags.
        new_problem id slug title statement (value_of (time_check env) i.time_limit)
          (value_of (memory_check env) i.memory_limit)
          (check_overrides env.settings i.lang_overrides []).1 tags caller.id env.now
        >>= saved env

unfoldable pub unpublish_problem : Editing → CurrentUser → String → Store → Result Problem
unpublish_problem env caller raw s = locate env.lookup raw s >>= λ p.
    require_editor caller p >> env.in_active_contest p.id >>= λ active.
    fail_if active (conflict "PROBLEM_IN_ACTIVE_CONTEST") >> unpublish env.now p >>= saved env

unfoldable pub change_accessibility :
    Editing → CurrentUser → String → String → Store → Result Problem
change_accessibility env caller raw value s = new_accessibility value >>= λ acc.
    locate env.lookup raw s >>= λ p.
    require_editor caller p >> saved env (update_accessibility acc env.now p)

-- `resolveModifierID`; the identifier of a user that exists is valid.
unfoldable pub resolve_modifier_id : Editing → String → Result String
resolve_modifier_id env nickname =
    env.get_id_by_nickname nickname >>= λ found. require found (not_found "USER_NOT_FOUND")

unfoldable pub add_problem_modifier :
    Editing → CurrentUser → String → String → Store → Result Problem
add_problem_modifier env caller raw nickname s = locate env.lookup raw s >>= λ p.
    require_editor caller p >> resolve_modifier_id env nickname >>= λ u.
    add_modifier u env.now p >>= saved env

unfoldable pub remove_problem_modifier :
    Editing → CurrentUser → String → String → Store → Result Problem
remove_problem_modifier env caller raw nickname s = locate env.lookup raw s >>= λ p.
    fail_if (not (str_eq p.author_id caller.id) && not caller.is_admin)
      (forbidden "INSUFFICIENT_PERMISSIONS")
    >> resolve_modifier_id env nickname
    >>= λ u. remove_modifier u env.now p >>= saved env

pub data FileType : Type 0 where
  test_cases solution checker validator : FileType

-- The switch on the file type, in lower case.
unfoldable pub file_type_of : String → Option FileType
file_type_of lowered =
    if str_eq lowered "testcases"
    then some test_cases
    else if str_eq lowered "solution"
    then some solution
    else if str_eq lowered "checker"
    then some checker
    else if str_eq lowered "validator"
    then some validator
    else none

abbrev missing_file : Error
missing_file = not_found "PROBLEM_FILE_NOT_FOUND"

abbrev no_file_name : String → Result (Unit {0})
no_file_name name = fail_if (not (str_eq name "")) (bad_request "FILE_NAME_NOT_APPLICABLE")

-- The switch of `Execute`: the problem without the file.
unfoldable pub without_file : Option FileType → String → ℕ → Problem → Result Problem
without_file none name now p = err (bad_request "PROBLEM_INVALID_FILE_TYPE")
without_file (some test_cases) name now p =
    no_file_name name >> require p.test_cases_key missing_file >>= λ key.
    ok (remove_test_cases now p)
without_file (some solution) name now p =
    fail_if (str_eq name "") (bad_request "PROBLEM_MISSING_FILENAME")
    >> require (find_solution name p.solutions) missing_file
    >>= λ found. remove_solution found.filename now p
without_file (some checker) name now p =
    no_file_name name >> require p.checker missing_file >>= λ found. ok (remove_checker now p)
without_file (some validator) name now p =
    no_file_name name >> require p.validator missing_file >>= λ found. ok (remove_validator now p)

unfoldable pub delete_problem_file :
    Editing → CurrentUser → String → String → String → Store → Result Problem
delete_problem_file env caller raw file_type name s = locate env.lookup raw s >>= λ p.
    fail_if (is_published p) (bad_request "PROBLEM_IS_PUBLISHED")
    >> require_editor caller p
    >> ensure_no_active_validation env.lookup s
    >> without_file (file_type_of (env.to_lower file_type)) name env.now p
    >>= λ q. query env.delete_fault tt >> saved env q
