-- ===== src/Problem/Files.antt =====
-- internal/application/problem/upload_files.go, the handlers of one kind of file each: they store the
-- files of an upload, and change the problem in memory. Storage is what its calls answer.
use Prim.Native.String.{◌++◌ as ◌++ₛ◌}
use training_center_back.Prelude.{
  String, Bool, Option, none, some, List, [], ◌∷◌, map, str_eq, not, ◌||◌, if◌then◌else◌,
}
use training_center_back.Apperror.{
  Error, Result, ok, err, validation, bad_request, fail_if, ◌>>=◌, ◌>>◌,
}
use training_center_back.Problem.Aggregate.{
  Problem, JudgingFile, new_judging_file, add_solution, set_test_cases, set_checker, set_validator,
}
use training_center_back.Problem.Editing.{
  Editing, FileType, test_cases, solution, checker, validator,
}

-- `base` and `ext` are the library's on file paths; `samples` are the paths that the zip holds.
pub record Uploading : Type 0 where
  pub edit : Editing
  pub base : String → String
  pub ext : String → String
  pub language_by_extension : String → Option String
  pub samples : Result (List String)
  pub upload : String → Result (Unit {0})
  pub instance_id : String
  pub validation_id : String
  pub ticket_fault : Option Error
  pub queue_fault : Option Error
  pub close_fault : Option Error

pub record FileAction : Type 0 where
  pub rollback_files : List String
  pub cleanup_files : List String
  pub cleanup_prefix : String

abbrev pub no_action : FileAction
no_action = record { rollback_files = []; cleanup_files = []; cleanup_prefix = "" }

-- What a handler returns: its action is read also when it fails.
pub record Handled : Type 0 where
  pub action : FileAction
  pub outcome : Result Problem

abbrev pub refused : Error → Handled
refused e = record { action = no_action; outcome = err e }

unfoldable pub upload_all : Uploading → List String → Result (Unit {0})
upload_all env [] = ok tt
upload_all env (key ∷ keys) = let rest = upload_all env keys in env.upload key >> rest

abbrev old_prefix : Option String → String
old_prefix none = ""
old_prefix (some key) = key

abbrev test_cases_path : Uploading → Problem → String
test_cases_path env p = "problems/" ++ₛ p.slug ++ₛ "/testcases/" ++ₛ env.instance_id

abbrev new_keys : String → List String → List String
new_keys path names = (path ++ₛ "/testcases.zip") ∷ map (λ name. path ++ₛ "/" ++ₛ name) names

unfoldable pub handle_test_cases : Uploading → Problem → Handled
handle_test_cases env p = elim env.samples [
  | err e ↦ refused e
  | ok names ↦ elim (upload_all env (new_keys (test_cases_path env p) names)) [
    | err e ↦ record {
      action = record no_action { rollback_files = new_keys (test_cases_path env p) names };
      outcome = err e;
    }
    | ok _ ↦ record {
      action = record no_action {
        rollback_files = new_keys (test_cases_path env p) names;
        cleanup_prefix = old_prefix p.test_cases_key;
      };
      outcome = ok (set_test_cases (test_cases_path env p) env.edit.now p);
    }
  ]
]

-- `getLanguageForFile`, on the clean name.
unfoldable pub language_for_file : Uploading → String → Result String
language_for_file env name = elim (env.language_by_extension (env.edit.to_lower (env.ext name))) [
  | none ↦ err (validation ("file" ∷ []))
  | some language ↦ ok language
]

-- The name, the language and the key of a file that is uploaded, validated.
unfoldable pub named_file : Uploading → String → (String → String) → Result JudgingFile
named_file env name key_of =
    fail_if (str_eq name "") (validation ("fileName" ∷ []))
    >> language_for_file env (env.base name)
    >>= λ language. new_judging_file (env.base name) (key_of (env.base name)) language

abbrev pub replaced_key : Option JudgingFile → String → List String
replaced_key none key = []
replaced_key (some old) key = if str_eq old.file_key key then [] else old.file_key ∷ []

unfoldable pub solution_key : Problem → String → String
solution_key p name = "problems/" ++ₛ p.slug ++ₛ "/solution/" ++ₛ name

-- From the valid solution on.
unfoldable pub put_solution_file : Uploading → Problem → JudgingFile → Handled
put_solution_file env p f = elim (env.upload f.file_key) [
  | err e ↦ refused e
  | ok _ ↦ record {
    action = record no_action {
      rollback_files = f.file_key ∷ [];
      cleanup_files = replaced_key (add_solution f env.edit.now p).1 f.file_key;
    };
    outcome = ok (add_solution f env.edit.now p).0;
  }
]

unfoldable pub handle_solution : Uploading → Problem → String → Handled
handle_solution env p name = elim (named_file env name (solution_key p)) [
  | err e ↦ refused e
  | ok f ↦ put_solution_file env p f
]

abbrev pub new_key : Option JudgingFile → String → List String
new_key none key = key ∷ []
new_key (some old) key = if str_eq old.file_key key then [] else key ∷ []

-- From the valid verifier on. The current file is the one that `set` replaces.
unfoldable pub put_verifier_file : Uploading → Option JudgingFile → JudgingFile → Problem → Handled
put_verifier_file env current f next = elim (env.upload f.file_key) [
  | err e ↦ record {
    action = record no_action { rollback_files = new_key current f.file_key };
    outcome = err e;
  }
  | ok _ ↦ record {
    action = record no_action {
      rollback_files = new_key current f.file_key;
      cleanup_files = replaced_key current f.file_key;
    };
    outcome = ok next;
  }
]

-- `hasVerifierExtension` on the clean name, which `NewVerifierFile` tests before the language.
abbrev verifier_extension : Uploading → String → Bool
verifier_extension env name =
    str_eq (env.edit.to_lower (env.ext name)) ".py"
    || str_eq (env.edit.to_lower (env.ext name)) ".cpp"

unfoldable pub named_verifier : Uploading → String → (String → String) → Result JudgingFile
named_verifier env name key_of =
    fail_if (str_eq name "") (validation ("fileName" ∷ []))
    >> language_for_file env (env.base name)
    >>= λ language.
        fail_if (not (verifier_extension env (env.base name))) (validation ("file" ∷ []))
        >> new_judging_file (env.base name) (key_of (env.base name)) language

abbrev staged_prefix : Problem → String → String
staged_prefix p id = "problems/" ++ₛ p.slug ++ₛ "/checker/" ++ₛ id ++ₛ "/"

-- An empty stage is a draft's; a staged checker has a directory of its own.
unfoldable pub checker_key : Uploading → Problem → String → String → String
checker_key env p stage name =
    if str_eq stage ""
    then "problems/" ++ₛ p.slug ++ₛ "/checker/Checker" ++ₛ env.ext name
    else staged_prefix p stage ++ₛ "Checker" ++ₛ env.ext name

unfoldable pub validator_key : Uploading → Problem → String → String
validator_key env p name = "problems/" ++ₛ p.slug ++ₛ "/validator/Validator" ++ₛ env.ext name

unfoldable pub handle_checker : Uploading → Problem → String → String → Handled
handle_checker env p stage name = elim (named_verifier env name (checker_key env p stage)) [
  | err e ↦ refused e
  | ok f ↦ put_verifier_file env p.checker f (set_checker f env.edit.now p)
]

unfoldable pub handle_validator : Uploading → Problem → String → Handled
handle_validator env p name = elim (named_verifier env name (validator_key env p)) [
  | err e ↦ refused e
  | ok f ↦ put_verifier_file env p.validator f (set_validator f env.edit.now p)
]

abbrev pub handle : Uploading → Option FileType → Problem → String → Handled
handle env none p name = refused (bad_request "PROBLEM_INVALID_FILE_TYPE")
handle env (some test_cases) p name = handle_test_cases env p
handle env (some solution) p name = handle_solution env p name
handle env (some checker) p name = handle_checker env p "" name
handle env (some validator) p name = handle_validator env p name
