-- ===== src/Problem/Edits.antt =====
-- What the edits of Problem/Editing and Problem/Uploads change of a stored problem, when they
-- succeed.
use training_center_back.Prelude.{String, Bool, false, Option, none, some, ◌≡◌, arith}
use training_center_back.Apperror.{Error, ok, fail_if}
use training_center_back.Group.Operations.{CurrentUser, query}
use training_center_back.Problem.Aggregate.{
  Problem, is_published, update_metadata, update_accessibility, unpublish, add_modifier,
  remove_modifier, add_solution, set_test_cases, set_checker, set_validator, remove_test_cases,
  remove_solution, remove_checker, remove_validator,
}
use training_center_back.Problem.Tickets.{find_latest}
use training_center_back.Problem.Store.{
  Store, locate, find_by_slug, in_flight, ensure_no_active_validation,
}
use training_center_back.Problem.Editing.{
  Editing, FileType, test_cases, solution, checker, validator, file_type_of, UpdateProblemInput,
  update_problem, delete_problem_file, without_file, unpublish_problem, change_accessibility,
  add_problem_modifier, remove_problem_modifier,
}
use training_center_back.Problem.Files.{
  Uploading, Handled, handle, handle_test_cases, handle_solution, handle_checker, handle_validator,
  put_solution_file, put_verifier_file,
}
use training_center_back.Problem.Uploads.{upload_on_draft, check_upload, save_handled}
use training_center_back.Problem.Completeness.{is_complete, locate-ok, Advances}

-- The edit was of a draft that no ticket holds, and leaves a draft.
pub record Guarded (s : Store) (q : Problem) : Type 0 where
  pub quiet : in_flight (find_latest s.tickets) ≡ false
  pub drafted : is_published q ≡ false

fail_if-ok : (b : Bool) (e : Error) {u : Unit {0}} → fail_if b e ≡ ok u → b ≡ false
fail_if-ok b e h = ground arith

query-ok {ℓ} : {A : Type ℓ} (fault : Option Error) (a b : A) → query fault a ≡ ok b → b ≡ a
query-ok fault a b h = ground arith

ensure-quiet :
    (env : Editing) (s : Store) {u : Unit {0}}
    → ensure_no_active_validation env.lookup s ≡ ok u
    → in_flight (find_latest s.tickets) ≡ false
unfolding ensure_no_active_validation
ensure-quiet env s h = ground arith

pub update_problem-Guarded :
    (env : Editing) (caller : CurrentUser) (raw : String) (i : UpdateProblemInput) (s : Store)
    (q : Problem)
    → update_problem env caller raw i s ≡ ok q
    → Guarded s q
unfolding update_problem update_metadata update_accessibility
update_problem-Guarded env caller raw i s q h = record {
  quiet = ground (arith, ensure-quiet env s);
  drafted = ground (arith, locate-ok env.lookup raw s);
}

pub change_accessibility-Advances :
    (env : Editing) (caller : CurrentUser) (raw value : String) (s : Store) (q : Problem)
    → change_accessibility env caller raw value s ≡ ok q
    → Advances false s.problem q
unfolding change_accessibility update_accessibility is_complete locate find_by_slug
change_accessibility-Advances env caller raw value s q h = record {
  complete = ground arith;
  shown = ground arith;
}

pub unpublish_problem-Advances :
    (env : Editing) (caller : CurrentUser) (raw : String) (s : Store) (q : Problem)
    → unpublish_problem env caller raw s ≡ ok q
    → Advances false s.problem q
unfolding unpublish_problem unpublish is_complete locate find_by_slug
unpublish_problem-Advances env caller raw s q h = record {
  complete = ground arith;
  shown = ground arith;
}

pub add_problem_modifier-Advances :
    (env : Editing) (caller : CurrentUser) (raw nickname : String) (s : Store) (q : Problem)
    → add_problem_modifier env caller raw nickname s ≡ ok q
    → Advances false s.problem q
unfolding add_problem_modifier add_modifier is_complete locate find_by_slug
add_problem_modifier-Advances env caller raw nickname s q h = record {
  complete = ground arith;
  shown = ground arith;
}

pub remove_problem_modifier-Advances :
    (env : Editing) (caller : CurrentUser) (raw nickname : String) (s : Store) (q : Problem)
    → remove_problem_modifier env caller raw nickname s ≡ ok q
    → Advances false s.problem q
unfolding remove_problem_modifier remove_modifier is_complete locate find_by_slug
remove_problem_modifier-Advances env caller raw nickname s q h = record {
  complete = ground arith;
  shown = ground arith;
}

pub delete_problem_file-Guarded :
    (env : Editing) (caller : CurrentUser) (raw file_type name : String) (s : Store) (q : Problem)
    → delete_problem_file env caller raw file_type name s ≡ ok q
    → Guarded s q
unfolding delete_problem_file without_file remove_test_cases remove_solution remove_checker
    remove_validator
delete_problem_file-Guarded env caller raw file_type name s q h = record {
  quiet = ground (arith, ensure-quiet env s);
  drafted = ground arith;
}

-- A handler leaves the status.
handle-published :
    (env : Uploading) (t : Option FileType) (p q : Problem) (name : String)
    → (handle env t p name).outcome ≡ ok q
    → is_published q ≡ is_published p
unfolding handle_test_cases handle_solution handle_checker handle_validator put_solution_file
    put_verifier_file add_solution set_test_cases set_checker set_validator
handle-published env none p q name h = ground arith
handle-published env (some test_cases) p q name h = ground arith
handle-published env (some solution) p q name h = ground arith
handle-published env (some checker) p q name h = ground arith
handle-published env (some validator) p q name h = ground arith

save_handled-ok :
    (env : Uploading) (h : Handled) (q : Problem)
    → (save_handled env h).outcome ≡ ok q
    → h.outcome ≡ ok q
unfolding save_handled
save_handled-ok env h q e = ground arith

pub upload_on_draft-Guarded :
    (env : Uploading) (caller : CurrentUser) (p : Problem) (file_type name : String) (s : Store)
    (q : Problem)
    → is_published p ≡ false
    → (upload_on_draft env caller p file_type name s).outcome ≡ ok q
    → Guarded s q
unfolding upload_on_draft check_upload
upload_on_draft-Guarded env caller p file_type name s q d h = record {
  quiet = ground (arith, ensure-quiet env.edit s);
  drafted = ground (
    arith,
    d,
    save_handled-ok env (handle env (file_type_of (env.edit.to_lower file_type)) p name) q,
    handle-published env (file_type_of (env.edit.to_lower file_type)) p q name,
  );
}
