-- ===== src/Problem/Rollbacks.antt =====
-- What a failed upload deletes from storage.
use training_center_back.Prelude.{String, true, false, some, ◌≡◌, arith, str_eq_iff}
use training_center_back.Apperror.{Error, ok, err}
use training_center_back.Group.Operations.{CurrentUser}
use training_center_back.Problem.Aggregate.{Problem, JudgingFile, has_id, find_solution}
use training_center_back.Problem.Store.{Store}
use training_center_back.Problem.Editing.{solution, file_type_of}
use training_center_back.Problem.Files.{
  Uploading, named_file, solution_key, put_solution_file, handle_solution, put_verifier_file,
  new_key,
}
use training_center_back.Problem.Uploads.{save_handled, upload_on_draft, check_upload}

-- If a solution is uploaded again under a name whose file has the same key, and the save of the
-- problem fails, the upload deletes the key of the solution that the stored problem still lists.
pub failed_upload_deletes_live :
    (env : Uploading) (caller : CurrentUser) (p : Problem) (file_type name : String) (s : Store)
    (f old : JudgingFile) (e : Error)
    → check_upload env caller p s ≡ ok tt
    → file_type_of (env.edit.to_lower file_type) ≡ some solution
    → named_file env name (solution_key p) ≡ ok f
    → env.upload f.file_key ≡ ok tt
    → env.edit.save_fault ≡ some e
    → find_solution f.filename p.solutions ≡ some old
    → old.file_key ≡ f.file_key
    → ((upload_on_draft env caller p file_type name s).outcome ≡ err e)
      × (has_id old.file_key (upload_on_draft env caller p file_type name s).deleted ≡ true)
unfolding upload_on_draft handle_solution put_solution_file save_handled has_id
failed_upload_deletes_live env caller p file_type name s f old e c t n u fault found same = (
  ground (arith, c, t, n, u, fault),
  ground (arith, c, t, n, u, fault, str_eq_iff old.file_key f.file_key),
)

new_key-apart :
    (old : JudgingFile) (key : String) → has_id old.file_key (new_key (some old) key) ≡ false
unfolding has_id
new_key-apart old key = ground (arith, str_eq_iff old.file_key key, str_eq_iff key old.file_key)

-- A checker or a validator that is uploaded in place of another: if the upload or the save fails,
-- the key of the one that the stored problem has is not among those that are deleted.
pub failed_verifier_keeps_live :
    (env : Uploading) (f old : JudgingFile) (next : Problem) (e : Error)
    → (save_handled env (put_verifier_file env (some old) f next)).outcome ≡ err e
    → has_id old.file_key (save_handled env (put_verifier_file env (some old) f next)).deleted
      ≡ false
unfolding save_handled put_verifier_file
failed_verifier_keeps_live env f old next e h = ground (arith, new_key-apart old f.file_key)
