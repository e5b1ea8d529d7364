-- ===== src/Problem/Swept.antt =====
-- A sweep during a run. `RecoverStaleBefore` goes by the time of the request and knows nothing of the
-- runs under way; the guard of the edits reads the ticket that it ended, and the worker publishes
-- without reading the problem or the ticket again.
use training_center_back.Prelude.{
  ℕ, ◌<◌, String, true, false, none, some, List, [], ◌∷◌, ◌≡◌, ◌≢◌, refl, ap, ◌∙◌, arith,
  str_eq_refl, lt→ltb, if-true, subst,
}
use training_center_back.Apperror.{ok}
use training_center_back.Group.Operations.{CurrentUser}
use training_center_back.Judge.Solutions.{ValidateSolutionsOutput}
use training_center_back.Judge.Preparation.{PrepareJudgingOutput}
use training_center_back.Problem.Aggregate.{Problem, is_published, remove_test_cases}
use training_center_back.Problem.Tickets.{
  ProblemValidation, running, passed, save, overwrite_row, mark_final, mark_passed, recovered,
  recover_stale_before,
}
use training_center_back.Problem.Store.{
  Store, locate, require_editor, ensure_no_active_validation, mark_published,
}
use training_center_back.Problem.Publishing.{required_fields_for_publish}
use training_center_back.Problem.Reports.{build_validation_report}
use training_center_back.Problem.Checks.{
  Workbench, dropping, rolled_back, publish_and_pass, conclude_passed, conclude_validated,
  conclude_written, conclude_built, conclude_prepared, write_compiled_keys, write_validator_key,
}
use training_center_back.Problem.Worker.{run, conclude}
use training_center_back.Problem.Editing.{
  Editing, delete_problem_file, without_file, file_type_of, test_cases,
}
use training_center_back.Problem.Orderly.{Orderly, save-head, find_latest-Orderly, replaced-Orderly}
use training_center_back.Problem.Sound.{recover-ended}
use training_center_back.Problem.Completeness.{is_complete, is_complete_iff}
use training_center_back.Problem.Steps.{
  World, Writing, Reach, here, next, sweeps, reads, writes, concludes, delete_file,
}

no_tests : (q : Problem) → q.test_cases_key ≡ none → required_fields_for_publish q ≢ []
no_tests q n h = absurd (missing ((is_complete_iff q).0 h))
  where
    missing : is_complete q ≡ true → ⊥
    missing c = unfold is_complete in ground (arith, n, c)

module _ (p : Problem) (v : ProblemValidation) (rest : List ProblemValidation) (cutoff swept_at : ℕ)
    (env : Editing) (caller : CurrentUser) (raw file_type key : String) (bench : Workbench)
    (slug : String) (prep : PrepareJudgingOutput) (result : ValidateSolutionsOutput)
    (orderly : Orderly (v ∷ rest)) (runs : v.status ≡ running)
    (publishes : v.publish_on_pass ≡ true) (checks : v.pending_change ≡ none)
    (stale : v.requested_at < cutoff) (draft : is_published p ≡ false)
    (tested : p.test_cases_key ≡ some key)
    (finds : (ts : List ProblemValidation)
      → locate env.lookup raw (record { problem = p; tickets = ts }) ≡ ok p)
    (edits : require_editor caller p ≡ ok tt)
    (names : file_type_of (env.to_lower file_type) ≡ some test_cases)
    (reads_latest : env.lookup.latest_fault ≡ none) (deletes : env.delete_fault ≡ none)
    (saves : env.save_fault ≡ none) (prepared : bench.prepare none ≡ ok prep)
    (compiled : prep.failure ≡ none) (no_checker : prep.checker_compiled_key ≡ "")
    (no_validator : prep.validator_compiled_key ≡ "") (validated : bench.validate none ≡ ok result)
    (passes : result.passed ≡ true) (problem_read : bench.tx_problem_fault ≡ none)
    (ticket_saved : bench.tx_ticket_fault ≡ none) (commits : bench.commit_fault ≡ none) where
  abbrev swept : List ProblemValidation
  swept = recovered swept_at v ∷ rest

  sweep-swept : recover_stale_before cutoff swept_at (v ∷ rest) ≡ swept
  unfolding Orderly recover_stale_before
  sweep-swept =
      rw (recover-ended cutoff swept_at v rest orderly)
        (ground (arith, runs, lt→ltb v.requested_at cutoff stale))

  still_orderly : Orderly swept
  still_orderly = replaced-Orderly (recovered swept_at v) v rest orderly refl refl

  abbrev at : Problem → List ProblemValidation → Store
  at q ts = record { problem = q; tickets = ts }

  -- The guard lets the edit through.
  quiet : ensure_no_active_validation env.lookup (at p swept) ≡ ok tt
  unfolding ensure_no_active_validation
  quiet = rw (reads_latest, find_latest-Orderly (recovered swept_at v) rest still_orderly) refl

  abbrev stripped : Problem
  stripped = remove_test_cases env.now p

  deleted : delete_problem_file env caller raw file_type "" (at p swept) ≡ ok stripped
  unfolding delete_problem_file without_file
  deleted = rw (finds swept, draft, edits, quiet, names, tested, deletes, saves) refl

  abbrev marked : ProblemValidation
  marked = dropping v (mark_passed (build_validation_report result) bench.now v)

  marked-passed : (marked.status ≡ passed) × (marked.id ≡ v.id)
  marked-passed = unfold mark_passed mark_final in (ground (arith, runs), ground (arith, runs))

  marked-saved : save marked swept ≡ ok (overwrite_row marked (recovered swept_at v) ∷ rest)
  marked-saved =
      save-head marked (recovered swept_at v) rest (rw marked-passed.1 (str_eq_refl v.id))
        still_orderly

  abbrev left : Store
  left = at (mark_published bench.now stripped) (overwrite_row marked (recovered swept_at v) ∷ rest)

  published :
      publish_and_pass bench v (build_validation_report result) (at stripped swept) ≡ ok left
  unfolding publish_and_pass
  published = rw (problem_read, ticket_saved, marked-saved, commits) refl

  abbrev s : Store
  s = at stripped swept

  no_keys : write_compiled_keys bench prep stripped ≡ (ok tt, stripped)
  unfolding write_compiled_keys write_validator_key
  no_keys = rw (no_checker, no_validator) refl

  concluded : conclude bench slug v s ≡ (ok tt, left)
  unfolding conclude run conclude_prepared conclude_built conclude_written conclude_validated
      conclude_passed
  concluded =
      ap (λ c. run bench slug v c s) checks
      ∙ ap (λ r. conclude_prepared bench v r s) prepared
      ∙ ap (λ f. conclude_built bench v prep f s) compiled
      ∙ ap (conclude_written bench v s) no_keys
      ∙ ap (λ r. conclude_validated bench v r s) validated
      ∙ if-true result.passed _ _ passes
      ∙ if-true v.publish_on_pass _ _ publishes
      ∙ ap (rolled_back s) published

  untested : (conclude bench slug v s).1.problem.test_cases_key ≡ none
  unfolding mark_published remove_test_cases
  untested = ap (λ done. done.1.problem.test_cases_key) concluded

  abbrev world : Problem → List ProblemValidation → List Writing → World
  world q ts edits_begun = record { store = at q ts; held = some v; writings = edits_begun }

  abbrev under_way : World
  under_way = world p (v ∷ rest) []

  abbrev deletion : Writing
  deletion = record {
    seen = at p swept;
    outcome = delete_problem_file env caller raw file_type "" (at p swept);
    edit = delete_file env caller raw file_type "";
    problem = stripped;
    worked = deleted;
  }

  to_swept : Reach under_way (world p swept [])
  to_swept =
      subst (λ ts. Reach under_way (world p ts [])) sweep-swept
        (next here (sweeps under_way cutoff swept_at))

  to_stripped : Reach under_way (world stripped swept [])
  to_stripped =
      next
        (next to_swept
          (reads (world p swept []) stripped _ (delete_file env caller raw file_type "") deleted))
        (writes (world p swept (deletion ∷ [])) [] deletion [] refl)

  -- A run holds a ticket that is to publish a draft, and is older than the cutoff. A sweep ends the
  -- ticket, an editor deletes the test cases, which the guard now allows, and the run, whose judge
  -- passed the files it had without compiling a checker or validator, publishes the problem; every
  -- read and write works. The ticket reads passed, and the published problem has no test cases.
  pub swept_run_publishes_incomplete :
      (w : World) × Reach under_way w
      × (is_published w.store.problem ≡ true)
      × (w.store.problem.test_cases_key ≡ none)
      × (required_fields_for_publish w.store.problem ≢ [])
      × (last : ProblemValidation) × (w.store.tickets ≡ last ∷ rest)
      × (last.status ≡ passed)
  unfolding mark_published
  swept_run_publishes_incomplete = (
    record { store = (conclude bench slug v s).1; held = none; writings = [] },
    next to_stripped (concludes (world stripped swept []) bench slug v refl),
    ap (λ done. is_published done.1.problem) concluded,
    untested,
    no_tests (conclude bench slug v s).1.problem untested,
    overwrite_row marked (recovered swept_at v),
    ap (λ done. done.1.tickets) concluded,
    marked-passed.0,
  )
