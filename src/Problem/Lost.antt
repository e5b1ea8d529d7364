-- ===== src/Problem/Lost.antt =====
-- A judging update whose transaction fails after `MarkPassed`. The mark is on the ticket in memory,
-- so the system error that the use case then sets is refused, and its error dropped.
use training_center_back.Prelude.{
  String, true, none, some, List, ◌∷◌, ◌≡◌, ap, ◌∙◌, arith, str_eq_refl, if-true,
}
use training_center_back.Apperror.{Error, Result, ok, err, ◌>>=◌}
use training_center_back.Group.Operations.{write}
use training_center_back.Judge.Solutions.{ValidateSolutionsOutput}
use training_center_back.Judge.Preparation.{PrepareJudgingOutput}
use training_center_back.Problem.Aggregate.{Problem}
use training_center_back.Problem.Tickets.{
  ProblemValidation, PendingJudgingChange, running, passed, save, overwrite_row, mark_final,
  mark_passed, mark_system_error,
}
use training_center_back.Problem.Store.{Store}
use training_center_back.Problem.Reports.{blank, build_validation_report}
use training_center_back.Problem.Checks.{
  Workbench, dropping, committed, with_tickets, persist_system_error, store_ticket,
}
use training_center_back.Problem.Worker.{
  swap_files, pass_update, end_update, pass_swapped, apply_update, update_validated, update_built,
  update_prepared, judging_candidate_of, run, conclude, fail_judging_update,
}
use training_center_back.Problem.Orderly.{Orderly, save-head}

module _ (env : Workbench) (slug : String) (v : ProblemValidation) (rest : List ProblemValidation)
    (p : Problem) (change : PendingJudgingChange) (prep : PrepareJudgingOutput)
    (result : ValidateSolutionsOutput) (q : Problem) (e : Error) (orderly : Orderly (v ∷ rest))
    (runs : v.status ≡ running) (updates : v.pending_change ≡ some change)
    (prepared : env.prepare (some (judging_candidate_of change slug v.id)) ≡ ok prep)
    (compiled : prep.failure ≡ none)
    (validated : env.validate (some (judging_candidate_of change slug v.id)) ≡ ok result)
    (passes : result.passed ≡ true)
    (swaps : swap_files env v change slug (record { problem = p; tickets = v ∷ rest }) ≡ ok q)
    (ticket_saved : env.tx_ticket_fault ≡ none) (commits : env.commit_fault ≡ some e)
    (ends : env.end_fault ≡ none) where
  abbrev s : Store
  s = record { problem = p; tickets = v ∷ rest }

  abbrev marked : ProblemValidation
  marked = dropping v (mark_passed (build_validation_report result) env.now v)

  marked-passed : (marked.status ≡ passed) × (marked.id ≡ v.id)
  marked-passed = unfold mark_passed mark_final in (ground (arith, runs), ground (arith, runs))

  reaches : conclude env slug v s ≡ end_update env marked s (pass_update env marked q s)
  unfolding conclude run update_prepared update_built update_validated apply_update pass_swapped
  reaches =
      ap (λ c. run env slug v c s) updates
      ∙ ap (λ r. update_prepared env v change slug r s) prepared
      ∙ ap (λ f. update_built env v change slug f s) compiled
      ∙ ap (λ r. update_validated env v change slug r s) validated
      ∙ if-true result.passed _ _ passes
      ∙ ap (pass_swapped env v (build_validation_report result) s) swaps

  abbrev row : ProblemValidation
  row = overwrite_row marked v

  marked-saved : save marked (v ∷ rest) ≡ ok (row ∷ rest)
  marked-saved = save-head marked v rest (rw marked-passed.1 (str_eq_refl v.id)) orderly

  fails : pass_update env marked q s ≡ err e
  unfolding pass_update
  fails =
      ap (λ fault. committed env.commit_fault (swapped (write fault (save marked s.tickets))))
        ticket_saved
      ∙ ap (λ r. committed env.commit_fault (swapped r)) marked-saved
      ∙ ap (λ fault. committed fault (swapped (ok (row ∷ rest)))) commits
    where
      swapped : Result (List ProblemValidation) → Result Store
      swapped r = r >>= λ rows. ok (record { problem = q; tickets = rows })

  -- The ticket has ended in memory, so it is not marked again.
  unmarked : dropping marked (mark_system_error blank env.now marked) ≡ marked
  unmarked = unfold mark_system_error mark_final in ground (arith, marked-passed.0)

  closes :
      fail_judging_update env marked none s ≡ (ok tt, record { problem = p; tickets = row ∷ rest })
  unfolding fail_judging_update persist_system_error store_ticket
  closes =
      ap (λ u. with_tickets s (write env.end_fault (save u s.tickets))) unmarked
      ∙ ap (λ fault. with_tickets s (write fault (save marked s.tickets))) ends
      ∙ ap (with_tickets s) marked-saved

  -- If every check of a judging update passes, its transaction marks the ticket and then fails to
  -- commit, and the write that closes the ticket does not fail, the run reports no error, the row of
  -- the ticket reads PASSED, and the problem keeps its old files.
  pub failed_update_reads_passed :
      (conclude env slug v s ≡ (ok tt, record { problem = p; tickets = row ∷ rest }))
      × (row.status ≡ passed)
  failed_update_reads_passed =
      (reaches ∙ ap (end_update env marked s) fails ∙ unfold end_update in closes, marked-passed.0)
