-- ===== src/Problem/Updating.antt =====
-- The path of a run that checks staged judging files, and swaps them in.
use training_center_back.Prelude.{
  String, true, Option, none, some, ◌∷◌, ◌≡◌, arith, if-cases, inl, inr,
}
use training_center_back.Apperror.{Error, Result, ok, err, Result-cases, ◌>>=◌}
use training_center_back.Group.Operations.{query, write}
use training_center_back.Judge.Solutions.{ValidateSolutionsOutput}
use training_center_back.Judge.Preparation.{PrepareJudgingOutput, PrepareJudgingFailure}
use training_center_back.Problem.Aggregate.{Problem, set_test_cases, set_checker}
use training_center_back.Problem.Tickets.{
  ProblemValidation, PendingJudgingChange, ValidationReport, is_final, save, mark_final,
  mark_passed, mark_system_error,
}
use training_center_back.Problem.Store.{locate}
use training_center_back.Problem.Reports.{
  blank, build_validation_report, build_judging_failure_report,
}
use training_center_back.Problem.Checks.{dropping, committed, persist_system_error}
use training_center_back.Problem.Worker.{
  fail_judging_update, swap_test_cases, swap_checker, changed, swap_files, pass_update, end_update,
  apply_update, pass_swapped, update_built, update_validated, update_prepared, judging_candidate_of,
}
use training_center_back.Problem.Completeness.{is_complete, locate-ok}
use training_center_back.Problem.Closings.{
  Goes, Held, Leaves, Ran-closed, Ran-failed, Ran-store, Ran-system_error, at, at_end,
  mark_passed-Ended, saved_row,
}

module _ (k : Held) where
  Ran-fail_update :
      (report : Option ValidationReport) (q : Problem)
      → Goes k q
      → Leaves k (fail_judging_update k.env k.ticket report (at k q))
  unfolding fail_judging_update
  Ran-fail_update none q a = Ran-system_error k q a
  Ran-fail_update (some report) q a = Ran-failed k report q a

  Goes-changed :
      (change : PendingJudgingChange) (slug : String) (q : Problem)
      → Goes k q
      → Goes k (changed change slug k.ticket.id k.env.now q)
  unfolding swap_test_cases swap_checker set_test_cases set_checker is_complete
  Goes-changed change slug q a = record {
    complete = ground (arith, a.complete);
    shown = ground (arith, a.shown);
  }

  abbrev GoesOk : Result Problem → Type 0
  GoesOk (err e) = Unit
  GoesOk (ok q) = Goes k q

  Goes-queried : (fault : Option Error) (q : Problem) → Goes k q → GoesOk (query fault q)
  Goes-queried (some e) q a = tt
  Goes-queried none q a = a

  Goes-swap_files :
      (change : PendingJudgingChange) (slug : String) (q : Problem)
      → Goes k q
      → GoesOk (swap_files k.env k.ticket change slug (at k q))
  unfolding swap_files
  Goes-swap_files change slug q a = elim (Result-cases (locate k.env.lookup slug (at k q))) [
    | inl (e, h) ↦ rw h tt
    | inr (r, h) ↦
        rw (h, locate-ok k.env.lookup slug (at k q) r h)
          (Goes-queried k.env.tx_problem_fault (changed change slug k.ticket.id k.env.now q)
            (Goes-changed change slug q a))
  ]

  -- The transaction of a judging update: if it fails, the ticket that it marked is saved.
  Ran-fail_marked :
      (u : ProblemValidation) (q : Problem)
      → u.id ≡ k.ticket.id
      → is_final u.status ≡ true
      → Goes k q
      → Leaves k (fail_judging_update k.env u none (at k q))
  unfolding fail_judging_update persist_system_error
  Ran-fail_marked u q i f a =
      Ran-store k k.env.end_fault (dropping u (mark_system_error blank k.env.now u)) q (at_end k)
        (unfold mark_system_error mark_final in ground arith)
        (unfold mark_system_error mark_final in ground arith) a

  Ran-end_update :
      (fault ticket_fault : Option Error) (u : ProblemValidation) (q r : Problem)
      → u.id ≡ k.ticket.id
      → is_final u.status ≡ true
      → Goes k q
      → Goes k r
      → Leaves k (
          end_update k.env u (at k q) (
            committed fault (
              write ticket_fault (save u (k.ticket ∷ k.rest)) >>= λ rows.
              ok (record { problem = r; tickets = rows }))))
  unfolding end_update
  Ran-end_update fault (some e) u q r i f a b = Ran-fail_marked u q i f a
  Ran-end_update (some e) none u q r i f a b = rw (saved_row k u i) (Ran-fail_marked u q i f a)
  Ran-end_update none none u q r i f a b = rw (saved_row k u i) (Ran-closed k u r f b)

  Ran-pass_swapped :
      (report : ValidationReport) (q : Problem) (r : Result Problem)
      → Goes k q
      → GoesOk r
      → Leaves k (pass_swapped k.env k.ticket report (at k q) r)
  unfolding pass_swapped pass_update
  Ran-pass_swapped report q (err e) a g = Ran-fail_update none q a
  Ran-pass_swapped report q (ok r) a g =
      Ran-end_update k.env.commit_fault k.env.tx_ticket_fault
        (dropping k.ticket (mark_passed report k.env.now k.ticket)) q r
        (mark_passed-Ended k report).0 (mark_passed-Ended k report).1 a g

  Ran-update_validated :
      (change : PendingJudgingChange) (slug : String) (r : Result ValidateSolutionsOutput)
      (q : Problem)
      → Goes k q
      → Leaves k (update_validated k.env k.ticket change slug r (at k q))
  unfolding update_validated apply_update
  Ran-update_validated change slug (err e) q a = Ran-fail_update none q a
  Ran-update_validated change slug (ok r) q a =
      if-cases (Leaves k) r.passed
        (λ f.
          Ran-pass_swapped (build_validation_report r) q
            (swap_files k.env k.ticket change slug (at k q)) a (Goes-swap_files change slug q a))
        (λ f. Ran-fail_update (some (build_validation_report r)) q a)

  Ran-update_built :
      (change : PendingJudgingChange) (slug : String) (failure : Option PrepareJudgingFailure)
      (q : Problem)
      → Goes k q
      → Leaves k (update_built k.env k.ticket change slug failure (at k q))
  unfolding update_built
  Ran-update_built change slug (some f) q a =
      Ran-fail_update (some (build_judging_failure_report f)) q a
  Ran-update_built change slug none q a =
      Ran-update_validated change slug
        (k.env.validate (some (judging_candidate_of change slug k.ticket.id))) q a

  pub Ran-update_prepared :
      (change : PendingJudgingChange) (slug : String) (r : Result PrepareJudgingOutput)
      (q : Problem)
      → Goes k q
      → Leaves k (update_prepared k.env k.ticket change slug r (at k q))
  unfolding update_prepared
  Ran-update_prepared change slug (err e) q a = Ran-fail_update none q a
  Ran-update_prepared change slug (ok prep) q a = Ran-update_built change slug prep.failure q a
