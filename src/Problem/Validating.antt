-- ===== src/Problem/Validating.antt =====
-- The path of a run that checks the problem as it stands, and publishes it if that was asked for.
use training_center_back.Prelude.{
  String, true, Option, none, some, ◌∷◌, ◌≡◌, refl, arith, is_some, str_eq, if-cases,
}
use training_center_back.Apperror.{Error, Result, ok, err, ◌>>=◌}
use training_center_back.Group.Operations.{query, write}
use training_center_back.Judge.Solutions.{ValidateSolutionsOutput}
use training_center_back.Judge.Preparation.{PrepareJudgingOutput, PrepareJudgingFailure}
use training_center_back.Problem.Aggregate.{Problem}
use training_center_back.Problem.Tickets.{ValidationReport, save, mark_passed}
use training_center_back.Problem.Store.{mark_published}
use training_center_back.Problem.Reports.{build_validation_report, build_judging_failure_report}
use training_center_back.Problem.Checks.{
  dropping, committed, rolled_back, conclude_passed, publish_and_pass, conclude_validated,
  write_validator_key, write_compiled_keys, write_other_key, wrote, conclude_built,
  set_checker_compiled_key, set_validator_compiled_key, conclude_written, conclude_prepared,
}
use training_center_back.Problem.Completeness.{is_complete}
use training_center_back.Problem.Closings.{
  Goes, Held, Leaves, Ran-committed, Ran-failed, Ran-marked, Ran-same, Ran-system_error, at,
  at_commit, at_problem, at_ticket, has_fault, mark_passed-Ended,
}

module _ (k : Held) where
  Goes-published :
      (q : Problem)
      → k.ticket.publish_on_pass ≡ true
      → Goes k q
      → Goes k (mark_published k.env.now q)
  unfolding mark_published is_complete
  Goes-published q f a = record { complete = a.complete; shown = ground (arith, f) }

  Ran-published :
      (report : ValidationReport) (q : Problem)
      → k.ticket.publish_on_pass ≡ true
      → Goes k q
      → Leaves k (rolled_back (at k q) (publish_and_pass k.env k.ticket report (at k q)))
  unfolding publish_and_pass
  Ran-published report q f a = published k.env.tx_problem_fault (at_problem k)
    where
      published :
          (fault : Option Error)
          → (is_some fault ≡ true → has_fault k.env ≡ true)
          → Leaves k (
              rolled_back (at k q) (
                committed k.env.commit_fault (
                  query fault (mark_published k.env.now q) >>= λ r.
                  write k.env.tx_ticket_fault (
                    save
                      (dropping k.ticket (mark_passed report k.env.now k.ticket))
                      (k.ticket ∷ k.rest))
                  >>= λ rows. ok (record { problem = r; tickets = rows }))))
      published (some e) bad = Ran-same k (bad refl) q a
      published none bad =
          Ran-committed k k.env.commit_fault k.env.tx_ticket_fault
            (dropping k.ticket (mark_passed report k.env.now k.ticket)) q
            (mark_published k.env.now q) (at_commit k) (at_ticket k) (mark_passed-Ended k report).0
            (mark_passed-Ended k report).1 a (Goes-published q f a)

  Ran-passed :
      (report : ValidationReport) (q : Problem)
      → Goes k q
      → Leaves k (conclude_passed k.env k.ticket report (at k q))
  unfolding conclude_passed
  Ran-passed report q a =
      if-cases (Leaves k) k.ticket.publish_on_pass (λ f. Ran-published report q f a)
        (λ f. Ran-marked k (mark_passed report k.env.now k.ticket) q (mark_passed-Ended k report) a)

  Ran-validated :
      (r : Result ValidateSolutionsOutput) (q : Problem)
      → Goes k q
      → Leaves k (conclude_validated k.env k.ticket r (at k q))
  unfolding conclude_validated
  Ran-validated (err e) q a = Ran-system_error k q a
  Ran-validated (ok r) q a =
      if-cases (Leaves k) r.passed (λ f. Ran-passed (build_validation_report r) q a)
        (λ f. Ran-failed k (build_validation_report r) q a)

  -- Writing a compiled key changes no field that is required, nor the status.
  abbrev Writes : Result (Unit {0}) × Problem → Type 0
  Writes done = Goes k done.1

  Goes-checker_key :
      (fault : Option Error) (key : String) (q : Problem)
      → Goes k q
      → Writes (wrote q (set_checker_compiled_key fault key k.env.now q))
  unfolding set_checker_compiled_key is_complete
  Goes-checker_key (some e) key q a = a
  Goes-checker_key none key q a = record {
    complete = ground (arith, a.complete);
    shown = ground (arith, a.shown);
  }

  Goes-validator_key :
      (fault : Option Error) (key : String) (q : Problem)
      → Goes k q
      → Writes (wrote q (set_validator_compiled_key fault key k.env.now q))
  unfolding set_validator_compiled_key is_complete
  Goes-validator_key (some e) key q a = a
  Goes-validator_key none key q a = record {
    complete = ground (arith, a.complete);
    shown = ground (arith, a.shown);
  }

  Goes-write_validator_key :
      (prep : PrepareJudgingOutput) (q : Problem)
      → Goes k q
      → Writes (write_validator_key k.env prep q)
  unfolding write_validator_key
  Goes-write_validator_key prep q a =
      if-cases Writes (str_eq prep.validator_compiled_key "") (λ e. a)
        (λ e. Goes-validator_key k.env.validator_key_fault prep.validator_compiled_key q a)

  Goes-write_other_key :
      (prep : PrepareJudgingOutput) (q : Problem) (r : Result Problem)
      → Goes k q
      → Writes (wrote q r)
      → Writes (write_other_key k.env prep q r)
  unfolding write_other_key
  Goes-write_other_key prep q (err e) a w = a
  Goes-write_other_key prep q (ok r) a w = Goes-write_validator_key prep r w

  Goes-write_compiled_keys :
      (prep : PrepareJudgingOutput) (q : Problem)
      → Goes k q
      → Writes (write_compiled_keys k.env prep q)
  unfolding write_compiled_keys
  Goes-write_compiled_keys prep q a =
      if-cases Writes (str_eq prep.checker_compiled_key "") (λ e. Goes-write_validator_key prep q a)
        (λ e.
          Goes-write_other_key prep q
            (set_checker_compiled_key k.env.checker_key_fault prep.checker_compiled_key k.env.now q)
            a (Goes-checker_key k.env.checker_key_fault prep.checker_compiled_key q a))

  Ran-written :
      (q : Problem) (done : Result (Unit {0}) × Problem)
      → Writes done
      → Leaves k (conclude_written k.env k.ticket (at k q) done)
  unfolding conclude_written
  Ran-written q (err e, r) w = Ran-system_error k r w
  Ran-written q (ok tt, r) w = Ran-validated (k.env.validate none) r w

  Ran-built :
      (prep : PrepareJudgingOutput) (failure : Option PrepareJudgingFailure) (q : Problem)
      → Goes k q
      → Leaves k (conclude_built k.env k.ticket prep failure (at k q))
  unfolding conclude_built
  Ran-built prep (some f) q a = Ran-failed k (build_judging_failure_report f) q a
  Ran-built prep none q a =
      Ran-written q (write_compiled_keys k.env prep q) (Goes-write_compiled_keys prep q a)

  pub Ran-prepared :
      (r : Result PrepareJudgingOutput) (q : Problem)
      → Goes k q
      → Leaves k (conclude_prepared k.env k.ticket r (at k q))
  unfolding conclude_prepared
  Ran-prepared (err e) q a = Ran-system_error k q a
  Ran-prepared (ok prep) q a = Ran-built prep prep.failure q a
