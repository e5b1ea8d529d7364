-- ===== src/Problem/Checks.antt =====
-- internal/application/problem/validate_problem.go, the path of a run without staged files: the
-- problem is checked as it stands, and published if the ticket asks for it; with the compiled keys of
-- internal/adapter/problem/judging_artifact_writer.go.
use training_center_back.Prelude.{ℕ, String, Option, none, some, List, str_eq, if◌then◌else◌}
use training_center_back.Apperror.{Error, Result, ok, err, internal, ◌>>=◌}
use training_center_back.Group.Operations.{query, write}
use training_center_back.Judge.Solutions.{JudgingCandidate, ValidateSolutionsOutput}
use training_center_back.Judge.Preparation.{PrepareJudgingOutput, PrepareJudgingFailure}
use training_center_back.Problem.Aggregate.{Problem, JudgingFile}
use training_center_back.Problem.Tickets.{
  ProblemValidation, ValidationReport, mark_passed, mark_failed, mark_system_error, save,
}
use training_center_back.Problem.Store.{Store, Lookup, mark_published}
use training_center_back.Problem.Reports.{
  blank, build_judging_failure_report, build_validation_report,
}

-- What the judge answers, the clock, and which writes fail: that of the started ticket, that of the
-- ended ticket, and those of the transactions.
pub record Workbench : Type 0 where
  pub lookup : Lookup
  pub prepare : Option JudgingCandidate → Result PrepareJudgingOutput
  pub validate : Option JudgingCandidate → Result ValidateSolutionsOutput
  pub now : ℕ
  pub start_fault : Option Error
  pub end_fault : Option Error
  pub checker_key_fault : Option Error
  pub validator_key_fault : Option Error
  pub tx_problem_fault : Option Error
  pub tx_ticket_fault : Option Error
  pub commit_fault : Option Error

-- `_ = v.MarkX(...)`: an error of the transition is dropped, and the ticket stays as it was.
abbrev pub dropping : ProblemValidation → Result ProblemValidation → ProblemValidation
dropping v (ok w) = w
dropping v (err e) = v

abbrev pub with_tickets : Store → Result (List ProblemValidation) → Result (Unit {0}) × Store
with_tickets s (err e) = (err e, s)
with_tickets s (ok rows) = (ok tt, record s { tickets = rows })

-- `validationRepo.Save`, outside a transaction.
unfoldable pub store_ticket : Option Error → ProblemValidation → Store → Result (Unit {0}) × Store
store_ticket fault v s = with_tickets s (write fault (save v s.tickets))

unfoldable pub persist_system_error :
    Workbench → ProblemValidation → Store → Result (Unit {0}) × Store
persist_system_error env v s =
    store_ticket env.end_fault (dropping v (mark_system_error blank env.now v)) s

unfoldable pub persist_failed :
    Workbench → ProblemValidation → ValidationReport → Store → Result (Unit {0}) × Store
persist_failed env v report s =
    store_ticket env.end_fault (dropping v (mark_failed report env.now v)) s

-- `WithTx`: an error, also of the commit, leaves the store as it was.
abbrev pub committed : Option Error → Result Store → Result Store
committed fault (err e) = err e
committed none (ok s) = ok s
committed (some e) (ok s) = err e

abbrev pub rolled_back : Store → Result Store → Result (Unit {0}) × Store
rolled_back s (err e) = (err e, s)
rolled_back s (ok t) = (ok tt, t)

-- The transaction that publishes the problem and marks the ticket.
unfoldable pub publish_and_pass :
    Workbench → ProblemValidation → ValidationReport → Store → Result Store
publish_and_pass env v report s = committed env.commit_fault (
    query env.tx_problem_fault (mark_published env.now s.problem) >>= λ p.
    write env.tx_ticket_fault (save (dropping v (mark_passed report env.now v)) s.tickets)
    >>= λ rows. ok (record { problem = p; tickets = rows }))

unfoldable pub conclude_passed :
    Workbench → ProblemValidation → ValidationReport → Store → Result (Unit {0}) × Store
conclude_passed env v report s =
    if v.publish_on_pass
    then rolled_back s (publish_and_pass env v report s)
    else store_ticket env.end_fault (dropping v (mark_passed report env.now v)) s

unfoldable pub conclude_validated :
    Workbench
    → ProblemValidation
    → Result ValidateSolutionsOutput
    → Store
    → Result (Unit {0}) × Store
conclude_validated env v (err e) s = persist_system_error env v s
conclude_validated env v (ok result) s =
    if result.passed
    then conclude_passed env v (build_validation_report result) s
    else persist_failed env v (build_validation_report result) s

abbrev pub compiled : String → ℕ → JudgingFile → JudgingFile
compiled key now f = record f { compiled_key = some key; compiled_at = some now }

-- The key is written into the stored file, which must be there.
unfoldable pub set_checker_compiled_key : Option Error → String → ℕ → Problem → Result Problem
set_checker_compiled_key (some e) key now p = err e
set_checker_compiled_key none key now p = elim p.checker [
  | none ↦ err internal
  | some f ↦ ok (record p { checker = some (compiled key now f) })
]

unfoldable pub set_validator_compiled_key : Option Error → String → ℕ → Problem → Result Problem
set_validator_compiled_key (some e) key now p = err e
set_validator_compiled_key none key now p = elim p.validator [
  | none ↦ err internal
  | some f ↦ ok (record p { validator = some (compiled key now f) })
]

abbrev pub wrote : Problem → Result Problem → Result (Unit {0}) × Problem
wrote p (err e) = (err e, p)
wrote p (ok q) = (ok tt, q)

-- Both keys, each if it is not empty. The first write stays when the second fails.
unfoldable pub write_validator_key :
    Workbench → PrepareJudgingOutput → Problem → Result (Unit {0}) × Problem
write_validator_key env prep p =
    if str_eq prep.validator_compiled_key ""
    then (ok tt, p)
    else wrote p
        (set_validator_compiled_key env.validator_key_fault prep.validator_compiled_key env.now p)

unfoldable pub write_other_key :
    Workbench → PrepareJudgingOutput → Problem → Result Problem → Result (Unit {0}) × Problem
write_other_key env prep p (err e) = (err e, p)
write_other_key env prep p (ok q) = write_validator_key env prep q

unfoldable pub write_compiled_keys :
    Workbench → PrepareJudgingOutput → Problem → Result (Unit {0}) × Problem
write_compiled_keys env prep p =
    if str_eq prep.checker_compiled_key ""
    then write_validator_key env prep p
    else write_other_key env prep p
        (set_checker_compiled_key env.checker_key_fault prep.checker_compiled_key env.now p)

unfoldable pub conclude_written :
    Workbench → ProblemValidation → Store → Result (Unit {0}) × Problem → Result (Unit {0}) × Store
conclude_written env v s (err e, p) = persist_system_error env v (record s { problem = p })
conclude_written env v s (ok _, p) =
    conclude_validated env v (env.validate none) (record s { problem = p })

unfoldable pub conclude_built :
    Workbench
    → ProblemValidation
    → PrepareJudgingOutput
    → Option PrepareJudgingFailure
    → Store
    → Result (Unit {0}) × Store
conclude_built env v prep (some f) s = persist_failed env v (build_judging_failure_report f) s
conclude_built env v prep none s = conclude_written env v s (write_compiled_keys env prep s.problem)

unfoldable pub conclude_prepared :
    Workbench → ProblemValidation → Result PrepareJudgingOutput → Store → Result (Unit {0}) × Store
conclude_prepared env v (err e) s = persist_system_error env v s
conclude_prepared env v (ok prep) s = conclude_built env v prep prep.failure s
