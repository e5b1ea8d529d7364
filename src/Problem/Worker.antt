-- ===== src/Problem/Worker.antt =====
-- internal/application/problem/validate_problem.go, the worker's run of a ticket, and its path for
-- staged files. A run holds its ticket in memory between the first write and the last; the store may
-- change meanwhile, so the two halves are two functions.
use Prim.Native.String.{◌++◌}
use training_center_back.Prelude.{ℕ, String, Option, none, some, if◌then◌else◌}
use training_center_back.Apperror.{Result, ok, err, ◌>>=◌}
use training_center_back.Group.Operations.{query, write}
use training_center_back.Judge.Solutions.{JudgingCandidate, ValidateSolutionsOutput}
use training_center_back.Judge.Preparation.{PrepareJudgingOutput, PrepareJudgingFailure}
use training_center_back.Problem.Aggregate.{Problem, set_test_cases, set_checker}
use training_center_back.Problem.Tickets.{
  ProblemValidation, PendingJudgingChange, ValidationReport, is_pending, start, mark_passed, save,
  find_by_id,
}
use training_center_back.Problem.Store.{Store, locate}
use training_center_back.Problem.Reports.{build_judging_failure_report, build_validation_report}
use training_center_back.Problem.Checks.{
  Workbench, dropping, store_ticket, persist_system_error, persist_failed, committed, compiled,
  conclude_prepared,
}

unfoldable pub staged_checker_compiled_key : String → String → String
staged_checker_compiled_key slug id = "problems/" ++ slug ++ "/checker/" ++ id ++ "/compiled"

abbrev key_text : Option String → String
key_text none = ""
key_text (some key) = key

unfoldable pub judging_candidate_of : PendingJudgingChange → String → String → JudgingCandidate
judging_candidate_of change slug id = record {
  test_cases_key = key_text change.test_cases_key;
  checker = elim change.checker [
    | none ↦ none
    | some f ↦ some (record {
      file_key = f.file_key;
      language = f.language;
      compiled_key = staged_checker_compiled_key slug id;
    })
  ];
}

-- `failJudgingUpdate`; the removal of the staged files, which is best effort, is left out.
unfoldable pub fail_judging_update :
    Workbench → ProblemValidation → Option ValidationReport → Store → Result (Unit {0}) × Store
fail_judging_update env v none s = persist_system_error env v s
fail_judging_update env v (some report) s = persist_failed env v report s

unfoldable pub swap_test_cases : PendingJudgingChange → ℕ → Problem → Problem
swap_test_cases change now p = elim change.test_cases_key [
  | none ↦ p
  | some key ↦ set_test_cases key now p
]

unfoldable pub swap_checker : PendingJudgingChange → String → String → ℕ → Problem → Problem
swap_checker change slug id now p = elim change.checker [
  | none ↦ p
  | some f ↦ set_checker (compiled (staged_checker_compiled_key slug id) now f) now p
]

abbrev pub changed : PendingJudgingChange → String → String → ℕ → Problem → Problem
changed change slug id now p = swap_checker change slug id now (swap_test_cases change now p)

-- The transaction of a judging update up to `MarkPassed`: the problem with its new files.
unfoldable pub swap_files :
    Workbench → ProblemValidation → PendingJudgingChange → String → Store → Result Problem
swap_files env v change slug s = locate env.lookup slug s >>= λ p.
    query env.tx_problem_fault (changed change slug v.id env.now p)

-- From `MarkPassed`, which changes the ticket in memory, to the end of the transaction.
unfoldable pub pass_update : Workbench → ProblemValidation → Problem → Store → Result Store
pass_update env passed_ticket p s = committed env.commit_fault (
    write env.tx_ticket_fault (save passed_ticket s.tickets) >>= λ rows.
    ok (record { problem = p; tickets = rows }))

-- What follows the transaction. A transaction that fails leaves the ticket that it marked.
unfoldable pub end_update :
    Workbench → ProblemValidation → Store → Result Store → Result (Unit {0}) × Store
end_update env v s (ok t) = (ok tt, t)
end_update env v s (err e) = fail_judging_update env v none s

-- `MarkPassed` changes the ticket in memory before it is saved.
unfoldable pub pass_swapped :
    Workbench
    → ProblemValidation
    → ValidationReport
    → Store
    → Result Problem
    → Result (Unit {0}) × Store
pass_swapped env v report s (err e) = fail_judging_update env v none s
pass_swapped env v report s (ok p) =
    end_update env (dropping v (mark_passed report env.now v)) s
      (pass_update env (dropping v (mark_passed report env.now v)) p s)

unfoldable pub apply_update :
    Workbench
    → ProblemValidation
    → PendingJudgingChange
    → String
    → ValidationReport
    → Store
    → Result (Unit {0}) × Store
apply_update env v change slug report s =
    pass_swapped env v report s (swap_files env v change slug s)

unfoldable pub update_validated :
    Workbench
    → ProblemValidation
    → PendingJudgingChange
    → String
    → Result ValidateSolutionsOutput
    → Store
    → Result (Unit {0}) × Store
update_validated env v change slug (err e) s = fail_judging_update env v none s
update_validated env v change slug (ok result) s =
    if result.passed
    then apply_update env v change slug (build_validation_report result) s
    else fail_judging_update env v (some (build_validation_report result)) s

unfoldable pub update_built :
    Workbench
    → ProblemValidation
    → PendingJudgingChange
    → String
    → Option PrepareJudgingFailure
    → Store
    → Result (Unit {0}) × Store
update_built env v change slug (some f) s =
    fail_judging_update env v (some (build_judging_failure_report f)) s
update_built env v change slug none s =
    update_validated env v change slug (env.validate (some (judging_candidate_of change slug v.id)))
      s

unfoldable pub update_prepared :
    Workbench
    → ProblemValidation
    → PendingJudgingChange
    → String
    → Result PrepareJudgingOutput
    → Store
    → Result (Unit {0}) × Store
update_prepared env v change slug (err e) s = fail_judging_update env v none s
update_prepared env v change slug (ok prep) s = update_built env v change slug prep.failure s

-- `executeJudgingUpdate`, or what `Execute` does for a draft.
unfoldable pub run :
    Workbench
    → String
    → ProblemValidation
    → Option PendingJudgingChange
    → Store
    → Result (Unit {0}) × Store
run env slug v none s = conclude_prepared env v (env.prepare none) s
run env slug v (some change) s =
    update_prepared env v change slug (env.prepare (some (judging_candidate_of change slug v.id))) s

-- From the branch on `IsJudgingUpdate` on, with the ticket that the run holds.
unfoldable pub conclude : Workbench → String → ProblemValidation → Store → Result (Unit {0}) × Store
conclude env slug v s = run env slug v v.pending_change s

-- The started ticket is held only once it is saved.
abbrev pub held_if :
    ProblemValidation → Result (Unit {0}) × Store → Result (Option ProblemValidation) × Store
held_if v (err e, s) = (err e, s)
held_if v (ok _, s) = (ok (some v), s)

unfoldable pub begin_found :
    Workbench → ProblemValidation → Store → Result (Option ProblemValidation) × Store
begin_found env v s =
    if is_pending v.status
    then elim (start v) [ err e ↦ (err e, s) | ok w ↦ held_if w (store_ticket env.start_fault w s) ]
    else (ok none, s)

-- Up to the branch: the ticket that the run holds from here, if it is to be run.
unfoldable pub begin : Workbench → String → Store → Result (Option ProblemValidation) × Store
begin env id s = elim (find_by_id id s.tickets) [ err e ↦ (err e, s) | ok v ↦ begin_found env v s ]

unfoldable pub continue :
    Workbench → String → Result (Option ProblemValidation) × Store → Result (Unit {0}) × Store
continue env slug (err e, s) = (err e, s)
continue env slug (ok none, s) = (ok tt, s)
continue env slug (ok (some v), s) = conclude env slug v s

-- `Execute`, when nothing else writes meanwhile.
unfoldable pub execute : Workbench → String → String → Store → Result (Unit {0}) × Store
execute env id slug s = continue env slug (begin env id s)
