-- ===== src/Problem/Tickets.antt =====
-- internal/domain/problem/problem_validation.go, problem_validation_status.go and
-- pending_judging_change.go: the tickets of validation; and the queries on their table in
-- internal/adapter/problem/problem_validation_repository.go and stale_validation_recoverer.go. The
-- table is the rows of one problem, the last inserted first. Its index
-- idx_problem_validations_active_per_problem allows one row that is pending or running.
use training_center_back.Prelude.{
  ℕ, suc, String, Bool, true, false, Option, none, some, List, [], ◌∷◌, ltb, str_eq, is_some, ◌||◌,
  ◌&&◌, if◌then◌else◌,
}
use training_center_back.Apperror.{Result, ok, err, internal, conflict, not_found, ◌>>=◌}
use training_center_back.Problem.Aggregate.{JudgingFile}

pub data ValidationStatus : Type 0 where
  pending running passed failed system_error : ValidationStatus

abbrev pub is_pending : ValidationStatus → Bool
is_pending pending = true
is_pending _ = false

abbrev pub is_running : ValidationStatus → Bool
is_running running = true
is_running _ = false

abbrev pub is_passed : ValidationStatus → Bool
is_passed passed = true
is_passed _ = false

abbrev pub is_final : ValidationStatus → Bool
is_final pending = false
is_final running = false
is_final _ = true

pub record PendingJudgingChange : Type 0 where
  pub test_cases_key : Option String
  pub checker : Option JudgingFile

unfoldable pub new_pending_judging_change :
    Option String → Option JudgingFile → Result PendingJudgingChange
new_pending_judging_change none none = err internal
new_pending_judging_change key checker = ok (record { test_cases_key = key; checker = checker })

-- `ValidationReport`, without its log lines, which repeat the other fields for display.
pub record ValidationSummary : Type 0 where
  pub sample_cases : ℕ
  pub secret_cases : ℕ
  pub solutions_tested : ℕ
  pub all_passed : Bool

pub record FailedTestCase : Type 0 where
  pub test_case : String
  pub verdict : String
  pub expected : List ℕ
  pub actual : List ℕ
  pub details : String
  pub time_limit : Option ℕ

pub record CompilationErrors : Type 0 where
  pub file : String
  pub errors : List (List ℕ)

pub record FailedInput : Type 0 where
  pub file : String
  pub reason : List ℕ

pub record ValidationReport : Type 0 where
  pub validation_summary : Option ValidationSummary
  pub failed_test_cases : List FailedTestCase
  pub compilation_errors : Option CompilationErrors
  pub failed_inputs : List FailedInput

pub record ProblemValidation : Type 0 where
  pub id : String
  pub problem_id : String
  pub requested_by : String
  pub status : ValidationStatus
  pub requested_at : ℕ
  pub completed_at : Option ℕ
  pub result : Option ValidationReport
  pub pending_change : Option PendingJudgingChange
  pub publish_on_pass : Bool

abbrev pub is_judging_update : ProblemValidation → Bool
is_judging_update v = is_some v.pending_change

unfoldable pub new_problem_validation : String → String → String → ℕ → Result ProblemValidation
new_problem_validation id problem_id requested_by now =
    if str_eq id "" || str_eq problem_id ""
    then err internal
    else ok (record {
      id = id;
      problem_id = problem_id;
      requested_by = requested_by;
      status = pending;
      requested_at = now;
      completed_at = none;
      result = none;
      pending_change = none;
      publish_on_pass = true;
    })

unfoldable pub new_check_only_validation : String → String → String → ℕ → Result ProblemValidation
new_check_only_validation id problem_id requested_by now =
    new_problem_validation id problem_id requested_by now >>= λ v.
    ok (record v { publish_on_pass = false })

unfoldable pub new_judging_update_validation :
    String → String → String → PendingJudgingChange → ℕ → Result ProblemValidation
new_judging_update_validation id problem_id requested_by change now =
    new_problem_validation id problem_id requested_by now >>= λ v.
    ok (record v { pending_change = some change })

unfoldable pub start : ProblemValidation → Result ProblemValidation
start v = if is_pending v.status then ok (record v { status = running }) else err internal

unfoldable pub mark_final : ValidationReport → ℕ → ProblemValidation → Result ProblemValidation
mark_final report now v =
    if is_running v.status
    then ok (record v { completed_at = some now; result = some report })
    else err internal

unfoldable pub mark_passed : ValidationReport → ℕ → ProblemValidation → Result ProblemValidation
mark_passed report now v = mark_final report now v >>= λ w. ok (record w { status = passed })

unfoldable pub mark_failed : ValidationReport → ℕ → ProblemValidation → Result ProblemValidation
mark_failed report now v = mark_final report now v >>= λ w. ok (record w { status = failed })

unfoldable pub mark_system_error :
    ValidationReport → ℕ → ProblemValidation → Result ProblemValidation
mark_system_error report now v =
    mark_final report now v >>= λ w. ok (record w { status = system_error })

-- The rows that the partial index is over.
unfoldable pub count_active : List ProblemValidation → ℕ
count_active [] = 0
count_active (v ∷ vs) = let rest = count_active vs in if is_final v.status then rest else suc rest

-- `ON CONFLICT (id) DO UPDATE`: only these columns of a row that is there change.
abbrev pub overwrite_row : ProblemValidation → ProblemValidation → ProblemValidation
overwrite_row v row = record row {
  status = v.status;
  completed_at = v.completed_at;
  result = v.result;
}

unfoldable pub has_row : String → List ProblemValidation → Bool
has_row id [] = false
has_row id (v ∷ vs) = str_eq v.id id || has_row id vs

unfoldable pub update_rows : ProblemValidation → List ProblemValidation → List ProblemValidation
update_rows v [] = []
update_rows v (row ∷ rows) =
    let rest = update_rows v rows in
    if str_eq row.id v.id then overwrite_row v row ∷ rest else row ∷ rest

abbrev pub upsert : ProblemValidation → List ProblemValidation → List ProblemValidation
upsert v rows = if has_row v.id rows then update_rows v rows else v ∷ rows

unfoldable pub save : ProblemValidation → List ProblemValidation → Result (List ProblemValidation)
save v rows =
    if ltb 1 (count_active (upsert v rows))
    then err (conflict "VALIDATION_IN_PROGRESS")
    else ok (upsert v rows)

unfoldable pub find_by_id : String → List ProblemValidation → Result ProblemValidation
find_by_id id [] = err (not_found "NOT_FOUND")
find_by_id id (v ∷ vs) = let rest = find_by_id id vs in if str_eq v.id id then ok v else rest

abbrev pub later : ProblemValidation → Option ProblemValidation → ProblemValidation
later v none = v
later v (some w) = if ltb v.requested_at w.requested_at then w else v

-- `ORDER BY requested_at DESC LIMIT 1`; of equal times the one inserted last.
unfoldable pub find_latest : List ProblemValidation → Option ProblemValidation
find_latest [] = none
find_latest (v ∷ vs) = some (later v (find_latest vs))

abbrev pub recovered : ℕ → ProblemValidation → ProblemValidation
recovered now v = record v { status = system_error; completed_at = some now }

-- The cutoff comes first, then the time of the sweep.
unfoldable pub recover_stale_before : ℕ → ℕ → List ProblemValidation → List ProblemValidation
recover_stale_before cutoff now [] = []
recover_stale_before cutoff now (v ∷ vs) =
    let rest = recover_stale_before cutoff now vs in
    if is_running v.status && ltb v.requested_at cutoff then recovered now v ∷ rest else v ∷ rest
