-- ===== src/Problem/Uploads.antt =====
-- internal/application/problem/upload_files.go: uploading a file of a draft, and staging a new file
-- of a published problem for a judging update. The keys that the use case deletes are part of its
-- report.
use training_center_back.Prelude.{
  String, Bool, true, false, Option, none, some, List, [], str_eq, not, ◌&&◌, if◌then◌else◌,
}
use training_center_back.Apperror.{
  Error, Result, ok, err, forbidden, bad_request, fail_if, ◌>>=◌, ◌>>◌,
}
use training_center_back.Group.Operations.{CurrentUser, write}
use training_center_back.Problem.Aggregate.{Problem, is_published}
use training_center_back.Problem.Tickets.{
  ProblemValidation, PendingJudgingChange, new_pending_judging_change,
  new_judging_update_validation, save, start, mark_system_error,
}
use training_center_back.Problem.Store.{Store, locate, require_editor, ensure_no_active_validation}
use training_center_back.Problem.Reports.{blank}
use training_center_back.Problem.Checks.{store_ticket, dropping}
use training_center_back.Problem.Editing.{FileType, test_cases, checker, file_type_of, saved}
use training_center_back.Problem.Files.{
  Uploading, FileAction, no_action, Handled, handle_test_cases, handle_checker, handle,
}

-- The problem that is stored in the end, and the keys and the prefix that are deleted.
pub record UploadReport : Type 0 where
  pub outcome : Result Problem
  pub deleted : List String
  pub deleted_prefix : String

abbrev pub stopped : Error → List String → UploadReport
stopped e deleted = record { outcome = err e; deleted = deleted; deleted_prefix = "" }

abbrev pub settle : FileAction → Result Problem → UploadReport
settle action (err e) = stopped e action.rollback_files
settle action (ok p) = record {
  outcome = ok p;
  deleted = action.cleanup_files;
  deleted_prefix = action.cleanup_prefix;
}

-- The handler, the save, and what each failure cleans up.
unfoldable pub save_handled : Uploading → Handled → UploadReport
save_handled env h = settle h.action (h.outcome >>= saved env.edit)

-- The checks on a draft.
unfoldable pub check_upload : Uploading → CurrentUser → Problem → Store → Result (Unit {0})
check_upload env caller p s =
    require_editor caller p >> ensure_no_active_validation env.edit.lookup s

unfoldable pub upload_on_draft :
    Uploading → CurrentUser → Problem → String → String → Store → UploadReport
upload_on_draft env caller p file_type name s = elim (check_upload env caller p s) [
  | err e ↦ stopped e []
  | ok _ ↦ save_handled env (handle env (file_type_of (env.edit.to_lower file_type)) p name)
]

-- What a judging update may replace: the answer is whether it is the test cases.
abbrev staged_type : Option FileType → Result Bool
staged_type (some test_cases) = ok true
staged_type (some checker) = ok false
staged_type _ = err (bad_request "PROBLEM_IS_PUBLISHED")

unfoldable pub check_staging :
    Uploading → CurrentUser → Problem → String → String → Store → Result Bool
check_staging env caller p file_type confirm s =
    staged_type (file_type_of (env.edit.to_lower file_type)) >>= λ is_tests.
    env.edit.in_active_contest p.id >>= λ active.
    fail_if (not active) (bad_request "PROBLEM_IS_PUBLISHED")
    >> fail_if (not (str_eq p.author_id caller.id) && not caller.is_admin)
        (forbidden "INSUFFICIENT_PERMISSIONS")
    >> fail_if (not (str_eq confirm p.slug)) (bad_request "SLUG_MISMATCH")
    >> ensure_no_active_validation env.edit.lookup s
    >> ok is_tests

-- `stageJudgingChange`: the handler on a copy of the problem, which is never saved.
unfoldable pub staged : Uploading → Problem → String → Bool → Handled
staged env p name true = handle_test_cases env p
staged env p name false = handle_checker env p env.validation_id name

unfoldable pub change_of : Bool → Problem → Result PendingJudgingChange
change_of true p = new_pending_judging_change p.test_cases_key none
change_of false p = new_pending_judging_change none p.checker

abbrev pub ticket_of :
    Uploading → CurrentUser → Problem → PendingJudgingChange → Result ProblemValidation
ticket_of env caller p change =
    new_judging_update_validation env.validation_id p.id caller.id change env.edit.now

-- The answer is the identifier of the ticket; the keys are those that are deleted.
pub record StagingReport : Type 0 where
  pub outcome : Result String
  pub deleted : List String
  pub store : Store

-- `abandonJudgingUpdate`: the ticket that was not queued is started and closed.
unfoldable pub abandon_judging_update : Uploading → ProblemValidation → Store → Store
abandon_judging_update env v s = elim (start v) [
  | err e ↦ s
  | ok w ↦ (store_ticket env.close_fault (dropping w (mark_system_error blank env.edit.now w)) s).1
]

unfoldable pub queue_update : Uploading → FileAction → ProblemValidation → Store → StagingReport
queue_update env action v s = elim env.queue_fault [
  | none ↦ record { outcome = ok v.id; deleted = []; store = s }
  | some e ↦ record {
    outcome = err e;
    deleted = action.rollback_files;
    store = abandon_judging_update env v s;
  }
]

abbrev pub not_staged : FileAction → Store → Error → StagingReport
not_staged action s e = record { outcome = err e; deleted = action.rollback_files; store = s }

-- From the staged files on.
unfoldable pub open_update :
    Uploading → CurrentUser → Problem → Bool → Handled → Store → StagingReport
open_update env caller p is_tests h s =
    elim (h.outcome >>= λ q. change_of is_tests q >>= ticket_of env caller p) [
      | err e ↦ not_staged h.action s e
      | ok v ↦ elim (write env.ticket_fault (save v s.tickets)) [
        | err e ↦ not_staged h.action s e
        | ok rows ↦ queue_update env h.action v (record s { tickets = rows })
      ]
    ]

unfoldable pub execute_on_published :
    Uploading → CurrentUser → Problem → String → String → String → Store → StagingReport
execute_on_published env caller p file_type name confirm s =
    elim (check_staging env caller p file_type confirm s) [
      | err e ↦ not_staged no_action s e
      | ok is_tests ↦ open_update env caller p is_tests (staged env p name is_tests) s
    ]

-- What `Execute` does, on a draft and on a published problem.
pub data UploadResult : Type 0 where
  not_found_result : Error → UploadResult
  draft_result : UploadReport → UploadResult
  published_result : StagingReport → UploadResult

unfoldable pub upload_problem_files :
    Uploading → CurrentUser → String → String → String → String → Store → UploadResult
upload_problem_files env caller raw file_type name confirm s = elim (locate env.edit.lookup raw s) [
  | err e ↦ not_found_result e
  | ok p ↦
      if is_published p
      then published_result (execute_on_published env caller p file_type name confirm s)
      else draft_result (upload_on_draft env caller p file_type name s)
]
