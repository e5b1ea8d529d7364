-- ===== src/Submission.antt =====
-- internal/domain/submission: a submission, its status and the transitions between statuses.
-- Instants are nanoseconds since the zero time. A method that mutates the receiver returns the
-- new record. Identifiers, paths and hashes are texts; the accessors are the record's fields.
pub mod Statuses
pub mod Lifecycle
mod Examples
use training_center_back.Prelude.{
  ℕ, String, Bool, true, false, Option, none, some, str_eq, if◌then◌else◌, is_some, not,
}
use training_center_back.Apperror.{Result, ok, err, internal, ◌>>=◌}
use Statuses.{
  Status, pending, running, accepted, wrong_answer, time_limit_exceeded, memory_limit_exceeded,
  output_limit_exceeded, runtime_error, compilation_error, system_error, is_pending, is_running,
}

pub data Visibility : Type 0 where
  private public : Visibility

pub record Submission : Type 0 where
  pub id : String
  pub problem_id : String
  pub problem_title : String
  pub problem_slug : String
  pub user_id : String
  pub contest_id : Option String
  pub standing_id : Option String
  pub language : String
  pub compiler : String
  pub status : Status
  pub visibility : Visibility
  pub source_code_path : String
  pub file_hash : String
  pub file_size : ℕ
  pub submitted_at : ℕ
  pub judged_at : Option ℕ
  pub time_ms : Option ℕ
  pub memory_kb : Option ℕ
  pub compile_log : Option String
  pub workspace_xml_path : Option String

pub is_blockly : Submission → Bool
is_blockly s = is_some s.workspace_xml_path

pub set_visibility : Submission → Visibility → Submission
set_visibility s v = record s { visibility = v }

pub attach_blockly_workspace : Submission → String → Submission
attach_blockly_workspace s path = record s { workspace_xml_path = some path }

unfoldable pub new_submission :
    (id problem_id user_id : String) (contest_id standing_id : Option String)
    (lang compiler source_code_path file_hash : String) (file_size : ℕ)
    (problem_title problem_slug : String) (now : ℕ)
    → Result Submission
new_submission id problem_id user_id contest_id standing_id lang compiler path hash size title slug
      now =
    if str_eq id ""
    then err internal
    else ok (record {
      id = id;
      problem_id = problem_id;
      problem_title = title;
      problem_slug = slug;
      user_id = user_id;
      contest_id = contest_id;
      standing_id = standing_id;
      language = lang;
      compiler = compiler;
      status = pending;
      visibility = private;
      source_code_path = path;
      file_hash = hash;
      file_size = size;
      submitted_at = now;
      judged_at = none;
      time_ms = none;
      memory_kb = none;
      compile_log = none;
      workspace_xml_path = none;
    })

unfoldable pub start : Submission → ℕ → Result Submission
start s now = if not (is_pending s.status) then err internal else ok (record s { status = running })

-- The guard that all transitions to a final status share.
unfoldable pub mark_final : Submission → ℕ → Result Submission
mark_final s now =
    if not (is_running s.status) then err internal else ok (record s { judged_at = some now })

unfoldable pub mark_accepted : Submission → ℕ → Option ℕ → ℕ → Result Submission
unfolding mark_final
mark_accepted s time memory now = do
  t ← mark_final s now
  ok (record t { status = accepted; time_ms = some time; memory_kb = memory })

unfoldable pub mark_wrong_answer : Submission → ℕ → Option ℕ → ℕ → Result Submission
unfolding mark_final
mark_wrong_answer s time memory now = do
  t ← mark_final s now
  ok (record t { status = wrong_answer; time_ms = some time; memory_kb = memory })

unfoldable pub mark_time_limit_exceeded : Submission → ℕ → ℕ → Result Submission
unfolding mark_final
mark_time_limit_exceeded s time now = do
  t ← mark_final s now
  ok (record t { status = time_limit_exceeded; time_ms = some time })

unfoldable pub mark_memory_limit_exceeded : Submission → Option ℕ → ℕ → Result Submission
unfolding mark_final
mark_memory_limit_exceeded s memory now = do
  t ← mark_final s now
  ok (record t { status = memory_limit_exceeded; memory_kb = memory })

unfoldable pub mark_output_limit_exceeded : Submission → ℕ → Option ℕ → ℕ → Result Submission
unfolding mark_final
mark_output_limit_exceeded s time memory now = do
  t ← mark_final s now
  ok (record t { status = output_limit_exceeded; time_ms = some time; memory_kb = memory })

unfoldable pub mark_runtime_error : Submission → ℕ → Option ℕ → ℕ → Result Submission
unfolding mark_final
mark_runtime_error s time memory now = do
  t ← mark_final s now
  ok (record t { status = runtime_error; time_ms = some time; memory_kb = memory })

unfoldable pub mark_compilation_error : Submission → String → ℕ → Result Submission
unfolding mark_final
mark_compilation_error s log now = do
  t ← mark_final s now
  ok (record t { status = compilation_error; compile_log = some log })

unfoldable pub mark_system_error : Submission → ℕ → Result Submission
unfolding mark_final
mark_system_error s now = do t ← mark_final s now; ok (record t { status = system_error })
