-- ===== src/Submission/Examples.antt =====
-- The theorems on submissions at concrete inputs.
use training_center_back.Prelude.{ℕ, List, ◌≤◌, none, some, [], ◌∷◌, ◌≡◌, refl, suc}
use training_center_back.Apperror.{ok}
use training_center_back.Submission.Statuses.{pending, running, accepted}
use training_center_back.Submission.{Submission, Visibility, new_submission, mark_accepted}
use training_center_back.Submission.Lifecycle.{
  Method, calls, attaches_blockly_workspace, relabelled, starts, accepts, answers_wrong, apply, run,
  phase, IsConsistent, apply-phase, run_of_final, new_submission-run-IsConsistent,
}

abbrev sent : Submission
sent = record {
  id = "s1";
  problem_id = "p1";
  problem_title = "Sum";
  problem_slug = "sum";
  user_id = "u1";
  contest_id = some "c1";
  standing_id = none;
  language = "go";
  compiler = "go1.22";
  status = pending;
  visibility = Visibility.private;
  source_code_path = "a/b";
  file_hash = "ff";
  file_size = 120;
  submitted_at = 40;
  judged_at = none;
  time_ms = none;
  memory_kb = none;
  compile_log = none;
  workspace_xml_path = none;
}

abbrev started : Submission
started = record sent { status = running }

abbrev judged : Submission
judged = record sent {
  status = accepted;
  judged_at = some 90;
  time_ms = some 12;
  memory_kb = some 800;
}

started_accepts : apply (accepts 12 (some 800)) started 90 ≡ ok judged
unfolding apply mark_accepted
started_accepts = refl

apply-phase_example :
    (phase judged.status ≡ suc (phase started.status))
    × (phase judged.status ≤ 2)
    × (judged.id ≡ started.id)
    × (judged.user_id ≡ started.user_id)
    × (judged.problem_id ≡ started.problem_id)
    × (judged.contest_id ≡ started.contest_id)
    × (judged.language ≡ started.language)
    × (judged.source_code_path ≡ started.source_code_path)
    × (judged.submitted_at ≡ started.submitted_at)
apply-phase_example = apply-phase (accepts 12 (some 800)) started 90 {t = judged} started_accepts

abbrev after_judgement : List (Method × ℕ)
after_judgement =
    (calls starts, 95)
    ∷ (attaches_blockly_workspace "w/1", 96)
    ∷ (calls (answers_wrong 3 none), 97)
    ∷ []

run_of_final_example : run judged after_judgement ≡ relabelled judged (run judged after_judgement)
run_of_final_example = run_of_final judged after_judgement refl

abbrev history : List (Method × ℕ)
history =
    (calls (answers_wrong 1 none), 50)
    ∷ (calls starts, 60)
    ∷ (calls (accepts 12 (some 800)), 90)
    ∷ []

sent_made :
    new_submission "s1" "p1" "u1" (some "c1") none "go" "go1.22" "a/b" "ff" 120 "Sum" "sum" 40
    ≡ ok sent
unfolding new_submission
sent_made = refl

new_submission-run-IsConsistent_example : IsConsistent (run sent history)
new_submission-run-IsConsistent_example =
    new_submission-run-IsConsistent "s1" "p1" "u1" (some "c1") none "go" "go1.22" "a/b" "ff" 120
      "Sum" "sum" 40 {s = sent} sent_made history
