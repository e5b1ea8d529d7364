-- ===== src/Judge/Examples.antt =====
-- The theorems on judging at a concrete submission with two test cases, in a sandbox where the
-- second attempt gives the verdict.
use training_center_back.Prelude.{
  ℕ, zero, suc, ◌+◌, ◌*◌, ◌^◌, ◌≤◌, true, false, none, some, List, [], ◌∷◌, ◌≡◌, refl, ◌↔◌, ◌⊎◌,
  arith,
}
use training_center_back.Apperror.{fault, Result, ok, err}
use training_center_back.Submission.Statuses.{pending, running, accepted, is_final}
use training_center_back.Submission.{Submission, Visibility, start, mark_accepted}
use training_center_back.Judge.Solutions.{Solution, Bench, check_solution}
use training_center_back.Judge.Agreement.{Agrees, check_solution-judge_attempt}
use training_center_back.Judge.Attempt.{
  Outcome, TestCase, ProblemLimits, RunResult, Sandbox, session_opened, session_closed,
  checker_opened, checker_closed, judge_attempt, judge_compiled, judge_checked, judge_cases,
  judge_case,
}
use training_center_back.Judge.Execute.{
  RetryConfig, Env, execute, claim_and_judge, judge_claimed, conclude, persist_verdict, judge_loop,
}
use training_center_back.Judge.Verdicts.{Settles, judge_attempt-Settles, judge_attempt-effects}
use training_center_back.Judge.Accepted.{IsReady, built, judge_attempt-accepted_iff}
use training_center_back.Judge.Passing.{AllPass}
use training_center_back.Judge.Retries.{
  first_settled, verdict_or_system_error, execute-written-IsFinal, execute-written,
}
use training_center_back.Judge.Waits.{total, doubling, retries, judge_loop-waits}

abbrev waiting : Submission
waiting = record {
  id = "s1";
  problem_id = "p1";
  problem_title = "Sum";
  problem_slug = "sum";
  user_id = "u1";
  contest_id = none;
  standing_id = none;
  language = "go";
  compiler = "go1.22";
  status = pending;
  visibility = Visibility.private;
  source_code_path = "a/b";
  file_hash = "ff";
  file_size = 120;
  submitted_at = 40;
  judged_at = none;
  time_ms = none;
  memory_kb = none;
  compile_log = none;
  workspace_xml_path = none;
}

abbrev taken : Submission
taken = record waiting { status = running }

abbrev limits : ProblemLimits
limits = record {
  time_limit_ms = 1000;
  memory_kb = 65536;
  has_custom_checker = false;
  checker_path = "";
  checker_language = "";
}

abbrev cases : List TestCase
cases =
    record { name = "sample/1"; input = "1 2"; expected_output = "3" }
    ∷ record { name = "secret/1"; input = "2 2"; expected_output = "4" }
    ∷ []

abbrev answers : ℕ → TestCase → Result RunResult
answers zero tc = ok (record {
  exit_code = 0;
  time_ms = 30;
  memory_kb = some 900;
  output_limit_exceeded = false;
  output_preview = "3";
})
answers (suc n) tc = ok (record {
  exit_code = 0;
  time_ms = 20;
  memory_kb = none;
  output_limit_exceeded = false;
  output_preview = "3";
})

abbrev working : Sandbox
working = record {
  begin_session = λ l m. ok tt;
  compile = λ l s. ok (record { success = true; log = "" });
  begin_checking = λ p l. ok tt;
  run_test_case = answers;
  check = λ n tc. ok true;
  finished_at = 90;
}

abbrev broken : Sandbox
broken = record working { begin_session = λ l m. err (fault 1) }

abbrev boxes : ℕ → Sandbox
boxes zero = broken
boxes (suc n) = working

abbrev env : Env
env = record {
  get_by_id = λ id. ok waiting;
  claim = λ id. ok true;
  download = λ p. ok "package main";
  get_limits = λ id. ok limits;
  get_test_cases = λ id. ok cases;
  sandbox = boxes;
  update = λ s. ok tt;
  commit = ok tt;
  started_at = 50;
  ended_at = 95;
}

abbrev twice : RetryConfig
twice = record { max_attempts = 2; backoff_base = 500 }

abbrev passing : Submission
passing = record taken {
  status = accepted;
  time_ms = some 30;
  memory_kb = some 900;
  judged_at = some 90;
}

attempt_passes : (judge_attempt working taken "package main" limits cases).sub ≡ passing
unfolding judge_attempt judge_compiled judge_checked judge_cases judge_case mark_accepted
attempt_passes = refl

attempt_accepts : (judge_attempt working taken "package main" limits cases).sub.status ≡ accepted
unfolding judge_attempt judge_compiled judge_checked judge_cases judge_case mark_accepted
attempt_accepts = refl

judge_attempt-accepted_iff_example :
    ((judge_attempt working taken "package main" limits cases).sub.status ≡ accepted)
    ↔ (IsReady working taken "package main" limits × AllPass working limits 0 cases)
judge_attempt-accepted_iff_example =
    judge_attempt-accepted_iff working taken "package main" limits cases refl

judge_attempt-Settles_example :
    Settles taken (judge_attempt broken taken "package main" limits cases)
judge_attempt-Settles_example = judge_attempt-Settles broken taken "package main" limits cases refl

judge_attempt-effects_example :
    let held = (judge_attempt working taken "package main" limits cases).effects in
    (held ≡ [])
    ⊎ (held ≡ session_opened ∷ session_closed ∷ [])
    ⊎ ((held ≡ session_opened ∷ checker_opened ∷ checker_closed ∷ session_closed ∷ [])
        × (built (working.compile "go" "package main") ≡ true))
judge_attempt-effects_example = judge_attempt-effects working taken "package main" limits cases

written_passing : (execute env twice "s1").written ≡ some passing
unfolding execute start claim_and_judge judge_claimed judge_loop judge_attempt judge_compiled
    judge_checked judge_cases judge_case mark_accepted conclude persist_verdict
written_passing = refl

execute-written-IsFinal_example : is_final passing.status ≡ true
execute-written-IsFinal_example =
    execute-written-IsFinal env twice "s1" {t = passing} (omega arith) written_passing

execute-written_example :
    (execute env twice "s1").written
    ≡ some (
        verdict_or_system_error 95 taken
          (first_settled (λ k. judge_attempt (boxes k) taken "package main" limits cases) 2 0))
execute-written_example =
    execute-written env twice "s1" waiting "package main" limits cases (omega arith) refl refl refl
      refl refl refl (λ s. refl) refl

abbrev trial : ℕ → Submission → Outcome
trial k s = judge_attempt (boxes k) s "package main" limits cases

judge_loop-waits_example :
    ((judge_loop trial twice 2 0 taken none []).slept ≡ doubling 500 (retries trial 1 0 taken))
    × (total (judge_loop trial twice 2 0 taken none []).slept + 500
        ≡ 500 * 2 ^ retries trial 1 0 taken)
    × (retries trial 1 0 taken ≤ 1)
judge_loop-waits_example = judge_loop-waits trial twice 1 taken (omega arith)

abbrev own_bench : Bench
own_bench = record { box = working; message = λ n. ""; download = λ key. ok "package main" }

abbrev own : Solution
own = record { file_key = "s/1"; language = taken.language }

check_solution-judge_attempt_example :
    Agrees
      (check_solution own_bench own limits cases)
      (judge_attempt working taken "package main" limits cases)
check_solution-judge_attempt_example =
    check_solution-judge_attempt own_bench limits taken cases refl own "package main" refl refl
