-- ===== src/Judge/Attempt.antt =====
-- internal/application/judge/judge_submission.go, `judgeAttempt`: compile, run every test case and
-- check its output, until the first that is not passed.
use training_center_back.Prelude.{
  ℕ, suc, String, Bool, true, false, Option, none, some, List, [], ◌∷◌, ◌++◌, ltb, ◌==◌,
  if◌then◌else◌,
}
use training_center_back.Apperror.{Error, Result, ok, err}
use training_center_back.Submission.{
  Submission, mark_accepted, mark_wrong_answer, mark_time_limit_exceeded,
  mark_memory_limit_exceeded, mark_output_limit_exceeded, mark_runtime_error,
  mark_compilation_error,
}

pub record TestCase : Type 0 where
  pub name : String
  pub input : String
  pub expected_output : String

pub record ProblemLimits : Type 0 where
  pub time_limit_ms : ℕ
  pub memory_kb : ℕ
  pub has_custom_checker : Bool
  pub checker_path : String
  pub checker_language : String

pub record CompileResult : Type 0 where
  pub success : Bool
  pub log : String

pub record RunResult : Type 0 where
  pub exit_code : ℕ
  pub time_ms : ℕ
  pub memory_kb : Option ℕ
  pub output_limit_exceeded : Bool
  pub output_preview : String

-- What the sandbox answers in one attempt. A run and a check are told which test case they are at,
-- because a session keeps files between calls; `finished_at` is the clock when the verdict is set.
pub record Sandbox : Type 0 where
  pub begin_session : String → ℕ → Result (Unit {0})
  pub compile : String → String → Result CompileResult
  pub begin_checking : String → String → Result (Unit {0})
  pub run_test_case : ℕ → TestCase → Result RunResult
  pub check : ℕ → TestCase → Result Bool
  pub finished_at : ℕ

-- The containers that an attempt claims and gives back.
pub data Effect : Type 0 where
  session_opened checker_opened checker_closed session_closed : Effect

-- What `judgeAttempt` returns, the submission that it mutates, and what it claimed meanwhile.
pub record Outcome : Type 0 where
  pub should_retry : Bool
  pub error : Option Error
  pub sub : Submission
  pub effects : List Effect

abbrev pub exit_code_tle : ℕ
exit_code_tle = 124

abbrev pub exit_code_mle : ℕ
exit_code_mle = 137

-- `_ = sub.MarkX(...)`: an error of the transition is dropped.
abbrev pub ignoring : Submission → Result Submission → Submission
ignoring s (ok t) = t
ignoring s (err e) = s

abbrev pub failed : Error → Submission → Outcome
failed e s = record { should_retry = true; error = some e; sub = s; effects = [] }

abbrev pub settled : Submission → Result Submission → Outcome
settled s r = record { should_retry = false; error = none; sub = ignoring s r; effects = [] }

-- `defer x.Close(ctx)`: the close comes when the rest has returned.
abbrev pub bracketed : Effect → Effect → Outcome → Outcome
bracketed opened closed o = record o { effects = opened ∷ o.effects ++ closed ∷ [] }

abbrev pub max_memory : Option ℕ → Option ℕ → Option ℕ
max_memory best none = best
max_memory none (some m) = some m
max_memory (some b) (some m) = if ltb b m then some m else some b

-- One round of the loop over the test cases: it returns from the function, or goes on with the
-- time and memory of a passed case.
pub data Round : Type 0 where
  stop : Outcome → Round
  passed : ℕ → Option ℕ → Round

-- `checked` is what the checker says if it is asked: it is only read where the source asks it.
unfoldable pub judge_case : ProblemLimits → Submission → ℕ → Result RunResult → Result Bool → Round
judge_case limits sub now (err e) checked = stop (failed e sub)
judge_case limits sub now (ok r) checked =
    if r.output_limit_exceeded
    then stop (settled sub (mark_output_limit_exceeded sub r.time_ms r.memory_kb now))
    else if r.exit_code == exit_code_tle
    then stop (settled sub (mark_time_limit_exceeded sub r.time_ms now))
    else if r.exit_code == exit_code_mle
    then stop (settled sub (mark_memory_limit_exceeded sub r.memory_kb now))
    else if r.exit_code == 0
    then (if ltb limits.time_limit_ms r.time_ms
        then stop (settled sub (mark_time_limit_exceeded sub r.time_ms now))
        else elim checked [
          | err e ↦ stop (failed e sub)
          | ok false ↦ stop (settled sub (mark_wrong_answer sub r.time_ms r.memory_kb now))
          | ok true ↦ passed r.time_ms r.memory_kb
        ])
    else stop (settled sub (mark_runtime_error sub r.time_ms r.memory_kb now))

abbrev pub max_time : ℕ → ℕ → ℕ
max_time best t = if ltb best t then t else best

unfoldable pub judge_cases :
    Sandbox → ProblemLimits → Submission → List TestCase → ℕ → ℕ → Option ℕ → Outcome
judge_cases box limits sub [] n max_time_ms max_memory_kb =
    settled sub (mark_accepted sub max_time_ms max_memory_kb box.finished_at)
judge_cases box limits sub (tc ∷ tcs) n max_time_ms max_memory_kb =
    elim (judge_case limits sub box.finished_at (box.run_test_case n tc) (box.check n tc)) [
      | stop o ↦ o
      | passed time memory ↦
          judge_cases box limits sub tcs (suc n) (max_time max_time_ms time)
            (max_memory max_memory_kb memory)
    ]

-- From the opened checker session on.
unfoldable pub judge_checked : Sandbox → ProblemLimits → Submission → List TestCase → Outcome
judge_checked box limits sub tcs =
    elim (box.begin_checking limits.checker_path limits.checker_language) [
      | err e ↦ failed e sub
      | ok _ ↦ bracketed checker_opened checker_closed (judge_cases box limits sub tcs 0 0 none)
    ]

-- From the opened execution session on.
unfoldable pub judge_compiled :
    Sandbox → ProblemLimits → Submission → String → List TestCase → Outcome
judge_compiled box limits sub source_code tcs = elim (box.compile sub.language source_code) [
  | err e ↦ failed e sub
  | ok c ↦
      if c.success
      then judge_checked box limits sub tcs
      else settled sub (mark_compilation_error sub c.log box.finished_at)
]

unfoldable pub judge_attempt :
    Sandbox → Submission → String → ProblemLimits → List TestCase → Outcome
judge_attempt box sub source_code limits tcs =
    elim (box.begin_session sub.language limits.memory_kb) [
      | err e ↦ failed e sub
      | ok _ ↦
          bracketed session_opened session_closed (judge_compiled box limits sub source_code tcs)
    ]
