-- ===== src/Judge/Agreement.antt =====
-- The check of a problem's own solution beside the judging of a submission: what both make of the
-- same answers of the sandbox.
use training_center_back.Prelude.{
  ℕ, suc, String, Bool, true, false, Option, none, some, List, [], ◌∷◌, ◌≡◌, refl, ap, arith, inl,
  inr, Bool-cases, if◌then◌else◌,
}
use training_center_back.Apperror.{Result, ok, err, Result-cases}
use training_center_back.Submission.Statuses.{
  Status, running, accepted, wrong_answer, time_limit_exceeded, memory_limit_exceeded,
  output_limit_exceeded, runtime_error, compilation_error,
}
use training_center_back.Submission.{
  Submission, mark_accepted, mark_wrong_answer, mark_time_limit_exceeded,
  mark_memory_limit_exceeded, mark_output_limit_exceeded, mark_runtime_error,
  mark_compilation_error,
}
use training_center_back.Judge.Attempt.{
  TestCase, ProblemLimits, RunResult, Outcome, Round, stop, passed, judge_case, judge_cases,
  judge_checked, judge_compiled, judge_attempt, bracketed, settled, Effect, session_opened,
  session_closed, checker_opened, checker_closed, max_time, max_memory, CompileResult,
}
use training_center_back.Judge.Solutions.{
  FailureKind, SolutionFailure, Solution, CaseAnswer, broken, rejected, held, check_case, Bench,
  check_cases, check_built, check_compiled, check_solution, failure,
}
use training_center_back.Judge.Previews.{bytes, truncate_preview}
use training_center_back.Judge.Solutions as Kinds

-- The verdict on a submission that a failure of a solution stands for.
abbrev pub verdict_of : FailureKind → Status
verdict_of Kinds.compile_error = compilation_error
verdict_of Kinds.wrong_answer = wrong_answer
verdict_of Kinds.time_limit_exceeded = time_limit_exceeded
verdict_of Kinds.memory_limit_exceeded = memory_limit_exceeded
verdict_of Kinds.output_limit_exceeded = output_limit_exceeded
verdict_of Kinds.runtime_error = runtime_error

abbrev pub status_of : Option SolutionFailure → Status
status_of none = accepted
status_of (some f) = verdict_of f.kind

-- The same error, to be retried; or the same verdict.
abbrev pub Agrees : Result (Option SolutionFailure) → Outcome → Type 0
Agrees (err e) o = (o.should_retry ≡ true) × (o.error ≡ some e)
Agrees (ok found) o = (o.should_retry ≡ false) × (o.sub.status ≡ status_of found)

abbrev CaseAgrees : CaseAnswer → Round → Type 0
CaseAgrees (broken e) (stop o) = Agrees (err e) o
CaseAgrees (rejected f) (stop o) = Agrees (ok (some f)) o
CaseAgrees held (passed t m) = Unit
CaseAgrees _ _ = true ≡ false

judge_case-check_case :
    (limits : ProblemLimits) (sub : Submission) (now : ℕ) (file_key : String) (tc : TestCase)
    (run : Result RunResult) (checked : Result Bool) (message : String)
    → sub.status ≡ running
    → CaseAgrees
        (check_case limits file_key tc run checked message)
        (judge_case limits sub now run checked)
unfolding check_case judge_case mark_wrong_answer mark_time_limit_exceeded
    mark_memory_limit_exceeded mark_output_limit_exceeded mark_runtime_error
judge_case-check_case limits sub now file_key tc (err e) checked message h = ground arith
judge_case-check_case limits sub now file_key tc (ok r) (err e) message h = ground arith
judge_case-check_case limits sub now file_key tc (ok r) (ok true) message h = ground arith
judge_case-check_case limits sub now file_key tc (ok r) (ok false) message h = ground arith

-- One round of both loops.
round-Agrees :
    (c : CaseAnswer) (r : Round) (rest : Result (Option SolutionFailure))
    (next : ℕ → Option ℕ → Outcome)
    → CaseAgrees c r
    → ((t : ℕ) (m : Option ℕ) → Agrees rest (next t m))
    → Agrees
        (elim c [ broken e ↦ err e | rejected f ↦ ok (some f) | held ↦ rest ])
        (elim r [ stop o ↦ o | passed t m ↦ next t m ])
round-Agrees (broken e) (stop o) rest next a n = a
round-Agrees (rejected f) (stop o) rest next a n = a
round-Agrees held (passed t m) rest next a n = n t m
round-Agrees (broken e) (passed t m) rest next a n = absurd (ground arith)
round-Agrees (rejected f) (passed t m) rest next a n = absurd (ground arith)
round-Agrees held (stop o) rest next a n = absurd (ground arith)

judge_cases-check_cases :
    (bench : Bench) (limits : ProblemLimits) (sub : Submission) (file_key : String)
    (tcs : List TestCase) (n t : ℕ) (m : Option ℕ)
    → sub.status ≡ running
    → Agrees (check_cases bench limits file_key tcs n) (judge_cases bench.box limits sub tcs n t m)
unfolding check_cases judge_cases mark_accepted
judge_cases-check_cases bench limits sub file_key [] n t m h = ground arith
judge_cases-check_cases bench limits sub file_key (tc ∷ tcs) n t m h =
    round-Agrees _ _ _
      (λ time memory.
        judge_cases bench.box limits sub tcs (suc n) (max_time t time) (max_memory m memory))
      (judge_case-check_case limits sub bench.box.finished_at file_key tc
        (bench.box.run_test_case n tc) (bench.box.check n tc) (bench.message n) h)
      (λ time memory.
        judge_cases-check_cases bench limits sub file_key tcs (suc n) (max_time t time)
          (max_memory m memory) h)

bracketed-Agrees :
    (r : Result (Option SolutionFailure)) (opened closed : Effect) (o : Outcome)
    → Agrees r o
    → Agrees r (bracketed opened closed o)
bracketed-Agrees (err e) opened closed o a = a
bracketed-Agrees (ok found) opened closed o a = a

module _ (bench : Bench) (limits : ProblemLimits) (sub : Submission) (tcs : List TestCase)
    (runs : sub.status ≡ running) where
  built-Agrees :
      (file_key : String)
      → Agrees (check_built bench limits file_key tcs) (judge_checked bench.box limits sub tcs)
  unfolding check_built judge_checked
  built-Agrees file_key =
      elim (Result-cases (bench.box.begin_checking limits.checker_path limits.checker_language)) [
        | inl (e, h) ↦ rw (h, judge_checked) (refl, refl)
        | inr (u, h) ↦
            rw (h, judge_checked)
              (bracketed-Agrees (check_cases bench limits file_key tcs 0) checker_opened
                checker_closed _
                (judge_cases-check_cases bench limits sub file_key tcs 0 0 none runs))
      ]

  answered-Agrees :
      (sol : Solution) (source_code : String) (c : CompileResult)
      → Agrees
          (if c.success
            then check_built bench limits sol.file_key tcs
            else ok (
                some (record (failure sol.file_key Kinds.compile_error "") {
                  compile_log = truncate_preview (bytes c.log);
                })))
          (if c.success
            then judge_checked bench.box limits sub tcs
            else settled sub (mark_compilation_error sub c.log bench.box.finished_at))
  answered-Agrees sol source_code c = elim (Bool-cases c.success) [
    | inl h ↦ rw h (built-Agrees sol.file_key)
    | inr h ↦ rw h (unfold mark_compilation_error in (ground (arith, runs), ground (arith, runs)))
  ]

  compiled-Agrees :
      (sol : Solution) (source_code : String)
      → sol.language ≡ sub.language
      → Agrees
          (check_compiled bench sol limits source_code tcs)
          (judge_compiled bench.box limits sub source_code tcs)
  unfolding check_compiled judge_compiled
  compiled-Agrees sol source_code same =
      elim (Result-cases (bench.box.compile sub.language source_code)) [
        | inl (e, h) ↦
            rw (ap (λ l. bench.box.compile l source_code) same, h, judge_compiled) (refl, refl)
        | inr (c, h) ↦
            rw (ap (λ l. bench.box.compile l source_code) same, h, judge_compiled)
              (answered-Agrees sol source_code c)
      ]

  -- A solution whose source is downloaded, checked once against the test cases, and a running
  -- submission of the same source and language, judged in one attempt under the same answers of the
  -- sandbox, come to the same end: the same error, or the verdict that the failure stands for,
  -- accepted if there is none.
  pub check_solution-judge_attempt :
      (sol : Solution) (source_code : String)
      → bench.download sol.file_key ≡ ok source_code
      → sol.language ≡ sub.language
      → Agrees
          (check_solution bench sol limits tcs)
          (judge_attempt bench.box sub source_code limits tcs)
  unfolding check_solution judge_attempt
  check_solution-judge_attempt sol source_code d same =
      rw d (elim (Result-cases (bench.box.begin_session sub.language limits.memory_kb)) [
        | inl (e, h) ↦
            rw (ap (λ l. bench.box.begin_session l limits.memory_kb) same, h, judge_attempt)
              (refl, refl)
        | inr (u, h) ↦
            rw (ap (λ l. bench.box.begin_session l limits.memory_kb) same, h, judge_attempt)
              (bracketed-Agrees (check_compiled bench sol limits source_code tcs) session_opened
                session_closed _ (compiled-Agrees sol source_code same))
      ])
