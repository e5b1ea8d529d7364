-- ===== src/Judge/Verdicts.antt =====
-- What one judging attempt leaves behind: which verdict, and when there is none.
use training_center_back.Prelude.{
  ℕ, suc, String, Bool, true, false, Option, none, List, [], ◌∷◌, ◌≡◌, refl, ◌⊎◌, inl, inr, arith,
  is_some,
}
use training_center_back.Apperror.{Result, ok, err}
use training_center_back.Submission.Statuses.{running, is_final}
use training_center_back.Submission.{
  Submission, mark_accepted, mark_wrong_answer, mark_time_limit_exceeded,
  mark_memory_limit_exceeded, mark_output_limit_exceeded, mark_runtime_error,
  mark_compilation_error,
}
use training_center_back.Judge.Accepted.{built}
use training_center_back.Judge.Attempt.{
  TestCase, ProblemLimits, RunResult, Sandbox, session_opened, session_closed, checker_opened,
  checker_closed, Outcome, Round, stop, passed, judge_case, judge_cases, judge_checked,
  judge_compiled, judge_attempt, max_time, max_memory,
}

-- An outcome is either a verdict on the submission, or an error that leaves it as it was.
pub record Settles (sub : Submission) (o : Outcome) : Type 0 where
  pub errs : o.should_retry ≡ is_some o.error
  pub verdict : o.should_retry ≡ false → is_final o.sub.status ≡ true
  pub untouched : o.should_retry ≡ true → o.sub ≡ sub

abbrev RoundSettles : Submission → Round → Type 0
RoundSettles sub (stop o) = Settles sub o
RoundSettles sub (passed t m) = Unit

judge_case-RoundSettles :
    (limits : ProblemLimits) (sub : Submission) (now : ℕ) (run : Result RunResult)
    (checked : Result Bool)
    → sub.status ≡ running
    → RoundSettles sub (judge_case limits sub now run checked)
unfolding judge_case mark_wrong_answer mark_time_limit_exceeded mark_memory_limit_exceeded
    mark_output_limit_exceeded mark_runtime_error
judge_case-RoundSettles limits sub now (err e) checked h = ground arith
judge_case-RoundSettles limits sub now (ok r) (err e) h = ground arith
judge_case-RoundSettles limits sub now (ok r) (ok true) h = ground arith
judge_case-RoundSettles limits sub now (ok r) (ok false) h = ground arith

Round-cases :
    (r : Round) → ((o : Outcome) × (r ≡ stop o)) ⊎ ((t : ℕ) × (m : Option ℕ) × (r ≡ passed t m))
Round-cases (stop o) = inl (o, refl)
Round-cases (passed t m) = inr (t, m, refl)

judge_cases-Settles :
    (box : Sandbox) (limits : ProblemLimits) (sub : Submission) (tcs : List TestCase) (n t : ℕ)
    (m : Option ℕ)
    → sub.status ≡ running
    → Settles sub (judge_cases box limits sub tcs n t m)
unfolding judge_cases mark_accepted
judge_cases-Settles box limits sub [] n t m h = ground arith
judge_cases-Settles box limits sub (tc ∷ tcs) n t m h = elim (Round-cases round) [
  | inl (o, e) ↦ rw (e, judge_cases) (rw e at settled_round)
  | inr (time, memory, e) ↦
      rw (e, judge_cases)
        (judge_cases-Settles box limits sub tcs (suc n) (max_time t time) (max_memory m memory) h)
]
  where
    round : Round
    round = judge_case limits sub box.finished_at (box.run_test_case n tc) (box.check n tc)

    settled_round : RoundSettles sub round
    settled_round =
        judge_case-RoundSettles limits sub box.finished_at (box.run_test_case n tc) (box.check n tc)
          h

-- An attempt on a running submission either gives it a final status and asks for no retry, or asks
-- for a retry, with an error, and leaves the submission exactly as it was.
pub judge_attempt-Settles :
    (box : Sandbox) (sub : Submission) (source_code : String) (limits : ProblemLimits)
    (tcs : List TestCase)
    → sub.status ≡ running
    → Settles sub (judge_attempt box sub source_code limits tcs)
unfolding judge_attempt judge_compiled judge_checked mark_compilation_error
judge_attempt-Settles box sub source_code limits tcs h =
    ground (arith, judge_cases-Settles box limits sub tcs 0 0 none h)

RoundClaimsNothing : Round → Type 0
RoundClaimsNothing (stop o) = o.effects ≡ []
RoundClaimsNothing (passed t m) = Unit

judge_case-RoundClaimsNothing :
    (limits : ProblemLimits) (sub : Submission) (now : ℕ) (run : Result RunResult)
    (checked : Result Bool)
    → RoundClaimsNothing (judge_case limits sub now run checked)
unfolding RoundClaimsNothing judge_case
judge_case-RoundClaimsNothing limits sub now (err e) checked = refl
judge_case-RoundClaimsNothing limits sub now (ok r) (err e) = ground arith
judge_case-RoundClaimsNothing limits sub now (ok r) (ok true) = ground arith
judge_case-RoundClaimsNothing limits sub now (ok r) (ok false) = ground arith

judge_cases-effects :
    (box : Sandbox) (limits : ProblemLimits) (sub : Submission) (tcs : List TestCase) (n t : ℕ)
    (m : Option ℕ)
    → (judge_cases box limits sub tcs n t m).effects ≡ []
unfolding judge_cases RoundClaimsNothing
judge_cases-effects box limits sub [] n t m = refl
judge_cases-effects box limits sub (tc ∷ tcs) n t m = elim (Round-cases round) [
  | inl (o, e) ↦ rw (e, judge_cases) (rw e at nothing)
  | inr (time, memory, e) ↦
      rw (e, judge_cases)
        (judge_cases-effects box limits sub tcs (suc n) (max_time t time) (max_memory m memory))
]
  where
    round : Round
    round = judge_case limits sub box.finished_at (box.run_test_case n tc) (box.check n tc)

    nothing : RoundClaimsNothing round
    nothing =
        judge_case-RoundClaimsNothing limits sub box.finished_at (box.run_test_case n tc)
          (box.check n tc)

-- Whatever fails, every container that an attempt claims is given back, the last claimed first; and
-- no checker is claimed unless the program compiled.
pub judge_attempt-effects :
    (box : Sandbox) (sub : Submission) (source_code : String) (limits : ProblemLimits)
    (tcs : List TestCase)
    → let held = (judge_attempt box sub source_code limits tcs).effects in
      (held ≡ [])
      ⊎ (held ≡ session_opened ∷ session_closed ∷ [])
      ⊎ ((held ≡ session_opened ∷ checker_opened ∷ checker_closed ∷ session_closed ∷ [])
          × (built (box.compile sub.language source_code) ≡ true))
unfolding judge_attempt judge_compiled judge_checked
judge_attempt-effects box sub source_code limits tcs =
    ground (arith, judge_cases-effects box limits sub tcs 0 0 none)
