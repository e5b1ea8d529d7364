-- ===== src/Judge/Passing.antt =====
-- The test cases that count as passed, and what one round of the loop over them does with the others.
use Prim.Native.Nat.{max}
use training_center_back.Prelude.{
  ℕ, suc, ◌≤◌, Bool, true, false, Option, none, some, List, [], ◌∷◌, ◌≡◌, refl, ◌≢◌, arith,
}
use training_center_back.Apperror.{Result, ok, err}
use training_center_back.Submission.Statuses.{running, accepted}
use training_center_back.Submission.{
  Submission, mark_wrong_answer, mark_time_limit_exceeded, mark_memory_limit_exceeded,
  mark_output_limit_exceeded, mark_runtime_error,
}
use training_center_back.Judge.Attempt.{
  TestCase, ProblemLimits, RunResult, Sandbox, Round, stop, passed, judge_case,
}

-- The run of a test case that the verdict counts as passed.
pub record Passes (limits : ProblemLimits) (run : Result RunResult) (checked : Result Bool)
    : Type 0 where
  pub result : RunResult
  pub ran : run ≡ ok result
  pub within_output : result.output_limit_exceeded ≡ false
  pub exited : result.exit_code ≡ 0
  pub in_time : result.time_ms ≤ limits.time_limit_ms
  pub approved : checked ≡ ok true

-- Every test case passes, the first at position `n`.
abbrev pub AllPass : Sandbox → ProblemLimits → ℕ → List TestCase → Type 0
AllPass box limits n [] = Unit
AllPass box limits n (tc ∷ tcs) =
    Passes limits (box.run_test_case n tc) (box.check n tc) × AllPass box limits (suc n) tcs

abbrev pub time_of : Result RunResult → ℕ
time_of (ok r) = r.time_ms
time_of (err e) = 0

abbrev pub memory_of : Result RunResult → Option ℕ
memory_of (ok r) = r.memory_kb
memory_of (err e) = none

-- The longest run, and the highest memory that a run reported, if one did.
abbrev pub slowest : Sandbox → ℕ → List TestCase → ℕ
slowest box n [] = 0
slowest box n (tc ∷ tcs) = max (time_of (box.run_test_case n tc)) (slowest box (suc n) tcs)

abbrev pub highest : Option ℕ → Option ℕ → Option ℕ
highest none b = b
highest (some a) none = some a
highest (some a) (some b) = some (max a b)

abbrev pub peak : Sandbox → ℕ → List TestCase → Option ℕ
peak box n [] = none
peak box n (tc ∷ tcs) = highest (memory_of (box.run_test_case n tc)) (peak box (suc n) tcs)

pub judge_case-passed :
    (limits : ProblemLimits) (sub : Submission) (now : ℕ) (run : Result RunResult)
    (checked : Result Bool) {t : ℕ} {m : Option ℕ}
    → judge_case limits sub now run checked ≡ passed t m
    → Passes limits run checked
unfolding judge_case
judge_case-passed limits sub now (err e) checked h = cc
judge_case-passed limits sub now (ok r) (err e) h = absurd (ground arith)
judge_case-passed limits sub now (ok r) (ok false) h = absurd (ground arith)
judge_case-passed limits sub now (ok r) (ok true) h = record {
  result = r;
  ran = refl;
  within_output = ground arith;
  exited = ground arith;
  in_time = ground arith;
  approved = refl;
}

pub judge_case-Passes :
    (limits : ProblemLimits) (sub : Submission) (now : ℕ) (run : Result RunResult)
    (checked : Result Bool)
    → Passes limits run checked
    → judge_case limits sub now run checked ≡ passed (time_of run) (memory_of run)
unfolding judge_case
judge_case-Passes limits sub now (err e) checked p = ground (arith, p.ran)
judge_case-Passes limits sub now (ok r) (err e) p = ground (arith, p.approved)
judge_case-Passes limits sub now (ok r) (ok false) p = ground (arith, p.approved)
judge_case-Passes limits sub now (ok r) (ok true) p =
    ground (arith, p.ran, p.within_output, p.exited, p.in_time)

unfoldable pub RoundRejects : Round → Type 0
RoundRejects (stop o) = o.sub.status ≢ accepted
RoundRejects (passed t m) = Unit

pub judge_case-RoundRejects :
    (limits : ProblemLimits) (sub : Submission) (now : ℕ) (run : Result RunResult)
    (checked : Result Bool)
    → sub.status ≡ running
    → RoundRejects (judge_case limits sub now run checked)
unfolding RoundRejects judge_case mark_wrong_answer mark_time_limit_exceeded
    mark_memory_limit_exceeded mark_output_limit_exceeded mark_runtime_error
judge_case-RoundRejects limits sub now (err e) checked h = ground arith
judge_case-RoundRejects limits sub now (ok r) (err e) h = ground arith
judge_case-RoundRejects limits sub now (ok r) (ok true) h = ground arith
judge_case-RoundRejects limits sub now (ok r) (ok false) h = ground arith
