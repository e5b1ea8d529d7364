-- ===== src/Judge/Accepted.antt =====
-- When an attempt accepts, and what it then records.
use Prim.Native.Nat.{max}
use training_center_back.Prelude.{
  ℕ, suc, String, Bool, true, false, Option, none, some, List, [], ◌∷◌, ◌≡◌, refl, ◌⊎◌, inl, inr,
  arith, ◌∙◌, ap, ◌↔◌, sym,
}
use training_center_back.Apperror.{Result, ok, err, is_ok}
use training_center_back.Submission.Statuses.{running, accepted}
use training_center_back.Submission.{Submission, mark_accepted, mark_compilation_error}
use training_center_back.Judge.Attempt.{
  TestCase, ProblemLimits, RunResult, Sandbox, Outcome, Round, stop, passed, judge_case,
  judge_cases, max_time, max_memory, settled, CompileResult, judge_attempt, judge_compiled,
  judge_checked,
}
use training_center_back.Judge.Passing.{
  AllPass, time_of, memory_of, slowest, highest, peak, judge_case-passed, judge_case-Passes,
  RoundRejects, judge_case-RoundRejects,
}

max_memory_assoc : (m a b : Option ℕ) → max_memory (max_memory m a) b ≡ max_memory m (highest a b)
max_memory_assoc none none none = refl
max_memory_assoc none none (some b) = refl
max_memory_assoc none (some a) none = refl
max_memory_assoc none (some a) (some b) = ground arith
max_memory_assoc (some m) none none = refl
max_memory_assoc (some m) none (some b) = refl
max_memory_assoc (some m) (some a) none = ground arith
max_memory_assoc (some m) (some a) (some b) = ground arith

-- If every test case passes, the loop accepts with the slowest time and the highest memory.
judge_cases-AllPass :
    (box : Sandbox) (limits : ProblemLimits) (sub : Submission) (tcs : List TestCase) (n t : ℕ)
    (m : Option ℕ)
    → AllPass box limits n tcs
    → judge_cases box limits sub tcs n t m
      ≡ settled sub (
          mark_accepted sub
            (max t (slowest box n tcs))
            (max_memory m (peak box n tcs))
            box.finished_at)
unfolding judge_cases
judge_cases-AllPass box limits sub [] n t m p = rw (max_zero t)
  where
    max_zero : (t : ℕ) → max t 0 ≡ t
    max_zero t = omega arith
judge_cases-AllPass box limits sub (tc ∷ tcs) n t m (p, ps) =
    rw
      (
        judge_case-Passes limits sub box.finished_at (box.run_test_case n tc) (box.check n tc) p,
        judge_cases,
      )
      (judge_cases-AllPass box limits sub tcs (suc n) (max_time t time) (max_memory m memory) ps
        ∙ regroup)
  where
    time : ℕ
    time = time_of (box.run_test_case n tc)

    memory : Option ℕ
    memory = memory_of (box.run_test_case n tc)

    times : (a b c : ℕ) → max (max_time a b) c ≡ max a (max b c)
    times a b c = ground arith

    regroup :
        settled sub (
          mark_accepted sub
            (max (max_time t time) (slowest box (suc n) tcs))
            (max_memory (max_memory m memory) (peak box (suc n) tcs))
            box.finished_at)
        ≡ settled sub (
            mark_accepted sub
              (max t (slowest box n (tc ∷ tcs)))
              (max_memory m (peak box n (tc ∷ tcs)))
              box.finished_at)
    regroup =
        rw
          (times t time (slowest box (suc n) tcs), max_memory_assoc m memory (peak box (suc n) tcs))

Round-cases :
    (r : Round) → ((o : Outcome) × (r ≡ stop o)) ⊎ ((t : ℕ) × (m : Option ℕ) × (r ≡ passed t m))
Round-cases (stop o) = inl (o, refl)
Round-cases (passed t m) = inr (t, m, refl)

judge_cases-accepted :
    (box : Sandbox) (limits : ProblemLimits) (sub : Submission) (tcs : List TestCase) (n t : ℕ)
    (m : Option ℕ)
    → sub.status ≡ running
    → (judge_cases box limits sub tcs n t m).sub.status ≡ accepted
    → AllPass box limits n tcs
unfolding judge_cases RoundRejects
judge_cases-accepted box limits sub [] n t m h acc = tt
judge_cases-accepted box limits sub (tc ∷ tcs) n t m h acc = elim (Round-cases round) [
  | inl (o, e) ↦ absurd ((rw e at rejects) (rw (e, judge_cases) at acc))
  | inr (time, memory, e) ↦ (
    judge_case-passed limits sub box.finished_at run checked e,
    judge_cases-accepted box limits sub tcs (suc n) (max_time t time) (max_memory m memory) h
        (rw (e, judge_cases) at acc),
  )
]
  where
    run : Result RunResult
    run = box.run_test_case n tc

    checked : Result Bool
    checked = box.check n tc

    round : Round
    round = judge_case limits sub box.finished_at run checked

    rejects : RoundRejects round
    rejects = judge_case-RoundRejects limits sub box.finished_at run checked h

abbrev pub built : Result CompileResult → Bool
built (ok c) = c.success
built (err e) = false

-- The sandbox is ready: the session opens, the program compiles, and the checker opens.
pub record IsReady (box : Sandbox) (sub : Submission) (source_code : String)
    (limits : ProblemLimits) : Type 0 where
  pub opened : is_ok (box.begin_session sub.language limits.memory_kb) ≡ true
  pub compiled : built (box.compile sub.language source_code) ≡ true
  pub checking : is_ok (box.begin_checking limits.checker_path limits.checker_language) ≡ true

module _ (box : Sandbox) (sub : Submission) (source_code : String) (limits : ProblemLimits)
    (tcs : List TestCase) where
  attempt_ready :
      IsReady box sub source_code limits
      → (judge_attempt box sub source_code limits tcs).sub
        ≡ (judge_cases box limits sub tcs 0 0 none).sub
  unfolding judge_attempt judge_compiled judge_checked
  attempt_ready r = ground (arith, r.opened, r.compiled, r.checking)

  IsReady-of_accepted :
      sub.status ≡ running
      → (judge_attempt box sub source_code limits tcs).sub.status ≡ accepted
      → IsReady box sub source_code limits
  unfolding judge_attempt judge_compiled judge_checked mark_compilation_error
  IsReady-of_accepted h acc = record {
    opened = ground arith;
    compiled = ground arith;
    checking = ground arith;
  }

  -- An attempt on a running submission accepts it exactly when the session and the checker open,
  -- the program compiles and every test case passes.
  pub judge_attempt-accepted_iff :
      sub.status ≡ running
      → ((judge_attempt box sub source_code limits tcs).sub.status ≡ accepted)
        ↔ (IsReady box sub source_code limits × AllPass box limits 0 tcs)
  judge_attempt-accepted_iff h = (λ acc. forth acc (IsReady-of_accepted h acc), λ p. back p.0 p.1)
    where
      forth :
          (judge_attempt box sub source_code limits tcs).sub.status ≡ accepted
          → IsReady box sub source_code limits
          → IsReady box sub source_code limits × AllPass box limits 0 tcs
      forth acc r = (
        r,
        judge_cases-accepted box limits sub tcs 0 0 none h
            (sym (ap (λ s. s.status) (attempt_ready r)) ∙ acc),
      )

      back :
          IsReady box sub source_code limits
          → AllPass box limits 0 tcs
          → (judge_attempt box sub source_code limits tcs).sub.status ≡ accepted
      back r ps =
          ap (λ s. s.status) (attempt_ready r)
          ∙ ap (λ o. o.sub.status) (judge_cases-AllPass box limits sub tcs 0 0 none ps)
          ∙ unfold mark_accepted in (ground arith)

  -- An attempt that accepts a running submission records the slowest run of the test cases, the
  -- highest memory that a run reported (nothing if none did), and the time of judgement.
  pub judge_attempt-records :
      sub.status ≡ running
      → (judge_attempt box sub source_code limits tcs).sub.status ≡ accepted
      → (judge_attempt box sub source_code limits tcs).sub ≡ record sub {
        status = accepted;
        time_ms = some (slowest box 0 tcs);
        memory_kb = peak box 0 tcs;
        judged_at = some box.finished_at;
      }
  judge_attempt-records h acc =
      attempt_ready (IsReady-of_accepted h acc)
      ∙ ap (λ o. o.sub)
          (judge_cases-AllPass box limits sub tcs 0 0 none ((judge_attempt-accepted_iff h).0 acc).1)
      ∙ marked
    where
      max_zero : (t : ℕ) → max 0 t ≡ t
      max_zero t = omega arith

      none_max : (m : Option ℕ) → max_memory none m ≡ m
      none_max none = refl
      none_max (some m) = refl

      marked :
          (settled sub (
            mark_accepted sub
              (max 0 (slowest box 0 tcs))
              (max_memory none (peak box 0 tcs))
              box.finished_at)).sub
          ≡ record sub {
            status = accepted;
            time_ms = some (slowest box 0 tcs);
            memory_kb = peak box 0 tcs;
            judged_at = some box.finished_at;
          }
      marked =
          rw (max_zero (slowest box 0 tcs), none_max (peak box 0 tcs))
            (unfold mark_accepted in ground arith)
