-- ===== src/Judge/Retries.antt =====
-- The retry loop and what a judging writes to the database.
use training_center_back.Prelude.{
  ℕ, zero, suc, ◌<◌, String, true, false, Option, none, some, List, [], ◌≡◌, refl, ◌⊎◌, inl, inr,
  arith, is_some, if◌then◌else◌, Bool-cases,
}
use training_center_back.Apperror.{Error, ok, Result-cases}
use training_center_back.Submission.Statuses.{pending, running, is_final, is_pending}
use training_center_back.Submission.{Submission, start, mark_system_error}
use training_center_back.Judge.Attempt.{TestCase, ProblemLimits, Outcome, judge_attempt, ignoring}
use training_center_back.Judge.Verdicts.{Settles, judge_attempt-Settles}
use training_center_back.Judge.Execute.{
  RetryConfig, Env, Judged, persist_verdict, backoff, judge_loop, conclude, give_up, judge_claimed,
  claim_and_judge, execute,
}

-- The first of `left` outcomes, from number `k` on, that is a verdict.
abbrev pub first_settled : (ℕ → Outcome) → ℕ → ℕ → Option Submission
first_settled outcomes zero k = none
first_settled outcomes (suc left) k =
    let later = first_settled outcomes left (suc k) in
    if (outcomes k).should_retry then later else some (outcomes k).sub

-- What the loop over attempts is for: the verdict of the first attempt that gives one.
abbrev Concludes : Submission → Option Submission → Judged → Type 0
Concludes sub none j = (is_some j.judge_err ≡ true) × (j.sub ≡ sub)
Concludes sub (some v) j = (is_some j.judge_err ≡ false) × (j.sub ≡ v) × (is_final v.status ≡ true)

module _ (attempt_at : ℕ → Submission → Outcome) (cfg : RetryConfig) (sub : Submission)
    (settles : (k : ℕ) → Settles sub (attempt_at k sub)) where
  judge_loop-Concludes :
      (left k : ℕ) (e : Option Error) (slept : List ℕ)
      → (0 < left) ⊎ (is_some e ≡ true)
      → Concludes sub
          (first_settled (λ n. attempt_at n sub) left k)
          (judge_loop attempt_at cfg left k sub e slept)
  unfolding judge_loop
  judge_loop-Concludes zero k e slept (inl h) = absurd (omega arith)
  judge_loop-Concludes zero k e slept (inr h) = (h, refl)
  judge_loop-Concludes (suc left) k e slept h = elim (Bool-cases (attempt_at k sub).should_retry) [
    | inl again ↦
        rw (again, (settles k).untouched again)
          (judge_loop-Concludes left (suc k) (attempt_at k sub).error (backoff cfg k slept)
            (inr (ground (arith, (settles k).errs))))
    | inr done ↦ rw done (ground (arith, (settles k).errs), refl, (settles k).verdict done)
  ]

persist_verdict-written :
    (env : Env) (sub : Submission) (slept : List ℕ) {t : Submission}
    → (persist_verdict env sub slept).written ≡ some t
    → t ≡ sub
unfolding persist_verdict
persist_verdict-written env sub slept h = ground arith

system_error-IsFinal :
    (sub : Submission) (now : ℕ)
    → sub.status ≡ running
    → is_final (ignoring sub (mark_system_error sub now)).status ≡ true
unfolding mark_system_error
system_error-IsFinal sub now h = ground arith

module _ (env : Env) (sub : Submission) (is_running : sub.status ≡ running) where
  give_up-IsFinal : {t : Submission} → (give_up env sub).written ≡ some t → is_final t.status ≡ true
  unfolding give_up
  give_up-IsFinal h =
      rw (persist_verdict-written env (ignoring sub (mark_system_error sub env.ended_at)) [] h)
        (system_error-IsFinal sub env.ended_at is_running)

  conclude-IsFinal :
      (o : Option Submission) (j : Judged) {t : Submission}
      → Concludes sub o j
      → (conclude env j).written ≡ some t
      → is_final t.status ≡ true
  unfolding conclude
  conclude-IsFinal none j c h =
      rw (persist_verdict-written env _ j.slept (rw c.0 at h), c.1)
        (system_error-IsFinal sub env.ended_at is_running)
  conclude-IsFinal (some v) j c h =
      rw (persist_verdict-written env _ j.slept (rw c.0 at h), c.1) c.2

  judge_claimed-IsFinal :
      (retry : RetryConfig) {t : Submission}
      → 0 < retry.max_attempts
      → (judge_claimed env retry sub).written ≡ some t
      → is_final t.status ≡ true
  unfolding judge_claimed
  judge_claimed-IsFinal retry some_attempt h =
      elim (Result-cases (env.download sub.source_code_path)) [
        | inl (e, p) ↦ give_up-IsFinal (rw (p, judge_claimed) at h)
        | inr (source_code, p) ↦ elim (Result-cases (env.get_limits sub.problem_id)) [
          | inl (e, q) ↦ give_up-IsFinal (rw (p, judge_claimed, q) at h)
          | inr (limits, q) ↦ elim (Result-cases (env.get_test_cases sub.problem_id)) [
            | inl (e, r) ↦ give_up-IsFinal (rw (p, judge_claimed, q, r) at h)
            | inr (tcs, r) ↦
                conclude-IsFinal _ _ (concludes source_code limits tcs)
                  (rw (p, judge_claimed, q, r) at h)
          ]
        ]
      ]
    where
      concludes :
          (source_code : String) (limits : ProblemLimits) (tcs : List TestCase)
          → Concludes sub
              (first_settled
                (λ k. judge_attempt (env.sandbox k) sub source_code limits tcs)
                retry.max_attempts
                0)
              (judge_loop
                (λ k s. judge_attempt (env.sandbox k) s source_code limits tcs)
                retry
                retry.max_attempts
                0
                sub
                none
                [])
      concludes source_code limits tcs =
          judge_loop-Concludes (λ k s. judge_attempt (env.sandbox k) s source_code limits tcs) retry
            sub (λ k. judge_attempt-Settles (env.sandbox k) sub source_code limits tcs is_running)
            retry.max_attempts 0 none [] (inl some_attempt)

start-running :
    (s : Submission) (now : ℕ) {t : Submission} → start s now ≡ ok t → t.status ≡ running
unfolding start
start-running s now h = ground arith

-- With at least one attempt configured, whatever a judging writes to the database is a submission
-- with a final status: no failure of the sandbox, the providers or the attempts leaves another.
pub execute-written-IsFinal :
    (env : Env) (retry : RetryConfig) (id : String) {t : Submission}
    → 0 < retry.max_attempts
    → (execute env retry id).written ≡ some t
    → is_final t.status ≡ true
unfolding execute claim_and_judge
execute-written-IsFinal env retry id {t} some_attempt h = elim (Result-cases (env.get_by_id id)) [
  | inl (e, p) ↦ cc (rw (p, execute) at h)
  | inr (sub, p) ↦ elim (Bool-cases (is_pending sub.status)) [
    | inl waiting ↦ elim (Result-cases (start sub env.started_at)) [
      | inl (e, q) ↦ cc (rw (p, execute, waiting, q) at h)
      | inr (s, q) ↦
          claimed_case s (start-running sub env.started_at q) (rw (p, execute, waiting, q) at h)
    ]
    | inr other ↦ cc (rw (p, execute, other) at h)
  ]
]
  where
    claimed_case :
        (s : Submission)
        → s.status ≡ running
        → (claim_and_judge env retry s).written ≡ some t
        → is_final t.status ≡ true
    claimed_case s r w = elim (Result-cases (env.claim s.id)) [
      | inl (e, p) ↦ cc (rw (p, claim_and_judge) at w)
      | inr (c, p) ↦ elim (Bool-cases c) [
        | inl yes_claimed ↦
            judge_claimed-IsFinal env s r retry some_attempt
              (rw (p, claim_and_judge, yes_claimed) at w)
        | inr lost ↦ cc (rw (p, claim_and_judge, lost) at w)
      ]
    ]

-- The verdict of the first attempt that gives one, and a system error if none does.
abbrev pub verdict_or_system_error : ℕ → Submission → Option Submission → Submission
verdict_or_system_error now sub none = ignoring sub (mark_system_error sub now)
verdict_or_system_error now sub (some v) = v

conclude_written :
    (env : Env) (sub : Submission) (o : Option Submission) (j : Judged)
    → ((s : Submission) → env.update s ≡ ok tt)
    → env.commit ≡ ok tt
    → Concludes sub o j
    → (conclude env j).written ≡ some (verdict_or_system_error env.ended_at sub o)
unfolding conclude persist_verdict
conclude_written env sub none j u c p =
    rw p.0 (ground (arith, u (ignoring j.sub (mark_system_error j.sub env.ended_at)), p.1))
conclude_written env sub (some v) j u c p = rw p.0 (ground (arith, u j.sub, p.1))

-- When a pending submission is claimed, the providers answer and the database accepts the write,
-- the judging stores exactly the verdict of the first of the configured attempts that gives one,
-- and a system error when all of them fail.
pub execute-written :
    (env : Env) (retry : RetryConfig) (id : String) (sub : Submission) (source_code : String)
    (limits : ProblemLimits) (tcs : List TestCase)
    → 0 < retry.max_attempts
    → env.get_by_id id ≡ ok sub
    → sub.status ≡ pending
    → env.claim sub.id ≡ ok true
    → env.download sub.source_code_path ≡ ok source_code
    → env.get_limits sub.problem_id ≡ ok limits
    → env.get_test_cases sub.problem_id ≡ ok tcs
    → ((s : Submission) → env.update s ≡ ok tt)
    → env.commit ≡ ok tt
    → let taken = record sub { status = running } in
      (execute env retry id).written
      ≡ some (
          verdict_or_system_error env.ended_at taken (
            first_settled
              (λ k. judge_attempt (env.sandbox k) taken source_code limits tcs)
              retry.max_attempts
              0))
unfolding execute claim_and_judge judge_claimed start
execute-written env retry id sub source_code limits tcs some_attempt stored p claimed d l t u c =
    rw (stored, execute, p, claimed, claim_and_judge, d, judge_claimed, l, t)
      (conclude_written env taken _ _ u c (
        judge_loop-Concludes (λ k s. judge_attempt (env.sandbox k) s source_code limits tcs) retry
          taken (λ k. judge_attempt-Settles (env.sandbox k) taken source_code limits tcs refl)
          retry.max_attempts 0 none [] (inl some_attempt)))
  where
    taken : Submission
    taken = record sub { status = running }
