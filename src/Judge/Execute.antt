-- ===== src/Judge/Execute.antt =====
-- internal/application/judge/judge_submission.go, `Execute` and `persistVerdict`, with retry.go.
-- What the providers answer is the argument `env`; the report says what was done to the database.
use training_center_back.Prelude.{
  int64, pos_part, ℕ, zero, suc, ◌*◌, ◌^◌, String, Bool, true, false, Option, none, some, List, [],
  ◌∷◌, if◌then◌else◌, not, is_some,
}
use training_center_back.Apperror.{Error, Result, ok, err, internal}
use training_center_back.Submission.Statuses.{is_pending}
use training_center_back.Submission.{Submission, start, mark_system_error}
use training_center_back.Judge.Attempt.{
  TestCase, ProblemLimits, Sandbox, Outcome, judge_attempt, ignoring,
}

pub record RetryConfig : Type 0 where
  pub max_attempts : ℕ
  pub backoff_base : ℕ

unfoldable pub default_retry_config : RetryConfig
default_retry_config = record { max_attempts = 3; backoff_base = 500000000 }

-- What the updater, the downloader, the providers and the transaction manager answer, and the
-- sandbox of each attempt, counted from 0.
pub record Env : Type 0 where
  pub get_by_id : String → Result Submission
  pub claim : String → Result Bool
  pub download : String → Result String
  pub get_limits : String → Result ProblemLimits
  pub get_test_cases : String → Result (List TestCase)
  pub sandbox : ℕ → Sandbox
  pub update : Submission → Result (Unit {0})
  pub commit : Result (Unit {0})
  pub started_at : ℕ
  pub ended_at : ℕ

-- `claimed`: the row went from PENDING to RUNNING. `written`: what the last transaction stored.
pub record Report : Type 0 where
  pub result : Result (Unit {0})
  pub claimed : Bool
  pub written : Option Submission
  pub slept : List ℕ

abbrev stopped : Result (Unit {0}) → Report
stopped r = record { result = r; claimed = false; written = none; slept = [] }

commit_verdict : Env → Submission → List ℕ → Report
commit_verdict env sub slept = elim env.commit [
  | err e ↦ record { result = err e; claimed = true; written = none; slept = slept }
  | ok _ ↦ record { result = ok tt; claimed = true; written = some sub; slept = slept }
]

-- The update runs in a transaction: an error rolls it back.
unfoldable pub persist_verdict : Env → Submission → List ℕ → Report
unfolding commit_verdict
persist_verdict env sub slept = elim (env.update sub) [
  | err e ↦ record { result = err internal; claimed = true; written = none; slept = slept }
  | ok _ ↦ commit_verdict env sub slept
]

-- What the retry loop leaves: the error of the last attempt, the submission, and the waits.
pub record Judged : Type 0 where
  pub judge_err : Option Error
  pub sub : Submission
  pub slept : List ℕ

-- The wait before attempt number `attempt`; there is none before the first. The duration is a signed
-- word of 64 bits, and the sleep for a negative one is over at once.
unfoldable pub backoff : RetryConfig → ℕ → List ℕ → List ℕ
backoff cfg zero slept = slept
backoff cfg (suc k) slept = pos_part (int64 (cfg.backoff_base * 2 ^ k)) ∷ slept

-- The loop `for attempt := 0; attempt < MaxAttempts; attempt++`, with `left` attempts to go.
unfoldable pub judge_loop :
    (ℕ → Submission → Outcome) → RetryConfig → ℕ → ℕ → Submission → Option Error → List ℕ → Judged
judge_loop attempt_at cfg zero attempt sub judge_err slept = record {
  judge_err = judge_err;
  sub = sub;
  slept = slept;
}
judge_loop attempt_at cfg (suc left) attempt sub judge_err slept =
    let o = attempt_at attempt sub in
    let waits = backoff cfg attempt slept in
    let again = judge_loop attempt_at cfg left (suc attempt) o.sub o.error waits in
    if not o.should_retry then record { judge_err = o.error; sub = o.sub; slept = waits } else again

-- After the loop: an error of the last attempt makes the verdict a system error.
unfoldable pub conclude : Env → Judged → Report
conclude env j =
    persist_verdict env
      (if is_some j.judge_err then ignoring j.sub (mark_system_error j.sub env.ended_at) else j.sub)
      j.slept

-- `_ = sub.MarkSystemError(uc.now()); return uc.persistVerdict(ctx, sub)`.
unfoldable pub give_up : Env → Submission → Report
give_up env sub = persist_verdict env (ignoring sub (mark_system_error sub env.ended_at)) []

-- From the claimed submission on.
unfoldable pub judge_claimed : Env → RetryConfig → Submission → Report
judge_claimed env retry sub = elim (env.download sub.source_code_path) [
  | err e ↦ give_up env sub
  | ok source_code ↦ elim (env.get_limits sub.problem_id) [
    | err e ↦ give_up env sub
    | ok limits ↦ elim (env.get_test_cases sub.problem_id) [
      | err e ↦ give_up env sub
      | ok tcs ↦ conclude env (
          judge_loop (λ k s. judge_attempt (env.sandbox k) s source_code limits tcs) retry
            retry.max_attempts 0 sub none [])
    ]
  ]
]

unfoldable pub claim_and_judge : Env → RetryConfig → Submission → Report
claim_and_judge env retry sub = elim (env.claim sub.id) [
  | err e ↦ stopped (err e)
  | ok false ↦ stopped (ok tt)
  | ok true ↦ judge_claimed env retry sub
]

unfoldable pub execute : Env → RetryConfig → String → Report
execute env retry id = elim (env.get_by_id id) [
  | err e ↦ stopped (err e)
  | ok sub ↦
      if not (is_pending sub.status) then stopped (ok tt) else elim (start sub env.started_at) [
        | err e ↦ stopped (err e)
        | ok running ↦ claim_and_judge env retry running
      ]
]
