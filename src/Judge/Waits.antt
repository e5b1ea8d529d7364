-- ===== src/Judge/Waits.antt =====
-- How long a judging waits between attempts.
use native.Mathlib.Nat.{pow-suc, add-suc, add-zero, suc-add, zero-add}
use training_center_back.Prelude.{
  ℕ, zero, suc, ◌+◌, ◌*◌, ◌^◌, ◌≤◌, ◌<◌, Option, none, List, [], ◌∷◌, ◌≡◌, refl, sym, true, false,
  ap, ◌∙◌, inl, inr, arith, Bool-cases, int64-fits, pos_part, if◌then◌else◌,
}
use training_center_back.Apperror.{Error}
use training_center_back.Submission.{Submission}
use training_center_back.Judge.Attempt.{Outcome}
use training_center_back.Judge.Execute.{RetryConfig, backoff, judge_loop}

-- The sum of the waits.
abbrev pub total : List ℕ → ℕ
total [] = 0
total (d ∷ ds) = d + total ds

-- `n` waits that double from the base, the last one first.
unfoldable pub doubling : ℕ → ℕ → List ℕ
doubling base zero = []
doubling base (suc n) = base * 2 ^ n ∷ doubling base n

-- How many retries there are, of `left` that the configuration allows from attempt `k` on: one for
-- each attempt that asks for it, up to the first that does not.
unfoldable pub retries : (ℕ → Submission → Outcome) → ℕ → ℕ → Submission → ℕ
retries attempt_at zero k sub = 0
retries attempt_at (suc left) k sub =
    let rest = retries attempt_at left (suc k) (attempt_at k sub).sub in
    if (attempt_at k sub).should_retry then suc rest else 0

doubled : (b n : ℕ) → b * 2 ^ suc n ≡ b * 2 ^ n + b * 2 ^ n
doubled b n = rw (pow-suc 2 n) (twice b (2 ^ n))
  where
    twice : (b x : ℕ) → b * (x * 2) ≡ b * x + b * x
    twice b x = omega arith

grows : (b n left : ℕ) → b * 2 ^ n ≤ b * 2 ^ (n + left)
grows b n zero = rw add-zero (omega arith)
grows b n (suc left) = rw (add-suc, doubled b (n + left)) (omega (arith, grows b n left))

total-doubling : (b n : ℕ) → total (doubling b n) + b ≡ b * 2 ^ n
unfolding doubling
total-doubling b zero = omega arith
total-doubling b (suc n) = rw (doubled b n) (omega (arith, total-doubling b n))

retries_le :
    (attempt_at : ℕ → Submission → Outcome) (left k : ℕ) (sub : Submission)
    → retries attempt_at left k sub ≤ left
unfolding retries
retries_le attempt_at zero k sub = omega arith
retries_le attempt_at (suc left) k sub =
    ground (arith, retries_le attempt_at left (suc k) (attempt_at k sub).sub)

module _ (attempt_at : ℕ → Submission → Outcome) (cfg : RetryConfig) where
  waited :
      (k : ℕ)
      → cfg.backoff_base * 2 ^ k < 2 ^ 63
      → backoff cfg (suc k) (doubling cfg.backoff_base k) ≡ doubling cfg.backoff_base (suc k)
  unfolding backoff doubling
  waited k h =
      ap (λ d. pos_part d ∷ doubling cfg.backoff_base k) (int64-fits (cfg.backoff_base * 2 ^ k) h)

  loop_again :
      (left k : ℕ) (sub : Submission) (e : Option Error) (slept : List ℕ)
      → (attempt_at k sub).should_retry ≡ true
      → judge_loop attempt_at cfg (suc left) k sub e slept
        ≡ judge_loop attempt_at cfg left
            (suc k)
            (attempt_at k sub).sub
            (attempt_at k sub).error
            (backoff cfg k slept)
  unfolding judge_loop
  loop_again left k sub e slept h = rw h

  loop_done :
      (left k : ℕ) (sub : Submission) (e : Option Error) (slept : List ℕ)
      → (attempt_at k sub).should_retry ≡ false
      → (judge_loop attempt_at cfg (suc left) k sub e slept).slept ≡ backoff cfg k slept
  unfolding judge_loop
  loop_done left k sub e slept h = rw h

  retries_again :
      (left k : ℕ) (sub : Submission)
      → (attempt_at k sub).should_retry ≡ true
      → retries attempt_at (suc left) k sub
        ≡ suc (retries attempt_at left (suc k) (attempt_at k sub).sub)
  unfolding retries
  retries_again left k sub h = rw h refl

  retries_done :
      (left k : ℕ) (sub : Submission)
      → (attempt_at k sub).should_retry ≡ false
      → retries attempt_at left k sub ≡ 0
  unfolding retries
  retries_done zero k sub h = refl
  retries_done (suc left) k sub h = rw h refl

  abbrev waits : ℕ → List ℕ
  waits n = doubling cfg.backoff_base n

  -- What is left after an attempt that asks for one more.
  abbrev Continues : ℕ → ℕ → Submission → Type 0
  Continues left k sub =
      (judge_loop attempt_at cfg left (suc (suc k)) (attempt_at (suc k) sub).sub
        (attempt_at (suc k) sub).error (waits (suc k))).slept
      ≡ waits (suc k + retries attempt_at left (suc k) sub)

  -- One round from a retry on, with the waits so far.
  round-doubling :
      (left k : ℕ) (sub : Submission) (e : Option Error)
      → cfg.backoff_base * 2 ^ (k + left) < 2 ^ 63
      → ((attempt_at (suc k) sub).should_retry ≡ true → Continues left k sub)
      → (judge_loop attempt_at cfg (suc left) (suc k) sub e (waits k)).slept
        ≡ waits (suc k + retries attempt_at left (suc k) sub)
  round-doubling left k sub e h continues =
      elim (Bool-cases (attempt_at (suc k) sub).should_retry) [
        | inl again ↦
            ap (λ j. j.slept) (loop_again left (suc k) sub e (waits k) again)
            ∙ ap
                (λ ds.
                  (judge_loop attempt_at cfg left (suc (suc k)) (attempt_at (suc k) sub).sub
                    (attempt_at (suc k) sub).error ds).slept)
                (waited k small)
            ∙ continues again
        | inr done ↦
            loop_done left (suc k) sub e (waits k) done
            ∙ waited k small
            ∙ ap waits (rw (retries_done left (suc k) sub done) (omega arith))
      ]
    where
      small : cfg.backoff_base * 2 ^ k < 2 ^ 63
      small = omega (arith, h, grows cfg.backoff_base k left)

  judge_loop-doubling :
      (left k : ℕ) (sub : Submission) (e : Option Error)
      → cfg.backoff_base * 2 ^ (k + left) < 2 ^ 63
      → (judge_loop attempt_at cfg (suc left) (suc k) sub e (waits k)).slept
        ≡ waits (suc k + retries attempt_at left (suc k) sub)
  judge_loop-doubling zero k sub e h =
      round-doubling zero k sub e h
        (λ again. unfold judge_loop retries in ap waits (sym (add-zero (suc k))))
  judge_loop-doubling (suc left) k sub e h = round-doubling (suc left) k sub e h (λ again.
      judge_loop-doubling left (suc k) (attempt_at (suc k) sub).sub (attempt_at (suc k) sub).error
        (rw (suc-add, ← add-suc) h)
      ∙ ap waits (rw (retries_again left (suc k) sub again) (omega arith)))

  -- If no duration overflows, a judging waits before each retry, and the waits double from the
  -- base: the sum of all is the base times 2 ^ (retries), less the base. There are at most as many
  -- retries as the configuration has attempts beyond the first.
  pub judge_loop-waits :
      (more : ℕ) (sub : Submission)
      → cfg.backoff_base * 2 ^ more < 2 ^ 63
      → ((judge_loop attempt_at cfg (suc more) 0 sub none []).slept
          ≡ doubling cfg.backoff_base (retries attempt_at more 0 sub))
        × (total (judge_loop attempt_at cfg (suc more) 0 sub none []).slept + cfg.backoff_base
            ≡ cfg.backoff_base * 2 ^ retries attempt_at more 0 sub)
        × (retries attempt_at more 0 sub ≤ more)
  unfolding doubling
  judge_loop-waits more sub h = (
    exact more h,
    ap (λ ds. total ds + cfg.backoff_base) (exact more h)
        ∙ total-doubling cfg.backoff_base (retries attempt_at more 0 sub),
    retries_le attempt_at more 0 sub,
  )
    where
      exact :
          (m : ℕ)
          → cfg.backoff_base * 2 ^ m < 2 ^ 63
          → (judge_loop attempt_at cfg (suc m) 0 sub none []).slept
            ≡ doubling cfg.backoff_base (retries attempt_at m 0 sub)
      exact m g = elim (Bool-cases (attempt_at 0 sub).should_retry) [
        | inl again ↦
            ap (λ j. j.slept) (loop_again m 0 sub none [] again) ∙ unfold backoff in first m g again
        | inr done ↦
            loop_done m 0 sub none [] done
            ∙ unfold backoff in ap waits (sym (retries_done m 0 sub done))
      ]
        where
          first :
              (m : ℕ)
              → cfg.backoff_base * 2 ^ m < 2 ^ 63
              → (attempt_at 0 sub).should_retry ≡ true
              → (judge_loop attempt_at cfg m 1
                  (attempt_at 0 sub).sub
                  (attempt_at 0 sub).error
                  []).slept
                ≡ waits (retries attempt_at m 0 sub)
          first zero g again = unfold judge_loop retries in refl
          first (suc l) g again =
              judge_loop-doubling l 0 (attempt_at 0 sub).sub (attempt_at 0 sub).error
                (rw (zero-add l) (omega (arith, g, doubled cfg.backoff_base l)))
              ∙ ap waits (rw (retries_again l 0 sub again) (omega arith))
