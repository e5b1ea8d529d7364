-- ===== src/Streak/Runs.antt =====
-- The two loops of `computeStreak` against one reading of the dates, from the first to the last.
use training_center_back.Prelude.{
  ℕ, suc, ◌+◌, ◌≤◌, List, [], ◌∷◌, ◌≡◌, refl, ◌∙◌, arith, Bool-cases, inl, inr, if◌then◌else◌,
  length,
}
use training_center_back.Streak.Count.{
  next_day, best, longest_from, rewind, back_run, is_recent, compute_streak,
}

-- The run that is open at the end of the dates, behind `prev` with a run of `run` so far.
abbrev pub open_run : ℕ → ℕ → List ℕ → ℕ
open_run prev run [] = run
open_run prev run (d ∷ ds) =
    let on = open_run d (suc run) ds in
    let reset = open_run d 1 ds in if next_day prev d then on else reset

-- The longest of the runs that end at some date.
abbrev pub longest_run : ℕ → ℕ → List ℕ → ℕ
longest_run prev run [] = run
longest_run prev run (d ∷ ds) =
    let on = longest_run d (suc run) ds in
    let reset = longest_run d 1 ds in best run (if next_day prev d then on else reset)

back_run-rewind :
    (p : ℕ) (earlier ds : List ℕ)
    → let r = rewind p earlier ds in back_run r.0 r.1 ≡ open_run p (back_run p earlier) ds
unfolding rewind
back_run-rewind p earlier [] = refl
back_run-rewind p earlier (d ∷ ds) = elim (Bool-cases (next_day p d)) [
  | inl on ↦ back_run-rewind d (p ∷ earlier) ds ∙ unfold back_run in (rw on refl)
  | inr gap ↦ back_run-rewind d (p ∷ earlier) ds ∙ unfold back_run in (rw gap refl)
]

run_le_longest : (prev run : ℕ) (ds : List ℕ) → run ≤ longest_run prev run ds
run_le_longest prev run [] = omega arith
run_le_longest prev run (d ∷ ds) = ground arith

longest_from-longest_run :
    (prev run max : ℕ) (ds : List ℕ)
    → 1 ≤ max
    → run ≤ max
    → longest_from prev run max ds ≡ best (longest_run prev run ds) max
unfolding longest_from
longest_from-longest_run prev run max [] one h = ground arith
longest_from-longest_run prev run max (d ∷ ds) one h = elim (Bool-cases (next_day prev d)) [
  | inl on ↦ rw on (
      ground (
        arith,
        longest_from-longest_run d (suc run) (best (suc run) max) ds,
        run_le_longest d (suc run) ds,
      ))
  | inr gap ↦ rw gap (ground (arith, longest_from-longest_run d 1 max ds, run_le_longest d 1 ds, h))
]

open_le_longest : (prev run : ℕ) (ds : List ℕ) → open_run prev run ds ≤ longest_run prev run ds
open_le_longest prev run [] = omega arith
open_le_longest prev run (d ∷ ds) = elim (Bool-cases (next_day prev d)) [
  | inl on ↦ rw on (ground (arith, open_le_longest d (suc run) ds))
  | inr gap ↦ rw gap (ground (arith, open_le_longest d 1 ds))
]

longest_le_length : (prev run : ℕ) (ds : List ℕ) → longest_run prev run ds ≤ run + length ds
longest_le_length prev run [] = omega arith
longest_le_length prev run (d ∷ ds) = elim (Bool-cases (next_day prev d)) [
  | inl on ↦ rw on (ground (arith, longest_le_length d (suc run) ds))
  | inr gap ↦ rw gap (ground (arith, longest_le_length d 1 ds))
]

-- The current streak that the source counts backwards is the run of consecutive days that is open at
-- the last date, if that is today or yesterday, and 0 if not; the longest streak is the longest run
-- that ends at some date. The current one is at most the longest, which is at most the number of
-- dates.
pub compute_streak-runs :
    (d : ℕ) (ds : List ℕ) (now : ℕ)
    → let s = compute_streak (d ∷ ds) now in
      (s.0 ≡ (if is_recent (rewind d [] ds).0 now then open_run d 1 ds else 0))
      × (s.1 ≡ longest_run d 1 ds)
      × (s.0 ≤ s.1)
      × (s.1 ≤ length (d ∷ ds))
unfolding compute_streak
compute_streak-runs d ds now = (
  current,
  longest,
  ground (arith, current, longest, open_le_longest d 1 ds),
  ground (arith, longest, longest_le_length d 1 ds),
)
  where
    current :
        (compute_streak (d ∷ ds) now).0
        ≡ (if is_recent (rewind d [] ds).0 now then open_run d 1 ds else 0)
    current = elim (Bool-cases (is_recent (rewind d [] ds).0 now)) [
      | inl recent ↦ rw recent (back_run-rewind d [] ds ∙ unfold back_run in refl)
      | inr stale ↦ rw stale refl
    ]

    longest : (compute_streak (d ∷ ds) now).1 ≡ longest_run d 1 ds
    longest = ground (arith, longest_from-longest_run d 1 1 ds, run_le_longest d 1 ds)
