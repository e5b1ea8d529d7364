-- ===== src/Streak/Count.antt =====
-- application/user/streak.go, `computeStreak`. A date is its midnight in nanoseconds from the zero
-- time; the zero time is itself a midnight, so `Truncate` rounds down to a multiple of a day.
use training_center_back.Prelude.{
  ℕ, suc, ◌+◌, ◌*◌, ◌/◌, Bool, List, [], ◌∷◌, ltb, ◌==◌, if◌then◌else◌, ◌||◌,
}

abbrev pub day : ℕ
day = 86400000000000

-- `b.Sub(a) == day`, where `b` comes later in the list.
abbrev pub next_day : ℕ → ℕ → Bool
next_day a b = b == a + day

abbrev pub best : ℕ → ℕ → ℕ
best run max = if ltb max run then run else max

-- The loop for the longest run, behind the date `prev`.
unfoldable pub longest_from : ℕ → ℕ → ℕ → List ℕ → ℕ
longest_from prev run max [] = max
longest_from prev run max (d ∷ ds) =
    let on = longest_from d (suc run) (best (suc run) max) ds in
    let reset = longest_from d 1 max ds in if next_day prev d then on else reset

-- The dates from the last one back: `p` is the latest so far, and `earlier` what lies behind it.
unfoldable pub rewind : ℕ → List ℕ → List ℕ → ℕ × List ℕ
rewind p earlier [] = (p, earlier)
rewind p earlier (d ∷ ds) = rewind d (p ∷ earlier) ds

-- The loop for the current run: it goes back from the last date and breaks at the first gap.
unfoldable pub back_run : ℕ → List ℕ → ℕ
back_run last [] = 1
back_run last (d ∷ ds) = let further = back_run d ds in if next_day d last then suc further else 1

abbrev pub truncate : ℕ → ℕ
truncate now = now / day * day

-- `last.Equal(today) || last.Equal(yesterday)`.
abbrev pub is_recent : ℕ → ℕ → Bool
is_recent last now = (last == truncate now) || (last + day == truncate now)

-- The current and the longest streak.
unfoldable pub compute_streak : List ℕ → ℕ → ℕ × ℕ
compute_streak [] now = (0, 0)
compute_streak (d ∷ ds) now =
    let (last, earlier) = rewind d [] ds in
    (if is_recent last now then back_run last earlier else 0, longest_from d 1 1 ds)
