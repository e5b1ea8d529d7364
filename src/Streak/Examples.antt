-- ===== src/Streak/Examples.antt =====
-- The theorem on streaks at four dates: two days, a gap, and two days up to yesterday.
use training_center_back.Prelude.{ℕ, ◌≤◌, List, [], ◌∷◌, ◌≡◌, if◌then◌else◌, length}
use training_center_back.Streak.Count.{rewind, is_recent, compute_streak}
use training_center_back.Streak.Runs.{open_run, longest_run, compute_streak-runs}

abbrev dates : List ℕ
dates = 86400000000000 ∷ 345600000000000 ∷ 432000000000000 ∷ []

compute_streak-runs_example :
    let s = compute_streak (0 ∷ dates) 520000000000000 in
    (s.0 ≡ (if is_recent (rewind 0 [] dates).0 520000000000000 then open_run 0 1 dates else 0))
    × (s.1 ≡ longest_run 0 1 dates)
    × (s.0 ≤ s.1)
    × (s.1 ≤ length (0 ∷ dates))
compute_streak-runs_example = compute_streak-runs 0 dates 520000000000000
