-- ===== src/Standings/Table.antt =====
-- The whole ranked table against its participants.
use mathlib.Core.Path.{subst₂}
use mathlib.Core.List.{Perm}
use mathlib.Core.List.Perm
use training_center_back.Prelude.{
  ℕ, suc, String, Option, List, [], ◌∷◌, map, ◌≡◌, refl, sym, ap, ◌∙◌, arith, All, ℤ,
}
use training_center_back.Standings.Ranking.{
  ParticipantStanding, RankedEntry, stable_sort, assign_behind, assign_ranks, build_entry,
  count_problem, count_problems, rank_standings, ProblemAttempt, rank_problem,
}
use training_center_back.Standings.Sorting.{
  better, IsSorted, stable_sort-IsSorted, stable_sort-perm,
}
use training_center_back.Standings.Ranks.{
  ranked, assign_ranks-IsSorted, assign_ranks-RankedBehind, ranks_in_whole,
}

ids : List RankedEntry → List String
ids = map (λ e. e.contestant_id)

ids-assign_behind :
    (i : ℕ) (prev : RankedEntry) (es : List RankedEntry) → ids (assign_behind i prev es) ≡ ids es
unfolding ids assign_behind
ids-assign_behind i prev [] = refl
ids-assign_behind i prev (e ∷ es) = rw (ids-assign_behind (suc i) _ es)

ids-assign_ranks : (es : List RankedEntry) → ids (assign_ranks es) ≡ ids es
unfolding ids assign_ranks
ids-assign_ranks [] = refl
ids-assign_ranks (e ∷ es) = ap (◌∷◌ e.contestant_id) (ids-assign_behind 1 (ranked 1 e) es)

count_problem-id :
    (e : RankedEntry) (x : String) (start : ℕ) (pen : ℤ) (freeze : Option ℕ) (a : ProblemAttempt)
    → (count_problem e x (rank_problem start pen freeze a)).contestant_id ≡ e.contestant_id
unfolding count_problem rank_problem
count_problem-id e x start pen freeze a = ground arith

count_problems-id :
    (start : ℕ) (pen : ℤ) (freeze : Option ℕ) (e : RankedEntry)
    (ps : List (String × ProblemAttempt))
    → (count_problems start pen freeze e ps).contestant_id ≡ e.contestant_id
unfolding count_problems
count_problems-id start pen freeze e [] = refl
count_problems-id start pen freeze e ((x, a) ∷ ps) =
    count_problems-id start pen freeze (count_problem e x (rank_problem start pen freeze a)) ps
    ∙ count_problem-id e x start pen freeze a

ids-build :
    (start : ℕ) (pen : ℤ) (freeze : Option ℕ) (ps : List ParticipantStanding)
    → ids (map (build_entry start pen freeze) ps) ≡ map (λ p. p.contestant_id) ps
unfolding ids build_entry
ids-build start pen freeze [] = refl
ids-build start pen freeze (p ∷ ps) =
    rw (ids-build start pen freeze ps, count_problems-id start pen freeze _ p.problems)

module _ (participants : List ParticipantStanding) (start : ℕ) (pen : ℤ) (freeze : Option ℕ) where
  -- Ranking gives one row to each participant, in an order where no row is beaten by a later one,
  -- and the rank of every row is one more than the number of rows that beat it: tied rows share a
  -- rank, and the next rank counts them all.
  pub rank_standings-ranks :
      let table = rank_standings participants start pen freeze in
      All (λ e. e.rank ≡ suc (better e table)) table
      × IsSorted table
      × Perm (map (λ e. e.contestant_id) table) (map (λ p. p.contestant_id) participants)
  unfolding rank_standings
  rank_standings-ranks =
      let rows = map (build_entry start pen freeze) participants in
      let sorted = stable_sort-IsSorted rows in
      (
        ranks_in_whole (assign_ranks (stable_sort rows)) [] (assign_ranks (stable_sort rows))
            (λ k. omega arith) (assign_ranks-IsSorted (stable_sort rows) sorted)
            (assign_ranks-RankedBehind (stable_sort rows) sorted),
        assign_ranks-IsSorted (stable_sort rows) sorted,
        unfold ids in
            (subst₂ Perm (sym (ids-assign_ranks (stable_sort rows)))
              (ids-build start pen freeze participants)
              (Perm.map (λ e. e.contestant_id) (stable_sort-perm rows))),
      )
