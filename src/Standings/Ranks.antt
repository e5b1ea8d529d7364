-- ===== src/Standings/Ranks.antt =====
-- The ranks that `RankStandings` gives to the rows of a sorted table.
use training_center_back.Prelude.{
  ℕ, suc, ◌+◌, true, false, List, [], ◌∷◌, ◌≡◌, refl, sym, ap, ◌∙◌, inl, inr, arith, All, length,
  Bool-cases, if◌then◌else◌,
}
use training_center_back.Standings.Ranking.{
  RankedEntry, less, same_tie, assign_behind, assign_ranks,
}
use training_center_back.Standings.Sorting.{better, IsSorted}
use training_center_back.Standings.Order.{
  less_irrefl, less_neg_trans, less-same_tie, less_of_not_tie,
}

-- The rows get their ranks from the rows in front of them, `pre`, the last first.
pub RankedBehind : List RankedEntry → List RankedEntry → Type 0
RankedBehind pre [] = Unit
RankedBehind pre (x ∷ xs) = (x.rank ≡ suc (better x pre)) × RankedBehind (x ∷ pre) xs

better-same_tie :
    (p x : RankedEntry) (pre : List RankedEntry) → same_tie p x ≡ true → better x pre ≡ better p pre
better-same_tie p x [] t = refl
better-same_tie p x (y ∷ ys) t = ground (arith, less-same_tie p x y t, better-same_tie p x ys t)

better-All :
    (p x : RankedEntry) (pre : List RankedEntry)
    → less p x ≡ true
    → All (λ y. less p y ≡ false) pre
    → better x pre ≡ length pre
better-All p x [] h all = refl
better-All p x (y ∷ ys) h (k, ks) = ground (arith, less_neg_trans x y p, better-All p x ys h ks)

-- Giving a row its rank changes no comparison.
abbrev pub ranked : ℕ → RankedEntry → RankedEntry
ranked r e = record e { rank = r }

less-ranked :
    (r : ℕ) (e y : RankedEntry)
    → (less (ranked r e) y ≡ less e y) × (less y (ranked r e) ≡ less y e)
unfolding less
less-ranked r e y = (refl, refl)

better-ranked :
    (r : ℕ) (e : RankedEntry) (xs : List RankedEntry) → better (ranked r e) xs ≡ better e xs
better-ranked r e [] = refl
better-ranked r e (x ∷ xs) = ground (arith, (less-ranked r e x).1, better-ranked r e xs)

not_beats-ranked :
    (r : ℕ) (e : RankedEntry) (xs : List RankedEntry)
    → All (λ y. less e y ≡ false) xs
    → All (λ y. less (ranked r e) y ≡ false) xs
not_beats-ranked r e [] all = tt
not_beats-ranked r e (x ∷ xs) (h, hs) = ((less-ranked r e x).0 ∙ h, not_beats-ranked r e xs hs)

not_beaten-ranked :
    (r : ℕ) (e : RankedEntry) (xs : List RankedEntry)
    → All (λ y. less y e ≡ false) xs
    → All (λ y. less y (ranked r e) ≡ false) xs
not_beaten-ranked r e [] all = tt
not_beaten-ranked r e (x ∷ xs) (h, hs) = ((less-ranked r e x).1 ∙ h, not_beaten-ranked r e xs hs)

not_beats-behind :
    (prev e : RankedEntry) (pre : List RankedEntry)
    → less e prev ≡ false
    → All (λ y. less prev y ≡ false) pre
    → All (λ y. less e y ≡ false) pre
not_beats-behind prev e [] h all = tt
not_beats-behind prev e (y ∷ ys) h (k, ks) =
    (less_neg_trans y prev e k h, not_beats-behind prev e ys h ks)

assign_behind-RankedBehind :
    (i : ℕ) (prev : RankedEntry) (pre xs : List RankedEntry)
    → length pre ≡ i
    → prev.rank ≡ suc (better prev pre)
    → All (λ y. less prev y ≡ false) pre
    → IsSorted (prev ∷ xs)
    → RankedBehind pre (assign_behind i prev xs)
unfolding assign_behind RankedBehind
assign_behind-RankedBehind i prev pre [] n r all s = tt
assign_behind-RankedBehind i prev pre (e ∷ es) n r all ((h, hs), (s, ss)) = (
  rank_right ∙ ap suc (sym (better-ranked rank' e pre)),
  assign_behind-RankedBehind (suc i) (ranked rank' e) (ranked rank' e ∷ pre) es (ap suc n)
      (rank_right ∙ ap suc (sym again))
      (
        (less-ranked rank' e (ranked rank' e)).0 ∙ (less-ranked rank' e e).1 ∙ less_irrefl e,
        not_beats-ranked rank' e pre (not_beats-behind prev e pre h all),
      )
      (not_beaten-ranked rank' e es s, ss),
)
  where
    rank' : ℕ
    rank' = if same_tie prev e then prev.rank else i + 1

    rank_right : rank' ≡ suc (better e pre)
    rank_right = elim (Bool-cases (same_tie prev e)) [
      | inl tie ↦ ground (arith, better-same_tie prev e pre tie)
      | inr no_tie ↦ ground (arith, better-All prev e pre (less_of_not_tie prev e no_tie h) all)
    ]

    again : better (ranked rank' e) (ranked rank' e ∷ pre) ≡ better e pre
    again = ground (
      arith,
      (less-ranked rank' e (ranked rank' e)).0,
      (less-ranked rank' e e).1,
      less_irrefl e,
      better-ranked rank' e pre,
    )

pub assign_ranks-RankedBehind :
    (es : List RankedEntry) → IsSorted es → RankedBehind [] (assign_ranks es)
unfolding assign_ranks RankedBehind
assign_ranks-RankedBehind [] s = tt
assign_ranks-RankedBehind (e ∷ es) (all, s) =
    let itself = (less-ranked 1 e (ranked 1 e)).0 ∙ (less-ranked 1 e e).1 ∙ less_irrefl e in
    (
      refl,
      assign_behind-RankedBehind 1 (ranked 1 e) (ranked 1 e ∷ []) es refl (ground (arith, itself))
          (itself, tt) (not_beaten-ranked 1 e es all, s),
    )

not_beaten-assign :
    (k : RankedEntry) (i : ℕ) (prev : RankedEntry) (es : List RankedEntry)
    → All (λ y. less y k ≡ false) es
    → All (λ y. less y k ≡ false) (assign_behind i prev es)
unfolding assign_behind
not_beaten-assign k i prev [] all = tt
not_beaten-assign k i prev (e ∷ es) (h, hs) = (
  (less-ranked (if same_tie prev e then prev.rank else i + 1) e k).0 ∙ h,
  not_beaten-assign k (suc i) _ es hs,
)

assign_behind-IsSorted :
    (i : ℕ) (prev : RankedEntry) (es : List RankedEntry)
    → IsSorted es
    → IsSorted (assign_behind i prev es)
unfolding assign_behind
assign_behind-IsSorted i prev [] s = tt
assign_behind-IsSorted i prev (e ∷ es) (all, s) = (
  not_beaten-ranked' (if same_tie prev e then prev.rank else i + 1),
  assign_behind-IsSorted (suc i) _ es s,
)
  where
    not_beaten-ranked' :
        (r : ℕ) → All (λ y. less y (ranked r e) ≡ false) (assign_behind (suc i) (ranked r e) es)
    not_beaten-ranked' r = not_beaten-ranked r e _ (not_beaten-assign e (suc i) (ranked r e) es all)

pub assign_ranks-IsSorted : (es : List RankedEntry) → IsSorted es → IsSorted (assign_ranks es)
unfolding assign_ranks
assign_ranks-IsSorted [] s = tt
assign_ranks-IsSorted (e ∷ es) (all, s) = (
  not_beaten-ranked 1 e _ (not_beaten-assign e 1 (ranked 1 e) es all),
  assign_behind-IsSorted 1 _ es s,
)

better_of_not_beaten :
    (e : RankedEntry) (xs : List RankedEntry) → All (λ y. less y e ≡ false) xs → better e xs ≡ 0
better_of_not_beaten e [] all = refl
better_of_not_beaten e (x ∷ xs) (h, hs) = rw h (better_of_not_beaten e xs hs)

-- A table split into the rows in front and the rows to come.
pub ranks_in_whole :
    (whole pre xs : List RankedEntry)
    → ((k : RankedEntry) → better k pre + better k xs ≡ better k whole)
    → IsSorted xs
    → RankedBehind pre xs
    → All (λ e. e.rank ≡ suc (better e whole)) xs
unfolding RankedBehind
ranks_in_whole whole pre [] split s r = tt
ranks_in_whole whole pre (x ∷ xs) split (all, s) (r, rs) = (
  omega (arith, r, split x, better_of_not_beaten x (x ∷ xs) (less_irrefl x, all)),
  ranks_in_whole whole (x ∷ pre) xs (λ k. moved k) s rs,
)
  where
    moved : (k : RankedEntry) → better k (x ∷ pre) + better k xs ≡ better k whole
    moved k = ground (arith, split k)
