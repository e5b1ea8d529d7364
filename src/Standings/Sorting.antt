-- ===== src/Standings/Sorting.antt =====
-- The stable sort of the standings rows.
use mathlib.Core.List.{Perm}
use mathlib.Core.List.Perm
use training_center_back.Prelude.{
  ℕ, suc, false, List, [], ◌∷◌, ◌≡◌, inl, inr, All, Bool-cases, if◌then◌else◌,
}
use training_center_back.Standings.Ranking.{RankedEntry, less, insert_sorted, stable_sort}
use training_center_back.Standings.Order.{less_neg_trans, less_asym}

-- How many rows of a table beat this one.
abbrev pub better : RankedEntry → List RankedEntry → ℕ
better e [] = 0
better e (x ∷ xs) = if less x e then suc (better e xs) else better e xs

-- No row of the table is beaten by a later one.
abbrev pub IsSorted : List RankedEntry → Type 0
IsSorted [] = Unit
IsSorted (x ∷ xs) = All (λ y. less y x ≡ false) xs × IsSorted xs

insert-All {ℓ} :
    (P : RankedEntry → Type ℓ) (e : RankedEntry) (xs : List RankedEntry)
    → P e
    → All P xs
    → All P (insert_sorted e xs)
unfolding insert_sorted
insert-All P e [] p ps = (p, tt)
insert-All P e (x ∷ xs) p (q, qs) = elim (Bool-cases (less x e)) [
  | inl beats ↦ rw beats (q, insert-All P e xs p qs)
  | inr not_beats ↦ rw not_beats (p, (q, qs))
]

not_beaten_mono :
    (e x : RankedEntry) (xs : List RankedEntry)
    → less x e ≡ false
    → All (λ y. less y x ≡ false) xs
    → All (λ y. less y e ≡ false) xs
not_beaten_mono e x [] h all = tt
not_beaten_mono e x (y ∷ ys) h (k, ks) = (less_neg_trans e x y h k, not_beaten_mono e x ys h ks)

insert-IsSorted :
    (e : RankedEntry) (xs : List RankedEntry) → IsSorted xs → IsSorted (insert_sorted e xs)
unfolding insert_sorted
insert-IsSorted e [] s = (tt, tt)
insert-IsSorted e (x ∷ xs) (all, s) = elim (Bool-cases (less x e)) [
  | inl beats ↦
      rw beats
        (insert-All (λ y. less y x ≡ false) e xs (less_asym e x beats) all, insert-IsSorted e xs s)
  | inr not_beats ↦ rw not_beats ((not_beats, not_beaten_mono e x xs not_beats all), (all, s))
]

pub stable_sort-IsSorted : (es : List RankedEntry) → IsSorted (stable_sort es)
unfolding stable_sort
stable_sort-IsSorted [] = tt
stable_sort-IsSorted (e ∷ es) = insert-IsSorted e (stable_sort es) (stable_sort-IsSorted es)

insert-perm : (e : RankedEntry) (xs : List RankedEntry) → Perm (insert_sorted e xs) (e ∷ xs)
unfolding insert_sorted
insert-perm e [] = Perm.refl (e ∷ [])
insert-perm e (x ∷ xs) = elim (Bool-cases (less x e)) [
  | inl beats ↦ rw beats (Perm.trans (Perm.cons x (insert-perm e xs)) (Perm.swap e x xs))
  | inr not_beats ↦ rw not_beats (Perm.refl (e ∷ x ∷ xs))
]

pub stable_sort-perm : (es : List RankedEntry) → Perm (stable_sort es) es
unfolding stable_sort
stable_sort-perm [] = Perm.refl []
stable_sort-perm (e ∷ es) =
    Perm.trans (insert-perm e (stable_sort es)) (Perm.cons e (stable_sort-perm es))
