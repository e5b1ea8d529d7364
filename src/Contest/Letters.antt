-- ===== src/Contest/Letters.antt =====
-- contest_problem.go, `Letter`: the label of a problem slot, A to Z, then AA, AB, and so on.
use training_center_back.Prelude.{
  ℕ, zero, suc, ◌+◌, ◌-◌, ◌*◌, ◌/◌, ◌%◌, ◌≤◌, List, [], ◌∷◌, ◌≡◌, refl, ap, ◌∙◌, arith, All,
}

-- The loop `for n > 0`, in front of the letters found so far; a letter is its code. Each round
-- divides n by 26, so fuel of n is enough.
unfoldable pub letter_from : ℕ → ℕ → List ℕ → List ℕ
letter_from zero n result = result
letter_from (suc fuel) zero result = result
letter_from (suc fuel) (suc m) result = letter_from fuel (m / 26) ((65 + m % 26) ∷ result)

unfoldable pub letter : ℕ → List ℕ
letter order = letter_from order order []

-- Reading a label back: A counts 1 and Z counts 26, in base 26.
abbrev pub read_from : ℕ → List ℕ → ℕ
read_from acc [] = acc
read_from acc (c ∷ cs) = read_from (acc * 26 + (c - 64)) cs

abbrev pub IsCapital : ℕ → Type 0
IsCapital c = (65 ≤ c) × (c ≤ 90)

read-letter_from :
    (fuel n : ℕ) (result : List ℕ)
    → n ≤ fuel
    → read_from 0 (letter_from fuel n result) ≡ read_from n result
unfolding letter_from
read-letter_from zero zero result h = refl
read-letter_from zero (suc n) result h = absurd (omega arith)
read-letter_from (suc fuel) zero result h = refl
read-letter_from (suc fuel) (suc m) result h =
    read-letter_from fuel (m / 26) ((65 + m % 26) ∷ result) (omega arith)
    ∙ ap (λ n. read_from n result) (digit m)
  where
    digit : (m : ℕ) → (m / 26) * 26 + ((65 + m % 26) - 64) ≡ suc m
    digit m = omega arith

letter_from-IsCapital :
    (fuel n : ℕ) (result : List ℕ)
    → All IsCapital result
    → All IsCapital (letter_from fuel n result)
unfolding letter_from
letter_from-IsCapital zero n result h = h
letter_from-IsCapital (suc fuel) zero result h = h
letter_from-IsCapital (suc fuel) (suc m) result h =
    letter_from-IsCapital fuel (m / 26) ((65 + m % 26) ∷ result) ((omega arith, omega arith), h)

-- Every label is made of capital letters, and reading it back gives the order it was made from.
pub read-letter : (order : ℕ) → (read_from 0 (letter order) ≡ order) × All IsCapital (letter order)
unfolding letter
read-letter order =
    (read-letter_from order order [] (omega arith), letter_from-IsCapital order order [] tt)
