-- ===== src/Contest/Problems.antt =====
-- The problem list of a contest under `AddProblem` and `RemoveProblem`.
use training_center_back.Prelude.{
  ℕ, suc, ◌+◌, String, true, false, List, [], ◌∷◌, ◌++◌, ◌≡◌, refl, ◌∙◌, ◌⊎◌, inl, inr, arith, pos,
  str_eq, str_eq_iff, str_eq_refl, Bool-cases, length, ◌||◌,
}
use training_center_back.Apperror.{ok}
use training_center_back.Contest.Settings.{ContestProblem}
use training_center_back.Contest.Aggregate.{
  Contest, has_problem, add_problem, without, renumber, remove_problem,
}

-- The orders count up from `i + 1` along the list.
abbrev pub IsNumbered : ℕ → List ContestProblem → Type 0
IsNumbered i [] = Unit
IsNumbered i (p ∷ ps) = (p.order ≡ pos (i + 1)) × IsNumbered (suc i) ps

-- No problem stands in the list twice.
abbrev pub IsDistinct : List ContestProblem → Type 0
IsDistinct [] = Unit
IsDistinct (p ∷ ps) = (has_problem p.problem_id ps ≡ false) × IsDistinct ps

pub record IsOrdered (c : Contest) : Type 0 where
  pub numbered : IsNumbered 0 c.problems
  pub distinct : IsDistinct c.problems

has_problem-append :
    (x : String) (ps : List ContestProblem) (q : ContestProblem)
    → has_problem x (ps ++ q ∷ []) ≡ (has_problem x ps || str_eq q.problem_id x)
unfolding has_problem
has_problem-append x [] q = ground arith
has_problem-append x (p ∷ ps) q = ground (arith, has_problem-append x ps q)

IsNumbered-append :
    (i : ℕ) (ps : List ContestProblem) (q : ContestProblem)
    → IsNumbered i ps
    → q.order ≡ pos (i + length ps + 1)
    → IsNumbered i (ps ++ q ∷ [])
IsNumbered-append i [] q n h = (ground arith, tt)
IsNumbered-append i (p ∷ ps) q (e, n) h = (e, IsNumbered-append (suc i) ps q n (ground arith))

IsDistinct-append :
    (ps : List ContestProblem) (q : ContestProblem)
    → IsDistinct ps
    → has_problem q.problem_id ps ≡ false
    → IsDistinct (ps ++ q ∷ [])
unfolding has_problem
IsDistinct-append [] q d h = (refl, tt)
IsDistinct-append (p ∷ ps) q (fresh, d) h = ground (
  arith,
  str_eq_iff p.problem_id q.problem_id,
  str_eq_iff q.problem_id p.problem_id,
  has_problem-append p.problem_id ps q,
  IsDistinct-append ps q d,
)

renumber-IsNumbered : (i : ℕ) (ps : List ContestProblem) → IsNumbered i (renumber i ps)
unfolding renumber
renumber-IsNumbered i [] = tt
renumber-IsNumbered i (p ∷ ps) = (refl, renumber-IsNumbered (suc i) ps)

has_problem-renumber :
    (x : String) (i : ℕ) (ps : List ContestProblem)
    → has_problem x (renumber i ps) ≡ has_problem x ps
unfolding renumber has_problem
has_problem-renumber x i [] = refl
has_problem-renumber x i (p ∷ ps) = ground (arith, has_problem-renumber x (suc i) ps)

renumber-IsDistinct :
    (i : ℕ) (ps : List ContestProblem) → IsDistinct ps → IsDistinct (renumber i ps)
unfolding renumber
renumber-IsDistinct i [] d = tt
renumber-IsDistinct i (p ∷ ps) (fresh, d) =
    (has_problem-renumber p.problem_id (suc i) ps ∙ fresh, renumber-IsDistinct (suc i) ps d)

has_problem-without-false :
    (x y : String) (ps : List ContestProblem)
    → has_problem x ps ≡ false
    → has_problem x (without y ps) ≡ false
unfolding has_problem without
has_problem-without-false x y [] h = refl
has_problem-without-false x y (p ∷ ps) h = ground (arith, has_problem-without-false x y ps)

without-IsDistinct :
    (x : String) (ps : List ContestProblem) → IsDistinct ps → IsDistinct (without x ps)
unfolding without
without-IsDistinct x [] d = tt
without-IsDistinct x (p ∷ ps) (fresh, d) =
    ground (arith, has_problem-without-false p.problem_id x ps, without-IsDistinct x ps d)

has_problem-without_self :
    (x : String) (ps : List ContestProblem) → IsDistinct ps → has_problem x (without x ps) ≡ false
unfolding has_problem without
has_problem-without_self x [] d = refl
has_problem-without_self x (p ∷ ps) (fresh, d) =
    ground (arith, str_eq_iff p.problem_id x, has_problem-without_self x ps d)

-- A problem of another id is kept.
has_problem-without_ne :
    (x y : String) (ps : List ContestProblem)
    → str_eq x y ≡ false
    → has_problem x (without y ps) ≡ has_problem x ps
unfolding has_problem without
has_problem-without_ne x y [] h = refl
has_problem-without_ne x y (p ∷ ps) h = ground (
  arith,
  str_eq_iff p.problem_id x,
  str_eq_iff p.problem_id y,
  str_eq_iff x y,
  has_problem-without_ne x y ps h,
)

abbrev added : String → String → List ContestProblem → ContestProblem
added id problem_id ps = record { id = id; problem_id = problem_id; order = pos (length ps + 1) }

-- What a call that succeeds did.
add_problem-cases :
    (c : Contest) (id problem_id : String) (now : ℕ) {c' : Contest}
    → add_problem c id problem_id now ≡ ok c'
    → ((str_eq id "" || str_eq problem_id "") ≡ false)
      × (((has_problem problem_id c.problems ≡ true) × (c'.problems ≡ c.problems))
          ⊎ ((has_problem problem_id c.problems ≡ false)
              × (c'.problems ≡ c.problems ++ added id problem_id c.problems ∷ [])))
unfolding add_problem
add_problem-cases c id problem_id now h = ground arith

add_problem-again :
    (c : Contest) (id problem_id : String) (now : ℕ)
    → (str_eq id "" || str_eq problem_id "") ≡ false
    → has_problem problem_id c.problems ≡ true
    → add_problem c id problem_id now ≡ ok c
unfolding add_problem
add_problem-again c id problem_id now named has = rw (named, has)

-- Adding a problem keeps the list free of duplicates and numbered from 1. Afterwards the contest
-- has the problem and all that it had, and adding it again changes nothing.
pub add_problem-IsOrdered :
    (c : Contest) (id problem_id : String) (now later : ℕ) {c' : Contest}
    → IsOrdered c
    → add_problem c id problem_id now ≡ ok c'
    → IsOrdered c'
      × (has_problem problem_id c'.problems ≡ true)
      × ((x : String) → has_problem x c.problems ≡ true → has_problem x c'.problems ≡ true)
      × (add_problem c' id problem_id later ≡ ok c')
add_problem-IsOrdered c id problem_id now later {c'} v h =
    let (named, how) = add_problem-cases c id problem_id now h in
    let (o, has, kept) = listed how in
    (o, has, kept, add_problem-again c' id problem_id later named has)
  where
    listed :
        ((has_problem problem_id c.problems ≡ true) × (c'.problems ≡ c.problems))
          ⊎ ((has_problem problem_id c.problems ≡ false)
              × (c'.problems ≡ c.problems ++ added id problem_id c.problems ∷ []))
        → IsOrdered c'
          × (has_problem problem_id c'.problems ≡ true)
          × ((x : String) → has_problem x c.problems ≡ true → has_problem x c'.problems ≡ true)
    listed (inl (has, same)) = (
      record { numbered = rw same v.numbered; distinct = rw same v.distinct },
      rw same has,
      λ x e. rw same e,
    )
    listed (inr (new, more)) = (
      record {
        numbered = rw more (
            IsNumbered-append 0 c.problems (added id problem_id c.problems) v.numbered
              (ground arith));
        distinct =
            rw more (IsDistinct-append c.problems (added id problem_id c.problems) v.distinct new);
      },
      rw (more, has_problem-append problem_id c.problems) (ground (arith, str_eq_refl problem_id)),
      λ x e. rw (more, has_problem-append x c.problems) (ground arith),
    )

-- Removing a problem says whether the contest had it. Afterwards the contest does not have it,
-- still has every other problem that it had, and the list is free of duplicates and numbered from 1.
pub remove_problem-IsOrdered :
    (c : Contest) (problem_id : String) (now : ℕ)
    → IsOrdered c
    → let r = remove_problem c problem_id now in
      IsOrdered r.0
      × (r.1 ≡ has_problem problem_id c.problems)
      × (has_problem problem_id r.0.problems ≡ false)
      × ((x : String)
          → str_eq x problem_id ≡ false
          → has_problem x r.0.problems ≡ has_problem x c.problems)
unfolding remove_problem
remove_problem-IsOrdered c problem_id now v =
    elim (Bool-cases (has_problem problem_id c.problems)) [
      | inl had ↦ rw had (
        record {
          numbered = renumber-IsNumbered 0 (without problem_id c.problems);
          distinct = renumber-IsDistinct 0 _ (without-IsDistinct problem_id c.problems v.distinct);
        },
        refl,
        has_problem-renumber problem_id 0 _
            ∙ has_problem-without_self problem_id c.problems v.distinct,
        (λ x e. has_problem-renumber x 0 _ ∙ has_problem-without_ne x problem_id c.problems e),
      )
      | inr had_not ↦ rw had_not (v, refl, had_not, λ x e. refl)
    ]
