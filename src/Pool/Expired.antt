-- ===== src/Pool/Expired.antt =====
-- The containers that a tick of the reaper collects: those left draining, and the expired ones.
use training_center_back.Prelude.{
  ℕ, String, true, false, Option, none, some, List, [], ◌∷◌, ◌≡◌, refl, sym, arith, subst, str_eq,
  str_eq_iff, str_eq_refl, Bool-cases, inl, inr, All, if◌then◌else◌,
}
use training_center_back.Pool.Containers.{Container, draining, is_draining, find, charged}
use training_center_back.Pool.Accounts.{Distinct}
use training_center_back.Pool.Operations.{
  LanguageConfig, set_state, stuck, is_expired, to_evict, mark_expired,
}
use training_center_back.Pool.Budget.{IsCapped}

find-stuck-none :
    (id : String) (cs : List Container) → find id cs ≡ none → find id (stuck cs) ≡ none
unfolding stuck
find-stuck-none id [] h = refl
find-stuck-none id (c ∷ cs) h = ground (arith, find-stuck-none id cs)

pub stuck-Distinct : (cs : List Container) → Distinct cs → Distinct (stuck cs)
unfolding stuck
stuck-Distinct [] d = tt
stuck-Distinct (c ∷ cs) (fresh, d) =
    ground (arith, stuck-Distinct cs d, find-stuck-none c.id cs fresh)

-- A container further back in the slice is found behind another one.
find-behind :
    (c x : Container) (cs : List Container)
    → find c.id cs ≡ none
    → find x.id cs ≡ some x
    → (str_eq c.id x.id ≡ false) × (find x.id (c ∷ cs) ≡ some x)
find-behind c x cs fresh found = (apart, rw apart found)
  where
    apart : str_eq c.id x.id ≡ false
    apart = ground (arith, str_eq_iff c.id x.id)

abbrev pub Stands : List Container → Container → Type 0
Stands cs x = find x.id cs ≡ some x

Stands-behind :
    (c : Container) (cs xs : List Container)
    → find c.id cs ≡ none
    → All (Stands cs) xs
    → All (Stands (c ∷ cs)) xs
Stands-behind c cs [] fresh all = tt
Stands-behind c cs (x ∷ xs) fresh (k, ks) =
    ((find-behind c x cs fresh k).1, Stands-behind c cs xs fresh ks)

pub stuck-Stands : (cs : List Container) → Distinct cs → All (Stands cs) (stuck cs)
unfolding stuck
stuck-Stands [] d = tt
stuck-Stands (c ∷ cs) (fresh, d) = elim (Bool-cases (is_draining c.state)) [
  | inl left ↦
      rw left (rw (str_eq_refl c.id) refl, Stands-behind c cs (stuck cs) fresh (stuck-Stands cs d))
  | inr other ↦ rw other (Stands-behind c cs (stuck cs) fresh (stuck-Stands cs d))
]

module _ (now timeout : ℕ) where
  find-to_evict-none :
      (id : String) (cs : List Container)
      → find id cs ≡ none
      → find id (to_evict now timeout cs) ≡ none
  unfolding to_evict
  find-to_evict-none id [] h = refl
  find-to_evict-none id (c ∷ cs) h = elim (Bool-cases (is_expired now timeout c)) [
    | inl old ↦ rw old (ground (arith, find-to_evict-none id cs))
    | inr young ↦ rw young (find-to_evict-none id cs (ground arith))
  ]

  pub to_evict-Distinct : (cs : List Container) → Distinct cs → Distinct (to_evict now timeout cs)
  unfolding to_evict
  to_evict-Distinct [] d = tt
  to_evict-Distinct (c ∷ cs) (fresh, d) = elim (Bool-cases (is_expired now timeout c)) [
    | inl old ↦ rw old (find-to_evict-none c.id cs fresh, to_evict-Distinct cs d)
    | inr young ↦ rw young (to_evict-Distinct cs d)
  ]

  -- A container goes to draining as its time runs out.
  abbrev pub marked : Container → Container
  marked c = if is_expired now timeout c then set_state draining c else c

  pub find-mark_expired :
      (id : String) (cs : List Container) {c : Container}
      → find id cs ≡ some c
      → find id (mark_expired now timeout cs) ≡ some (marked c)
  unfolding mark_expired
  find-mark_expired id [] h = cc
  find-mark_expired id (x ∷ cs) {c} h = elim (Bool-cases (is_expired now timeout x)) [
    | inl old ↦ rw old (ground (arith, find-mark_expired id cs {c = c}))
    | inr young ↦ rw young (ground (arith, find-mark_expired id cs {c = c}))
  ]

  find-mark_expired-none :
      (id : String) (cs : List Container)
      → find id cs ≡ none
      → find id (mark_expired now timeout cs) ≡ none
  unfolding mark_expired
  find-mark_expired-none id [] h = refl
  find-mark_expired-none id (x ∷ cs) h = elim (Bool-cases (is_expired now timeout x)) [
    | inl old ↦ rw old (ground (arith, find-mark_expired-none id cs))
    | inr young ↦ rw young (ground (arith, find-mark_expired-none id cs))
  ]

  pub mark_expired-Distinct :
      (cs : List Container) → Distinct cs → Distinct (mark_expired now timeout cs)
  unfolding mark_expired
  mark_expired-Distinct [] d = tt
  mark_expired-Distinct (c ∷ cs) (fresh, d) = elim (Bool-cases (is_expired now timeout c)) [
    | inl old ↦ rw old (find-mark_expired-none c.id cs fresh, mark_expired-Distinct cs d)
    | inr young ↦ rw young (find-mark_expired-none c.id cs fresh, mark_expired-Distinct cs d)
  ]

  pub charged-mark_expired :
      (cs : List Container) → charged (mark_expired now timeout cs) ≡ charged cs
  unfolding mark_expired
  charged-mark_expired [] = refl
  charged-mark_expired (c ∷ cs) = elim (Bool-cases (is_expired now timeout c)) [
    | inl old ↦ rw old (omega (arith, charged-mark_expired cs))
    | inr young ↦ rw young (omega (arith, charged-mark_expired cs))
  ]

  pub mark_expired-IsCapped :
      (languages : String → Option LanguageConfig) (cs : List Container)
      → All (IsCapped languages) cs
      → All (IsCapped languages) (mark_expired now timeout cs)
  unfolding mark_expired
  mark_expired-IsCapped languages [] all = tt
  mark_expired-IsCapped languages (c ∷ cs) (k, ks) = elim (Bool-cases (is_expired now timeout c)) [
    | inl old ↦
        rw old
          (record { charge = k.charge; within = k.within }, mark_expired-IsCapped languages cs ks)
    | inr young ↦ rw young (k, mark_expired-IsCapped languages cs ks)
  ]

  pub charge-marked : (c : Container) → (marked c).memory_bytes ≡ c.memory_bytes
  charge-marked c = elim (Bool-cases (is_expired now timeout c)) [
    | inl old ↦ rw old refl
    | inr young ↦ rw young refl
  ]

  pub to_evict-Stands :
      (cs : List Container) → Distinct cs → All (Stands cs) (to_evict now timeout cs)
  unfolding to_evict
  to_evict-Stands [] d = tt
  to_evict-Stands (c ∷ cs) (fresh, d) = elim (Bool-cases (is_expired now timeout c)) [
    | inl old ↦ rw old (
      rw (str_eq_refl c.id) refl,
      Stands-behind c cs (to_evict now timeout cs) fresh (to_evict-Stands cs d),
    )
    | inr young ↦
        rw young (Stands-behind c cs (to_evict now timeout cs) fresh (to_evict-Stands cs d))
  ]

  apart_behind :
      (c : Container) (cs xs : List Container)
      → find c.id cs ≡ none
      → All (Stands cs) xs
      → All (λ x. find x.id (stuck cs) ≡ none) xs
      → All (λ x. find x.id (c ∷ stuck cs) ≡ none) xs
  apart_behind c cs [] fresh all apart = tt
  apart_behind c cs (x ∷ xs) fresh (k, ks) (a, rest) =
      (rw (find-behind c x cs fresh k).0 a, apart_behind c cs xs fresh ks rest)

  stuck_skip :
      (c : Container) (cs : List Container)
      → is_draining c.state ≡ false
      → stuck (c ∷ cs) ≡ stuck cs
  unfolding stuck
  stuck_skip c cs other = rw other refl

  stuck_take :
      (c : Container) (cs : List Container)
      → is_draining c.state ≡ true
      → stuck (c ∷ cs) ≡ c ∷ stuck cs
  unfolding stuck
  stuck_take c cs left = rw left refl

  -- No container is in both groups.
  pub to_evict-apart :
      (cs : List Container)
      → Distinct cs
      → All (λ x. find x.id (stuck cs) ≡ none) (to_evict now timeout cs)
  unfolding to_evict
  to_evict-apart [] d = tt
  to_evict-apart (c ∷ cs) (fresh, d) = elim (Bool-cases (is_draining c.state)) [
    | inl left ↦
        subst (λ gs. All (λ x. find x.id gs ≡ none) (to_evict now timeout (c ∷ cs)))
          (sym (stuck_take c cs left))
          (rw (dead left) (
            apart_behind c cs (to_evict now timeout cs) fresh (to_evict-Stands cs d)
              (to_evict-apart cs d)))
    | inr other ↦
        subst (λ gs. All (λ x. find x.id gs ≡ none) (to_evict now timeout (c ∷ cs)))
          (sym (stuck_skip c cs other))
          (elim (Bool-cases (is_expired now timeout c)) [
            | inl old ↦ rw old (find-stuck-none c.id cs fresh, to_evict-apart cs d)
            | inr young ↦ rw young (to_evict-apart cs d)
          ])
  ]
    where
      dead : is_draining c.state ≡ true → is_expired now timeout c ≡ false
      dead left = ground arith
