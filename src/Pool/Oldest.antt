-- ===== src/Pool/Oldest.antt =====
-- Which container `Claim` evicts.
use training_center_back.Prelude.{
  ℕ, ◌≤◌, Option, none, some, List, [], ◌∷◌, ◌≡◌, ◌⊎◌, inl, inr, arith, str_eq_iff, str_eq_refl,
  ◌≢◌,
}
use training_center_back.Pool.Containers.{
  Container, idle, find, older, oldest_from, oldest_idle_container,
}
use training_center_back.Pool.Accounts.{Distinct}

-- No idle container of the slice was last used before `t`.
abbrev pub NoneOlder : ℕ → List Container → Type 0
NoneOlder t [] = Unit
NoneOlder t (c ∷ cs) = (c.state ≡ idle → t ≤ c.last_used_at) × NoneOlder t cs

abbrev pub NoneIdle : List Container → Type 0
NoneIdle [] = Unit
NoneIdle (c ∷ cs) = (c.state ≢ idle) × NoneIdle cs

abbrev Bound : Option Container → Container → Type 0
Bound none c = Unit
Bound (some b) c = c.last_used_at ≤ b.last_used_at

abbrev Idle : Option Container → Type 0
Idle none = Unit
Idle (some b) = b.state ≡ idle

older-Idle : (best : Option Container) (x : Container) → Idle best → Idle (older best x)
older-Idle none x h = ground arith
older-Idle (some b) x h = ground arith

older-bounds :
    (best : Option Container) (x c : Container)
    → Bound (older best x) c
    → Bound best c × (x.state ≡ idle → c.last_used_at ≤ x.last_used_at)
older-bounds none x c h = ground arith
older-bounds (some b) x c h = ground arith

oldest_from-Bound :
    (best : Option Container) (cs : List Container) {c : Container}
    → Idle best
    → oldest_from best cs ≡ some c
    → (c.state ≡ idle) × Bound best c × NoneOlder c.last_used_at cs
unfolding oldest_from
oldest_from-Bound none [] i h = cc
oldest_from-Bound (some b) [] {c} i h = ground arith
oldest_from-Bound best (x ∷ cs) {c} i h =
    let (idle_c, bound, rest) =
      oldest_from-Bound (older best x) cs {c = c} (older-Idle best x i) h in
    let (b, here) = older-bounds best x c bound in (idle_c, b, (here, rest))

oldest_from-find :
    (best : Option Container) (cs : List Container) {c : Container}
    → Distinct cs
    → oldest_from best cs ≡ some c
    → (best ≡ some c) ⊎ (find c.id cs ≡ some c)
unfolding oldest_from
oldest_from-find best [] d h = inl h
oldest_from-find best (x ∷ cs) {c} (fresh, d) h =
    elim (oldest_from-find (older best x) cs {c = c} d h) [
      | inl here ↦ older_case best here
      | inr there ↦ inr (ground (arith, str_eq_iff x.id c.id))
    ]
  where
    older_case :
        (best : Option Container)
        → older best x ≡ some c
        → (best ≡ some c) ⊎ (find c.id (x ∷ cs) ≡ some c)
    older_case none e = ground (arith, str_eq_refl x.id)
    older_case (some b) e = ground (arith, str_eq_refl x.id)

oldest_from-none :
    (best : Option Container) (cs : List Container)
    → oldest_from best cs ≡ none
    → (best ≡ none) × NoneIdle cs
unfolding oldest_from
oldest_from-none best [] h = (h, tt)
oldest_from-none none (x ∷ cs) h = ground (arith, oldest_from-none (older none x) cs h)
oldest_from-none (some b) (x ∷ cs) h = ground (arith, oldest_from-none (older (some b) x) cs h)

-- The container chosen for eviction is in the slice and idle, and no idle container was last used
-- before it.
pub oldest_idle_container-some :
    (cs : List Container) {c : Container}
    → Distinct cs
    → oldest_idle_container cs ≡ some c
    → (find c.id cs ≡ some c) × (c.state ≡ idle) × NoneOlder c.last_used_at cs
unfolding oldest_idle_container
oldest_idle_container-some cs {c} d h =
    let (i, _, rest) = oldest_from-Bound none cs {c = c} tt h in
    elim (oldest_from-find none cs {c = c} d h) [
      | inl impossible ↦ cc
      | inr found ↦ (found, i, rest)
    ]

-- There is none to evict only when no container is idle.
pub oldest_idle_container-none :
    (cs : List Container) → oldest_idle_container cs ≡ none → NoneIdle cs
unfolding oldest_idle_container
oldest_idle_container-none cs h = (oldest_from-none none cs h).1
