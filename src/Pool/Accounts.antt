-- ===== src/Pool/Accounts.antt =====
-- The slice seen through its ids: what the helpers do to membership, charges and ceilings.
use training_center_back.Prelude.{
  ◌+◌, String, false, none, some, List, [], ◌∷◌, ◌++◌, ◌≡◌, refl, subst, inl, inr, arith, str_eq,
  str_eq_iff, str_eq_refl, Bool-cases, All,
}
use training_center_back.Pool.Containers.{
  Container, idle, find, update, remove_from_slice, idle_of_language, charged,
}

-- No two containers of the slice have one id.
abbrev pub Distinct : List Container → Type 0
Distinct [] = Unit
Distinct (c ∷ cs) = (find c.id cs ≡ none) × Distinct cs

-- A write that keeps the id and the charge.
pub record IsWrite (f : Container → Container) : Type 0 where
  pub same_id : (c : Container) → (f c).id ≡ c.id
  pub same_charge : (c : Container) → (f c).memory_bytes ≡ c.memory_bytes

module _ (f : Container → Container) (w : IsWrite f) (id : String) where
  pub charged-update : (cs : List Container) → charged (update id f cs) ≡ charged cs
  unfolding update
  charged-update [] = refl
  charged-update (c ∷ cs) = ground (arith, w.same_charge c, charged-update cs)

  pub find-update_none :
      (j : String) (cs : List Container) → find j cs ≡ none → find j (update id f cs) ≡ none
  unfolding update
  find-update_none j [] h = refl
  find-update_none j (c ∷ cs) h = ground (arith, w.same_id c, find-update_none j cs)

  pub Distinct-update : (cs : List Container) → Distinct cs → Distinct (update id f cs)
  unfolding update
  Distinct-update [] d = tt
  Distinct-update (c ∷ cs) (fresh, d) =
      ground (arith, w.same_id c, find-update_none c.id cs fresh, Distinct-update cs d, fresh, d)

  pub find-update :
      (cs : List Container) {c : Container}
      → find id cs ≡ some c
      → find id (update id f cs) ≡ some (f c)
  unfolding update
  find-update [] h = cc
  find-update (x ∷ cs) {c} h = ground (arith, w.same_id x, find-update cs {c = c})

pub All-update {ℓ} :
    (P : Container → Type ℓ) (f : Container → Container) (id : String) (cs : List Container)
    → All P cs
    → ((c : Container) → find id cs ≡ some c → P c → P (f c))
    → All P (update id f cs)
unfolding update
All-update P f id [] all h = tt
All-update P f id (c ∷ cs) (p, ps) h = elim (Bool-cases (str_eq c.id id)) [
  | inl hit ↦ rw hit ((h c (rw hit) p), ps)
  | inr miss ↦ rw miss (p, All-update P f id cs ps (λ d e. h d (rw miss e)))
]

pub charged-remove :
    (id : String) (cs : List Container) {c : Container}
    → find id cs ≡ some c
    → charged (remove_from_slice cs id) + c.memory_bytes ≡ charged cs
unfolding remove_from_slice
charged-remove id [] h = cc
charged-remove id (x ∷ cs) {c} h = ground (arith, charged-remove id cs {c = c})

pub find-remove_none :
    (j id : String) (cs : List Container)
    → find j cs ≡ none
    → find j (remove_from_slice cs id) ≡ none
unfolding remove_from_slice
find-remove_none j id [] h = refl
find-remove_none j id (c ∷ cs) h = ground (arith, find-remove_none j id cs)

pub Distinct-remove :
    (id : String) (cs : List Container) → Distinct cs → Distinct (remove_from_slice cs id)
unfolding remove_from_slice
Distinct-remove id [] d = tt
Distinct-remove id (c ∷ cs) (fresh, d) =
    ground (arith, find-remove_none c.id id cs fresh, Distinct-remove id cs d, d)

pub find-remove_self :
    (id : String) (cs : List Container) → Distinct cs → find id (remove_from_slice cs id) ≡ none
unfolding remove_from_slice
find-remove_self id [] d = refl
find-remove_self id (c ∷ cs) (fresh, d) =
    ground (arith, str_eq_iff c.id id, find-remove_self id cs d, fresh)

pub All-remove {ℓ} :
    (P : Container → Type ℓ) (id : String) (cs : List Container)
    → All P cs
    → All P (remove_from_slice cs id)
unfolding remove_from_slice
All-remove P id [] all = tt
All-remove P id (c ∷ cs) (p, ps) = elim (Bool-cases (str_eq c.id id)) [
  | inl hit ↦ rw hit ps
  | inr miss ↦ rw miss (p, All-remove P id cs ps)
]

pub charged-append :
    (cs : List Container) (c : Container) → charged (cs ++ c ∷ []) ≡ charged cs + c.memory_bytes
charged-append [] c = omega arith
charged-append (x ∷ cs) c = omega (arith, charged-append cs c)

pub find-append_none :
    (j : String) (cs : List Container) (c : Container)
    → find j cs ≡ none
    → str_eq c.id j ≡ false
    → find j (cs ++ c ∷ []) ≡ none
find-append_none j [] c h e = rw e
find-append_none j (x ∷ cs) c h e = ground (arith, find-append_none j cs c)

pub Distinct-append :
    (cs : List Container) (c : Container)
    → Distinct cs
    → find c.id cs ≡ none
    → Distinct (cs ++ c ∷ [])
Distinct-append [] c d h = (refl, tt)
Distinct-append (x ∷ cs) c (fresh, d) h = ground (
  arith,
  str_eq_iff x.id c.id,
  str_eq_iff c.id x.id,
  find-append_none x.id cs c fresh,
  Distinct-append cs c d,
  fresh,
)

pub All-append {ℓ} :
    (P : Container → Type ℓ) (cs : List Container) (c : Container)
    → All P cs
    → P c
    → All P (cs ++ c ∷ [])
All-append P [] c ps p = (p, tt)
All-append P (x ∷ cs) c (q, qs) p = (q, All-append P cs c qs p)

pub All-find {ℓ} :
    (P : Container → Type ℓ) (id : String) (cs : List Container) {c : Container}
    → All P cs
    → find id cs ≡ some c
    → P c
All-find P id [] all h = cc
All-find P id (x ∷ cs) {c} (p, ps) h = elim (Bool-cases (str_eq x.id id)) [
  | inl hit ↦ let same : x ≡ c = ground arith in subst P same p
  | inr miss ↦ All-find P id cs ps (rw miss at h)
]

find_ne_of_distinct :
    (x : Container) (cs : List Container) {c : Container}
    → find x.id cs ≡ none
    → find c.id cs ≡ some c
    → str_eq x.id c.id ≡ false
find_ne_of_distinct x cs {c} fresh h = ground (arith, str_eq_iff x.id c.id)

-- The container that a claim reuses is in the slice, idle, and of the language asked for.
pub idle_of_language-some :
    (language : String) (cs : List Container) {c : Container}
    → Distinct cs
    → idle_of_language language cs ≡ some c
    → (find c.id cs ≡ some c) × (c.state ≡ idle) × (c.language ≡ language)
unfolding idle_of_language
idle_of_language-some language [] d h = cc
idle_of_language-some language (x ∷ cs) {c} (fresh, d) h = ground (
  arith,
  str_eq_iff x.language language,
  str_eq_refl x.id,
  idle_of_language-some language cs {c = c} d,
  find_ne_of_distinct x cs {c = c} fresh,
)
