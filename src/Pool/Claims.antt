-- ===== src/Pool/Claims.antt =====
-- What a claim answers: who gets a container, and when a claim has to wait.
use training_center_back.Prelude.{
  ℕ, zero, suc, ◌<◌, String, false, Option, none, some, List, [], ◌∷◌, ◌++◌, ◌≡◌, refl, ◌⊎◌, inl,
  inr, arith, Bool-cases, Option-cases, str_eq_refl, ◌==◌, length,
}
use training_center_back.Pool.Containers.{
  Container, idle, busy, draining, find, idle_of_language, oldest_idle_container, remove_from_slice,
  update,
}
use training_center_back.Pool.Accounts.{find-update, idle_of_language-some}
use training_center_back.Pool.Oldest.{
  NoneIdle, oldest_idle_container-some, oldest_idle_container-none,
}
use training_center_back.Pool.Operations.{
  Pool, LanguageConfig, Docker, Claimed, granted, unknown_language, update_failed, evict_failed,
  create_failed, waiting, exhausted, can_create, claim_limit, set_state, set_limit, write, forget,
  create_container, reuse, evict_until_fits, new_container, add, create_in, evict_and_create, claim,
}
use training_center_back.Pool.Budget.{
  IsSound, FreshIds, set_state-IsWrite, set_limit-IsWrite, set_state-IsSound, forget-IsSound,
  find_marked,
}
use training_center_back.Pool.Evictions.{Evicts, evict_until_fits-Evicts, create_container-id}

length-update :
    (id : String) (f : Container → Container) (cs : List Container)
    → length (update id f cs) ≡ length cs
unfolding update
length-update id f [] = refl
length-update id f (c ∷ cs) = ground (arith, length-update id f cs)

length-remove :
    (id : String) (cs : List Container) {c : Container}
    → find id cs ≡ some c
    → suc (length (remove_from_slice cs id)) ≡ length cs
unfolding remove_from_slice
length-remove id [] h = cc
length-remove id (x ∷ cs) {c} h = ground (arith, length-remove id cs {c = c})

-- Why a claim could not go on: it waits only with no room and no idle container left.
Waits : LanguageConfig → Option Claimed × Pool → Type 0
Waits lc (none, q) = Unit
Waits lc (some waiting, q) = NoneIdle q.containers × (can_create q lc ≡ false)
Waits lc (some exhausted, q) = ⊥
Waits lc (some (granted c), q) = ⊥
Waits lc (some _, q) = Unit

module _ (docker : Docker) (lc : LanguageConfig) where
  evict_until_fits-Waits :
      (fuel : ℕ) (p : Pool)
      → length p.containers < fuel
      → IsSound p
      → Waits lc (evict_until_fits fuel docker lc p)
  unfolding evict_until_fits Waits
  evict_until_fits-Waits zero p h v = absurd (omega arith)
  evict_until_fits-Waits (suc fuel) p h v = elim (Bool-cases (can_create p lc)) [
    | inl fits ↦ rw fits tt
    | inr full ↦ elim (Option-cases (oldest_idle_container p.containers)) [
      | inl no_idle ↦ rw (full, no_idle) (oldest_idle_container-none p.containers no_idle, full)
      | inr (c, e) ↦ elim (Bool-cases (docker.remove c.id)) [
        | inl removed ↦
            let found = (oldest_idle_container-some p.containers {c = c} v.distinct e).0 in
            rw (full, e, removed)
              (evict_until_fits-Waits fuel (forget c (write c.id (set_state draining) p))
                (fewer c found)
                (forget-IsSound c (set_state draining c) (write c.id (set_state draining) p)
                  (find_marked c c draining p found) refl (set_state-IsSound c.id draining p v)))
        | inr failed ↦ rw (full, e, failed) tt
      ]
    ]
  ]
    where
      fewer :
          (c : Container)
          → find c.id p.containers ≡ some c
          → length (forget c (write c.id (set_state draining) p)).containers < fuel
      fewer c found =
          unfold forget write in
          (omega (
            arith,
            h,
            length-update c.id (set_state draining) p.containers,
            length-remove c.id (update c.id (set_state draining) p.containers) (
                find-update (set_state draining) (set_state-IsWrite draining) c.id p.containers
                  {c = c} found),
          ))

-- What a claimer holds: a busy container of the language asked for, with exactly the ceiling asked
-- for, which is in the slice, and which before the claim was idle or did not exist.
pub record Holds (language : String) (limit : ℕ) (p q : Pool) (c : Container) : Type 0 where
  pub is_busy : c.state ≡ busy
  pub for_language : c.language ≡ language
  pub with_limit : c.limit_bytes ≡ limit
  pub listed : find c.id q.containers ≡ some c
  pub was_free :
      (find c.id p.containers ≡ none)
      ⊎ ((d : Container) × (find c.id p.containers ≡ some d) × (d.state ≡ idle))

abbrev pub Answers : String → LanguageConfig → ℕ → Pool → Claimed × Pool → Type 0
Answers language lc limit p (granted c, q) = Holds language limit p q c
Answers language lc limit p (waiting, q) = NoneIdle q.containers × (can_create q lc ≡ false)
Answers language lc limit p (exhausted, q) = ⊥
Answers language lc limit p (_, q) = Unit

reuse-Answers :
    (docker : Docker) (language : String) (lc : LanguageConfig) (limit : ℕ) (c : Container)
    (p : Pool)
    → find c.id p.containers ≡ some c
    → c.state ≡ idle
    → c.language ≡ language
    → Answers language lc limit p (reuse docker limit c p)
unfolding reuse write
reuse-Answers docker language lc limit c p found free same =
    elim (Bool-cases (c.limit_bytes == limit)) [
      | inl equal ↦ rw equal (record {
        is_busy = refl;
        for_language = same;
        with_limit = ground arith;
        listed = busied;
        was_free = inr (c, found, free);
      })
      | inr other ↦ elim (Bool-cases (docker.update_limit c.id limit)) [
        | inl done ↦
            rw (other, done)
              (record {
                is_busy = refl;
                for_language = same;
                with_limit = refl;
                listed =
                    find-update (set_limit limit) (set_limit-IsWrite limit) c.id _
                      {c = set_state busy c} busied;
                was_free = inr (c, found, free);
              })
        | inr failed ↦ rw (other, failed) tt
      ]
    ]
  where
    busied : find c.id (update c.id (set_state busy) p.containers) ≡ some (set_state busy c)
    busied = find-update (set_state busy) (set_state-IsWrite busy) c.id p.containers {c = c} found

find-append_self :
    (cs : List Container) (c : Container) → find c.id cs ≡ none → find c.id (cs ++ c ∷ []) ≡ some c
find-append_self [] c h = rw (str_eq_refl c.id)
find-append_self (x ∷ cs) c h = ground (arith, find-append_self cs c)

evict_and_create-Answers :
    (docker : Docker) (language : String) (lc : LanguageConfig) (limit now : ℕ) (p : Pool)
    (r : Option Claimed × Pool)
    → FreshIds docker p
    → Evicts lc p r
    → Waits lc r
    → Answers language lc limit p (evict_and_create docker language lc limit now r)
unfolding Waits add
evict_and_create-Answers docker language lc limit now p (none, q) fresh v w =
    elim (Option-cases (create_container docker)) [
      | inl failed ↦ rw (failed, create_in) tt
      | inr (id, e) ↦
          let new = fresh id (create_container-id docker e) in
          rw (e, create_in)
            (record {
              is_busy = refl;
              for_language = refl;
              with_limit = refl;
              listed =
                  find-append_self q.containers (new_container id language lc limit now)
                    (v.gone id new);
              was_free = inl new;
            })
    ]
evict_and_create-Answers docker language lc limit now p (some waiting, q) fresh v w = w
evict_and_create-Answers docker language lc limit now p (some exhausted, q) fresh v w = w
evict_and_create-Answers docker language lc limit now p (some (granted c), q) fresh v w = absurd w
evict_and_create-Answers docker language lc limit now p (some unknown_language, q) fresh v w = tt
evict_and_create-Answers docker language lc limit now p (some update_failed, q) fresh v w = tt
evict_and_create-Answers docker language lc limit now p (some evict_failed, q) fresh v w = tt
evict_and_create-Answers docker language lc limit now p (some create_failed, q) fresh v w = tt

-- On a sound pool, with a daemon that gives new ids to new containers, a claim for a configured
-- language either hands out a container that is now busy, has the language and the ceiling asked
-- for, is in the slice, and was idle or did not exist before; or fails; or waits, and then no
-- container is idle and the budget has no room. Its loop always ends within the fuel.
pub claim-Answers :
    (docker : Docker) (language : String) (requested now : ℕ) (p : Pool) (lc : LanguageConfig)
    → p.languages language ≡ some lc
    → FreshIds docker p
    → IsSound p
    → Answers language lc (claim_limit lc requested) p (claim docker language requested now p)
unfolding claim
claim-Answers docker language requested now p lc known fresh v =
    elim (Option-cases (idle_of_language language p.containers)) [
      | inl no_idle ↦
          rw (known, claim, no_idle)
            (evict_and_create-Answers docker language lc (claim_limit lc requested) now p _ fresh
              (evict_until_fits-Evicts (suc (length p.containers)) docker lc p v)
              (evict_until_fits-Waits docker lc (suc (length p.containers)) p (omega arith) v))
      | inr (c, e) ↦
          let (found, free, same) =
            idle_of_language-some language p.containers {c = c} v.distinct e in
          rw (known, claim, e)
            (reuse-Answers docker language lc (claim_limit lc requested) c p found free same)
    ]
