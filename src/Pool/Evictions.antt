-- ===== src/Pool/Evictions.antt =====
-- `Claim`, which evicts and creates containers, and the accounts of the pool.
use training_center_back.Prelude.{
  ℕ, zero, suc, ◌+◌, ◌≤◌, String, true, Option, none, some, ◌≡◌, refl, ◌∙◌, ap, inl, inr, arith,
  Bool-cases, Option-cases, length,
}
use training_center_back.Pool.Containers.{
  Container, ContainerState, idle, draining, find, idle_of_language, oldest_idle_container,
}
use training_center_back.Pool.Accounts.{
  find-update_none, find-remove_none, charged-append, Distinct-append, All-append, All-find,
  idle_of_language-some,
}
use training_center_back.Pool.Oldest.{oldest_idle_container-some}
use training_center_back.Pool.Operations.{
  Pool, LanguageConfig, Docker, Claimed, can_create, claim_limit, set_state, write, forget,
  create_container, evict_until_fits, new_container, add, create_in, evict_and_create, claim,
  exhausted, waiting, evict_failed,
}
use training_center_back.Pool.Budget.{
  IsCapped, IsSound, FreshIds, ceiling_of, set_state-IsWrite, set_state-IsSound, forget-IsSound,
  find_marked, reuse-IsSound,
}

-- The eviction loop keeps the pool sound, leaves the configuration alone, brings in no container,
-- and stops with room for the new container when it says so.
pub record Evicts (lc : LanguageConfig) (p : Pool) (r : Option Claimed × Pool) : Type 0 where
  pub sound : IsSound r.1
  pub room : r.0 ≡ none → r.1.allocated_bytes + lc.memory_bytes ≤ r.1.budget_bytes
  pub languages : r.1.languages ≡ p.languages
  pub gone : (id : String) → find id p.containers ≡ none → find id r.1.containers ≡ none

can_create-room :
    (p : Pool) (lc : LanguageConfig)
    → can_create p lc ≡ true
    → p.allocated_bytes + lc.memory_bytes ≤ p.budget_bytes
unfolding can_create
can_create-room p lc h = ground arith

stays : (lc : LanguageConfig) (p : Pool) (c : Claimed) → IsSound p → Evicts lc p (some c, p)
stays lc p c v = record { sound = v; room = λ e. cc; languages = refl; gone = λ id e. e }

fits_already :
    (lc : LanguageConfig) (p : Pool) → can_create p lc ≡ true → IsSound p → Evicts lc p (none, p)
fits_already lc p h v = record {
  sound = v;
  room = λ _. can_create-room p lc h;
  languages = refl;
  gone = λ id e. e;
}

marking : (id : String) (st : ContainerState) (p : Pool) → Pool
marking id st p = write id (set_state st) p

pub evict_until_fits-Evicts :
    (fuel : ℕ) (docker : Docker) (lc : LanguageConfig) (p : Pool)
    → IsSound p
    → Evicts lc p (evict_until_fits fuel docker lc p)
unfolding evict_until_fits
evict_until_fits-Evicts zero docker lc p v = elim (Bool-cases (can_create p lc)) [
  | inl fits ↦ rw fits (fits_already lc p fits v)
  | inr full ↦ rw full (stays lc p exhausted v)
]
evict_until_fits-Evicts (suc fuel) docker lc p v = elim (Bool-cases (can_create p lc)) [
  | inl fits ↦ rw fits (fits_already lc p fits v)
  | inr full ↦ elim (Option-cases (oldest_idle_container p.containers)) [
    | inl no_idle ↦ rw (full, no_idle) (stays lc p waiting v)
    | inr (c, e) ↦ elim (Bool-cases (docker.remove c.id)) [
      | inl removed ↦
          let found = (oldest_idle_container-some p.containers {c = c} v.distinct e).0 in
          rw (full, e, removed)
            (after_forget c found (
              evict_until_fits-Evicts fuel docker lc (forget c (write c.id (set_state draining) p))
                (forget-IsSound c (set_state draining c) (write c.id (set_state draining) p)
                  (find_marked c c draining p found) refl (set_state-IsSound c.id draining p v))))
      | inr failed ↦ rw (full, e, failed) (restored c)
    ]
  ]
]
  where
    restored :
        (c : Container)
        → Evicts lc p
            (some evict_failed, write c.id (set_state idle) (write c.id (set_state draining) p))
    restored c = record {
      sound = set_state-IsSound c.id idle _ (set_state-IsSound c.id draining p v);
      room = λ e. cc;
      languages = unfold write in refl;
      gone = λ id e.
          unfold write in
          (find-update_none (set_state idle) (set_state-IsWrite idle) c.id id _ (
            find-update_none (set_state draining) (set_state-IsWrite draining) c.id id p.containers
              e));
    }

    after_forget :
        (c : Container)
        → find c.id p.containers ≡ some c
        → Evicts lc
            (forget c (write c.id (set_state draining) p))
            (evict_until_fits fuel docker lc (forget c (write c.id (set_state draining) p)))
        → Evicts lc p
            (evict_until_fits fuel docker lc (forget c (write c.id (set_state draining) p)))
    after_forget c found v' = record {
      sound = v'.sound;
      room = v'.room;
      languages = v'.languages ∙ unfold forget write in refl;
      gone = λ id e. v'.gone id (
          unfold forget write in
          (find-remove_none id c.id _ (
            find-update_none (set_state draining) (set_state-IsWrite draining) c.id id p.containers
              e)));
    }

add-IsSound :
    (c : Container) (p : Pool)
    → find c.id p.containers ≡ none
    → IsCapped p.languages c
    → p.allocated_bytes + c.memory_bytes ≤ p.budget_bytes
    → IsSound p
    → IsSound (add c p)
unfolding add
add-IsSound c p fresh k room v = record {
  distinct = Distinct-append p.containers c v.distinct fresh;
  accounted = omega (arith, v.accounted, charged-append p.containers c);
  capped = All-append (IsCapped p.languages) p.containers c v.capped k;
  budgeted = room;
}

pub create_container-id :
    (docker : Docker) {id : String} → create_container docker ≡ some id → docker.create ≡ some id
unfolding create_container
create_container-id docker h = ground arith

claim_limit-le : (lc : LanguageConfig) (requested : ℕ) → claim_limit lc requested ≤ lc.memory_bytes
claim_limit-le lc requested = ground arith

create_in-IsSound :
    (docker : Docker) (language : String) (lc : LanguageConfig) (requested now : ℕ) (p : Pool)
    → p.languages language ≡ some lc
    → FreshIds docker p
    → p.allocated_bytes + lc.memory_bytes ≤ p.budget_bytes
    → IsSound p
    → IsSound (create_in docker language lc (claim_limit lc requested) now p).1
create_in-IsSound docker language lc requested now p known fresh room v =
    elim (Option-cases (create_container docker)) [
      | inl failed ↦ rw (failed, create_in) v
      | inr (id, e) ↦
          rw (e, create_in)
            (add-IsSound (new_container id language lc (claim_limit lc requested) now) p
              (fresh id (create_container-id docker e))
              (record { charge = rw known; within = claim_limit-le lc requested }) room v)
    ]

evict_and_create-IsSound :
    (docker : Docker) (language : String) (lc : LanguageConfig) (requested now : ℕ) (p : Pool)
    (r : Option Claimed × Pool)
    → p.languages language ≡ some lc
    → FreshIds docker p
    → Evicts lc p r
    → IsSound (evict_and_create docker language lc (claim_limit lc requested) now r).1
evict_and_create-IsSound docker language lc requested now p (none, q) known fresh w =
    create_in-IsSound docker language lc requested now q
      (ap (λ (l : String → Option LanguageConfig). l language) w.languages ∙ known)
      (λ id e. w.gone id (fresh id e)) (w.room refl) w.sound
evict_and_create-IsSound docker language lc requested now p (some c, q) known fresh w = w.sound

-- If the daemon gives new ids to new containers, claiming one keeps a sound pool sound on every
-- branch: reuse, eviction, creation and each failure. So its charges stay the sum over its
-- containers and within the budget, no two containers share an id, and no container is allowed more
-- memory than its language's ceiling.
pub claim-IsSound :
    (docker : Docker) (language : String) (requested now : ℕ) (p : Pool)
    → FreshIds docker p
    → IsSound p
    → IsSound (claim docker language requested now p).1
unfolding claim
claim-IsSound docker language requested now p fresh v = elim (Option-cases (p.languages language)) [
  | inl unknown ↦ rw (unknown, claim) v
  | inr (lc, known) ↦ elim (Option-cases (idle_of_language language p.containers)) [
    | inl no_idle ↦
        rw (known, claim, no_idle)
          (evict_and_create-IsSound docker language lc requested now p
            (evict_until_fits (suc (length p.containers)) docker lc p) known fresh
            (evict_until_fits-Evicts (suc (length p.containers)) docker lc p v))
    | inr (c, e) ↦
        let (found, _, same) = idle_of_language-some language p.containers {c = c} v.distinct e in
        rw (known, claim, e)
          (reuse-IsSound docker (claim_limit lc requested) c p found (small lc c known found same)
            v)
  ]
]
  where
    small :
        (lc : LanguageConfig) (c : Container)
        → p.languages language ≡ some lc
        → find c.id p.containers ≡ some c
        → c.language ≡ language
        → claim_limit lc requested ≤ c.memory_bytes
    small lc c known found same =
        let k = All-find (IsCapped p.languages) c.id p.containers v.capped found in
        let charge : c.memory_bytes ≡ lc.memory_bytes =
          k.charge ∙ ap (λ l. ceiling_of (p.languages l)) same ∙ ap ceiling_of known in
        omega (arith, charge, claim_limit-le lc requested)
