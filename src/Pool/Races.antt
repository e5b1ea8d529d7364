-- ===== src/Pool/Races.antt =====
-- Claims that run at the same time. `Claim` looks for an idle container and tests the budget in one
-- critical section, and charges the budget in a later one, after the daemon has created the
-- container; between the two the lock is free.
use training_center_back.Prelude.{
  ℕ, String, ◌+◌, ◌≤◌, ◌<◌, true, some, none, List, [], ◌∷◌, ◌++◌, ◌≡◌, refl, arith,
}
use training_center_back.Pool.Containers.{Container, idle_of_language}
use training_center_back.Pool.Operations.{
  Pool, LanguageConfig, Docker, can_create, claim_limit, create_container, new_container, add,
}

-- A claim that found no idle container of its language, and room in the budget.
pub record Creating : Type 0 where
  pub language : String
  pub config : LanguageConfig
  pub limit : ℕ

-- The pool, and the claims that are creating containers outside the lock.
pub record World : Type 0 where
  pub pool : Pool
  pub creating : List Creating

-- One critical section of some claim that creates a container.
pub data Step : World → World → Type 0 where
  admit :
      (w : World) (language : String) (lc : LanguageConfig) (memory_bytes : ℕ)
      → w.pool.languages language ≡ some lc
      → idle_of_language language w.pool.containers ≡ none
      → can_create w.pool lc ≡ true
      → Step w (record w {
        creating =
            record { language = language; config = lc; limit = claim_limit lc memory_bytes }
            ∷ w.creating;
      })
  enter :
      (w : World) (docker : Docker) (before : List Creating) (c : Creating) (after : List Creating)
      (id : String) (now : ℕ)
      → w.creating ≡ before ++ c ∷ after
      → create_container docker ≡ some id
      → Step w (record {
        pool = add (new_container id c.language c.config c.limit now) w.pool;
        creating = before ++ after;
      })
  give_up :
      (w : World) (docker : Docker) (before : List Creating) (c : Creating) (after : List Creating)
      → w.creating ≡ before ++ c ∷ after
      → create_container docker ≡ none
      → Step w (record w { creating = before ++ after })

pub data Reach (w : World) : World → Type 0 where
  here : Reach w w
  next : {v u : World} → Reach w v → Step v u → Reach w u

abbrev pub quiet : Pool → World
quiet p = record { pool = p; creating = [] }

-- Two claims for a language that has no idle container, and fits the budget once but not twice, can
-- both pass the test before either is charged: when the daemon has created both containers, the
-- pool holds more than its budget, with no claim under way.
pub claims_exceed_budget :
    (p : Pool) (language : String) (lc : LanguageConfig) (docker : Docker) (m n : ℕ)
    (first_id second_id : String) (other : Docker) (first_at second_at : ℕ)
    → p.languages language ≡ some lc
    → idle_of_language language p.containers ≡ none
    → create_container docker ≡ some first_id
    → create_container other ≡ some second_id
    → p.allocated_bytes + lc.memory_bytes ≤ p.budget_bytes
    → p.budget_bytes < p.allocated_bytes + lc.memory_bytes + lc.memory_bytes
    → (w : World) × Reach (quiet p) w
      × (w.creating ≡ [])
      × (w.pool.containers
          ≡ (p.containers ++ new_container first_id language lc (claim_limit lc m) first_at ∷ [])
            ++ new_container second_id language lc (claim_limit lc n) second_at ∷ [])
      × (w.pool.budget_bytes < w.pool.allocated_bytes)
unfolding can_create add
claims_exceed_budget p language lc docker m n first_id second_id other first_at second_at known busy
      created created_too once twice =
    (
      record { pool = add second (add first p); creating = [] },
      next
          (next
            (next (next here (admit (quiet p) language lc n known busy fits))
              (admit one language lc m known busy fits))
            (enter two docker [] claim_m (claim_n ∷ []) first_id first_at refl created))
          (enter (record { pool = add first p; creating = claim_n ∷ [] }) other [] claim_n []
            second_id second_at refl created_too),
      refl,
      refl,
      omega arith,
    )
  where
    fits : can_create p lc ≡ true
    fits = ground arith

    first : Container
    first = new_container first_id language lc (claim_limit lc m) first_at

    second : Container
    second = new_container second_id language lc (claim_limit lc n) second_at

    claim_m : Creating
    claim_m = record { language = language; config = lc; limit = claim_limit lc m }

    claim_n : Creating
    claim_n = record { language = language; config = lc; limit = claim_limit lc n }

    one : World
    one = record { pool = p; creating = claim_n ∷ [] }

    two : World
    two = record { pool = p; creating = claim_m ∷ claim_n ∷ [] }
