-- ===== src/Pool/Budget.antt =====
-- The accounts of the pool: when they are sound, and the methods that write to one container.
use training_center_back.Prelude.{
  ℕ, ◌≤◌, String, Option, none, some, ◌≡◌, refl, inl, inr, arith, Bool-cases, All, ◌==◌,
}
use training_center_back.Pool.Containers.{
  Container, ContainerState, idle, busy, draining, find, charged,
}
use training_center_back.Pool.Accounts.{
  Distinct, IsWrite, charged-update, Distinct-update, All-update, charged-remove, Distinct-remove,
  All-remove, find-update,
}
use training_center_back.Pool.Operations.{
  Pool, LanguageConfig, Docker, set_state, set_limit, write, forget, discard, release, reuse,
}

-- The ceiling that the configuration gives a language.
abbrev pub ceiling_of : Option LanguageConfig → ℕ
ceiling_of none = 0
ceiling_of (some lc) = lc.memory_bytes

-- A container is charged its language's ceiling, and the kernel enforces no more than that.
pub record IsCapped (languages : String → Option LanguageConfig) (c : Container) : Type 0 where
  pub charge : c.memory_bytes ≡ ceiling_of (languages c.language)
  pub within : c.limit_bytes ≤ c.memory_bytes

pub record IsSound (p : Pool) : Type 0 where
  pub distinct : Distinct p.containers
  pub accounted : p.allocated_bytes ≡ charged p.containers
  pub capped : All (IsCapped p.languages) p.containers
  pub budgeted : p.allocated_bytes ≤ p.budget_bytes

pub set_state-IsWrite : (st : ContainerState) → IsWrite (set_state st)
set_state-IsWrite st = record { same_id = λ c. refl; same_charge = λ c. refl }

pub set_limit-IsWrite : (limit : ℕ) → IsWrite (set_limit limit)
set_limit-IsWrite limit = record { same_id = λ c. refl; same_charge = λ c. refl }

-- The daemon gives every new container an id that no container of the pool has.
abbrev pub FreshIds : Docker → Pool → Type 0
FreshIds docker p = (id : String) → docker.create ≡ some id → find id p.containers ≡ none

pub write-IsSound :
    (id : String) (f : Container → Container) (p : Pool)
    → IsWrite f
    → ((c : Container)
        → find id p.containers ≡ some c
        → IsCapped p.languages c
        → IsCapped p.languages (f c))
    → IsSound p
    → IsSound (write id f p)
unfolding write
write-IsSound id f p w keep v = record {
  distinct = Distinct-update f w id p.containers v.distinct;
  accounted = rw (charged-update f w id p.containers) v.accounted;
  capped = All-update (IsCapped p.languages) f id p.containers v.capped keep;
  budgeted = v.budgeted;
}

pub set_state-IsSound :
    (id : String) (st : ContainerState) (p : Pool) → IsSound p → IsSound (write id (set_state st) p)
set_state-IsSound id st p v =
    write-IsSound id (set_state st) p (set_state-IsWrite st)
      (λ c found k. record { charge = k.charge; within = k.within }) v

pub forget-IsSound :
    (c d : Container) (p : Pool)
    → find c.id p.containers ≡ some d
    → d.memory_bytes ≡ c.memory_bytes
    → IsSound p
    → IsSound (forget c p)
unfolding forget
forget-IsSound c d p found same v = record {
  distinct = Distinct-remove c.id p.containers v.distinct;
  accounted = omega (arith, v.accounted, charged-remove c.id p.containers found);
  capped = All-remove (IsCapped p.languages) c.id p.containers v.capped;
  budgeted = omega (arith, v.budgeted);
}

pub find_marked :
    (c d : Container) (st : ContainerState) (p : Pool)
    → find c.id p.containers ≡ some d
    → find c.id (write c.id (set_state st) p).containers ≡ some (set_state st d)
unfolding write
find_marked c d st p found =
    find-update (set_state st) (set_state-IsWrite st) c.id p.containers {c = d} found

-- Discarding a container of a sound pool, at its charge there, leaves a sound pool, whether or not
-- the daemon removes the container.
pub discard-IsSound :
    (docker : Docker) (c d : Container) (p : Pool)
    → find c.id p.containers ≡ some d
    → d.memory_bytes ≡ c.memory_bytes
    → IsSound p
    → IsSound (discard docker c p)
unfolding discard
discard-IsSound docker c d p found same v = elim (Bool-cases (docker.remove c.id)) [
  | inl removed ↦ rw removed (
      forget-IsSound c (set_state draining d) _ (find_marked c d draining p found) same
        (set_state-IsSound c.id draining p v))
  | inr failed ↦ rw failed (set_state-IsSound c.id draining p v)
]

pub release-IsSound : (c : Container) (now : ℕ) (p : Pool) → IsSound p → IsSound (release c now p)
unfolding release
release-IsSound c now p v =
    let w =
      write-IsSound c.id (λ d. record d { state = idle; last_used_at = now }) p
        (record { same_id = λ d. refl; same_charge = λ d. refl })
        (λ d found k. record { charge = k.charge; within = k.within }) v in
    record {
      distinct = w.distinct;
      accounted = w.accounted;
      capped = w.capped;
      budgeted = w.budgeted;
    }

pub reuse-IsSound :
    (docker : Docker) (limit : ℕ) (c : Container) (p : Pool)
    → find c.id p.containers ≡ some c
    → limit ≤ c.memory_bytes
    → IsSound p
    → IsSound (reuse docker limit c p).1
unfolding reuse
reuse-IsSound docker limit c p found small v = elim (Bool-cases (c.limit_bytes == limit)) [
  | inl same ↦ rw same owned
  | inr other ↦ elim (Bool-cases (docker.update_limit c.id limit)) [
    | inl done ↦
        rw (other, done)
          (write-IsSound c.id (set_limit limit) _ (set_limit-IsWrite limit) keep owned)
    | inr failed ↦
        rw (other, failed) (discard-IsSound docker c (set_state busy c) _ marked refl owned)
  ]
]
  where
    owned : IsSound (write c.id (set_state busy) p)
    owned = set_state-IsSound c.id busy p v

    marked : find c.id (write c.id (set_state busy) p).containers ≡ some (set_state busy c)
    marked = find_marked c c busy p found

    keep :
        (d : Container)
        → find c.id (write c.id (set_state busy) p).containers ≡ some d
        → IsCapped (write c.id (set_state busy) p).languages d
        → IsCapped (write c.id (set_state busy) p).languages (set_limit limit d)
    keep d e k = record { charge = k.charge; within = smaller }
      where
        smaller : limit ≤ d.memory_bytes
        smaller = ground (arith, marked, small)
