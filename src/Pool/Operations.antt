-- ===== src/Pool/Operations.antt =====
-- pool.go and reaper.go: the methods of `Pool`, each from its call to its return with no other
-- call between. What the Docker daemon answers is the argument `docker`.
use training_center_back.Prelude.{
  ℕ, zero, suc, ◌+◌, ◌-◌, String, Bool, true, Option, none, some, List, [], ◌∷◌, ◌++◌, ltb, leb,
  ◌==◌, if◌then◌else◌, ◌&&◌, ◌||◌, length,
}
use training_center_back.Pool.Containers.{
  Container, ContainerState, idle, busy, draining, is_idle, is_draining, update, remove_from_slice,
  idle_of_language, oldest_idle_container,
}

pub record LanguageConfig : Type 0 where
  pub image : String
  pub cpu : String
  pub memory_bytes : ℕ

pub record Pool : Type 0 where
  pub budget_bytes : ℕ
  pub idle_timeout : ℕ
  pub languages : String → Option LanguageConfig
  pub containers : List Container
  pub allocated_bytes : ℕ
  pub released : Bool  -- the signal in the buffered channel

-- Whether each call of the daemon succeeds; `create` gives the id of the new container.
pub record Docker : Type 0 where
  pub remove : String → Bool
  pub create : Option String
  pub start : String → Bool
  pub update_limit : String → ℕ → Bool

-- What `Claim` returns; `waiting` is the wait for a release, and `exhausted` that fuel ran out.
pub data Claimed : Type 0 where
  granted : Container → Claimed
  unknown_language update_failed evict_failed create_failed waiting exhausted : Claimed

unfoldable pub can_create : Pool → LanguageConfig → Bool
can_create p lc = leb (p.allocated_bytes + lc.memory_bytes) p.budget_bytes

-- The ceiling that a claim asks for: 0, and all above the language's own, mean the language's own.
abbrev pub claim_limit : LanguageConfig → ℕ → ℕ
claim_limit lc requested =
    if requested == 0 || ltb lc.memory_bytes requested then lc.memory_bytes else requested

abbrev pub set_state : ContainerState → Container → Container
set_state st c = record c { state = st }

abbrev pub set_limit : ℕ → Container → Container
set_limit limit c = record c { limit_bytes = limit }

unfoldable pub write : String → (Container → Container) → Pool → Pool
write id f p = record p { containers = update id f p.containers }

-- The daemon removed the container: it leaves the slice, and its charge the budget.
unfoldable pub forget : Container → Pool → Pool
forget c p = record p {
  allocated_bytes = p.allocated_bytes - c.memory_bytes;
  containers = remove_from_slice p.containers c.id;
}

unfoldable pub discard : Docker → Container → Pool → Pool
discard docker c p =
    let marked = write c.id (set_state draining) p in
    if docker.remove c.id then forget c marked else marked

unfoldable pub release : Container → ℕ → Pool → Pool
release c now p = record (write c.id (λ d. record d { state = idle; last_used_at = now }) p) {
  released = true;
}

-- A container that fails to start is removed again, and there is no container.
unfoldable pub create_container : Docker → Option String
create_container docker = elim docker.create [
  | none ↦ none
  | some id ↦ if docker.start id then some id else none
]

-- `applyMemoryLimit` on a container just claimed; one whose ceiling cannot be set is discarded.
unfoldable pub reuse : Docker → ℕ → Container → Pool → Claimed × Pool
reuse docker limit c p =
    let owned = write c.id (set_state busy) p in
    if c.limit_bytes == limit
    then (granted (set_state busy c), owned)
    else if docker.update_limit c.id limit
    then (granted (set_limit limit (set_state busy c)), write c.id (set_limit limit) owned)
    else (update_failed, discard docker c owned)

-- The loop that evicts the longest idle container until the budget has room; `none` means room.
unfoldable pub evict_until_fits : ℕ → Docker → LanguageConfig → Pool → Option Claimed × Pool
evict_until_fits zero docker lc p = if can_create p lc then (none, p) else (some exhausted, p)
evict_until_fits (suc fuel) docker lc p =
    if can_create p lc then (none, p) else elim (oldest_idle_container p.containers) [
      | none ↦ (some waiting, p)
      | some c ↦
          let marked = write c.id (set_state draining) p in
          let rest = evict_until_fits fuel docker lc (forget c marked) in
          if docker.remove c.id
          then rest
          else (some evict_failed, write c.id (set_state idle) marked)
    ]

abbrev pub new_container : String → String → LanguageConfig → ℕ → ℕ → Container
new_container id language lc limit now = record {
  id = id;
  language = language;
  memory_bytes = lc.memory_bytes;
  limit_bytes = limit;
  state = busy;
  last_used_at = now;
}

unfoldable pub add : Container → Pool → Pool
add c p = record p {
  containers = p.containers ++ c ∷ [];
  allocated_bytes = p.allocated_bytes + c.memory_bytes;
}

abbrev pub create_in : Docker → String → LanguageConfig → ℕ → ℕ → Pool → Claimed × Pool
create_in docker language lc limit now p = elim (create_container docker) [
  | none ↦ (create_failed, p)
  | some id ↦ let c = new_container id language lc limit now in (granted c, add c p)
]

abbrev pub evict_and_create :
    Docker → String → LanguageConfig → ℕ → ℕ → Option Claimed × Pool → Claimed × Pool
evict_and_create docker language lc limit now (none, p) = create_in docker language lc limit now p
evict_and_create docker language lc limit now (some c, p) = (c, p)

-- `Claim`, up to its return or its wait. The loop evicts a container in each round, so the number of
-- containers bounds its rounds.
unfoldable pub claim : Docker → String → ℕ → ℕ → Pool → Claimed × Pool
claim docker language memory_bytes now p = elim (p.languages language) [
  | none ↦ (unknown_language, p)
  | some lc ↦
      let limit = claim_limit lc memory_bytes in
      elim (idle_of_language language p.containers) [
        | some c ↦ reuse docker limit c p
        | none ↦
            evict_and_create docker language lc limit now
              (evict_until_fits (suc (length p.containers)) docker lc p)
      ]
]

-- Phase one of `evictExpired`: the containers left draining, and the idle ones that timed out.
unfoldable pub stuck : List Container → List Container
stuck [] = []
stuck (c ∷ cs) = if is_draining c.state then c ∷ stuck cs else stuck cs

abbrev pub is_expired : ℕ → ℕ → Container → Bool
is_expired now timeout c = is_idle c.state && ltb (c.last_used_at + timeout) now

unfoldable pub to_evict : ℕ → ℕ → List Container → List Container
to_evict now timeout [] = []
to_evict now timeout (c ∷ cs) =
    if is_expired now timeout c then c ∷ to_evict now timeout cs else to_evict now timeout cs

unfoldable pub mark_expired : ℕ → ℕ → List Container → List Container
mark_expired now timeout [] = []
mark_expired now timeout (c ∷ cs) =
    (if is_expired now timeout c then set_state draining c else c) ∷ mark_expired now timeout cs

-- Phase two: `failing` is the state that a container goes to if the daemon does not remove it.
unfoldable pub remove_all : Docker → ContainerState → List Container → Pool → Pool
remove_all docker failing [] p = p
remove_all docker failing (c ∷ cs) p =
    remove_all docker failing cs
      (if docker.remove c.id then forget c p else write c.id (set_state failing) p)

unfoldable pub evict_expired : Docker → ℕ → Pool → Pool
evict_expired docker now p = remove_all docker idle (to_evict now p.idle_timeout p.containers) (
    remove_all docker draining (stuck p.containers)
      (record p { containers = mark_expired now p.idle_timeout p.containers }))

-- `Stop`: the pool gives up every container, busy or not.
unfoldable pub drain : Pool → Pool
drain p = record p { containers = []; allocated_bytes = 0 }
