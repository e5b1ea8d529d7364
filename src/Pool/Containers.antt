-- ===== src/Pool/Containers.antt =====
-- container.go, config.go and the slice helpers of pool.go. A container is known by its id, which
-- stands for the source's pointer; sizes are bytes, and instants are nanoseconds.
use training_center_back.Prelude.{
  ℕ, ◌+◌, String, Bool, true, false, Option, none, some, List, [], ◌∷◌, str_eq, ltb, if◌then◌else◌,
  ◌&&◌,
}

pub data ContainerState : Type 0 where
  idle busy draining : ContainerState

pub record Container : Type 0 where
  pub id : String
  pub language : String
  pub memory_bytes : ℕ
  pub limit_bytes : ℕ
  pub state : ContainerState
  pub last_used_at : ℕ

abbrev pub is_idle : ContainerState → Bool
is_idle idle = true
is_idle _ = false

abbrev pub is_draining : ContainerState → Bool
is_draining draining = true
is_draining _ = false

abbrev pub find : String → List Container → Option Container
find id [] = none
find id (c ∷ cs) = if str_eq c.id id then some c else find id cs

-- Writing through a pointer changes that container in the slice.
unfoldable pub update : String → (Container → Container) → List Container → List Container
update id f [] = []
update id f (c ∷ cs) = if str_eq c.id id then f c ∷ cs else c ∷ update id f cs

unfoldable pub remove_from_slice : List Container → String → List Container
remove_from_slice [] id = []
remove_from_slice (c ∷ cs) id = if str_eq c.id id then cs else c ∷ remove_from_slice cs id

-- The first idle container of a language, in the order of the slice.
unfoldable pub idle_of_language : String → List Container → Option Container
idle_of_language language [] = none
idle_of_language language (c ∷ cs) =
    if str_eq c.language language && is_idle c.state then some c else idle_of_language language cs

-- One step of the loop of `oldestIdleContainer`: `oldest` is the best so far.
abbrev pub older : Option Container → Container → Option Container
older none c = if is_idle c.state then some c else none
older (some o) c = if is_idle c.state && ltb c.last_used_at o.last_used_at then some c else some o

unfoldable pub oldest_from : Option Container → List Container → Option Container
oldest_from best [] = best
oldest_from best (c ∷ cs) = oldest_from (older best c) cs

unfoldable pub oldest_idle_container : List Container → Option Container
unfolding oldest_from
oldest_idle_container cs = oldest_from none cs

-- What the containers of a slice were charged against the budget.
abbrev pub charged : List Container → ℕ
charged [] = 0
charged (c ∷ cs) = c.memory_bytes + charged cs
