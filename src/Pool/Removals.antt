-- ===== src/Pool/Removals.antt =====
-- Removing containers of the pool one by one, as the reaper does.
use training_center_back.Prelude.{
  String, false, none, some, List, [], ◌∷◌, ◌≡◌, refl, ◌∙◌, arith, str_eq, str_eq_iff, Bool-cases,
  inl, inr, All, if◌then◌else◌,
}
use training_center_back.Pool.Containers.{
  Container, ContainerState, find, update, remove_from_slice,
}
use training_center_back.Pool.Accounts.{Distinct}
use training_center_back.Pool.Operations.{Pool, Docker, set_state, write, forget, remove_all}
use training_center_back.Pool.Budget.{IsSound, set_state-IsSound, forget-IsSound}

-- The container is in the pool, at its charge.
abbrev pub Listed : Pool → Container → Type 0
Listed p c = (d : Container) × (find c.id p.containers ≡ some d) × (d.memory_bytes ≡ c.memory_bytes)

find-update_other :
    (id j : String) (f : Container → Container) (cs : List Container)
    → ((c : Container) → (f c).id ≡ c.id)
    → str_eq id j ≡ false
    → find j (update id f cs) ≡ find j cs
unfolding update
find-update_other id j f [] same h = refl
find-update_other id j f (x ∷ cs) same h = ground (
  arith,
  same x,
  str_eq_iff x.id id,
  str_eq_iff x.id j,
  str_eq_iff id j,
  find-update_other id j f cs same h,
)

find-remove_other :
    (id j : String) (cs : List Container)
    → str_eq id j ≡ false
    → find j (remove_from_slice cs id) ≡ find j cs
unfolding remove_from_slice
find-remove_other id j [] h = refl
find-remove_other id j (x ∷ cs) h =
    ground
      (arith, str_eq_iff x.id id, str_eq_iff x.id j, str_eq_iff id j, find-remove_other id j cs h)

Listed-write :
    (id : String) (st : ContainerState) (p : Pool) (c : Container)
    → str_eq id c.id ≡ false
    → Listed p c
    → Listed (write id (set_state st) p) c
unfolding write
Listed-write id st p c apart (d, found, same) =
    (d, find-update_other id c.id (set_state st) p.containers (λ x. refl) apart ∙ found, same)

Listed-forget :
    (e : Container) (p : Pool) (c : Container)
    → str_eq e.id c.id ≡ false
    → Listed p c
    → Listed (forget e p) c
unfolding forget
Listed-forget e p c apart (d, found, same) =
    (d, find-remove_other e.id c.id p.containers apart ∙ found, same)

-- What the loop does for one container.
step : Docker → ContainerState → Container → Pool → Pool
step docker failing c p =
    if docker.remove c.id then forget c p else write c.id (set_state failing) p

step-Listed :
    (docker : Docker) (failing : ContainerState) (e : Container) (p : Pool) (c : Container)
    → str_eq e.id c.id ≡ false
    → Listed p c
    → Listed (step docker failing e p) c
unfolding step
step-Listed docker failing e p c apart l = elim (Bool-cases (docker.remove e.id)) [
  | inl gone ↦ rw gone (Listed-forget e p c apart l)
  | inr kept ↦ rw kept (Listed-write e.id failing p c apart l)
]

step-IsSound :
    (docker : Docker) (failing : ContainerState) (c : Container) (p : Pool)
    → Listed p c
    → IsSound p
    → IsSound (step docker failing c p)
unfolding step
step-IsSound docker failing c p (d, found, same) v = elim (Bool-cases (docker.remove c.id)) [
  | inl gone ↦ rw gone (forget-IsSound c d p found same v)
  | inr kept ↦ rw kept (set_state-IsSound c.id failing p v)
]

All-step :
    (docker : Docker) (failing : ContainerState) (e : Container) (p : Pool) (cs : List Container)
    → find e.id cs ≡ none
    → All (Listed p) cs
    → All (Listed (step docker failing e p)) cs
All-step docker failing e p [] fresh all = tt
All-step docker failing e p (c ∷ cs) fresh (l, ls) = (
  step-Listed docker failing e p c (ground (arith, str_eq_iff e.id c.id, str_eq_iff c.id e.id)) l,
  All-step docker failing e p cs (ground arith) ls,
)

pub remove_all-IsSound :
    (docker : Docker) (failing : ContainerState) (cs : List Container) (p : Pool)
    → Distinct cs
    → All (Listed p) cs
    → IsSound p
    → IsSound (remove_all docker failing cs p)
unfolding remove_all step
remove_all-IsSound docker failing [] p d all v = v
remove_all-IsSound docker failing (c ∷ cs) p (fresh, d) (l, ls) v =
    remove_all-IsSound docker failing cs (step docker failing c p) d
      (All-step docker failing c p cs fresh ls) (step-IsSound docker failing c p l v)

pub remove_all-Listed :
    (docker : Docker) (failing : ContainerState) (cs : List Container) (p : Pool) (x : Container)
    → find x.id cs ≡ none
    → Listed p x
    → Listed (remove_all docker failing cs p) x
unfolding remove_all step
remove_all-Listed docker failing [] p x apart l = l
remove_all-Listed docker failing (c ∷ cs) p x apart l =
    remove_all-Listed docker failing cs (step docker failing c p) x (ground arith)
      (step-Listed docker failing c p x (ground arith) l)
