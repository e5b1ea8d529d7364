-- ===== src/Pool/Reaper.antt =====
-- The tick of the reaper and the accounts of the pool.
use training_center_back.Prelude.{ℕ, none, List, [], ◌∷◌, ◌≡◌, sym, ◌∙◌, All}
use training_center_back.Pool.Containers.{Container, ContainerState, idle, draining, find}
use training_center_back.Pool.Operations.{
  Pool, Docker, stuck, to_evict, mark_expired, remove_all, evict_expired,
}
use training_center_back.Pool.Budget.{IsSound}
use training_center_back.Pool.Removals.{Listed, remove_all-IsSound, remove_all-Listed}
use training_center_back.Pool.Expired.{
  Stands, marked, find-mark_expired, charge-marked, charged-mark_expired, mark_expired-IsCapped,
  mark_expired-Distinct, stuck-Distinct, stuck-Stands, to_evict-Distinct, to_evict-Stands,
  to_evict-apart,
}

-- The pool after phase one.
abbrev collected : ℕ → Pool → Pool
collected now p = record p { containers = mark_expired now p.idle_timeout p.containers }

collected-IsSound : (now : ℕ) (p : Pool) → IsSound p → IsSound (collected now p)
collected-IsSound now p v = record {
  distinct = mark_expired-Distinct now p.idle_timeout p.containers v.distinct;
  accounted = v.accounted ∙ sym (charged-mark_expired now p.idle_timeout p.containers);
  capped = mark_expired-IsCapped now p.idle_timeout p.languages p.containers v.capped;
  budgeted = v.budgeted;
}

collected-Listed :
    (now : ℕ) (p : Pool) (xs : List Container)
    → All (Stands p.containers) xs
    → All (Listed (collected now p)) xs
collected-Listed now p [] all = tt
collected-Listed now p (x ∷ xs) (k, ks) = (
  (
    marked now p.idle_timeout x,
    find-mark_expired now p.idle_timeout x.id p.containers {c = x} k,
    charge-marked now p.idle_timeout x,
  ),
  collected-Listed now p xs ks,
)

still-Listed :
    (docker : Docker) (failing : ContainerState) (gone xs : List Container) (p : Pool)
    → All (λ x. find x.id gone ≡ none) xs
    → All (Listed p) xs
    → All (Listed (remove_all docker failing gone p)) xs
still-Listed docker failing gone [] p apart all = tt
still-Listed docker failing gone (x ∷ xs) p (a, rest) (l, ls) =
    (remove_all-Listed docker failing gone p x a l, still-Listed docker failing gone xs p rest ls)

-- A tick of the reaper keeps a sound pool sound, whichever removals the daemon refuses: a container
-- that is gone gives back its charge, once, and one that stays keeps it.
pub evict_expired-IsSound :
    (docker : Docker) (now : ℕ) (p : Pool) → IsSound p → IsSound (evict_expired docker now p)
unfolding evict_expired
evict_expired-IsSound docker now p v =
    let cs = p.containers in
    remove_all-IsSound docker idle (to_evict now p.idle_timeout cs)
      (remove_all docker draining (stuck cs) (collected now p))
      (to_evict-Distinct now p.idle_timeout cs v.distinct)
      (still-Listed docker draining (stuck cs) (to_evict now p.idle_timeout cs) (collected now p)
        (to_evict-apart now p.idle_timeout cs v.distinct)
        (collected-Listed now p (to_evict now p.idle_timeout cs)
          (to_evict-Stands now p.idle_timeout cs v.distinct)))
      (remove_all-IsSound docker draining (stuck cs) (collected now p)
        (stuck-Distinct cs v.distinct)
        (collected-Listed now p (stuck cs) (stuck-Stands cs v.distinct))
        (collected-IsSound now p v))
