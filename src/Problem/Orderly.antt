-- ===== src/Problem/Orderly.antt =====
-- The table of tickets as the index keeps it, and what the queries of Problem/Tickets do on it.
use training_center_back.Prelude.{
  ℕ, ◌<◌, String, true, false, Option, none, some, List, [], ◌∷◌, ◌≡◌, refl, ap, arith, str_eq,
  str_eq_iff, All,
}
use training_center_back.Apperror.{ok, err, conflict}
use training_center_back.Problem.Tickets.{
  ProblemValidation, is_final, count_active, has_row, update_rows, overwrite_row, save, find_latest,
  later, find_by_id,
}

-- A row behind the last inserted one: it has ended, it is older, and its key differs.
pub record Behind (v w : ProblemValidation) : Type 0 where
  pub ended : is_final w.status ≡ true
  pub earlier : w.requested_at < v.requested_at
  pub distinct : str_eq w.id v.id ≡ false

unfoldable pub Orderly : List ProblemValidation → Type 0
Orderly [] = Unit
Orderly (v ∷ vs) = All (Behind v) vs

-- Later than every row.
abbrev pub Newest : ℕ → List ProblemValidation → Type 0
Newest now vs = All (λ v. v.requested_at < now) vs

unfoldable pub Before : ProblemValidation → Option ProblemValidation → Type 0
Before v none = Unit
Before v (some w) = w.requested_at < v.requested_at

Behind-Before :
    (v : ProblemValidation) (vs : List ProblemValidation)
    → All (Behind v) vs
    → Before v (find_latest vs)
unfolding Before find_latest
Behind-Before v [] b = tt
Behind-Before v (w ∷ ws) b = shown (find_latest ws) (Behind-Before v ws b.1)
  where
    shown : (o : Option ProblemValidation) → Before v o → Before v (some (later w o))
    shown none h = b.0.earlier
    shown (some u) h = ground (arith, b.0.earlier)

pub find_latest-Orderly :
    (v : ProblemValidation) (vs : List ProblemValidation)
    → Orderly (v ∷ vs)
    → find_latest (v ∷ vs) ≡ some v
unfolding Orderly Before find_latest
find_latest-Orderly v vs b = ap some (shown (find_latest vs) (Behind-Before v vs b))
  where
    shown : (o : Option ProblemValidation) → Before v o → later v o ≡ v
    shown none h = refl
    shown (some u) h = ground arith

count_active-Behind :
    (v : ProblemValidation) (vs : List ProblemValidation) → All (Behind v) vs → count_active vs ≡ 0
unfolding count_active
count_active-Behind v [] b = refl
count_active-Behind v (w ∷ ws) b = ground (arith, b.0.ended, count_active-Behind v ws b.1)

update_rows-Behind :
    (u v : ProblemValidation) (vs : List ProblemValidation)
    → str_eq v.id u.id ≡ true
    → All (Behind v) vs
    → update_rows u vs ≡ vs
unfolding update_rows
update_rows-Behind u v [] e b = refl
update_rows-Behind u v (w ∷ ws) e b = ground (
  arith,
  b.0.distinct,
  str_eq_iff w.id v.id,
  str_eq_iff w.id u.id,
  str_eq_iff v.id u.id,
  update_rows-Behind u v ws e b.1,
)

-- Saving a ticket whose row is the last one.
pub save-head :
    (u v : ProblemValidation) (vs : List ProblemValidation)
    → str_eq v.id u.id ≡ true
    → Orderly (v ∷ vs)
    → save u (v ∷ vs) ≡ ok (overwrite_row u v ∷ vs)
unfolding save has_row update_rows Orderly count_active
save-head u v vs e b = ground (arith, update_rows-Behind u v vs e b, count_active-Behind v vs b)

-- A fresh ticket is refused while the last one is active, and goes in front of it when it has ended.
pub save-fresh_active :
    (u v : ProblemValidation) (vs : List ProblemValidation)
    → has_row u.id (v ∷ vs) ≡ false
    → is_final u.status ≡ false
    → is_final v.status ≡ false
    → save u (v ∷ vs) ≡ err (conflict "VALIDATION_IN_PROGRESS")
unfolding save count_active
save-fresh_active u v vs fresh a b = ground (arith, fresh)

pub save-fresh :
    (u v : ProblemValidation) (vs : List ProblemValidation)
    → Orderly (v ∷ vs)
    → has_row u.id (v ∷ vs) ≡ false
    → is_final v.status ≡ true
    → save u (v ∷ vs) ≡ ok (u ∷ v ∷ vs)
unfolding save count_active Orderly
save-fresh u v vs b fresh h = ground (arith, fresh, h, count_active-Behind v vs b)

find_by_id-ended :
    (id : String) (v u : ProblemValidation) (vs : List ProblemValidation)
    → All (Behind v) vs
    → find_by_id id vs ≡ ok u
    → is_final u.status ≡ true
unfolding find_by_id
find_by_id-ended id v u [] b h = ground arith
find_by_id-ended id v u (w ∷ ws) b h = ground (arith, b.0.ended, find_by_id-ended id v u ws b.1)

-- A ticket that is found and has not ended is the last one.
pub find_by_id-active :
    (id : String) (v u : ProblemValidation) (vs : List ProblemValidation)
    → Orderly (v ∷ vs)
    → find_by_id id (v ∷ vs) ≡ ok u
    → is_final u.status ≡ false
    → (u ≡ v) × (str_eq v.id id ≡ true)
unfolding find_by_id Orderly
find_by_id-active id v u vs b h a = ground (arith, find_by_id-ended id v u vs b)

-- A row in place of the last one, with its key and its time.
pub replaced-Orderly :
    (u v : ProblemValidation) (vs : List ProblemValidation)
    → Orderly (v ∷ vs)
    → u.id ≡ v.id
    → u.requested_at ≡ v.requested_at
    → Orderly (u ∷ vs)
unfolding Orderly
replaced-Orderly u v vs o i t = behind vs o
  where
    behind : (ws : List ProblemValidation) → All (Behind v) ws → All (Behind u) ws
    behind [] b = tt
    behind (w ∷ ws) b = (
      record { ended = b.0.ended; earlier = rw t b.0.earlier; distinct = rw i b.0.distinct },
      behind ws b.1,
    )
