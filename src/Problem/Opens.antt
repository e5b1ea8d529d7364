-- ===== src/Problem/Opens.antt =====
-- How a request grows the table of tickets.
use training_center_back.Prelude.{
  ℕ, String, Bool, true, false, Option, none, some, List, [], ◌∷◌, ◌≡◌, refl, ap, arith, ◌⊎◌, inl,
  inr, All, if-cases, Bool-cases,
}
use training_center_back.Apperror.{Error, Result, ok, err, Result-cases}
use training_center_back.Group.Operations.{CurrentUser, write}
use training_center_back.Problem.Aggregate.{Problem}
use training_center_back.Problem.Tickets.{
  ProblemValidation, is_final, pending, save, count_active, has_row, new_problem_validation,
  new_check_only_validation,
}
use training_center_back.Problem.Publishing.{
  Enqueuing, new_ticket, enqueue_saved, enqueue_validation, is_validation_in_progress,
}
use training_center_back.Problem.Orderly.{Orderly, Behind, Newest, save-fresh, save-fresh_active}

-- No ticket is pending or running.
abbrev pub ended : List ProblemValidation → Bool
ended [] = true
ended (v ∷ vs) = is_final v.status

-- A pending ticket that is put in front of tickets that have all ended.
pub record Opened (rows : List ProblemValidation) (u : ProblemValidation) : Type 0 where
  pub fresh : has_row u.id rows ≡ false
  pub newest : Newest u.requested_at rows
  pub waits : u.status ≡ pending
  pub alone : ended rows ≡ true

abbrev pub Grown : List ProblemValidation → List ProblemValidation → Type 0
Grown rows after = (after ≡ rows) ⊎ ((u : ProblemValidation) × (after ≡ u ∷ rows) × Opened rows u)

pub save-opens :
    (u : ProblemValidation) (rows after : List ProblemValidation)
    → Orderly rows
    → has_row u.id rows ≡ false
    → u.status ≡ pending
    → save u rows ≡ ok after
    → (after ≡ u ∷ rows) × (ended rows ≡ true)
unfolding save count_active
save-opens u [] after o f p h = (ground (arith, f, p), refl)
save-opens u (v ∷ vs) after o f p h = elim (Bool-cases (is_final v.status)) [
  | inl e ↦ (ground (arith, save-fresh u v vs o f e), e)
  | inr e ↦ absurd (ground (arith, save-fresh_active u v vs f (ap is_final p) e))
]

Opened-Behind :
    (u : ProblemValidation) (rows : List ProblemValidation)
    → has_row u.id rows ≡ false
    → Newest u.requested_at rows
    → All (λ w. is_final w.status ≡ true) rows
    → All (Behind u) rows
unfolding has_row
Opened-Behind u [] f n e = tt
Opened-Behind u (w ∷ ws) f n e = (
  record { ended = e.0; earlier = n.0; distinct = ground arith },
  Opened-Behind u ws (ground arith) n.1 e.1,
)

Orderly-ended :
    (rows : List ProblemValidation)
    → Orderly rows
    → ended rows ≡ true
    → All (λ w. is_final w.status ≡ true) rows
unfolding Orderly
Orderly-ended [] o e = tt
Orderly-ended (v ∷ vs) o e = (e, behind vs o)
  where
    behind :
        (ws : List ProblemValidation) → All (Behind v) ws → All (λ w. is_final w.status ≡ true) ws
    behind [] b = tt
    behind (w ∷ ws) b = (b.0.ended, behind ws b.1)

pub Opened-Orderly :
    (rows : List ProblemValidation) (u : ProblemValidation)
    → Orderly rows
    → Opened rows u
    → Orderly (u ∷ rows)
unfolding Orderly
Opened-Orderly rows u o p = Opened-Behind u rows p.fresh p.newest (Orderly-ended rows o p.alone)

new_ticket-pending :
    (flag : Bool) (id pid by : String) (now : ℕ) (v : ProblemValidation)
    → new_ticket flag id pid by now ≡ ok v
    → (v.status ≡ pending) × (v.id ≡ id) × (v.requested_at ≡ now) × (v.publish_on_pass ≡ flag)
unfolding new_problem_validation new_check_only_validation
new_ticket-pending true id pid by now v h = (ground arith, ground arith, ground arith, ground arith)
new_ticket-pending false id pid by now v h =
    (ground arith, ground arith, ground arith, ground arith)

module _ (env : Enqueuing) (flag : Bool) (rows : List ProblemValidation) (orderly : Orderly rows)
    (fresh : has_row env.ticket_id rows ≡ false) (newest : Newest env.now rows) where
  abbrev Grows {ℓ} : {A : Type ℓ} → A × List ProblemValidation → Type 0
  Grows done = Grown rows done.1

  saved-Grows :
      (v : ProblemValidation)
      → (v.status ≡ pending) × (v.id ≡ env.ticket_id) × (v.requested_at ≡ env.now)
      → (r : Result (List ProblemValidation)) → write env.save_fault (save v rows) ≡ r
      → Grows (enqueue_saved env flag v rows r)
  unfolding enqueue_saved
  saved-Grows v i (err e) h =
      if-cases Grows (is_validation_in_progress e) (λ x. inl refl) (λ x. inl refl)
  saved-Grows v i (ok after) h = inr (
    v,
    opens.0,
    record { fresh = rw i.1 fresh; newest = rw i.2 newest; waits = i.0; alone = opens.1 },
  )
    where
      written :
          (fault : Option Error) → write fault (save v rows) ≡ ok after → save v rows ≡ ok after
      written (some e) w = absurd (ground arith)
      written none w = w

      opens : (after ≡ v ∷ rows) × (ended rows ≡ true)
      opens = save-opens v rows after orderly (rw i.1 fresh) i.0 (written env.save_fault h)

  pub enqueue_validation-Grown :
      (caller : CurrentUser) (p : Problem)
      → Grown rows (enqueue_validation env flag caller p rows).1
  unfolding enqueue_validation
  enqueue_validation-Grown caller p =
      elim (Result-cases (new_ticket flag env.ticket_id p.id caller.id env.now)) [
        | inl (e, h) ↦ rw (h, enqueue_validation) (inl refl)
        | inr (v, h) ↦
            rw (h, enqueue_validation)
              (saved-Grows v (kept v h) (write env.save_fault (save v rows)) refl)
      ]
    where
      kept :
          (v : ProblemValidation)
          → new_ticket flag env.ticket_id p.id caller.id env.now ≡ ok v
          → (v.status ≡ pending) × (v.id ≡ env.ticket_id) × (v.requested_at ≡ env.now)
      kept v h = (t.0, t.1, t.2)
        where
          t :
              (v.status ≡ pending)
              × (v.id ≡ env.ticket_id)
              × (v.requested_at ≡ env.now)
              × (v.publish_on_pass ≡ flag)
          t = new_ticket-pending flag env.ticket_id p.id caller.id env.now v h

pub save-alone :
    (u : ProblemValidation) (rows : List ProblemValidation)
    → Orderly rows
    → has_row u.id rows ≡ false
    → ended rows ≡ true
    → save u rows ≡ ok (u ∷ rows)
unfolding save count_active
save-alone u [] o f e = ground (arith, f)
save-alone u (v ∷ vs) o f e = save-fresh u v vs o f e
