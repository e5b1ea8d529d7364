-- ===== src/Problem/Begins.antt =====
-- How a worker's run takes up its ticket.
use training_center_back.Prelude.{
  String, false, none, some, if-true, List, [], ◌∷◌, ◌≡◌, refl, ap, ◌∙◌, sym, subst, arith,
  str_eq_refl,
}
use training_center_back.Apperror.{ok, err}
use training_center_back.Problem.Tickets.{
  ProblemValidation, is_final, is_pending, pending, running, start, save, find_by_id, overwrite_row,
}
use training_center_back.Problem.Store.{Store}
use training_center_back.Problem.Checks.{Workbench, store_ticket}
use training_center_back.Problem.Worker.{begin, begin_found, held_if}
use training_center_back.Problem.Orderly.{Orderly, find_by_id-active, save-head, replaced-Orderly}

pub found-head :
    (id : String) (ts : List ProblemValidation) (v : ProblemValidation)
    → Orderly ts
    → find_by_id id ts ≡ ok v
    → is_final v.status ≡ false
    → (vs : List ProblemValidation) × (ts ≡ v ∷ vs)
unfolding find_by_id
found-head id [] v o h f = absurd (ground arith)
found-head id (w ∷ ws) v o h f = (ws, ap (λ x. x ∷ ws) (sym (find_by_id-active id w v ws o h f).0))

module _ (ts : List ProblemValidation) (orderly : Orderly ts) (v u : ProblemValidation)
    (vs : List ProblemValidation) (e : ts ≡ v ∷ vs) (h : start v ≡ ok u) where
  pub started : (v.status ≡ pending) × (u ≡ record v { status = running })
  started = unfold start in (ground arith, ground arith)

  pub started-saved : save u ts ≡ ok (u ∷ vs)
  started-saved = rw e (
      save-head u v vs (rw started.1 (str_eq_refl v.id)) (subst Orderly e orderly)
      ∙ ap (λ r. ok (r ∷ vs)) row)
    where
      row : overwrite_row u v ≡ u
      row = rw started.1 refl

  pub started-Orderly : Orderly (u ∷ vs)
  started-Orderly =
      replaced-Orderly u v vs (subst Orderly e orderly) (ap (λ t. t.id) started.1)
        (ap (λ t. t.requested_at) started.1)

-- What a run that starts leaves: the ticket that it holds, as the last row.
pub record Started (v : ProblemValidation) (env : Workbench) (id : String) (s : Store)
    : Type 0 where
  pub ticket : ProblemValidation
  pub rest : List ProblemValidation
  pub taken_up : begin env id s ≡ (ok (some ticket), record s { tickets = ticket ∷ rest })
  pub orderly : Orderly (ticket ∷ rest)
  pub runs : ticket.status ≡ running
  pub same_at : ticket.requested_at ≡ v.requested_at

pub begin-Started :
    (env : Workbench) (id : String) (s : Store) (v : ProblemValidation)
    → Orderly s.tickets
    → find_by_id id s.tickets ≡ ok v
    → v.status ≡ pending
    → env.start_fault ≡ none
    → Started v env id s
unfolding begin begin_found
begin-Started env id s v o h p saves = taken (found-head id s.tickets v o h (ap is_final p))
  where
    u : ProblemValidation
    u = record v { status = running }

    starts : start v ≡ ok u
    starts = unfold start in ground (arith, p)

    stored :
        (vs : List ProblemValidation)
        → s.tickets ≡ v ∷ vs
        → held_if u (store_ticket none u s) ≡ (ok (some u), record s { tickets = u ∷ vs })
    stored vs e = unfold store_ticket in rw (started-saved s.tickets o v u vs e starts) refl

    begun :
        (vs : List ProblemValidation)
        → s.tickets ≡ v ∷ vs
        → begin env id s ≡ (ok (some u), record s { tickets = u ∷ vs })
    begun vs e =
        rw (h, begin)
          (if-true (is_pending v.status) _ _ (ap is_pending p)
            ∙ ap
                (λ r. elim r [
                  | err x ↦ (err x, s)
                  | ok w ↦ held_if w (store_ticket env.start_fault w s)
                ])
                starts
            ∙ ap (λ fault. held_if u (store_ticket fault u s)) saves
            ∙ stored vs e)

    taken : (vs : List ProblemValidation) × (s.tickets ≡ v ∷ vs) → Started v env id s
    taken (vs, e) = record {
      ticket = u;
      rest = vs;
      taken_up = begun vs e;
      orderly = started-Orderly s.tickets o v u vs e starts;
      runs = refl;
      same_at = refl;
    }
