-- ===== src/Problem/Stuck.antt =====
-- A ticket that is saved but not queued. `enqueueValidation` returns the error of the queue and
-- leaves its ticket pending; the sweep is for running tickets.
use training_center_back.Prelude.{
  ℕ, Bool, true, false, none, some, ◌∷◌, ◌≡◌, refl, ap, ◌∙◌, arith, str_eq,
}
use training_center_back.Apperror.{Error, ok, err, conflict}
use training_center_back.Group.Operations.{CurrentUser, write}
use training_center_back.Problem.Aggregate.{Problem}
use training_center_back.Problem.Tickets.{
  ProblemValidation, pending, save, has_row, recover_stale_before, new_problem_validation,
  new_check_only_validation,
}
use training_center_back.Problem.Store.{Store, Lookup, ensure_no_active_validation}
use training_center_back.Problem.Publishing.{
  Enqueuing, new_ticket, enqueue_saved, enqueue_validation, enqueue_for, answer, queued,
}
use training_center_back.Problem.Orderly.{Orderly, Newest, find_latest-Orderly}
use training_center_back.Problem.Opens.{Opened-Orderly, save-alone, ended}
use training_center_back.Problem.Sound.{recover-ended}

module _ (enq : Enqueuing) (flag : Bool) (caller : CurrentUser) (p : Problem) (s : Store)
    (e : Error) (orderly : Orderly s.tickets) (alone : ended s.tickets ≡ true)
    (fresh : has_row enq.ticket_id s.tickets ≡ false) (newest : Newest enq.now s.tickets)
    (named : str_eq enq.ticket_id "" ≡ false) (stored : str_eq p.id "" ≡ false)
    (saves : enq.save_fault ≡ none) (unqueued : enq.queue_fault ≡ some e) where
  abbrev ticket : ProblemValidation
  ticket = record {
    id = enq.ticket_id;
    problem_id = p.id;
    requested_by = caller.id;
    status = pending;
    requested_at = enq.now;
    completed_at = none;
    result = none;
    pending_change = none;
    publish_on_pass = flag;
  }

  drawn :
      (b : Bool)
      → b ≡ flag
      → new_ticket b enq.ticket_id p.id caller.id enq.now
        ≡ ok (record ticket { publish_on_pass = b })
  unfolding new_problem_validation new_check_only_validation
  drawn true h = ground (arith, named, stored)
  drawn false h = ground (arith, named, stored)

  opened : Orderly (ticket ∷ s.tickets)
  opened =
      Opened-Orderly s.tickets ticket orderly
        (record { fresh = fresh; newest = newest; waits = refl; alone = alone })

  left : enqueue_for enq flag caller p s ≡ (err e, record s { tickets = ticket ∷ s.tickets })
  unfolding enqueue_for enqueue_validation enqueue_saved
  left =
      rw (drawn flag refl, enqueue_validation)
        (ap (λ done. (answer p done.0, record s { tickets = done.1 }))
          (ap
              (λ fault.
                enqueue_saved enq flag ticket s.tickets (write fault (save ticket s.tickets)))
              saves
            ∙ ap (enqueue_saved enq flag ticket s.tickets)
                (save-alone ticket s.tickets orderly fresh alone)
            ∙ ap (λ fault. (queued fault ticket.id, ticket ∷ s.tickets)) unqueued))

  -- If the queue refuses a ticket that is saved in an orderly table without an active ticket, the
  -- request returns the queue's error and leaves the ticket pending: no sweep, whatever its cutoff,
  -- changes the table that is left, and the guard of every edit of files and fields refuses.
  pub unqueued_blocks :
      (lookup : Lookup) (cutoff now : ℕ)
      → lookup.latest_fault ≡ none
      → ((enqueue_for enq flag caller p s).0 ≡ err e)
        × (recover_stale_before cutoff now (enqueue_for enq flag caller p s).1.tickets
            ≡ (enqueue_for enq flag caller p s).1.tickets)
        × (ensure_no_active_validation lookup (enqueue_for enq flag caller p s).1
            ≡ err (conflict "VALIDATION_IN_PROGRESS"))
  unfolding Orderly recover_stale_before ensure_no_active_validation
  unqueued_blocks lookup cutoff now reads = rw left (
    refl,
    ap (λ ts. ticket ∷ ts) (recover-ended cutoff now ticket s.tickets opened),
    ground (arith, reads, find_latest-Orderly ticket s.tickets opened),
  )
