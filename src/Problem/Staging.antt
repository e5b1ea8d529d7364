-- ===== src/Problem/Staging.antt =====
-- What staging a judging update leaves in the store.
use training_center_back.Prelude.{
  String, Bool, true, false, Option, none, some, List, ◌∷◌, ◌≡◌, refl, arith, inl, inr,
  Option-cases, str_eq_refl,
}
use training_center_back.Apperror.{Error, Result, ok, err, ◌>>=◌, Result-cases}
use training_center_back.Group.Operations.{CurrentUser, write}
use training_center_back.Problem.Aggregate.{Problem}
use training_center_back.Problem.Tickets.{
  ProblemValidation, is_final, pending, save, has_row, start, mark_final, mark_system_error,
  overwrite_row, new_problem_validation, new_judging_update_validation,
}
use training_center_back.Problem.Store.{Store}
use training_center_back.Problem.Reports.{blank}
use training_center_back.Problem.Checks.{store_ticket, dropping}
use training_center_back.Problem.Files.{Uploading, Handled, FileAction}
use training_center_back.Problem.Uploads.{
  StagingReport, change_of, ticket_of, open_update, queue_update, abandon_judging_update,
  execute_on_published, check_staging, staged, not_staged,
}
use training_center_back.Problem.Orderly.{Orderly, Newest, save-head}
use training_center_back.Problem.Opens.{Opened, Opened-Orderly, save-opens, ended}

-- The problem stays; a ticket may be opened, and may have been closed at once.
pub data Staged (s : Store) : Store → Type 0 where
  same : Staged s s
  waiting :
      (u : ProblemValidation) → Opened s.tickets u → Staged s (record s { tickets = u ∷ s.tickets })
  closed :
      (u last : ProblemValidation)
      → Opened s.tickets u
      → last.id ≡ u.id
      → last.requested_at ≡ u.requested_at
      → is_final last.status ≡ true
      → Staged s (record s { tickets = last ∷ s.tickets })

module _ (env : Uploading) (s : Store) (orderly : Orderly s.tickets)
    (fresh : has_row env.validation_id s.tickets ≡ false) (newest : Newest env.edit.now s.tickets)
    (caller : CurrentUser) where
  abbrev Stages : StagingReport → Type 0
  Stages r = Staged s r.store

  closing :
      (fault : Option Error) (u last : ProblemValidation)
      → Opened s.tickets u
      → last.id ≡ u.id
      → is_final last.status ≡ true
      → Staged s (store_ticket fault last (record s { tickets = u ∷ s.tickets })).1
  unfolding store_ticket
  closing (some e) u last o i f = waiting u o
  closing none u last o i f =
      rw
        (save-head last u s.tickets (rw i (str_eq_refl u.id))
          (Opened-Orderly s.tickets u orderly o))
        (closed u (overwrite_row last u) o refl refl f)

  abandon-Staged :
      (u : ProblemValidation)
      → Opened s.tickets u
      → Staged s (abandon_judging_update env u (record s { tickets = u ∷ s.tickets }))
  unfolding abandon_judging_update
  abandon-Staged u o = elim (Result-cases (start u)) [
    | inl (e, h) ↦ rw (h, abandon_judging_update) (waiting u o)
    | inr (w, h) ↦
        rw (h, abandon_judging_update)
          (closing env.close_fault u (dropping w (mark_system_error blank env.edit.now w)) o
            (unfold start mark_system_error mark_final in ground (arith, o.waits))
            (unfold start mark_system_error mark_final in ground (arith, o.waits)))
  ]

  queue_update-Staged :
      (action : FileAction) (u : ProblemValidation)
      → Opened s.tickets u
      → Stages (queue_update env action u (record s { tickets = u ∷ s.tickets }))
  unfolding queue_update
  queue_update-Staged action u o = elim (Option-cases env.queue_fault) [
    | inl h ↦ rw (h, queue_update) (waiting u o)
    | inr (e, h) ↦ rw (h, queue_update) (abandon-Staged u o)
  ]

  ticket-pending :
      (p : Problem) (is_tests : Bool) (r : Result Problem) (v : ProblemValidation)
      → (r >>= λ q. change_of is_tests q >>= ticket_of env caller p) ≡ ok v
      → (v.status ≡ pending) × (v.id ≡ env.validation_id) × (v.requested_at ≡ env.edit.now)
  unfolding new_judging_update_validation new_problem_validation
  ticket-pending p is_tests r v h = (ground arith, ground arith, ground arith)

  written-Staged :
      (action : FileAction) (v : ProblemValidation)
      → (v.status ≡ pending) × (v.id ≡ env.validation_id) × (v.requested_at ≡ env.edit.now)
      → (fault : Option Error) (r : Result (List ProblemValidation))
      → write fault (save v s.tickets) ≡ r
      → Stages (elim r [
        | err e ↦ not_staged action s e
        | ok rows ↦ queue_update env action v (record s { tickets = rows })
      ])
  written-Staged action v i fault (err e) h = same
  written-Staged action v i (some e) (ok rows) h = absurd (ground arith)
  written-Staged action v i none (ok rows) h = rw opens.0 (
      queue_update-Staged action v
        (record { fresh = rw i.1 fresh; newest = rw i.2 newest; waits = i.0; alone = opens.1 }))
    where
      opens : (rows ≡ v ∷ s.tickets) × (ended s.tickets ≡ true)
      opens = save-opens v s.tickets rows orderly (rw i.1 fresh) i.0 h

  open_update-Staged :
      (p : Problem) (is_tests : Bool) (h : Handled) → Stages (open_update env caller p is_tests h s)
  unfolding open_update
  open_update-Staged p is_tests h =
      elim (Result-cases (h.outcome >>= λ q. change_of is_tests q >>= ticket_of env caller p)) [
        | inl (e, x) ↦ rw (x, open_update) same
        | inr (v, x) ↦
            rw (x, open_update)
              (written-Staged h.action v (ticket-pending p is_tests h.outcome v x) env.ticket_fault
                (write env.ticket_fault (save v s.tickets)) refl)
      ]

  pub execute_on_published-Staged :
      (p : Problem) (file_type name confirm : String)
      → Staged s (execute_on_published env caller p file_type name confirm s).store
  unfolding execute_on_published
  execute_on_published-Staged p file_type name confirm =
      elim (Result-cases (check_staging env caller p file_type confirm s)) [
        | inl (e, x) ↦ rw (x, execute_on_published) same
        | inr (is_tests, x) ↦
            rw (x, execute_on_published)
              (open_update-Staged p is_tests (staged env p name is_tests))
      ]
