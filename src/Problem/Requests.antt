-- ===== src/Problem/Requests.antt =====
-- What a request to publish or to validate leaves in the store, on every branch.
use training_center_back.Prelude.{
  String, Bool, true, false, Option, none, some, List, [], ◌∷◌, ◌≡◌, refl, arith, inl, inr, ◌&&◌,
  not, if-cases,
}
use training_center_back.Apperror.{Error, Result, ok, err, Result-cases}
use training_center_back.Group.Operations.{CurrentUser, query}
use training_center_back.Problem.Aggregate.{Problem}
use training_center_back.Problem.Tickets.{ProblemValidation, is_final, has_row, find_latest}
use training_center_back.Problem.Store.{
  Store, Lookup, locate, find_by_slug, mark_published, mark_published_if_unchanged,
}
use training_center_back.Problem.Publishing.{
  Enqueuing, PublishOutput, enqueue_for, enqueue_validation, still_valid, publish_validated,
  publish_after, publish_complete, publish_problem, required_fields_for_publish, check_draft,
  request_after, request_complete, request_problem_validation,
}
use training_center_back.Problem.Orderly.{Orderly, Newest}
use training_center_back.Problem.Opens.{Opened, Grown, enqueue_validation-Grown}
use training_center_back.Problem.Completeness.{
  is_complete, is_complete_iff, Advances, Advances-refl,
}

-- The tickets stay, and the problem is published only if it is complete; or a ticket is opened for a
-- problem that is complete.
pub data Asked (s : Store) : Store → Type 0 where
  kept :
      (q : Problem)
      → Advances (is_complete s.problem) s.problem q
      → Asked s (record s { problem = q })
  opened :
      (u : ProblemValidation)
      → Opened s.tickets u
      → is_complete s.problem ≡ true
      → Asked s (record s { tickets = u ∷ s.tickets })

module _ (enq : Enqueuing) (s : Store) (orderly : Orderly s.tickets)
    (fresh : has_row enq.ticket_id s.tickets ≡ false) (newest : Newest enq.now s.tickets)
    (caller : CurrentUser) where
  abbrev Asks : Result PublishOutput × Store → Type 0
  Asks done = Asked s done.1

  Asked-same : Asked s s
  Asked-same = kept s.problem (Advances-refl (is_complete s.problem) s.problem)

  Asked-grown :
      (after : List ProblemValidation)
      → is_complete s.problem ≡ true
      → Grown s.tickets after
      → Asked s (record s { tickets = after })
  Asked-grown after c (inl e) = rw e Asked-same
  Asked-grown after c (inr (u, e, o)) = rw e (opened u o c)

  enqueue_for-Asked :
      (flag : Bool) (p : Problem)
      → is_complete s.problem ≡ true
      → Asks (enqueue_for enq flag caller p s)
  unfolding enqueue_for
  enqueue_for-Asked flag p c =
      Asked-grown (enqueue_validation enq flag caller p s.tickets).1 c
        (enqueue_validation-Grown enq flag s.tickets orderly fresh newest caller p)

  publish_validated-Asked :
      (fault : Option Error) (v : ProblemValidation)
      → is_complete s.problem ≡ true
      → Asks (publish_validated enq fault caller s.problem v s)
  unfolding publish_validated
  publish_validated-Asked (some e) v c = Asked-same
  publish_validated-Asked none v c =
      if-cases Asks (mark_published_if_unchanged s.problem.updated_at enq.now s.problem).0
        (λ done.
          kept (mark_published_if_unchanged s.problem.updated_at enq.now s.problem).1 advances)
        (λ changed. enqueue_for-Asked true s.problem c)
    where
      advances :
          Advances
            (is_complete s.problem)
            s.problem
            (mark_published_if_unchanged s.problem.updated_at enq.now s.problem).1
      advances =
          unfold mark_published_if_unchanged mark_published is_complete in
          (record { complete = ground arith; shown = ground (arith, c) })

  publish_after-Asked :
      (fault : Option Error) (latest : Option ProblemValidation)
      → is_complete s.problem ≡ true
      → Asks (publish_after enq fault caller s.problem latest s)
  unfolding publish_after
  publish_after-Asked fault none c = enqueue_for-Asked true s.problem c
  publish_after-Asked fault (some v) c =
      if-cases Asks (not (is_final v.status) && v.publish_on_pass) (λ a. Asked-same)
        (λ a.
          if-cases Asks (not (is_final v.status)) (λ b. Asked-same)
            (λ b.
              if-cases Asks (still_valid s.problem v) (λ d. publish_validated-Asked fault v c)
                (λ d. enqueue_for-Asked true s.problem c)))

  publish_complete-Asked :
      (env : Lookup) (fault : Option Error) (missing : List String)
      → required_fields_for_publish s.problem ≡ missing
      → Asks (publish_complete env enq fault caller s.problem missing s)
  unfolding publish_complete
  publish_complete-Asked env fault (m ∷ ms) h = Asked-same
  publish_complete-Asked env fault [] h = read (query env.latest_fault (find_latest s.tickets))
    where
      read :
          (r : Result (Option ProblemValidation))
          → Asks (elim r [
            | err e ↦ (err e, s)
            | ok latest ↦ publish_after enq fault caller s.problem latest s
          ])
      read (err e) = Asked-same
      read (ok latest) = publish_after-Asked fault latest ((is_complete_iff s.problem).0 h)

  check_draft-ok :
      (env : Lookup) (raw : String) (p : Problem)
      → check_draft env caller raw s ≡ ok p
      → p ≡ s.problem
  unfolding check_draft locate find_by_slug
  check_draft-ok env raw p h = ground arith

  pub publish_problem-Asked :
      (env : Lookup) (fault : Option Error) (raw : String)
      → Asked s (publish_problem env enq fault caller raw s).1
  unfolding publish_problem
  publish_problem-Asked env fault raw = elim (Result-cases (check_draft env caller raw s)) [
    | inl (e, h) ↦ rw (h, publish_problem) Asked-same
    | inr (p, h) ↦
        rw (h, publish_problem, check_draft-ok env raw p h)
          (publish_complete-Asked env fault (required_fields_for_publish s.problem) refl)
  ]

  request_after-Asked :
      (latest : Option ProblemValidation)
      → is_complete s.problem ≡ true
      → Asks (request_after enq caller s.problem latest s)
  unfolding request_after
  request_after-Asked none c = enqueue_for-Asked false s.problem c
  request_after-Asked (some v) c =
      if-cases Asks (is_final v.status) (λ a. enqueue_for-Asked false s.problem c) (λ a. Asked-same)

  request_complete-Asked :
      (env : Lookup) (missing : List String)
      → required_fields_for_publish s.problem ≡ missing
      → Asks (request_complete env enq caller s.problem missing s)
  unfolding request_complete
  request_complete-Asked env (m ∷ ms) h = Asked-same
  request_complete-Asked env [] h = read (query env.latest_fault (find_latest s.tickets))
    where
      read :
          (r : Result (Option ProblemValidation))
          → Asks (elim r [
            | err e ↦ (err e, s)
            | ok latest ↦ request_after enq caller s.problem latest s
          ])
      read (err e) = Asked-same
      read (ok latest) = request_after-Asked latest ((is_complete_iff s.problem).0 h)

  pub request-Asked :
      (env : Lookup) (raw : String) → Asked s (request_problem_validation env enq caller raw s).1
  unfolding request_problem_validation
  request-Asked env raw = elim (Result-cases (check_draft env caller raw s)) [
    | inl (e, h) ↦ rw (h, request_problem_validation) Asked-same
    | inr (p, h) ↦
        rw (h, request_problem_validation, check_draft-ok env raw p h)
          (request_complete-Asked env (required_fields_for_publish s.problem) refl)
  ]
