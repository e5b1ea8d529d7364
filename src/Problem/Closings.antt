-- ===== src/Problem/Closings.antt =====
-- How a run closes its ticket: the writes that Problem/Worker ends with.
use training_center_back.Prelude.{
  Bool, true, Option, none, some, List, ◌∷◌, ◌≡◌, refl, arith, ◌&&◌, is_some, str_eq_refl, ◌||◌,
}
use training_center_back.Apperror.{Error, Result, ok, ◌>>=◌}
use training_center_back.Group.Operations.{write}
use training_center_back.Problem.Aggregate.{Problem}
use training_center_back.Problem.Tickets.{
  ProblemValidation, ValidationReport, is_final, running, is_running, save, overwrite_row,
  mark_final, mark_passed, mark_failed, mark_system_error,
}
use training_center_back.Problem.Store.{Store}
use training_center_back.Problem.Reports.{blank}
use training_center_back.Problem.Checks.{
  Workbench, dropping, committed, rolled_back, store_ticket, persist_system_error, persist_failed,
}
use training_center_back.Problem.Orderly.{Orderly, save-head}
use training_center_back.Problem.Completeness.{Advances}

-- A write of the end of a run fails.
unfoldable pub has_fault : Workbench → Bool
has_fault env =
    is_some env.end_fault
    || (is_some env.tx_problem_fault || (is_some env.tx_ticket_fault || is_some env.commit_fault))

-- A run ends with its ticket `v` as the last row, ended, or as it was if a write failed; the rows
-- behind are untouched.
pub record Ran (faulty : Bool) (v : ProblemValidation) (rest : List ProblemValidation) (p : Problem)
    (s : Store) : Type 0 where
  pub last : ProblemValidation
  pub tickets : s.tickets ≡ last ∷ rest
  pub same_id : last.id ≡ v.id
  pub same_at : last.requested_at ≡ v.requested_at
  pub same_flag : last.publish_on_pass ≡ v.publish_on_pass
  pub status : (is_final last.status || (is_running last.status && faulty)) ≡ true
  pub problem : Advances v.publish_on_pass p s.problem

-- A run that holds its ticket, the last row of the table, on a problem.
pub record Held : Type 0 where
  pub env : Workbench
  pub ticket : ProblemValidation
  pub rest : List ProblemValidation
  pub orderly : Orderly (ticket ∷ rest)
  pub running_now : ticket.status ≡ running
  pub problem : Problem

module _ (k : Held) where
  abbrev pub at : Problem → Store
  at q = record { problem = q; tickets = k.ticket ∷ k.rest }

  abbrev pub Goes : Problem → Type 0
  Goes q = Advances k.ticket.publish_on_pass k.problem q

  pub Ran-same :
      has_fault k.env ≡ true
      → (q : Problem) → Goes q
      → Ran (has_fault k.env) k.ticket k.rest k.problem (at q)
  Ran-same bad q a = record {
    last = k.ticket;
    tickets = refl;
    same_id = refl;
    same_at = refl;
    same_flag = refl;
    status = ground (arith, k.running_now, bad);
    problem = a;
  }

  pub saved_row :
      (u : ProblemValidation)
      → u.id ≡ k.ticket.id
      → save u (k.ticket ∷ k.rest) ≡ ok (overwrite_row u k.ticket ∷ k.rest)
  saved_row u i = save-head u k.ticket k.rest (rw i (str_eq_refl k.ticket.id)) k.orderly

  pub Ran-closed :
      (u : ProblemValidation) (q : Problem)
      → is_final u.status ≡ true
      → Goes q
      → Ran
          (has_fault k.env)
          k.ticket
          k.rest
          k.problem
          (record { problem = q; tickets = overwrite_row u k.ticket ∷ k.rest })
  Ran-closed u q f a = record {
    last = overwrite_row u k.ticket;
    tickets = refl;
    same_id = refl;
    same_at = refl;
    same_flag = refl;
    status = ground (arith, f);
    problem = a;
  }

  pub Ran-store :
      (fault : Option Error) (u : ProblemValidation) (q : Problem)
      → (is_some fault ≡ true → has_fault k.env ≡ true)
      → u.id ≡ k.ticket.id
      → is_final u.status ≡ true
      → Goes q
      → Ran (has_fault k.env) k.ticket k.rest k.problem (store_ticket fault u (at q)).1
  unfolding store_ticket
  Ran-store (some e) u q bad i f a = Ran-same (bad refl) q a
  Ran-store none u q bad i f a = rw (saved_row u i) (Ran-closed u q f a)

  pub at_end : is_some k.env.end_fault ≡ true → has_fault k.env ≡ true
  unfolding has_fault
  at_end h = ground arith

  pub at_problem : is_some k.env.tx_problem_fault ≡ true → has_fault k.env ≡ true
  unfolding has_fault
  at_problem h = ground arith

  pub at_ticket : is_some k.env.tx_ticket_fault ≡ true → has_fault k.env ≡ true
  unfolding has_fault
  at_ticket h = ground arith

  pub at_commit : is_some k.env.commit_fault ≡ true → has_fault k.env ≡ true
  unfolding has_fault
  at_commit h = ground arith

  -- A mark on a running ticket ends it.
  abbrev Ended : Result ProblemValidation → Type 0
  Ended r =
      ((dropping k.ticket r).id ≡ k.ticket.id) × (is_final (dropping k.ticket r).status ≡ true)

  mark_system_error-Ended :
      (report : ValidationReport) → Ended (mark_system_error report k.env.now k.ticket)
  unfolding mark_system_error mark_final
  mark_system_error-Ended report = (ground (arith, k.running_now), ground (arith, k.running_now))

  mark_failed-Ended : (report : ValidationReport) → Ended (mark_failed report k.env.now k.ticket)
  unfolding mark_failed mark_final
  mark_failed-Ended report = (ground (arith, k.running_now), ground (arith, k.running_now))

  pub mark_passed-Ended :
      (report : ValidationReport) → Ended (mark_passed report k.env.now k.ticket)
  unfolding mark_passed mark_final
  mark_passed-Ended report = (ground (arith, k.running_now), ground (arith, k.running_now))

  pub Ran-marked :
      (r : Result ProblemValidation) (q : Problem)
      → Ended r
      → Goes q
      → Ran
          (has_fault k.env)
          k.ticket
          k.rest
          k.problem
          (store_ticket k.env.end_fault (dropping k.ticket r) (at q)).1
  Ran-marked r q e a = Ran-store k.env.end_fault (dropping k.ticket r) q at_end e.0 e.1 a

  pub Ran-system_error :
      (q : Problem)
      → Goes q
      → Ran
          (has_fault k.env)
          k.ticket
          k.rest
          k.problem
          (persist_system_error k.env k.ticket (at q)).1
  unfolding persist_system_error
  Ran-system_error q a =
      Ran-marked (mark_system_error blank k.env.now k.ticket) q (mark_system_error-Ended blank) a

  pub Ran-failed :
      (report : ValidationReport) (q : Problem)
      → Goes q
      → Ran
          (has_fault k.env)
          k.ticket
          k.rest
          k.problem
          (persist_failed k.env k.ticket report (at q)).1
  unfolding persist_failed
  Ran-failed report q a =
      Ran-marked (mark_failed report k.env.now k.ticket) q (mark_failed-Ended report) a

  -- A transaction that commits, or leaves the store.
  pub Ran-committed :
      (fault ticket_fault : Option Error) (u : ProblemValidation) (q r : Problem)
      → (is_some fault ≡ true → has_fault k.env ≡ true)
      → (is_some ticket_fault ≡ true → has_fault k.env ≡ true)
      → u.id ≡ k.ticket.id
      → is_final u.status ≡ true
      → Goes q
      → Goes r
      → Ran
          (has_fault k.env)
          k.ticket
          k.rest
          k.problem
          (rolled_back (at q) (
            committed fault (
              write ticket_fault (save u (k.ticket ∷ k.rest)) >>= λ rows.
              ok (record { problem = r; tickets = rows })))).1
  Ran-committed fault (some e) u q r bad worse i f a b = Ran-same (worse refl) q a
  Ran-committed (some e) none u q r bad worse i f a b = rw (saved_row u i) (Ran-same (bad refl) q a)
  Ran-committed none none u q r bad worse i f a b = rw (saved_row u i) (Ran-closed u r f b)

  -- The store that a run leaves, for `if-cases`.
  abbrev pub Leaves : Result (Unit {0}) × Store → Type 0
  Leaves done = Ran (has_fault k.env) k.ticket k.rest k.problem done.1
