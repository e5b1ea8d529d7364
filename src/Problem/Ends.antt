-- ===== src/Problem/Ends.antt =====
-- Every run of a ticket ends it.
use training_center_back.Prelude.{ℕ, ◌<◌, String, true, false, none, ◌≡◌, arith, lt→ltb}
use training_center_back.Apperror.{ok}
use training_center_back.Problem.Tickets.{
  ProblemValidation, pending, find_by_id, recover_stale_before,
}
use training_center_back.Problem.Store.{Store}
use training_center_back.Problem.Checks.{Workbench}
use training_center_back.Problem.Worker.{execute, continue}
use training_center_back.Problem.Orderly.{Orderly}
use training_center_back.Problem.Opens.{ended}
use training_center_back.Problem.Closings.{Ran, has_fault}
use training_center_back.Problem.Runs.{conclude-Ran}
use training_center_back.Problem.Begins.{Started, begin-Started}

module _ (env : Workbench) (id slug : String) (s : Store) (v : ProblemValidation)
    (orderly : Orderly s.tickets) (found : find_by_id id s.tickets ≡ ok v)
    (waits : v.status ≡ pending) (saves : env.start_fault ≡ none) where
  held : Started v env id s
  held = begin-Started env id s v orderly found waits saves

  ran : Ran (has_fault env) held.ticket held.rest s.problem (execute env id slug s).1
  unfolding execute continue
  ran = rw held.taken_up (
      conclude-Ran
        (record {
          env = env;
          ticket = held.ticket;
          rest = held.rest;
          orderly = held.orderly;
          running_now = held.runs;
          problem = s.problem;
        })
        slug)

  -- In an orderly table, a run of a pending ticket none of whose writes fails leaves no ticket
  -- pending or running, whatever the judge answers, errors included.
  pub execute-ended : has_fault env ≡ false → ended (execute env id slug s).1.tickets ≡ true
  execute-ended good = rw ran.tickets (ground (arith, good, ran.status))

  -- If writes fail after the start, the sweep that comes once the ticket is older than the cutoff
  -- leaves no ticket pending or running.
  pub execute-swept :
      (cutoff now : ℕ)
      → v.requested_at < cutoff
      → ended (recover_stale_before cutoff now (execute env id slug s).1.tickets) ≡ true
  unfolding recover_stale_before
  execute-swept cutoff now late =
      rw ran.tickets
        (ground (arith, ran.status, ran.same_at, held.same_at, lt→ltb v.requested_at cutoff late))
