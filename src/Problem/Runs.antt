-- ===== src/Problem/Runs.antt =====
-- What a worker's run of a ticket leaves in the store, on every path through Problem/Worker.
use training_center_back.Prelude.{String, Option, none, some, ◌∷◌}
use training_center_back.Problem.Tickets.{PendingJudgingChange}
use training_center_back.Problem.Worker.{run, conclude, judging_candidate_of}
use training_center_back.Problem.Completeness.{Advances-refl}
use training_center_back.Problem.Closings.{Held, Leaves, Ran, at, has_fault}
use training_center_back.Problem.Validating.{Ran-prepared}
use training_center_back.Problem.Updating.{Ran-update_prepared}

module _ (k : Held) where
  Ran-run :
      (slug : String) (change : Option PendingJudgingChange)
      → Leaves k (run k.env slug k.ticket change (at k k.problem))
  unfolding run
  Ran-run slug none =
      Ran-prepared k (k.env.prepare none) k.problem
        (Advances-refl k.ticket.publish_on_pass k.problem)
  Ran-run slug (some change) =
      Ran-update_prepared k change slug
        (k.env.prepare (some (judging_candidate_of change slug k.ticket.id))) k.problem
        (Advances-refl k.ticket.publish_on_pass k.problem)

  pub conclude-Ran :
      (slug : String)
      → Ran
          (has_fault k.env)
          k.ticket
          k.rest
          k.problem
          (conclude k.env slug k.ticket
            (record { problem = k.problem; tickets = k.ticket ∷ k.rest })).1
  unfolding conclude
  conclude-Ran slug = Ran-run slug k.ticket.pending_change
