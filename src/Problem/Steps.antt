-- ===== src/Problem/Steps.antt =====
-- A stored problem over time: the requests of Problem/Publishing and Problem/Uploads, each at once;
-- the edits of Problem/Editing and Problem/Uploads, whose read with its checks and whose write are
-- two steps; and the two halves of a worker's run. Any step may come between the steps of an edit and
-- between the halves of a run, a sweep too. A ticket is drawn with a key that no row has, by a clock
-- that is past the other tickets.
use training_center_back.Prelude.{
  refl, ℕ, String, true, false, Option, none, some, [], ◌≡◌, ◌∷◌, ◌++◌, List, ◌≤◌,
}
use training_center_back.Apperror.{Error, Result, ok, err}
use training_center_back.Group.Operations.{CurrentUser}
use training_center_back.Problem.Aggregate.{Problem}
use training_center_back.Problem.Tickets.{ProblemValidation, has_row, recover_stale_before}
use training_center_back.Problem.Store.{Store, Lookup}
use training_center_back.Problem.Publishing.{Enqueuing, publish_problem, request_problem_validation}
use training_center_back.Problem.Checks.{Workbench}
use training_center_back.Problem.Worker.{begin, conclude}
use training_center_back.Problem.Editing.{
  Editing, UpdateProblemInput, update_problem, delete_problem_file, unpublish_problem,
  change_accessibility, add_problem_modifier, remove_problem_modifier,
}
use training_center_back.Problem.Files.{Uploading}
use training_center_back.Problem.Uploads.{upload_on_draft, execute_on_published}
use training_center_back.Problem.Aggregate.{is_published}
use training_center_back.Problem.Orderly.{Newest}

-- The edits that end in a save of the problem.
pub data Edit (s : Store) : Result Problem → Type 0 where
  update :
      (env : Editing) (caller : CurrentUser) (raw : String) (i : UpdateProblemInput)
      → Edit s (update_problem env caller raw i s)
  delete_file :
      (env : Editing) (caller : CurrentUser) (raw file_type name : String)
      → Edit s (delete_problem_file env caller raw file_type name s)
  unpublish :
      (env : Editing) (caller : CurrentUser) (raw : String)
      → Edit s (unpublish_problem env caller raw s)
  set_accessibility :
      (env : Editing) (caller : CurrentUser) (raw value : String)
      → Edit s (change_accessibility env caller raw value s)
  add :
      (env : Editing) (caller : CurrentUser) (raw nickname : String)
      → Edit s (add_problem_modifier env caller raw nickname s)
  remove :
      (env : Editing) (caller : CurrentUser) (raw nickname : String)
      → Edit s (remove_problem_modifier env caller raw nickname s)
  upload :
      (env : Uploading) (caller : CurrentUser) (file_type name : String)
      → is_published s.problem ≡ false
      → Edit s (upload_on_draft env caller s.problem file_type name s).outcome

-- An edit that has read the store and passed its checks, and has not written yet.
pub record Writing : Type 0 where
  pub seen : Store
  pub outcome : Result Problem
  pub edit : Edit seen outcome
  pub problem : Problem
  pub worked : outcome ≡ ok problem

-- The store, the ticket that a run holds in memory, and the edits that have not written yet.
pub record World : Type 0 where
  pub store : Store
  pub held : Option ProblemValidation
  pub writings : List Writing

abbrev pub with_problem : Problem → World → World
with_problem q w = record w { store = record w.store { problem = q } }

abbrev pub with_store : Store → World → World
with_store s w = record w { store = s }

-- A ticket with this key and time can be inserted.
pub record Drawn (id : String) (now : ℕ) (w : World) : Type 0 where
  pub fresh : has_row id w.store.tickets ≡ false
  pub newest : Newest now w.store.tickets

abbrev pub taken :
    Result (Option ProblemValidation) → Option ProblemValidation → Option ProblemValidation
taken (err e) held = held
taken (ok none) held = held
taken (ok (some v)) held = some v

pub data Step : World → World → Type 0 where
  publishes :
      (w : World) (env : Lookup) (enq : Enqueuing) (fault : Option Error) (caller : CurrentUser)
      (raw : String)
      → Drawn enq.ticket_id enq.now w
      → Step w (with_store (publish_problem env enq fault caller raw w.store).1 w)
  validates :
      (w : World) (env : Lookup) (enq : Enqueuing) (caller : CurrentUser) (raw : String)
      → Drawn enq.ticket_id enq.now w
      → Step w (with_store (request_problem_validation env enq caller raw w.store).1 w)
  stages :
      (w : World) (env : Uploading) (caller : CurrentUser) (file_type name confirm : String)
      → Drawn env.validation_id env.edit.now w
      → is_published w.store.problem ≡ true
      → Step w (
          with_store
            (execute_on_published env caller w.store.problem file_type name confirm w.store).store
            w)
  reads :
      (w : World) (q : Problem) (r : Result Problem) (e : Edit w.store r) (h : r ≡ ok q)
      → Step w (record w {
        writings =
            record { seen = w.store; outcome = r; edit = e; problem = q; worked = h } ∷ w.writings;
      })
  writes :
      (w : World) (before : List Writing) (x : Writing) (after : List Writing)
      → w.writings ≡ before ++ x ∷ after
      → Step w (with_problem x.problem (record w { writings = before ++ after }))
  begins :
      (w : World) (env : Workbench) (id : String)
      → Step w (record w {
        store = (begin env id w.store).1;
        held = taken (begin env id w.store).0 w.held;
      })
  concludes :
      (w : World) (env : Workbench) (slug : String) (v : ProblemValidation)
      → w.held ≡ some v
      → Step w (record w { store = (conclude env slug v w.store).1; held = none })
  dies : (w : World) → Step w (record w { held = none })
  sweeps :
      (w : World) (cutoff now : ℕ)
      → Step w (
          with_store
            (record w.store { tickets = recover_stale_before cutoff now w.store.tickets })
            w)

pub data Reach (w : World) : World → Type 0 where
  here : Reach w w
  next : {v u : World} → Reach w v → Step v u → Reach w u

-- A sweep spares the ticket that a run holds.
unfoldable pub Spares : ℕ → Option ProblemValidation → Type 0
Spares cutoff none = Unit
Spares cutoff (some v) = cutoff ≤ v.requested_at

-- An edit writes on the store that it read, and a sweep takes no ticket that a run holds.
unfoldable pub IsCalm : {v w : World} → Step v w → Type 0
IsCalm (writes w before x after e) = x.seen ≡ w.store
IsCalm (sweeps w cutoff now) = Spares cutoff w.held
IsCalm _ = Unit

unfoldable pub IsAllCalm : {v w : World} → Reach v w → Type 0
IsAllCalm here = Unit
IsAllCalm (next r s) = IsAllCalm r × IsCalm s

-- A problem that has just been created.
abbrev pub created : Problem → World
created p = record { store = record { problem = p; tickets = [] }; held = none; writings = [] }

abbrev pub CalmReach : World → World → Type 0
CalmReach v w = (run : Reach v w) × IsAllCalm run

-- An edit that nothing interrupts.
pub edited :
    {v w : World}
    → CalmReach v w
    → (q : Problem) (r : Result Problem) → Edit w.store r
    → r ≡ ok q
    → CalmReach v (with_problem q w)
unfolding IsAllCalm IsCalm
edited {w = w} (run, calm) q r e h = (
  next (next run (reads w q r e h))
      (writes (record w { writings = writing ∷ w.writings }) [] writing w.writings refl),
  ((calm, tt), refl),
)
  where
    writing : Writing
    writing = record { seen = w.store; outcome = r; edit = e; problem = q; worked = h }
