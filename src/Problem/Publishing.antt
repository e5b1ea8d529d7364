-- ===== src/Problem/Publishing.antt =====
-- internal/application/problem/publish_problem.go and request_problem_validation.go: asking for a
-- problem to be published, or only validated. A request answers, and leaves a store, also when it
-- fails.
use training_center_back.Prelude.{
  ℕ, String, Bool, true, false, Option, none, some, List, [], ◌∷◌, ◌++◌, ltb, str_eq, not, ◌&&◌,
  if◌then◌else◌,
}
use training_center_back.Apperror.{Error, Result, ok, err, conflict, fail_if, ◌>>=◌, ◌>>◌}
use training_center_back.Group.Operations.{CurrentUser, query, write}
use training_center_back.Problem.Aggregate.{Problem, is_published}
use training_center_back.Problem.Tickets.{
  ProblemValidation, is_final, is_passed, is_judging_update, new_problem_validation,
  new_check_only_validation, save, find_latest,
}
use training_center_back.Problem.Store.{
  Store, Lookup, locate, require_editor, mark_published_if_unchanged,
}

-- The identifier that is drawn for a ticket, the clock, and which calls fail.
pub record Enqueuing : Type 0 where
  pub ticket_id : String
  pub now : ℕ
  pub save_fault : Option Error
  pub find_again_fault : Option Error
  pub queue_fault : Option Error

pub record PublishOutput : Type 0 where
  pub slug : String
  pub missing_fields : List String
  pub validation_id : String

abbrev pub absent {ℓ} : {A : Type ℓ} → String → Option A → List String
absent field none = field ∷ []
absent field (some _) = []

abbrev pub absent_all {ℓ} : {A : Type ℓ} → String → List A → List String
absent_all field [] = field ∷ []
absent_all field (_ ∷ _) = []

unfoldable pub required_fields_for_publish : Problem → List String
required_fields_for_publish p =
    absent "statement" p.statement
    ++ absent "timeLimit" p.time_limit
    ++ absent "memoryLimit" p.memory_limit
    ++ absent "testCases" p.test_cases_key
    ++ absent_all "solution" p.solutions

unfoldable pub is_validation_in_progress : Error → Bool
is_validation_in_progress (conflict code) = str_eq code "VALIDATION_IN_PROGRESS"
is_validation_in_progress _ = false

abbrev pub problem_validation_in_progress : Error
problem_validation_in_progress = conflict "VALIDATION_IN_PROGRESS"

abbrev pub new_ticket : Bool → String → String → String → ℕ → Result ProblemValidation
new_ticket true = new_problem_validation
new_ticket false = new_check_only_validation

-- The ticket of another request that holds the problem, if it can be found; if not, the error.
unfoldable pub join_existing :
    Bool → Error → Option Error → Option ProblemValidation → Result String
join_existing publish_on_pass refusal (some _) existing = err refusal
join_existing publish_on_pass refusal none none = err refusal
join_existing publish_on_pass refusal none (some v) =
    if publish_on_pass && not v.publish_on_pass then err problem_validation_in_progress else ok v.id

-- What `queue.Publish` makes of a ticket that is saved.
abbrev pub queued : Option Error → String → Result String
queued none id = ok id
queued (some e) id = err e

-- The write of the ticket on, with the answer of `Save`.
unfoldable pub enqueue_saved :
    Enqueuing
    → Bool
    → ProblemValidation
    → List ProblemValidation
    → Result (List ProblemValidation)
    → Result String × List ProblemValidation
enqueue_saved env publish_on_pass v rows (ok saved) = (queued env.queue_fault v.id, saved)
enqueue_saved env publish_on_pass v rows (err e) =
    if is_validation_in_progress e
    then (join_existing publish_on_pass e env.find_again_fault (find_latest rows), rows)
    else (err e, rows)

unfoldable pub enqueue_validation :
    Enqueuing
    → Bool
    → CurrentUser
    → Problem
    → List ProblemValidation
    → Result String × List ProblemValidation
enqueue_validation env publish_on_pass caller p rows =
    elim (new_ticket publish_on_pass env.ticket_id p.id caller.id env.now) [
      | err e ↦ (err e, rows)
      | ok v ↦ enqueue_saved env publish_on_pass v rows (write env.save_fault (save v rows))
    ]

-- The checks that publishing and validating begin with.
unfoldable pub check_draft : Lookup → CurrentUser → String → Store → Result Problem
check_draft env caller raw s = locate env raw s >>= λ p.
    require_editor caller p >> fail_if (is_published p) (conflict "ALREADY_PUBLISHED") >> ok p

abbrev pub answer : Problem → Result String → Result PublishOutput
answer p (err e) = err e
answer p (ok id) = ok (record { slug = p.slug; missing_fields = []; validation_id = id })

abbrev pub incomplete : Problem → List String → PublishOutput
incomplete p missing = record { slug = p.slug; missing_fields = missing; validation_id = "" }

unfoldable pub enqueue_for :
    Enqueuing → Bool → CurrentUser → Problem → Store → Result PublishOutput × Store
enqueue_for env publish_on_pass caller p s =
    let done = enqueue_validation env publish_on_pass caller p s.tickets in
    (answer p done.0, record s { tickets = done.1 })

-- Whether the last validation is of the draft as it is.
unfoldable pub still_valid : Problem → ProblemValidation → Bool
still_valid p v =
    is_passed v.status && not (is_judging_update v) && not (ltb v.requested_at p.updated_at)

-- `MarkPublishedIfUnchanged` with what follows it.
unfoldable pub publish_validated :
    Enqueuing
    → Option Error
    → CurrentUser
    → Problem
    → ProblemValidation
    → Store
    → Result PublishOutput × Store
publish_validated env (some e) caller p v s = (err e, s)
publish_validated env none caller p v s =
    let done = mark_published_if_unchanged p.updated_at env.now s.problem in
    if done.0
    then (answer p (ok v.id), record s { problem = done.1 })
    else enqueue_for env true caller p s

-- The switch on the latest ticket.
unfoldable pub publish_after :
    Enqueuing
    → Option Error
    → CurrentUser
    → Problem
    → Option ProblemValidation
    → Store
    → Result PublishOutput × Store
publish_after env publish_fault caller p none s = enqueue_for env true caller p s
publish_after env publish_fault caller p (some v) s =
    if not (is_final v.status) && v.publish_on_pass
    then (answer p (ok v.id), s)
    else if not (is_final v.status)
    then (err problem_validation_in_progress, s)
    else if still_valid p v
    then publish_validated env publish_fault caller p v s
    else enqueue_for env true caller p s

-- From the list of missing fields on.
unfoldable pub publish_complete :
    Lookup
    → Enqueuing
    → Option Error
    → CurrentUser
    → Problem
    → List String
    → Store
    → Result PublishOutput × Store
publish_complete env enq publish_fault caller p (m ∷ ms) s = (ok (incomplete p (m ∷ ms)), s)
publish_complete env enq publish_fault caller p [] s =
    elim (query env.latest_fault (find_latest s.tickets)) [
      | err e ↦ (err e, s)
      | ok latest ↦ publish_after enq publish_fault caller p latest s
    ]

-- `publish_fault` is the error of `MarkPublishedIfUnchanged`.
unfoldable pub publish_problem :
    Lookup → Enqueuing → Option Error → CurrentUser → String → Store → Result PublishOutput × Store
publish_problem env enq publish_fault caller raw s = elim (check_draft env caller raw s) [
  | err e ↦ (err e, s)
  | ok p ↦ publish_complete env enq publish_fault caller p (required_fields_for_publish p) s
]

unfoldable pub request_after :
    Enqueuing
    → CurrentUser
    → Problem
    → Option ProblemValidation
    → Store
    → Result PublishOutput × Store
request_after enq caller p none s = enqueue_for enq false caller p s
request_after enq caller p (some v) s =
    if is_final v.status then enqueue_for enq false caller p s else (answer p (ok v.id), s)

unfoldable pub request_complete :
    Lookup → Enqueuing → CurrentUser → Problem → List String → Store → Result PublishOutput × Store
request_complete env enq caller p (m ∷ ms) s = (ok (incomplete p (m ∷ ms)), s)
request_complete env enq caller p [] s = elim (query env.latest_fault (find_latest s.tickets)) [
  | err e ↦ (err e, s)
  | ok latest ↦ request_after enq caller p latest s
]

unfoldable pub request_problem_validation :
    Lookup → Enqueuing → CurrentUser → String → Store → Result PublishOutput × Store
request_problem_validation env enq caller raw s = elim (check_draft env caller raw s) [
  | err e ↦ (err e, s)
  | ok p ↦ request_complete env enq caller p (required_fields_for_publish p) s
]
