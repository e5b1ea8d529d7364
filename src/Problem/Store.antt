-- ===== src/Problem/Store.antt =====
-- What the use cases on one problem read and write: its row, and its tickets of validation. Here is
-- also internal/domain/problem/slug.go with the lookup of the problem that each use case begins
-- with, internal/adapter/problem/problem_publisher.go, and validation_guard.go of
-- internal/application/problem.
use Prim.Native.String.{len}
use training_center_back.Prelude.{
  ℕ, String, Bool, true, false, Option, none, some, List, [], ◌∷◌, ltb, ◌==◌, str_eq, not, ◌&&◌,
  if◌then◌else◌,
}
use training_center_back.Apperror.{
  Error, Result, ok, err, validation, not_found, forbidden, conflict, fail_if, ◌>>=◌, ◌>>◌,
}
use training_center_back.Group.Operations.{CurrentUser, query}
use training_center_back.Problem.Aggregate.{Problem, published, is_published, can_be_edited_by}
use training_center_back.Problem.Tickets.{ProblemValidation, find_latest, is_final}

pub record Store : Type 0 where
  pub problem : Problem
  pub tickets : List ProblemValidation

-- The library's regular expression for slugs, and the query that finds a problem by one.
pub record Lookup : Type 0 where
  pub matches_slug : String → Bool
  pub find_fault : Option Error
  pub latest_fault : Option Error

unfoldable pub new_slug : (String → Bool) → String → Result String
new_slug matches_slug value =
    if str_eq value ""
    then err (validation ("slug" ∷ []))
    else if ltb (len value) 3
    then err (validation ("slug" ∷ []))
    else if ltb 70 (len value)
    then err (validation ("slug" ∷ []))
    else if matches_slug value
    then ok value
    else err (validation ("slug" ∷ []))

unfoldable pub find_by_slug : Lookup → String → Store → Result Problem
find_by_slug env slug s =
    query env.find_fault tt
    >> (if str_eq s.problem.slug slug then ok s.problem else err (not_found "PROBLEM_NOT_FOUND"))

-- `NewSlug`, then `FindBySlug`.
unfoldable pub locate : Lookup → String → Store → Result Problem
locate env raw s = new_slug env.matches_slug raw >>= λ slug. find_by_slug env slug s

unfoldable pub require_editor : CurrentUser → Problem → Result (Unit {0})
require_editor caller p =
    fail_if (not (can_be_edited_by caller.id caller.is_admin p))
      (forbidden "INSUFFICIENT_PERMISSIONS")

abbrev pub in_flight : Option ProblemValidation → Bool
in_flight none = false
in_flight (some v) = not (is_final v.status)

unfoldable pub ensure_no_active_validation : Lookup → Store → Result (Unit {0})
ensure_no_active_validation env s = query env.latest_fault (find_latest s.tickets) >>= λ existing.
    fail_if (in_flight existing) (conflict "VALIDATION_IN_PROGRESS")

-- `UPDATE problems SET status = 'PUBLISHED'`.
unfoldable pub mark_published : ℕ → Problem → Problem
mark_published now p = record p { status = published; updated_at = now }

-- The rows affected, as a flag, and the row that the update leaves.
unfoldable pub mark_published_if_unchanged : ℕ → ℕ → Problem → Bool × Problem
mark_published_if_unchanged unchanged_since now p =
    if not (is_published p) && (p.updated_at == unchanged_since)
    then (true, mark_published now p)
    else (false, p)
