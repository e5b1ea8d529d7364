-- ===== src/Contest/Aggregate.antt =====
-- internal/domain/contest/contest.go. A method that mutates the receiver returns the new record;
-- instants are nanoseconds since the zero time, and `UTC` keeps an instant.
use training_center_back.Prelude.{
  ℕ, suc, ◌+◌, String, Bool, true, false, Option, none, some, List, [], ◌∷◌, ◌++◌, ltb, str_eq,
  if◌then◌else◌, ◌||◌, ◌&&◌, ℤ, pos, sub_ℕ, quot, not, length, is_some,
}
use training_center_back.Apperror.{Result, ok, err, internal, bad_request, fail_if, ◌>>◌}
use training_center_back.Contest.Settings.{
  Status, scheduled, active, finished, ParticipationMode, TeamSize, ContestProblem, minute,
  validate_description, validate_freeze_minutes,
}

pub record Contest : Type 0 where
  pub id : String
  pub name : String
  pub description : Option String
  pub start_time : ℕ
  pub end_time : ℕ
  pub penalty : ℤ
  pub freeze_minutes : ℤ
  pub enable_post_contest : Bool
  pub locked : Bool
  pub show_team_members : Bool
  pub group_id : String
  pub owner_id : String
  pub participation_mode : ParticipationMode
  pub team_size : TeamSize
  pub problems : List ContestProblem
  pub created_at : ℕ
  pub updated_at : Option ℕ

unfoldable pub new_contest :
    (id name : String) (description : Option String) (start_time end_time : ℕ)
    (penalty freeze_minutes : ℤ) (enable_post_contest show_team_members : Bool)
    (group_id owner_id : String) (mode : ParticipationMode) (team_size : TeamSize) (now : ℕ)
    → Result Contest
new_contest id name description start_time end_time penalty freeze post show group owner mode size
      now =
    do
      fail_if (str_eq id "") internal
      validate_description description
      fail_if (not (ltb now start_time)) (bad_request "START_TIME_IN_PAST")
      fail_if (not (ltb start_time end_time)) (bad_request "INVALID_TIME_RANGE")
      validate_freeze_minutes freeze (sub_ℕ end_time start_time)
      ok (record {
        id = id;
        name = name;
        description = description;
        start_time = start_time;
        end_time = end_time;
        penalty = penalty;
        freeze_minutes = freeze;
        enable_post_contest = post;
        locked = false;
        show_team_members = show;
        group_id = group;
        owner_id = owner;
        participation_mode = mode;
        team_size = size;
        problems = [];
        created_at = now;
        updated_at = none;
      })

unfoldable pub status : Contest → ℕ → Status
status c now =
    if ltb now c.start_time
    then scheduled
    else if not (ltb now c.end_time)
    then finished
    else active

-- In whole minutes.
unfoldable pub duration : Contest → ℤ
duration c = quot (sub_ℕ c.end_time c.start_time) minute

unfoldable pub has_problem : String → List ContestProblem → Bool
has_problem problem_id [] = false
has_problem problem_id (p ∷ ps) = str_eq p.problem_id problem_id || has_problem problem_id ps

unfoldable pub add_problem : Contest → String → String → ℕ → Result Contest
add_problem c id problem_id now =
    if str_eq id "" || str_eq problem_id ""
    then err internal
    else if has_problem problem_id c.problems
    then ok c
    else ok (record c {
      problems =
          c.problems
          ++ record { id = id; problem_id = problem_id; order = pos (length c.problems + 1) } ∷ [];
      updated_at = some now;
    })

-- The slice without the first problem of that id.
unfoldable pub without : String → List ContestProblem → List ContestProblem
without problem_id [] = []
without problem_id (p ∷ ps) =
    if str_eq p.problem_id problem_id then ps else p ∷ without problem_id ps

-- `for i := range c.problems { c.problems[i].order = i + 1 }`, from index `i` on.
unfoldable pub renumber : ℕ → List ContestProblem → List ContestProblem
renumber i [] = []
renumber i (p ∷ ps) = record p { order = pos (i + 1) } ∷ renumber (suc i) ps

unfoldable pub remove_problem : Contest → String → ℕ → Contest × Bool
remove_problem c problem_id now = if not (has_problem problem_id c.problems) then (c, false) else (
  record c { problems = renumber 0 (without problem_id c.problems); updated_at = some now },
  true,
)

-- The optional arguments of `Update`: `none` means no change, and a description of `some none`
-- clears it.
pub record Changes : Type 0 where
  pub name : Option String
  pub description : Option (Option String)
  pub start_time : Option ℕ
  pub end_time : Option ℕ
  pub penalty : Option ℤ
  pub freeze_minutes : Option ℤ
  pub enable_post_contest : Option Bool

abbrev pub or_else {ℓ} : {A : Type ℓ} → Option A → A → A
or_else none a = a
or_else (some b) a = b

abbrev in_past : Option ℕ → ℕ → Bool
in_past none now = false
in_past (some t) now = not (ltb now t)

abbrev pub check_freeze : Option ℤ → ℤ → Result (Unit {0})
check_freeze none duration = ok tt
check_freeze (some v) duration = validate_freeze_minutes v duration

abbrev check_description : Option (Option String) → Result (Unit {0})
check_description none = ok tt
check_description (some d) = validate_description d

unfoldable pub update : Contest → Changes → ℕ → Result Contest
update c ch now =
    let eff_start = or_else ch.start_time c.start_time in
    let eff_end = or_else ch.end_time c.end_time in
    fail_if (in_past ch.start_time now) (bad_request "START_TIME_IN_PAST")
    >> fail_if (in_past ch.end_time now) (bad_request "END_TIME_IN_PAST")
    >> fail_if ((is_some ch.start_time || is_some ch.end_time) && not (ltb eff_start eff_end))
        (bad_request "INVALID_TIME_RANGE")
    >> check_freeze ch.freeze_minutes (sub_ℕ eff_end eff_start)
    >> check_description ch.description
    >> ok (record c {
      name = or_else ch.name c.name;
      description = or_else ch.description c.description;
      start_time = eff_start;
      end_time = eff_end;
      penalty = or_else ch.penalty c.penalty;
      freeze_minutes = or_else ch.freeze_minutes c.freeze_minutes;
      enable_post_contest = or_else ch.enable_post_contest c.enable_post_contest;
      updated_at = some now;
    })

unfoldable pub set_participation_mode : Contest → ParticipationMode → ℕ → Contest
set_participation_mode c mode now = record c { participation_mode = mode; updated_at = some now }

unfoldable pub set_team_size : Contest → TeamSize → ℕ → Contest
set_team_size c size now = record c { team_size = size; updated_at = some now }

unfoldable pub set_locked : Contest → Bool → ℕ → Contest
set_locked c locked now = record c { locked = locked; updated_at = some now }

unfoldable pub set_show_team_members : Contest → Bool → ℕ → Contest
set_show_team_members c show now = record c { show_team_members = show; updated_at = some now }

unfoldable pub set_problems : Contest → List ContestProblem → ℕ → Contest
set_problems c problems now = record c { problems = problems; updated_at = some now }
