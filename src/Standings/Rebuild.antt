-- ===== src/Standings/Rebuild.antt =====
-- internal/application/contest/get_standings.go, `rebuild`: from the registrations, the selected
-- team members and the stored submissions to one standing per contestant. A map is an association
-- list; the teams come in the order in which the source's loop meets them.
use training_center_back.Prelude.{
  ℕ, String, Bool, false, Option, none, some, List, [], ◌∷◌, ◌++◌, str_eq, ltb, if◌then◌else◌, ◌||◌,
  not, is_some,
}
use training_center_back.Contest.Settings.{ContestProblem}
use training_center_back.Contest.Aggregate.{has_problem}
use training_center_back.Standings.Ranking.{
  ProblemAttempt, ParticipantType, individual, team, ParticipantStanding,
}

pub record ContestSubmissionData : Type 0 where
  pub user_id : String
  pub problem_id : String
  pub status : String
  pub submitted_at : ℕ

module _ {ℓ} {V : Type ℓ} where
  abbrev pub lookup : String → List (String × V) → Option V
  lookup k [] = none
  lookup k ((j, v) ∷ m) = if str_eq j k then some v else lookup k m

  unfoldable pub insert : String → V → List (String × V) → List (String × V)
  insert k v [] = (k, v) ∷ []
  insert k v ((j, w) ∷ m) = if str_eq j k then (j, v) ∷ m else (j, w) ∷ insert k v m

-- The zero value of a missing key.
abbrev pub no_attempt : ProblemAttempt
no_attempt = record { wrong_attempt_times = []; accepted_at = none }

abbrev pub attempt_in : Option ProblemAttempt → ProblemAttempt
attempt_in none = no_attempt
attempt_in (some a) = a

abbrev pub Standings : Type 0
Standings = List (String × ParticipantStanding)

-- The maps `userToContestant` and `standings`.
pub record Table : Type 0 where
  pub user_to_contestant : List (String × String)
  pub standings : Standings

abbrev pub fresh_standing : String → ParticipantType → ParticipantStanding
fresh_standing id type = record { contestant_id = id; participant_type = type; problems = [] }

unfoldable pub add_members : String → List String → List (String × String) → List (String × String)
add_members team_id [] m = m
add_members team_id (u ∷ us) m = add_members team_id us (insert u team_id m)

unfoldable pub add_teams : List (String × List String) → Table → Table
add_teams [] t = t
add_teams ((team_id, members) ∷ teams) t = add_teams teams (record {
  user_to_contestant = add_members team_id members t.user_to_contestant;
  standings = insert team_id (fresh_standing team_id team) t.standings;
})

-- A registered user who is a selected team member counts for the team only.
unfoldable pub add_registration : String → Table → Table
add_registration user_id t = if is_some (lookup user_id t.user_to_contestant) then t else record {
  user_to_contestant = insert user_id user_id t.user_to_contestant;
  standings = insert user_id (fresh_standing user_id individual) t.standings;
}

unfoldable pub add_registrations : List String → Table → Table
add_registrations [] t = t
add_registrations (u ∷ us) t = add_registrations us (add_registration u t)

abbrev pub is_accepted : String → Bool
is_accepted status = str_eq status "ACCEPTED"

unfoldable pub is_wrong : String → Bool
is_wrong status =
    str_eq status "WRONG_ANSWER"
    || str_eq status "TIME_LIMIT_EXCEEDED"
    || str_eq status "MEMORY_LIMIT_EXCEEDED"
    || str_eq status "OUTPUT_LIMIT_EXCEEDED"
    || str_eq status "RUNTIME_ERROR"

-- What a submission does to the attempt that it belongs to.
unfoldable pub record_submission : ProblemAttempt → ContestSubmissionData → ProblemAttempt
record_submission a sub =
    if is_some a.accepted_at
    then a
    else if is_accepted sub.status
    then record a { accepted_at = some sub.submitted_at }
    else if is_wrong sub.status
    then record a { wrong_attempt_times = a.wrong_attempt_times ++ sub.submitted_at ∷ [] }
    else a

-- Whether the switch has a case for the status: only then is the attempt stored.
abbrev pub stores : ProblemAttempt → String → Bool
stores a status = if is_some a.accepted_at then false else is_accepted status || is_wrong status

abbrev pub set_attempt : String → ProblemAttempt → ParticipantStanding → ParticipantStanding
set_attempt problem_id a p = record p { problems = insert problem_id a p.problems }

unfoldable pub score : ContestSubmissionData → ParticipantStanding → ParticipantStanding
score sub p =
    let a = attempt_in (lookup sub.problem_id p.problems) in
    if stores a sub.status then set_attempt sub.problem_id (record_submission a sub) p else p

unfoldable pub modify : String → (ParticipantStanding → ParticipantStanding) → Standings → Standings
modify id f [] = []
modify id f ((j, p) ∷ m) = if str_eq j id then (j, f p) ∷ m else (j, p) ∷ modify id f m

-- The body of the loop over the submissions: late ones, those of problems that the contest does not
-- have and those of users who are no contestants are skipped.
unfoldable pub tally_one :
    ℕ → List ContestProblem → List (String × String) → ContestSubmissionData → Standings → Standings
tally_one end_time problems users sub standings =
    if ltb end_time sub.submitted_at
    then standings
    else if not (has_problem sub.problem_id problems)
    then standings
    else elim (lookup sub.user_id users) [
      | none ↦ standings
      | some contestant_id ↦ modify contestant_id (score sub) standings
    ]

unfoldable pub tally :
    ℕ
    → List ContestProblem
    → List (String × String)
    → List ContestSubmissionData
    → Standings
    → Standings
tally end_time problems users [] standings = standings
tally end_time problems users (sub ∷ subs) standings =
    tally end_time problems users subs (tally_one end_time problems users sub standings)

abbrev pub no_table : Table
no_table = record { user_to_contestant = []; standings = [] }

unfoldable pub attribute : List (String × List String) → List String → Table
attribute teams registered = add_registrations registered (add_teams teams no_table)

unfoldable pub participants : Standings → List ParticipantStanding
participants [] = []
participants ((id, p) ∷ m) = p ∷ participants m

unfoldable pub rebuild :
    ℕ
    → List ContestProblem
    → List (String × List String)
    → List String
    → List ContestSubmissionData
    → List ParticipantStanding
rebuild end_time problems teams registered subs =
    let t = attribute teams registered in
    participants (tally end_time problems t.user_to_contestant subs t.standings)
