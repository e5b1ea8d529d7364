-- ===== src/Standings/Examples.antt =====
-- The theorems on standings at a concrete contest: one team and two individuals.
use mathlib.Core.List.{Perm}
use training_center_back.Prelude.{suc, String, none, some, List, [], ◌∷◌, map, ◌≡◌, refl, All, pos}
use training_center_back.Contest.Settings.{ContestProblem}
use training_center_back.Standings.Ranking.{individual, team, ParticipantStanding, rank_standings}
use training_center_back.Standings.Rebuild.{ContestSubmissionData, lookup, attribute, tally}
use training_center_back.Standings.Sorting.{better, IsSorted}
use training_center_back.Standings.Table.{rank_standings-ranks}
use training_center_back.Standings.Tally.{counts_for, select, cell, wrong_before, first_accepted}
use training_center_back.Standings.Attribution.{
  contestant_of, attribute-contestant_of, rebuilt_cell,
}

abbrev problems : List ContestProblem
problems =
    record { id = "a"; problem_id = "p1"; order = pos 1 }
    ∷ record { id = "b"; problem_id = "p2"; order = pos 2 }
    ∷ []

abbrev teams : List (String × List String)
teams = ("t1", "u1" ∷ "u2" ∷ []) ∷ []

abbrev registered : List String
registered = "u2" ∷ "u3" ∷ "u4" ∷ []

-- An hour is 3600000000000 nanoseconds, and the contest ends after two.
abbrev subs : List ContestSubmissionData
subs =
    record {
      user_id = "u1";
      problem_id = "p1";
      status = "WRONG_ANSWER";
      submitted_at = 600000000000;
    }
    ∷ record {
      user_id = "u2";
      problem_id = "p1";
      status = "ACCEPTED";
      submitted_at = 1200000000000;
    }
    ∷ record {
      user_id = "u3";
      problem_id = "p1";
      status = "COMPILATION_ERROR";
      submitted_at = 1300000000000;
    }
    ∷ record {
      user_id = "u1";
      problem_id = "p1";
      status = "ACCEPTED";
      submitted_at = 1400000000000;
    }
    ∷ record {
      user_id = "u4";
      problem_id = "p2";
      status = "ACCEPTED";
      submitted_at = 7300000000000;
    }
    ∷ []

abbrev rows : List ParticipantStanding
rows =
    record {
      contestant_id = "t1";
      participant_type = team;
      problems =
          (
            "p1",
            record { wrong_attempt_times = 600000000000 ∷ []; accepted_at = some 1200000000000 },
          )
          ∷ [];
    }
    ∷ record { contestant_id = "u3"; participant_type = individual; problems = [] }
    ∷ record { contestant_id = "u4"; participant_type = individual; problems = [] }
    ∷ []

rank_standings-ranks_example :
    let table = rank_standings rows 0 (pos 20) none in
    All (λ e. e.rank ≡ suc (better e table)) table
    × IsSorted table
    × Perm (map (λ e. e.contestant_id) table) (map (λ p. p.contestant_id) rows)
rank_standings-ranks_example = rank_standings-ranks rows 0 (pos 20) none

attribute-contestant_of_example :
    lookup "u2" (attribute teams registered).user_to_contestant
    ≡ contestant_of "u2" teams registered
attribute-contestant_of_example = attribute-contestant_of "u2" teams registered

rebuilt_cell_example :
    let t = attribute teams registered in
    let official = select (counts_for 7200000000000 problems t.user_to_contestant "t1" "p1") subs in
    cell "t1" "p1" (tally 7200000000000 problems t.user_to_contestant subs t.standings)
    ≡ record { wrong_attempt_times = wrong_before official; accepted_at = first_accepted official }
rebuilt_cell_example = rebuilt_cell 7200000000000 problems teams registered subs "u1" "t1" "p1" refl
