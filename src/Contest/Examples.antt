-- ===== src/Contest/Examples.antt =====
-- The theorems on contests at concrete inputs: a contest of two hours with a freeze of one.
use training_center_back.Prelude.{
  int64, ℕ, ◌<◌, String, true, false, none, some, List, [], ◌∷◌, ◌≡◌, refl, inr, arith, pos, str_eq,
  All,
}
use training_center_back.Apperror.{ok}
use training_center_back.Contest.Settings.{
  individual, TeamSize, ContestProblem, validate_description, validate_freeze_minutes,
}
use training_center_back.Contest.Aggregate.{
  Contest, new_contest, has_problem, add_problem, remove_problem, update,
}
use training_center_back.Contest.Letters.{letter, read_from, IsCapital, read-letter}
use training_center_back.Contest.Schedule.{
  IsWellTimed, end_moved, update-IsWellTimed, update_stale_freeze,
}
use training_center_back.Contest.Problems.{
  IsOrdered, add_problem-IsOrdered, remove_problem-IsOrdered,
}

-- One minute after the zero time, and the start an hour later.
abbrev made_at : ℕ
made_at = 60000000000

abbrev starts_at : ℕ
starts_at = 3660000000000

abbrev ends_at : ℕ
ends_at = 10860000000000

abbrev sizes : TeamSize
sizes = record { min_size = pos 1; max_size = pos 3 }

abbrev contest : Contest
contest = record {
  id = "c1";
  name = "Final";
  description = none;
  start_time = starts_at;
  end_time = ends_at;
  penalty = pos 20;
  freeze_minutes = pos 60;
  enable_post_contest = false;
  locked = false;
  show_team_members = true;
  group_id = "g1";
  owner_id = "u1";
  participation_mode = individual;
  team_size = sizes;
  problems = [];
  created_at = made_at;
  updated_at = none;
}

contest_made :
    new_contest "c1" "Final" none starts_at ends_at
      (pos 20)
      (pos 60)
      false
      true
      "g1"
      "u1"
      individual
      sizes
      made_at
    ≡ ok contest
unfolding new_contest validate_description validate_freeze_minutes int64
contest_made = refl

-- Twenty minutes more.
abbrev later_end : ℕ
later_end = 12060000000000

abbrev prolonged : Contest
prolonged = record contest { end_time = later_end; updated_at = some made_at }

end_updated : update contest (end_moved later_end) made_at ≡ ok prolonged
unfolding update
end_updated = refl

update-IsWellTimed_example :
    IsWellTimed prolonged
    × (false ≡ true → made_at < prolonged.start_time)
    × (true ≡ true → made_at < prolonged.end_time)
update-IsWellTimed_example =
    update-IsWellTimed contest (end_moved later_end) made_at {c' = prolonged}
      (record { ordered = omega arith; freeze = omega arith }) (omega arith) end_updated
      (inr (omega arith))

-- The minutes wrap to a negative duration.
long_freeze_passes : validate_freeze_minutes (pos 200000000) (pos 60000000000) ≡ ok tt
unfolding validate_freeze_minutes int64
long_freeze_passes = refl

-- Half an hour after the start.
abbrev early_end : ℕ
early_end = 5460000000000

update_stale_freeze_example :
    (c' : Contest) × (update contest (end_moved early_end) made_at ≡ ok c') × ¬ IsWellTimed c'
update_stale_freeze_example =
    update_stale_freeze contest 59 early_end made_at refl (omega arith) (omega arith) (omega arith)

abbrev slots : List ContestProblem
slots =
    record { id = "a"; problem_id = "p1"; order = pos 1 }
    ∷ record { id = "b"; problem_id = "p2"; order = pos 2 }
    ∷ []

abbrev filled : Contest
filled = record contest { problems = slots }

filled-IsOrdered : IsOrdered filled
unfolding has_problem
filled-IsOrdered = record { numbered = (refl, (refl, tt)); distinct = (refl, (refl, tt)) }

abbrev extended : Contest
extended = record contest {
  problems =
      record { id = "a"; problem_id = "p1"; order = pos 1 }
      ∷ record { id = "b"; problem_id = "p2"; order = pos 2 }
      ∷ record { id = "c"; problem_id = "p3"; order = pos 3 }
      ∷ [];
  updated_at = some made_at;
}

third_added : add_problem filled "c" "p3" made_at ≡ ok extended
unfolding add_problem has_problem
third_added = refl

add_problem-IsOrdered_example :
    IsOrdered extended
    × (has_problem "p3" extended.problems ≡ true)
    × ((x : String) → has_problem x filled.problems ≡ true → has_problem x extended.problems ≡ true)
    × (add_problem extended "c" "p3" starts_at ≡ ok extended)
add_problem-IsOrdered_example =
    add_problem-IsOrdered filled "c" "p3" made_at starts_at {c' = extended} filled-IsOrdered
      third_added

remove_problem-IsOrdered_example :
    let r = remove_problem filled "p1" made_at in
    IsOrdered r.0
    × (r.1 ≡ has_problem "p1" filled.problems)
    × (has_problem "p1" r.0.problems ≡ false)
    × ((x : String)
        → str_eq x "p1" ≡ false
        → has_problem x r.0.problems ≡ has_problem x filled.problems)
remove_problem-IsOrdered_example = remove_problem-IsOrdered filled "p1" made_at filled-IsOrdered

-- The twenty-eighth slot is labelled AB.
read-letter_example : (read_from 0 (letter 28) ≡ 28) × All IsCapital (letter 28)
read-letter_example = read-letter 28
