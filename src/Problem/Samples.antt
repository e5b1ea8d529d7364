-- ===== src/Problem/Samples.antt =====
-- A problem, its author and a bench for the witnesses of Problem/Examples.
use training_center_back.Prelude.{true, false, none, some, [], ◌∷◌, ◌≡◌, refl, pos}
use training_center_back.Apperror.{ok}
use training_center_back.Group.Operations.{CurrentUser}
use training_center_back.Judge.Solutions.{ValidateSolutionsOutput}
use training_center_back.Judge.Preparation.{PrepareJudgingOutput}
use training_center_back.Problem.Aggregate.{Problem, JudgingFile, draft, private, new_problem}
use training_center_back.Problem.Tickets.{ProblemValidation, pending, running}
use training_center_back.Problem.Store.{Lookup}
use training_center_back.Problem.Publishing.{Enqueuing}
use training_center_back.Problem.Checks.{Workbench}
use training_center_back.Problem.Editing.{Editing}
use training_center_back.Problem.Files.{Uploading}

abbrev pub new : Problem
new = record {
  id = "p1";
  slug = "two-sum";
  title = "Two sum";
  statement = some "Add two numbers.";
  time_limit = some 1000;
  memory_limit = some 256;
  lang_overrides = [];
  tags = [];
  status = draft;
  accessibility = private;
  author_id = "u1";
  modifier_ids = "u1" ∷ [];
  test_cases_key = none;
  solutions = [];
  checker = none;
  validator = none;
  judging_updated_at = none;
  created_at = 10;
  updated_at = 10;
}

pub new-made :
    new_problem "p1" "two-sum" "Two sum"
      (some "Add two numbers.")
      (some 1000)
      (some 256)
      []
      []
      "u1"
      10
    ≡ ok new
unfolding new_problem
new-made = refl

abbrev pub author : CurrentUser
author = record { id = "u1"; is_admin = false }

abbrev pub lookup : Lookup
lookup = record { matches_slug = λ s. true; find_fault = none; latest_fault = none }

abbrev pub editing : Editing
editing = record {
  lookup = lookup;
  texts = record { trim_space = λ t. t; normalize = λ t. t };
  settings = record {
    global_max_time = pos 5000;
    global_max_memory = pos 1024;
    is_language_supported = λ l. true;
    language_limit = λ l. none;
    allowed_tags = λ t. true;
  };
  to_lower = λ t. t;
  now = 20;
  in_active_contest = λ p. ok false;
  get_id_by_nickname = λ n. ok (some "u2");
  delete_fault = none;
  save_fault = none;
}

abbrev pub uploading : Uploading
uploading = record {
  edit = editing;
  base = λ t. t;
  ext = λ t. ".cpp";
  language_by_extension = λ e. some "cpp";
  samples = ok [];
  upload = λ key. ok tt;
  instance_id = "i1";
  validation_id = "v1";
  ticket_fault = none;
  queue_fault = none;
  close_fault = none;
}

abbrev pub with_tests : Problem
with_tests = record new {
  test_cases_key = some "problems/two-sum/testcases/i1";
  judging_updated_at = some 20;
  updated_at = 20;
}

abbrev pub main_file : JudgingFile
main_file = record {
  filename = "main.cpp";
  file_key = "problems/two-sum/solution/main.cpp";
  language = "cpp";
  compiled_key = none;
  compiled_at = none;
}

abbrev pub ready_problem : Problem
ready_problem = record with_tests { solutions = main_file ∷ [] }

abbrev pub enqueuing : Enqueuing
enqueuing = record {
  ticket_id = "v1";
  now = 30;
  save_fault = none;
  find_again_fault = none;
  queue_fault = none;
}

abbrev pub waiting : ProblemValidation
waiting = record {
  id = "v1";
  problem_id = "p1";
  requested_by = "u1";
  status = pending;
  requested_at = 30;
  completed_at = none;
  result = none;
  pending_change = none;
  publish_on_pass = true;
}

abbrev pub under_way : ProblemValidation
under_way = record waiting { status = running }

abbrev pub all_passed : ValidateSolutionsOutput
all_passed = record {
  sample_cases = 1;
  secret_cases = 2;
  solutions_tested = 1;
  passed = true;
  failure = none;
}

abbrev pub nothing_built : PrepareJudgingOutput
nothing_built = record { checker_compiled_key = ""; validator_compiled_key = ""; failure = none }

abbrev pub bench : Workbench
bench = record {
  lookup = lookup;
  prepare = λ c. ok nothing_built;
  validate = λ c. ok all_passed;
  now = 40;
  start_fault = none;
  end_fault = none;
  checker_key_fault = none;
  validator_key_fault = none;
  tx_problem_fault = none;
  tx_ticket_fault = none;
  commit_fault = none;
}
