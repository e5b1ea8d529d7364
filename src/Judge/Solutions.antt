-- ===== src/Judge/Solutions.antt =====
-- internal/application/judge/validate_solutions.go: the problem's own solutions are compiled and run
-- against every test case. The sandbox is the one of a judging attempt.
use text.Mathlib.Text.{starts_with}
use training_center_back.Prelude.{
  ℕ, zero, suc, String, Bool, true, false, Option, none, some, List, [], ◌∷◌, ltb, ◌==◌, str_eq,
  if◌then◌else◌,
}
use training_center_back.Apperror.{Error, Result, ok, err, internal, ◌>>=◌}
use training_center_back.Judge.Attempt.{
  TestCase, ProblemLimits, RunResult, Sandbox, exit_code_tle, exit_code_mle,
}
use training_center_back.Judge.Previews.{bytes, truncate_preview}

pub data FailureKind : Type 0 where
  compile_error wrong_answer time_limit_exceeded memory_limit_exceeded : FailureKind
  output_limit_exceeded runtime_error : FailureKind

pub record SolutionFailure : Type 0 where
  pub file_key : String
  pub kind : FailureKind
  pub compile_log : List ℕ
  pub test_case : String
  pub time_ms : ℕ
  pub time_limit_ms : ℕ
  pub expected : List ℕ
  pub actual : List ℕ
  pub checker_message : String

pub record Solution : Type 0 where
  pub file_key : String
  pub language : String

-- The fields that a failure does not set.
abbrev pub failure : String → FailureKind → String → SolutionFailure
failure file_key kind name = record {
  file_key = file_key;
  kind = kind;
  compile_log = [];
  test_case = name;
  time_ms = 0;
  time_limit_ms = 0;
  expected = [];
  actual = [];
  checker_message = "";
}

abbrev too_slow : String → String → ℕ → ℕ → SolutionFailure
too_slow file_key name time limit = record (failure file_key time_limit_exceeded name) {
  time_ms = time;
  time_limit_ms = limit;
}

abbrev rejected_output : String → TestCase → RunResult → String → SolutionFailure
rejected_output file_key tc r message = record (failure file_key wrong_answer tc.name) {
  expected = truncate_preview (bytes tc.expected_output);
  actual = truncate_preview (bytes r.output_preview);
  checker_message = message;
}

-- One round of the loop over the test cases: an error, a failure, or on to the next.
pub data CaseAnswer : Type 0 where
  broken : Error → CaseAnswer
  rejected : SolutionFailure → CaseAnswer
  held : CaseAnswer

-- `checked` is what the checker says if it is asked, and `message` what it gives as its reason.
unfoldable pub check_case :
    ProblemLimits → String → TestCase → Result RunResult → Result Bool → String → CaseAnswer
check_case limits file_key tc (err e) checked message = broken e
check_case limits file_key tc (ok r) checked message =
    if r.output_limit_exceeded
    then rejected (failure file_key output_limit_exceeded tc.name)
    else if r.exit_code == exit_code_tle
    then rejected (too_slow file_key tc.name r.time_ms limits.time_limit_ms)
    else if r.exit_code == exit_code_mle
    then rejected (failure file_key memory_limit_exceeded tc.name)
    else if r.exit_code == 0
    then (if ltb limits.time_limit_ms r.time_ms
        then rejected (too_slow file_key tc.name r.time_ms limits.time_limit_ms)
        else elim checked [
          | err e ↦ broken e
          | ok false ↦ rejected (rejected_output file_key tc r message)
          | ok true ↦ held
        ])
    else rejected (failure file_key runtime_error tc.name)

-- A sandbox with the checker's reasons; `download` fetches the source of a solution.
pub record Bench : Type 0 where
  pub box : Sandbox
  pub message : ℕ → String
  pub download : String → Result String

unfoldable pub check_cases :
    Bench → ProblemLimits → String → List TestCase → ℕ → Result (Option SolutionFailure)
check_cases bench limits file_key [] n = ok none
check_cases bench limits file_key (tc ∷ tcs) n =
    let rest = check_cases bench limits file_key tcs (suc n) in
    elim (check_case limits file_key tc (bench.box.run_test_case n tc) (bench.box.check n tc)
      (bench.message n)) [ broken e ↦ err e | rejected f ↦ ok (some f) | held ↦ rest ]

-- From the opened checker session on.
unfoldable pub check_built :
    Bench → ProblemLimits → String → List TestCase → Result (Option SolutionFailure)
check_built bench limits file_key tcs =
    bench.box.begin_checking limits.checker_path limits.checker_language >>= λ opened.
    check_cases bench limits file_key tcs 0

-- From the opened execution session on.
unfoldable pub check_compiled :
    Bench → Solution → ProblemLimits → String → List TestCase → Result (Option SolutionFailure)
check_compiled bench sol limits source_code tcs =
    bench.box.compile sol.language source_code >>= λ c.
    if c.success
    then check_built bench limits sol.file_key tcs
    else ok (
        some (record (failure sol.file_key compile_error "") {
          compile_log = truncate_preview (bytes c.log);
        }))

unfoldable pub check_solution :
    Bench → Solution → ProblemLimits → List TestCase → Result (Option SolutionFailure)
check_solution bench sol limits tcs = bench.download sol.file_key >>= λ source_code.
    bench.box.begin_session sol.language limits.memory_kb >>= λ opened.
    check_compiled bench sol limits source_code tcs

-- What the loop returns once it has run out of attempts: `return nil, lastErr`.
abbrev pub gave_up : Option Error → Result (Option SolutionFailure)
gave_up none = ok none
gave_up (some e) = err e

-- The attempts that are left, the number of the next one, and the last error. A bench is given per
-- attempt; the wait before a retry is left out.
unfoldable pub check_solution_with_retry :
    (ℕ → Bench)
    → ℕ
    → ℕ
    → Option Error
    → Solution
    → ProblemLimits
    → List TestCase
    → Result (Option SolutionFailure)
check_solution_with_retry bench zero attempt last_err sol limits tcs = gave_up last_err
check_solution_with_retry bench (suc fuel) attempt last_err sol limits tcs =
    elim (check_solution (bench attempt) sol limits tcs) [
      | ok verdict ↦ ok verdict
      | err e ↦ check_solution_with_retry bench fuel (suc attempt) (some e) sol limits tcs
    ]

pub record CandidateChecker : Type 0 where
  pub file_key : String
  pub language : String
  pub compiled_key : String

-- An empty key keeps the test cases that the problem has.
pub record JudgingCandidate : Type 0 where
  pub test_cases_key : String
  pub checker : Option CandidateChecker

pub record ValidateSolutionsOutput : Type 0 where
  pub sample_cases : ℕ
  pub secret_cases : ℕ
  pub solutions_tested : ℕ
  pub passed : Bool
  pub failure : Option SolutionFailure

unfoldable pub apply_candidate_checker : ProblemLimits → Option JudgingCandidate → ProblemLimits
apply_candidate_checker limits none = limits
apply_candidate_checker limits (some c) = elim c.checker [
  | none ↦ limits
  | some k ↦ record limits {
    has_custom_checker = true;
    checker_path = k.compiled_key;
    checker_language = k.language;
  }
]

unfoldable pub count_group : String → List TestCase → ℕ
count_group group [] = 0
count_group group (tc ∷ tcs) =
    let rest = count_group group tcs in if starts_with tc.name group then suc rest else rest

-- The providers, the benches (one per solution and attempt), and the attempts.
pub record Validating : Type 0 where
  pub get_solutions : String → Result (List Solution)
  pub get_limits : String → Result ProblemLimits
  pub get_test_cases : String → Result (List TestCase)
  pub get_test_cases_at : String → Result (List TestCase)
  pub bench : ℕ → ℕ → Bench
  pub max_attempts : ℕ

abbrev pub key_of : Option JudgingCandidate → String
key_of none = ""
key_of (some c) = c.test_cases_key

unfoldable pub load_test_cases :
    Validating → String → Option JudgingCandidate → Result (List TestCase)
load_test_cases env problem_id candidate =
    if str_eq (key_of candidate) ""
    then env.get_test_cases problem_id
    else env.get_test_cases_at (key_of candidate)

abbrev pub report_of : List TestCase → ℕ → Option SolutionFailure → ValidateSolutionsOutput
report_of tcs tested found = record {
  sample_cases = count_group "sample/" tcs;
  secret_cases = count_group "secret/" tcs;
  solutions_tested = tested;
  passed = elim found [ none ↦ true | some _ ↦ false ];
  failure = found;
}

-- The loop over the solutions, with the number of those before.
unfoldable pub validate_each :
    Validating → ProblemLimits → List TestCase → List Solution → ℕ → Result ValidateSolutionsOutput
validate_each env limits tcs [] i = ok (report_of tcs i none)
validate_each env limits tcs (sol ∷ sols) i =
    let rest = validate_each env limits tcs sols (suc i) in
    elim (check_solution_with_retry (env.bench i) env.max_attempts 0 none sol limits tcs) [
      | err e ↦ err e
      | ok (some f) ↦ ok (report_of tcs (suc i) (some f))
      | ok none ↦ rest
    ]

abbrev some_solutions : List Solution → Result (List Solution)
some_solutions [] = err internal
some_solutions (sol ∷ sols) = ok (sol ∷ sols)

unfoldable pub validate_solutions :
    Validating → String → Option JudgingCandidate → Result ValidateSolutionsOutput
validate_solutions env problem_id candidate = env.get_solutions problem_id >>= λ found.
    some_solutions found >>= λ solutions. env.get_limits problem_id >>= λ limits.
    load_test_cases env problem_id candidate >>= λ tcs.
    validate_each env (apply_candidate_checker limits candidate) tcs solutions 0
