-- ===== src/Problem/Reports.antt =====
-- The reports of internal/application/problem/validate_problem.go. The use case keeps its own copies
-- of the results of the two judge use cases, field by field; here they are those results. A log of
-- bytes is converted to a text, which keeps its bytes.
use training_center_back.Prelude.{ℕ, String, true, none, some, List, [], ◌∷◌}
use training_center_back.Judge.Solutions.{
  FailureKind, compile_error, wrong_answer, time_limit_exceeded, memory_limit_exceeded,
  output_limit_exceeded, runtime_error, SolutionFailure, ValidateSolutionsOutput,
}
use training_center_back.Judge.Preparation.{PrepareJudgingFailure, input_rejected}
use training_center_back.Problem.Tickets.{ValidationReport}

abbrev pub blank : ValidationReport
blank = record {
  validation_summary = none;
  failed_test_cases = [];
  compilation_errors = none;
  failed_inputs = [];
}

abbrev pub compile_report : String → List ℕ → ValidationReport
compile_report file log = record blank {
  compilation_errors = some (record { file = file; errors = log ∷ [] });
}

unfoldable pub build_judging_failure_report : PrepareJudgingFailure → ValidationReport
build_judging_failure_report f = elim f.kind [
  | input_rejected ↦ record blank {
    failed_inputs = record { file = f.test_case; reason = f.reason } ∷ [];
  }
  | _ ↦ compile_report f.file_key f.log
]

abbrev pub verdict_text : FailureKind → String
verdict_text compile_error = "COMPILE_ERROR"
verdict_text wrong_answer = "WRONG_ANSWER"
verdict_text time_limit_exceeded = "TIME_LIMIT_EXCEEDED"
verdict_text memory_limit_exceeded = "MEMORY_LIMIT_EXCEEDED"
verdict_text output_limit_exceeded = "OUTPUT_LIMIT_EXCEEDED"
verdict_text runtime_error = "RUNTIME_ERROR"

unfoldable pub build_failure_report : SolutionFailure → ValidationReport
build_failure_report f = elim f.kind [
  | compile_error ↦ compile_report f.file_key f.compile_log
  | wrong_answer ↦ record blank {
    failed_test_cases =
        record {
          test_case = f.test_case;
          verdict = verdict_text f.kind;
          expected = f.expected;
          actual = f.actual;
          details = f.checker_message;
          time_limit = none;
        }
        ∷ [];
  }
  | time_limit_exceeded ↦ record blank {
    failed_test_cases =
        record {
          test_case = f.test_case;
          verdict = verdict_text f.kind;
          expected = [];
          actual = [];
          details = "";
          time_limit = some f.time_limit_ms;
        }
        ∷ [];
  }
  | _ ↦ record blank {
    failed_test_cases =
        record {
          test_case = f.test_case;
          verdict = verdict_text f.kind;
          expected = [];
          actual = [];
          details = "";
          time_limit = none;
        }
        ∷ [];
  }
]

unfoldable pub build_success_report : ValidateSolutionsOutput → ValidationReport
build_success_report r = record blank {
  validation_summary = some (record {
    sample_cases = r.sample_cases;
    secret_cases = r.secret_cases;
    solutions_tested = r.solutions_tested;
    all_passed = true;
  });
}

-- The source reads the failure, which is set unless the solutions passed.
unfoldable pub build_validation_report : ValidateSolutionsOutput → ValidationReport
build_validation_report r = elim r.failure [
  | none ↦ build_success_report r
  | some f ↦ build_failure_report f
]
