-- ===== src/Judge/Preparation.antt =====
-- internal/application/judge/prepare_judging.go: the checker and the validator of a problem are
-- compiled and uploaded, and the validator reads every input.
use Prim.Native.String.{◌++◌}
use training_center_back.Prelude.{
  String, Bool, Option, none, some, List, [], ◌∷◌, ℕ, suc, str_eq, if◌then◌else◌,
}
use training_center_back.Apperror.{Result, ok, ◌>>=◌, ◌>>◌}
use training_center_back.Judge.Attempt.{TestCase}
use training_center_back.Judge.Previews.{bytes, truncate_preview}
use training_center_back.Judge.Solutions.{JudgingCandidate, key_of}

pub data PrepareFailureKind : Type 0 where
  checker_compile_error validator_compile_error input_rejected : PrepareFailureKind

pub record PrepareJudgingFailure : Type 0 where
  pub kind : PrepareFailureKind
  pub file_key : String
  pub log : List ℕ
  pub test_case : String
  pub reason : List ℕ

pub record PrepareJudgingOutput : Type 0 where
  pub checker_compiled_key : String
  pub validator_compiled_key : String
  pub failure : Option PrepareJudgingFailure

pub record JudgingSource : Type 0 where
  pub file_key : String
  pub language : String

pub record ArtifactResult : Type 0 where
  pub success : Bool
  pub log : String
  pub artifact : String

pub record InputAnswer : Type 0 where
  pub accepted : Bool
  pub message : String

pub data ArtifactRole : Type 0 where
  checker_role validator_role : ArtifactRole

-- What the providers, the compiler, the uploader and the validator's session answer. An input is
-- read at its position.
pub record Preparing : Type 0 where
  pub get_checker_source : String → Result (Option JudgingSource)
  pub get_validator_source : String → Result (Option JudgingSource)
  pub download : String → Result String
  pub compile : ArtifactRole → String → String → Result ArtifactResult
  pub upload : String → String → Result (Unit {0})
  pub get_test_cases : String → Result (List TestCase)
  pub get_test_cases_at : String → Result (List TestCase)
  pub begin_validating : String → String → Result (Unit {0})
  pub validate : ℕ → String → Result InputAnswer

-- The artifact that is built for a role, or why it is not. An empty key: nothing was uploaded.
pub data Built : Type 0 where
  nothing_uploaded : Built
  built : String → String → Built
  refused : PrepareJudgingFailure → Built

abbrev compile_failure : PrepareFailureKind → JudgingSource → String → PrepareJudgingFailure
compile_failure kind source log = record {
  kind = kind;
  file_key = source.file_key;
  log = truncate_preview (bytes log);
  test_case = "";
  reason = [];
}

abbrev failure_kind : ArtifactRole → PrepareFailureKind
failure_kind checker_role = checker_compile_error
failure_kind validator_role = validator_compile_error

-- Download, compile, upload.
unfoldable pub build : Preparing → ArtifactRole → JudgingSource → String → Result Built
build env role source compiled_key = env.download source.file_key >>= λ source_code.
    env.compile role source.language source_code >>= λ result.
    if result.success
    then (env.upload compiled_key result.artifact >> ok (built compiled_key source.language))
    else ok (refused (compile_failure (failure_kind role) source result.log))

-- The source of a role with the key that its artifact goes to.
abbrev pub build_found : Preparing → ArtifactRole → Option JudgingSource → String → Result Built
build_found env role none compiled_key = ok nothing_uploaded
build_found env role (some source) compiled_key = build env role source compiled_key

unfoldable pub prepare_checker :
    Preparing → String → String → Option JudgingCandidate → Result Built
prepare_checker env problem_id slug none = env.get_checker_source problem_id >>= λ source.
    build_found env checker_role source ("problems/" ++ slug ++ "/checker/compiled")
prepare_checker env problem_id slug (some c) = elim c.checker [
  | none ↦ ok nothing_uploaded
  | some k ↦
      build env checker_role (record { file_key = k.file_key; language = k.language })
        k.compiled_key
]

unfoldable pub prepare_validator : Preparing → String → String → Result Built
prepare_validator env problem_id slug = env.get_validator_source problem_id >>= λ source.
    build_found env validator_role source ("problems/" ++ slug ++ "/validator/compiled")

abbrev input_failure : TestCase → String → PrepareJudgingFailure
input_failure tc message = record {
  kind = input_rejected;
  file_key = "";
  log = [];
  test_case = tc.name;
  reason = truncate_preview (bytes message);
}

-- The loop over the inputs.
unfoldable pub validate_inputs :
    Preparing → List TestCase → ℕ → Result (Option PrepareJudgingFailure)
validate_inputs env [] n = ok none
validate_inputs env (tc ∷ tcs) n =
    let rest = validate_inputs env tcs (suc n) in
    env.validate n tc.input >>= λ a.
    if a.accepted then rest else ok (some (input_failure tc a.message))

unfoldable pub load_inputs : Preparing → String → Option JudgingCandidate → Result (List TestCase)
load_inputs env problem_id candidate =
    if str_eq (key_of candidate) ""
    then env.get_test_cases problem_id
    else env.get_test_cases_at (key_of candidate)

abbrev output : String → String → Option PrepareJudgingFailure → PrepareJudgingOutput
output checker_key validator_key failure = record {
  checker_compiled_key = checker_key;
  validator_compiled_key = validator_key;
  failure = failure;
}

-- From the built validator on.
unfoldable pub run_validator :
    Preparing → String → Option JudgingCandidate → String → Built → Result PrepareJudgingOutput
run_validator env problem_id candidate checker_key nothing_uploaded =
    ok (output checker_key "" none)
run_validator env problem_id candidate checker_key (refused f) = ok (output checker_key "" (some f))
run_validator env problem_id candidate checker_key (built key language) =
    load_inputs env problem_id candidate >>= λ tcs.
    env.begin_validating key language >> validate_inputs env tcs 0 >>= λ failure.
    ok (output checker_key key failure)

abbrev checker_key : Built → String
checker_key (built key language) = key
checker_key _ = ""

unfoldable pub prepare_judging :
    Preparing → String → String → Option JudgingCandidate → Result PrepareJudgingOutput
prepare_judging env problem_id slug candidate =
    prepare_checker env problem_id slug candidate >>= λ checker. elim checker [
      | refused f ↦ ok (output "" "" (some f))
      | other ↦ prepare_validator env problem_id slug >>= λ validator.
          run_validator env problem_id candidate (checker_key other) validator
    ]
