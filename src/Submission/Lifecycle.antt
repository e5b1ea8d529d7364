-- ===== src/Submission/Lifecycle.antt =====
-- The life of a submission: pending, running, and one final status.
use training_center_back.Prelude.{
  subst, sym, ℕ, suc, ◌≤◌, String, true, Option, List, [], ◌∷◌, ◌≡◌, refl, arith, is_some,
}
use training_center_back.Apperror.{Result, ok, err}
use training_center_back.Submission.Statuses.{
  Status, pending, running, unrecognised, compilation_error, is_final,
}
use training_center_back.Submission.{
  Visibility, set_visibility, attach_blockly_workspace, Submission, new_submission, start,
  mark_accepted, mark_wrong_answer, mark_time_limit_exceeded, mark_memory_limit_exceeded,
  mark_output_limit_exceeded, mark_runtime_error, mark_compilation_error, mark_system_error,
}

-- The calls that change a status, with their arguments.
pub data Call : Type 0 where
  starts system_error_found : Call
  accepts answers_wrong output_limited crashes : ℕ → Option ℕ → Call
  times_out : ℕ → Call
  runs_out_of_memory : Option ℕ → Call
  fails_to_compile : String → Call

unfoldable pub apply : Call → Submission → ℕ → Result Submission
apply starts s now = start s now
apply (accepts t m) s now = mark_accepted s t m now
apply (answers_wrong t m) s now = mark_wrong_answer s t m now
apply (times_out t) s now = mark_time_limit_exceeded s t now
apply (runs_out_of_memory m) s now = mark_memory_limit_exceeded s m now
apply (output_limited t m) s now = mark_output_limit_exceeded s t m now
apply (crashes t m) s now = mark_runtime_error s t m now
apply (fails_to_compile log) s now = mark_compilation_error s log now
apply system_error_found s now = mark_system_error s now

-- Every method that changes a submission: those calls, and the two setters, which never fail.
pub data Method : Type 0 where
  calls : Call → Method
  sets_visibility : Visibility → Method
  attaches_blockly_workspace : String → Method

unfoldable pub perform : Method → Submission → ℕ → Result Submission
perform (calls c) s now = apply c s now
perform (sets_visibility v) s now = ok (set_visibility s v)
perform (attaches_blockly_workspace path) s now = ok (attach_blockly_workspace s path)

-- A history of methods: one that fails leaves the submission as it was.
abbrev pub after : Submission → Result Submission → Submission
after s (ok t) = t
after s (err e) = s

unfoldable pub run : Submission → List (Method × ℕ) → Submission
run s [] = s
run s ((m, now) ∷ ms) = run (after s (perform m s now)) ms

-- How far the submission has come: 0 pending, 1 running, 2 judged.
abbrev pub phase : Status → ℕ
phase pending = 0
phase running = 1
phase (unrecognised s) = 3
phase _ = 2

-- A call that succeeds moves the submission exactly one phase on, never past the judged phase, and
-- leaves what was submitted (owner, problem, contest, language, source, time of submission) alone.
pub apply-phase :
    (c : Call) (s : Submission) (now : ℕ) {t : Submission}
    → apply c s now ≡ ok t
    → (phase t.status ≡ suc (phase s.status))
      × (phase t.status ≤ 2)
      × (t.id ≡ s.id)
      × (t.user_id ≡ s.user_id)
      × (t.problem_id ≡ s.problem_id)
      × (t.contest_id ≡ s.contest_id)
      × (t.language ≡ s.language)
      × (t.source_code_path ≡ s.source_code_path)
      × (t.submitted_at ≡ s.submitted_at)
unfolding apply start mark_accepted mark_wrong_answer mark_time_limit_exceeded
    mark_memory_limit_exceeded mark_output_limit_exceeded mark_runtime_error mark_compilation_error
    mark_system_error
apply-phase starts s now h = ground arith
apply-phase _ s now h = ground arith

-- What holds of a submission between two calls.
pub record IsConsistent (s : Submission) : Type 0 where
  pub known : phase s.status ≤ 2
  pub judged : is_some s.judged_at ≡ is_final s.status
  pub timed : is_some s.time_ms ≡ true → is_final s.status ≡ true
  pub measured : is_some s.memory_kb ≡ true → is_final s.status ≡ true
  pub logged : is_some s.compile_log ≡ true → s.status ≡ compilation_error

apply-IsConsistent :
    (c : Call) (s : Submission) (now : ℕ) → IsConsistent s → IsConsistent (after s (apply c s now))
unfolding apply start mark_accepted mark_wrong_answer mark_time_limit_exceeded
    mark_memory_limit_exceeded mark_output_limit_exceeded mark_runtime_error mark_compilation_error
    mark_system_error
apply-IsConsistent starts s now v = ground arith
apply-IsConsistent _ s now v = ground arith

perform-IsConsistent :
    (m : Method) (s : Submission) (now : ℕ)
    → IsConsistent s
    → IsConsistent (after s (perform m s now))
unfolding perform set_visibility attach_blockly_workspace
perform-IsConsistent (calls c) s now v = apply-IsConsistent c s now v
perform-IsConsistent (sets_visibility x) s now v = record {
  known = v.known;
  judged = v.judged;
  timed = v.timed;
  measured = v.measured;
  logged = v.logged;
}
perform-IsConsistent (attaches_blockly_workspace x) s now v = record {
  known = v.known;
  judged = v.judged;
  timed = v.timed;
  measured = v.measured;
  logged = v.logged;
}

run-IsConsistent :
    (s : Submission) (ms : List (Method × ℕ)) → IsConsistent s → IsConsistent (run s ms)
unfolding run
run-IsConsistent s [] v = v
run-IsConsistent s ((m, now) ∷ ms) v =
    run-IsConsistent (after s (perform m s now)) ms (perform-IsConsistent m s now v)

after_of_final :
    (c : Call) (s : Submission) (now : ℕ) → is_final s.status ≡ true → after s (apply c s now) ≡ s
unfolding apply start mark_accepted mark_wrong_answer mark_time_limit_exceeded
    mark_memory_limit_exceeded mark_output_limit_exceeded mark_runtime_error mark_compilation_error
    mark_system_error
after_of_final starts s now f = ground arith
after_of_final _ s now f = ground arith

-- The same submission, but for what the two setters write.
abbrev pub relabelled : Submission → Submission → Submission
relabelled s t = record s { visibility = t.visibility; workspace_xml_path = t.workspace_xml_path }

-- A judged submission keeps its status, its verdict and what was submitted for good: whatever
-- sequence of methods is called on it, only its visibility and its blockly workspace may change.
pub run_of_final :
    (s : Submission) (ms : List (Method × ℕ))
    → is_final s.status ≡ true
    → run s ms ≡ relabelled s (run s ms)
unfolding run perform set_visibility attach_blockly_workspace
run_of_final s [] f = refl
run_of_final s ((calls c, now) ∷ ms) f =
    subst (λ t. run t ms ≡ relabelled s (run t ms)) (sym (after_of_final c s now f))
      (run_of_final s ms f)
run_of_final s ((sets_visibility v, now) ∷ ms) f = run_of_final (set_visibility s v) ms f
run_of_final s ((attaches_blockly_workspace w, now) ∷ ms) f =
    run_of_final (attach_blockly_workspace s w) ms f

module _ (id problem_id user_id : String) (contest_id standing_id : Option String)
    (lang compiler path hash : String) (size : ℕ) (title slug : String) (created : ℕ)
    {s : Submission}
    (made : new_submission id problem_id user_id contest_id standing_id lang compiler path hash size
        title slug created
      ≡ ok s) where
  -- After any history of methods on a new submission, it has a time of judgement exactly when its
  -- status is final; time and memory are recorded only then, and a compiler log only on a
  -- compilation error.
  pub new_submission-run-IsConsistent : (ms : List (Method × ℕ)) → IsConsistent (run s ms)
  new_submission-run-IsConsistent ms = run-IsConsistent s ms fresh
    where
      fresh : IsConsistent s
      fresh = unfold new_submission in ground arith
