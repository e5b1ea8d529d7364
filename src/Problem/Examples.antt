-- ===== src/Problem/Examples.antt =====
-- The theorems on problems at a concrete problem: it is created, gets its test cases and a solution,
-- and is published.
use training_center_back.Prelude.{◌≢◌, true, false, none, some, [], ◌∷◌, ◌≡◌, refl, inl, arith}
use training_center_back.Apperror.{ok, err, conflict, fault}
use training_center_back.Problem.Aggregate.{
  is_published, Problem, published, new_judging_file, set_test_cases, find_solution,
  can_be_edited_by, has_id, add_modifier, remove_modifier,
}
use training_center_back.Problem.Tickets.{
  ProblemValidation, PendingJudgingChange, ValidationReport, passed, find_by_id, has_row,
  find_latest, mark_final, mark_passed, recover_stale_before,
}
use training_center_back.Problem.Store.{
  new_slug, find_by_slug, locate, require_editor, ensure_no_active_validation,
}
use training_center_back.Problem.Publishing.{Enqueuing, required_fields_for_publish, enqueue_for}
use training_center_back.Problem.Reports.{build_validation_report, build_success_report}
use training_center_back.Problem.Opens.{ended}
use training_center_back.Problem.Checks.{Workbench}
use training_center_back.Problem.Worker.{
  conclude, execute, swap_files, swap_test_cases, swap_checker,
}
use training_center_back.Problem.Editing.{file_type_of}
use training_center_back.Problem.Files.{Uploading, named_file, language_for_file, solution_key}
use training_center_back.Problem.Uploads.{upload_on_draft, check_upload}
use training_center_back.Problem.Orderly.{Orderly}
use training_center_back.Problem.Closings.{has_fault}
use training_center_back.Problem.Steps.{World, Reach}
use training_center_back.Problem.Ends.{execute-ended, execute-swept}
use training_center_back.Problem.Swept.{swept_run_publishes_incomplete}
use training_center_back.Problem.Stuck.{unqueued_blocks}
use training_center_back.Problem.Lost.{failed_update_reads_passed}
use training_center_back.Problem.Modifiers.{
  IsRoster, distinct, modifiers-IsRoster, remove_modifier-add_modifier,
}
use training_center_back.Problem.Rollbacks.{failed_upload_deletes_live}
use training_center_back.Problem.Samples.{
  new, author, lookup, editing, uploading, main_file, ready_problem, enqueuing, waiting, under_way,
  all_passed, nothing_built, bench,
}

abbrev at_publish : World
at_publish = record {
  store = record { problem = ready_problem; tickets = [] };
  held = none;
  writings = [];
}

abbrev queued_up : World
queued_up = record {
  store = record { problem = ready_problem; tickets = waiting ∷ [] };
  held = none;
  writings = [];
}

abbrev taken_up : World
taken_up = record {
  store = record { problem = ready_problem; tickets = under_way ∷ [] };
  held = some under_way;
  writings = [];
}

-- The world after the run.
abbrev shown : Problem
shown = record ready_problem { status = published; updated_at = 40 }

abbrev report : ValidationReport
report = record {
  validation_summary =
      some (record { sample_cases = 1; secret_cases = 2; solutions_tested = 1; all_passed = true });
  failed_test_cases = [];
  compilation_errors = none;
  failed_inputs = [];
}

abbrev closed : ProblemValidation
closed = record under_way { status = passed; completed_at = some 40; result = some report }

abbrev at_end : World
at_end = record {
  store = record { problem = shown; tickets = closed ∷ [] };
  held = none;
  writings = [];
}

swept_run_publishes_incomplete_example :
    (w : World) × Reach
      (record {
        store = record { problem = ready_problem; tickets = under_way ∷ [] };
        held = some under_way;
        writings = [];
      })
      w
    × (is_published w.store.problem ≡ true)
    × (w.store.problem.test_cases_key ≡ none)
    × (required_fields_for_publish w.store.problem ≢ [])
    × (last : ProblemValidation) × (w.store.tickets ≡ last ∷ [])
    × (last.status ≡ passed)
swept_run_publishes_incomplete_example =
    swept_run_publishes_incomplete ready_problem under_way [] 35 36 editing author "two-sum"
      "testcases" "problems/two-sum/testcases/i1" bench "two-sum" nothing_built all_passed
      (unfold Orderly in tt) refl refl refl (omega arith) refl refl
      (λ ts. unfold locate new_slug find_by_slug in refl)
      (unfold require_editor can_be_edited_by in refl) (unfold file_type_of in refl) refl refl refl
      refl refl refl refl refl refl refl refl refl

waiting_found : find_by_id "v1" (waiting ∷ []) ≡ ok waiting
unfolding find_by_id
waiting_found = refl

-- A bench whose solution validation fails with an internal error.
abbrev broken_bench : Workbench
broken_bench = record bench { validate = λ c. err (fault 1) }

execute-ended_example : ended (execute broken_bench "v1" "two-sum" queued_up.store).1.tickets ≡ true
execute-ended_example =
    execute-ended broken_bench "v1" "two-sum" queued_up.store waiting (unfold Orderly in tt)
      waiting_found refl refl (unfold has_fault in refl)

-- A bench whose transaction does not commit.
abbrev losing_bench : Workbench
losing_bench = record bench { commit_fault = some (fault 2) }

execute-swept_example :
    ended
      (recover_stale_before 50 60 (execute losing_bench "v1" "two-sum" queued_up.store).1.tickets)
    ≡ true
execute-swept_example =
    execute-swept losing_bench "v1" "two-sum" queued_up.store waiting (unfold Orderly in tt)
      waiting_found refl refl 50 60 (omega arith)

abbrev unqueued : Enqueuing
unqueued = record enqueuing { queue_fault = some (fault 3) }

unqueued_blocks_example :
    ((enqueue_for unqueued true author ready_problem at_publish.store).0 ≡ err (fault 3))
    × (recover_stale_before 90 100
          (enqueue_for unqueued true author ready_problem at_publish.store).1.tickets
        ≡ (enqueue_for unqueued true author ready_problem at_publish.store).1.tickets)
    × (ensure_no_active_validation lookup
          (enqueue_for unqueued true author ready_problem at_publish.store).1
        ≡ err (conflict "VALIDATION_IN_PROGRESS"))
unqueued_blocks_example =
    unqueued_blocks unqueued true author ready_problem at_publish.store (fault 3)
      (unfold Orderly in tt) refl (unfold has_row in refl) tt refl refl refl refl lookup 90 100 refl

-- A judging update of the published problem, under way, with new test cases.
abbrev change : PendingJudgingChange
change = record { test_cases_key = some "problems/two-sum/testcases/i2"; checker = none }

abbrev updating : ProblemValidation
updating = record under_way { id = "v2"; requested_at = 50; pending_change = some change }

failed_update_reads_passed_example :
    (conclude losing_bench "two-sum" updating (record { problem = shown; tickets = updating ∷ [] })
      ≡ (
        ok tt,
        record {
          problem = shown;
          tickets =
              record updating { status = passed; completed_at = some 40; result = some report }
              ∷ [];
        },
      ))
    × (passed ≡ passed)
unfolding mark_passed mark_final build_validation_report build_success_report
failed_update_reads_passed_example =
    failed_update_reads_passed losing_bench "two-sum" updating [] shown change nothing_built
      all_passed
      (record shown {
        test_cases_key = some "problems/two-sum/testcases/i2";
        judging_updated_at = some 40;
        updated_at = 40;
      })
      (fault 2) (unfold Orderly in tt) refl refl refl refl refl refl
      (unfold swap_files locate new_slug find_by_slug swap_test_cases swap_checker set_test_cases in
        refl)
      refl refl refl

abbrev failing : Uploading
failing = record uploading { edit = record editing { save_fault = some (fault 4) } }

failed_upload_deletes_live_example :
    ((upload_on_draft failing author ready_problem "solution" "main.cpp" at_publish.store).outcome
      ≡ err (fault 4))
    × (has_id "problems/two-sum/solution/main.cpp"
          (upload_on_draft failing author ready_problem "solution" "main.cpp"
            at_publish.store).deleted
        ≡ true)
failed_upload_deletes_live_example =
    failed_upload_deletes_live failing author ready_problem "solution" "main.cpp" at_publish.store
      main_file main_file (fault 4)
      (unfold check_upload require_editor can_be_edited_by ensure_no_active_validation
          find_latest in
        refl)
      (unfold file_type_of in refl)
      (unfold named_file language_for_file new_judging_file solution_key in refl) refl refl
      (unfold find_solution in refl) refl

abbrev with_modifier : Problem
with_modifier = record new { modifier_ids = "u1" ∷ "u2" ∷ []; updated_at = 20 }

added : add_modifier "u2" 20 new ≡ ok with_modifier
unfolding add_modifier has_id
added = refl

modifiers-IsRoster_example : IsRoster ("u1" ∷ "u2" ∷ [])
modifiers-IsRoster_example =
    modifiers-IsRoster "u2" 20 new with_modifier
      (record { once = unfold distinct has_id in refl; bounded = omega arith }) (inl added)

remove_modifier-add_modifier_example :
    (can_be_edited_by "u2" false with_modifier ≡ true)
    × (remove_modifier "u2" 30 with_modifier ≡ ok (record new { updated_at = 30 }))
remove_modifier-add_modifier_example =
    remove_modifier-add_modifier "u2" 20 30 new with_modifier added
