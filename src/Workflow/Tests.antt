-- ===== src/Workflow/Tests.antt =====
-- Outcomes, cancellation and resumption.
use dbos_workload.Fixtures.{codecs, db0, db0-HasPrimaryKey, running, waiting}
use dbos_workload.Prelude.{String, [], false, none, refl, some, true, ℕ, ◌∷◌, ◌≡◌}
use dbos_workload.Schema.{Status, enqueued}
use dbos_workload.Steps.{check_operation_execution, find_workflow}
use dbos_workload.Steps.Call.{call_function_as_step}
use dbos_workload.Transaction.{Result, awaited_workflow_cancelled, err, ok, workflow_cancelled}
use dbos_workload.Workflow.{
  cancel_workflows, check_workflow_result, finished, resume_workflows, update_workflow_outcome,
}
use dbos_workload.Workflow.Outcome.{cancel_workflows_stops, update_workflow_outcome_branches}
use dbos_workload.Workflow.Resumed.{resume-cancel_replays}
use dbos_workload.Table.{find_row}

abbrev idle : String → ℕ → Result String × ℕ
idle answer w = (ok answer, w)

update_workflow_outcome_branches_test :
    (false ≡ true
      → update_workflow_outcome "a" Status.success (some "42") none 9 db0
        ≡ (err (awaited_workflow_cancelled "a"), db0))
    × (false ≡ false
        → ((update_workflow_outcome "a" Status.success (some "42") none 9 db0).0 ≡ ok tt)
          × (find_workflow "a" (update_workflow_outcome "a" Status.success (some "42") none 9 db0).1
              ≡ some (finished Status.success (some "42") none 9 running)))
unfolding find_row
update_workflow_outcome_branches_test =
    update_workflow_outcome_branches "a" Status.success (some "42") none 9 db0 running
      db0-HasPrimaryKey refl

cancel_workflows_stops_example :
    (call_function_as_step codecs
        (some "local")
        (record { is_transaction = false; workflow = some ("a", 1) })
        (idle "paid")
        "charge"
        10
        12
        (cancel_workflows ("a" ∷ []) 5 db0)
        0
      ≡ (err (workflow_cancelled "a"), cancel_workflows ("a" ∷ []) 5 db0, 0))
    × (update_workflow_outcome "a" Status.success
          (some "42")
          none
          12
          (cancel_workflows ("a" ∷ []) 5 db0)
        ≡ (err (awaited_workflow_cancelled "a"), cancel_workflows ("a" ∷ []) 5 db0))
    × (check_workflow_result codecs "a" (cancel_workflows ("a" ∷ []) 5 db0)
        ≡ some (err (awaited_workflow_cancelled "a")))
unfolding find_row
cancel_workflows_stops_example =
    cancel_workflows_stops codecs (some "local") ("a" ∷ []) "a" 5 1 "charge" (idle "paid") 10 12
      Status.success (some "42") none db0 0 running db0-HasPrimaryKey refl refl refl

resume-cancel_replays_example :
    (find_workflow "b"
        (resume_workflows ("b" ∷ []) (some "q") 9 (cancel_workflows ("b" ∷ []) 5 db0))
      ≡ some (record waiting {
        status = enqueued;
        queue_name = some "q";
        recovery_attempts = 0;
        workflow_deadline_epoch_ms = none;
        deduplication_id = none;
        started_at_epoch_ms = none;
        completed_at = none;
        updated_at = 9;
      }))
    × (check_operation_execution "b" 1 "charge"
          (resume_workflows ("b" ∷ []) (some "q") 9 (cancel_workflows ("b" ∷ []) 5 db0))
        ≡ check_operation_execution "b" 1 "charge" db0)
unfolding find_row
resume-cancel_replays_example =
    resume-cancel_replays ("b" ∷ []) (some "q") "b" 5 9 1 "charge" db0 waiting refl refl refl refl
