-- ===== src/Start/Tests.antt =====
-- Workflows started, started again and recovered.
use dbos_workload.Prelude.{compares_option, compares_text, false, none, refl, some, true, ◌≡◌}
use dbos_workload.Start.{NewWorkflow, Started, fresh_row, init_workflow}
use dbos_workload.Fixtures.{db0, new_workflow}
use dbos_workload.Schema.{SysDb, enqueued, pending}
use dbos_workload.Start.Recovery.{init_workflow_once}
use dbos_workload.Steps.{find_workflow}
use dbos_workload.Transaction.{Result, ok}
use dbos_workload.Table.{any_where, find_row, update_where}

abbrev fresh : NewWorkflow
fresh = new_workflow "d" pending

abbrev first : Result Started × SysDb
first = init_workflow fresh (some 3) (some "x1") false false 10 db0

abbrev asked_again : NewWorkflow
asked_again = record fresh {
  status = enqueued;
  workflow_deadline_epoch_ms = some 99;
  serialization = none;
}

init_workflow_once_example :
    (true ≡ true)
    × ((init_workflow asked_again (some 0) (some "x2") false false 11 first.1).0
        ≡ ok (record {
          status = pending;
          deadline = none;
          should_execute = false;
          serialization = some "plain";
        }))
    × (find_workflow "d" (init_workflow asked_again (some 0) (some "x2") false false 11 first.1).1
        ≡ some (record (fresh_row fresh (some "x1") 10) { updated_at = 11 }))
unfolding init_workflow find_row any_where update_where
init_workflow_once_example =
    init_workflow_once fresh asked_again (some 3) (some 0) (some "x1") (some "x2") false false 10 11
      db0
      (record {
        status = pending;
        deadline = none;
        should_execute = true;
        serialization = some "plain";
      })
      refl refl refl refl refl refl
