-- ===== src/Operations/Tests.antt =====
-- A run of operations on two queued workflows.
use dbos_workload.Dequeue.{QueueConfig}
use dbos_workload.Fixtures.{codecs, db0, db0-HasPrimaryKey}
use dbos_workload.Operations.{Operation, run_all}
use dbos_workload.Operations.History.{HasPrimaryKey-run_all, run_all_checkpoints}
use dbos_workload.Prelude.{List, [], none, some, ◌∷◌}
use dbos_workload.Schema.{SysDb}
use dbos_workload.Steps.{OperationResult, find_step, operation_row}
use dbos_workload.Table.{find_row}
use dbos_workload.Workflow.Lookup.{HasPrimaryKey}
use dbos_workload.Prelude.{String, ◌≡◌, refl}
use dbos_workload.Operations.{dequeue, record_step, finish, cancel, resume, delete, succeeded}

abbrev charge : OperationResult
charge = record {
  workflow_uuid = "b";
  function_id = 1;
  function_name = "charge";
  output = some "paid";
  error = none;
  serialization = some "plain";
  started_at_epoch_ms = none;
}

abbrev open_queue : QueueConfig
open_queue = record { name = "q"; concurrency = none; worker_concurrency = none; limiter = none }

abbrev history : List (Operation String)
history =
    dequeue open_queue "x1" "v1" none 0 100 101
    ∷ record_step charge 110
    ∷ cancel ("b" ∷ []) 120
    ∷ resume ("b" ∷ []) (some "q") 130
    ∷ finish "b" succeeded (some "paid") none 140
    ∷ delete ("c" ∷ [])
    ∷ cancel ("b" ∷ []) 150
    ∷ []

abbrev db1 : SysDb
db1 = record db0 { operation_outputs = operation_row charge 7 ∷ [] }

run_all_checkpoints_example :
    find_step "b" 1 (run_all codecs (some "x1") history db1) ≡ some (operation_row charge 7)
unfolding find_row
run_all_checkpoints_example =
    run_all_checkpoints codecs (some "x1") "b" history db1 1 (operation_row charge 7)
      (refl, (refl, (refl, (refl, (refl, (refl, (refl, tt))))))) refl

HasPrimaryKey-run_all_test : HasPrimaryKey (run_all codecs (some "x1") history db0)
HasPrimaryKey-run_all_test = HasPrimaryKey-run_all codecs (some "x1") history db0 db0-HasPrimaryKey
