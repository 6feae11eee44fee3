-- ===== src/Durable/Tests.antt =====
-- A workflow that charges, and then ships, and is started again after the charge.
use dbos_workload.Durable.{
  Clock, IsRecorded, Program, Reaches, calls, others, raises, records, returns, run_body, run_step,
  starts,
}
use dbos_workload.Durable.Recovery.{run_body_recovers}
use dbos_workload.Execution.{StepOptions, call_step, invoke_step, record_step_result}
use dbos_workload.Executor.{InvokedStatus, returned}
use dbos_workload.Executor.Outcome.{PlainIsWritten}
use dbos_workload.Executor.Recorded.{IsPersistable, IsRecordedAs}
use dbos_workload.Executor.Roles.{check_required_roles}
use dbos_workload.Workflow.{cancel_workflows, check_workflow_result}
use dbos_workload.Executor.Run.{execute_workflow}
use dbos_workload.Executor.Run.Recovered.{beside, execute_workflow_recovers}
use dbos_workload.Fixtures.{
  codecs, codecs-AllReadBack, codecs-NamesAgree, db0, fault_codecs, running,
}
use dbos_workload.Operations.{cancel, run}
use dbos_workload.Prelude.{List, String, [], false, none, refl, some, suc, ℕ, ◌+◌, ◌∷◌, ◌≡◌}
use dbos_workload.Schema.{SysDb, pending}
use dbos_workload.Serialization.{deserialize_value, serialize_value, serialize_value_as}
use dbos_workload.Steps.{OperationResult, check_operation_execution, record_operation_result}
use dbos_workload.Steps.Call.{step_result}
use dbos_workload.Table.{any_where, find_row, update_where}
use dbos_workload.Transaction.{Error, Result, dbos_exception, err, ok}

abbrev step_named : String → StepOptions
step_named name = record {
  step_name = name;
  retries_allowed = false;
  max_attempts = 3;
  pause = λ attempt. 1000;
  should_retry = none;
}

abbrev exhausted : String → ℕ → List Error → Error
exhausted name attempts errors = dbos_exception

abbrev clock : Clock
clock = record { started = λ n. 10 + n; completed = λ n. 20 + n }

-- The world counts what was charged and what was shipped.
abbrev World : Type 0
World = ℕ × ℕ

abbrev charge : World → Result String × World
charge (charged, shipped) = (ok "paid", (suc charged, shipped))

abbrev ship : World → Result String × World
ship (charged, shipped) = (ok "shipped", (charged, suc shipped))

abbrev finish : Result String → Program String World
finish (ok v) = returns v
finish (err e) = raises e

abbrev then_ship : Result String → Program String World
then_ship (ok v) = calls (step_named "ship") ship finish
then_ship (err e) = raises e

abbrev order : Program String World
order = calls (step_named "charge") charge then_ship

abbrev charged : OperationResult
charged = step_result "a" 1 "charge" (some "paid") (some "plain") 11

abbrev after_charge : SysDb
after_charge = (record_operation_result (some "local") charged 21 db0).1

-- The charge is recorded, another client cancels "b" and the world moves on.
abbrev after_cancel : SysDb
after_cancel = run codecs none (cancel ("b" ∷ []) 30) after_charge

charge-IsRecorded :
    IsRecorded codecs fault_codecs
      (some "local")
      exhausted
      "a"
      clock
      (step_named "charge")
      charge
      1
      db0
      (0, 0)
      (ok "paid")
      charged
unfolding call_step check_operation_execution record_operation_result find_row serialize_value
charge-IsRecorded = record {
  fresh = refl;
  tried = refl;
  kept = refl;
  back = (codecs-AllReadBack "paid", codecs-NamesAgree "paid");
  made = refl;
  done = refl;
}

charged_order :
    Reaches codecs fault_codecs
      (some "local")
      exhausted
      "a"
      order
      (calls (step_named "ship") ship finish)
      1
      after_cancel
      (1, 0)
unfolding invoke_step record_step_result run_step call_step check_operation_execution
    record_operation_result find_row serialize_value
charged_order =
    others (cancel ("b" ∷ []) 30) none (1, 0)
      (records clock (starts db0 (0, 0)) charge-IsRecorded refl) refl

run_body_recovers_example :
    run_body codecs fault_codecs (some "local") exhausted "a" clock order 0 after_cancel (1, 0)
    ≡ run_body codecs fault_codecs
        (some "local")
        exhausted
        "a"
        clock
        (calls (step_named "ship") ship finish)
        1
        after_cancel
        (1, 0)
unfolding run find_row record_operation_result cancel_workflows update_where
run_body_recovers_example =
    run_body_recovers codecs fault_codecs (some "local") exhausted "a" clock (1, 0) running
      charged_order refl refl

-- The charge is not made again.
recovered_world_test :
    (run_body codecs fault_codecs (some "local") exhausted "a" clock order 0 after_charge (1, 0)).2
    ≡ (1, 1)
unfolding invoke_step record_step_result deserialize_value run_body run_step call_step
    check_operation_execution record_operation_result find_row serialize_value
recovered_world_test = refl

abbrev plain : Error → Error
plain e = dbos_exception

abbrev invoked : InvokedStatus
invoked = record {
  workflow_uuid = "a";
  status = pending;
  serialization = some "plain";
  queue_name = none;
  queue_partition_key = none;
}

abbrev from_start : SysDb → World → Result String × SysDb × World
from_start = run_body codecs fault_codecs (some "local") exhausted "a" clock order 0

-- The execution that goes on after the charge.
abbrev went_on : Result String × SysDb × World
went_on =
    run_body codecs fault_codecs (some "local") exhausted "a" clock
      (calls (step_named "ship") ship finish) 1 after_cancel (1, 0)

faults-PlainIsWritten : PlainIsWritten fault_codecs plain (some "plain")
unfolding serialize_value_as
faults-PlainIsWritten e = (("fault", "plain"), refl)

shipped-IsPersistable : IsPersistable codecs fault_codecs plain (some "plain") (ok "shipped")
unfolding serialize_value_as
shipped-IsPersistable = (codecs-AllReadBack "shipped", ("shipped", "plain"), refl)

execute_workflow_recovers_example :
    let (ended, m', after, world) =
      execute_workflow codecs fault_codecs plain invoked 50 none none none
        (beside from_start)
        []
        after_cancel
        (1, 0) in
    (ended ≡ returned (ok "shipped"))
    × (m' ≡ [])
    × (world ≡ (1, 1))
    × IsRecordedAs codecs fault_codecs plain
        (some "plain")
        (ok "shipped")
        (check_workflow_result codecs "a" after)
unfolding run find_row record_operation_result cancel_workflows update_where invoke_step
    record_step_result deserialize_value run_body run_step call_step check_operation_execution
    serialize_value any_where check_required_roles
execute_workflow_recovers_example =
    execute_workflow_recovers codecs fault_codecs (some "local") exhausted plain invoked 50 none
      none none none clock [] (1, 0) (1, 1) running running (ok "shipped") went_on.1 charged_order
      refl refl refl refl refl refl (refl, (refl, (refl, tt))) refl refl refl faults-PlainIsWritten
      shipped-IsPersistable
