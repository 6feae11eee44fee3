-- ===== src/Steps/Tests.antt =====
-- Steps recorded and replayed.
use mathlib.Core.Bool.{false≢true}
use dbos_workload.Prelude.{eq_iff}
use dbos_workload.Steps.{record_child_workflow, insert_child, insert_referring}
use dbos_workload.Steps.Children.{record_child_workflow_once}
use dbos_workload.Transaction.{Result}
use dbos_workload.Schema.{SysDb}
use dbos_workload.Fixtures.{codecs-AllReadBack, codecs-NamesAgree, running}
use dbos_workload.Prelude.{arith, refl}
use dbos_workload.Serialization.Roundtrip.{deserialize_value-serialize_value_as}
use dbos_workload.Steps.{operation_row}
use dbos_workload.Steps.Recorded.{check-record, record-conflict, replayed}
use dbos_workload.Table.{find_row, update_where}
use dbos_workload.Serialization.{serialize_value_as, deserialize_value}
use dbos_workload.Steps.{
  insert_or_conflict, reset_executor, check_operation_execution, record_operation_result, ok, err,
  workflow_conflict_id,
}
use dbos_workload.Prelude.{some, ◌≡◌}
use dbos_workload.Steps.{
  OperationResult, SysDb, record_operation_result, check_operation_execution, find_row,
  insert_or_conflict, update_where, reset_executor,
}
use dbos_workload.Fixtures.{db0, codecs}
use dbos_workload.Steps.Call.{step_result}

abbrev charge : OperationResult
charge = step_result "a" 1 "charge" (some "paid") (some "plain") 10

abbrev db1 : SysDb
db1 = (record_operation_result (some "local") charge 12 db0).1

test : (record_operation_result (some "local") charge 12 db0).0 ≡ ok tt
unfolding record_operation_result find_row insert_or_conflict reset_executor
test = refl

check-record_example : check_operation_execution "a" 1 "charge" db1 ≡ ok (some (replayed charge))
unfolding check_operation_execution record_operation_result find_row update_where
check-record_example = check-record (some "local") charge 12 db0 refl refl

record-conflict_test :
    record_operation_result (some "local") charge 15 db1 ≡ (err (workflow_conflict_id "a"), db1)
unfolding record_operation_result find_row update_where
record-conflict_test =
    record-conflict (some "local") charge 15 12 db1 running (operation_row charge 12) refl refl refl
      refl (omega arith)

deserialize_value-serialize_value_as_example :
    deserialize_value codecs (some "paid") (some "portable_json") ≡ ok "paid"
unfolding serialize_value_as
deserialize_value-serialize_value_as_example =
    deserialize_value-serialize_value_as codecs "paid" (codecs-AllReadBack "paid")
      (codecs-NamesAgree "paid") (some "portable_json") "paid" "portable_json" refl

abbrev with_child : Result (Unit {0}) × SysDb
with_child = record_child_workflow "a" "a-1" 1 "ship" db0

with_child_test : with_child ≡ (ok tt, with_child.1)
unfolding record_child_workflow insert_child insert_referring find_row
with_child_test = refl

record_child_workflow_once_test :
    (record_child_workflow "a" "a-1" 1 "ship" with_child.1 ≡ (ok tt, with_child.1))
    × (record_child_workflow "a" "a-2" 1 "ship" with_child.1
        ≡ (err (workflow_conflict_id "a"), with_child.1))
record_child_workflow_once_test =
    record_child_workflow_once "a" "a-1" "a-2" 1 "ship" "ship" db0 with_child.1 with_child_test refl
      (λ e. false≢true ((eq_iff "a-2" "a-1").1 e))
