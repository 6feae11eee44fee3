-- ===== src/Events/Tests.antt =====
-- An event set, got, and set again by a replay.
use dbos_workload.Events.{get_event_consume}
use dbos_workload.Events.Published.{set_event_from_workflow-get_event}
use dbos_workload.Fixtures.{codecs, codecs-AllReadBack, codecs-NamesAgree, db0}
use dbos_workload.Prelude.{none, refl, some, ◌≡◌}
use dbos_workload.Schema.{SysDb}
use dbos_workload.Transaction.{Result, ok}
use dbos_workload.Table.{find_row, any_where, update_where}
use dbos_workload.Serialization.{serialize_value}
use dbos_workload.Steps.{record_operation_result_txn, check_operation_execution}
use dbos_workload.Events.{set_event_from_workflow, publish_step, publish}

abbrev told : Result (Unit {0}) × SysDb
told = set_event_from_workflow codecs (some "local") "a" 1 "progress" "half" none 10 12 db0

told_test : told ≡ (ok tt, told.1)
unfolding set_event_from_workflow publish_step publish find_row any_where update_where
    serialize_value record_operation_result_txn check_operation_execution
told_test = refl

set_event_from_workflow-get_event_example :
    (get_event_consume codecs (some "local") "a" "progress" 20 22 none told.1 ≡ (ok "half", told.1))
    × (set_event_from_workflow codecs (some "local") "a" 1 "progress" "full" none 20 22 told.1
        ≡ (ok tt, told.1))
unfolding find_row check_operation_execution serialize_value
set_event_from_workflow-get_event_example =
    set_event_from_workflow-get_event codecs (some "local") "a" 1 "progress" "half" "full" none 10
      12 20 22 db0 told.1 "full" "plain" (codecs-AllReadBack "half") (codecs-NamesAgree "half") refl
      told_test refl
