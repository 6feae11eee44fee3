-- ===== src/Executor/Tests.antt =====
-- A workflow that returns, one that is cancelled meanwhile, and the set of active workflows.
use dbos_workload.Executor.{Body, InvokedStatus, persist, returned}
use dbos_workload.Executor.Outcome.{PlainIsWritten}
use dbos_workload.Executor.Recorded.{IsRecordedAs, persist-cancelled, persist_records}
use dbos_workload.Fixtures.{
  codecs, codecs-AllReadBack, db0, db0-HasPrimaryKey, fault_codecs, running,
}
use dbos_workload.Prelude.{[], none, some, suc, ◌∷◌}
use dbos_workload.Schema.{pending}
use dbos_workload.Serialization.{serialize_value_as}
use dbos_workload.Table.{any_where, find_row, update_where}
use dbos_workload.Transaction.{Error, awaited_workflow_cancelled, dbos_exception, err, ok}
use dbos_workload.Workflow.{cancel_workflows, cancel_row, check_workflow_result}
use dbos_workload.Prelude.{String, ◌≡◌, refl, ℕ}

abbrev invoked : InvokedStatus
invoked = record {
  workflow_uuid = "a";
  status = pending;
  serialization = some "plain";
  queue_name = none;
  queue_partition_key = none;
}

abbrev plain : Error → Error
plain e = dbos_exception

abbrev pays : Body ℕ String
pays db calls = (ok "paid", db, suc calls)

abbrev pays_too_late : Body ℕ String
pays_too_late db calls = (ok "paid", cancel_workflows ("a" ∷ []) 9 db, suc calls)

faults-PlainIsWritten : PlainIsWritten fault_codecs plain (some "plain")
unfolding serialize_value_as
faults-PlainIsWritten e = (("fault", "plain"), refl)

persist_records_example :
    let (ended, after, world) = persist codecs fault_codecs plain invoked 5 pays db0 0 in
    (ended ≡ returned (ok "paid"))
    × (world ≡ 1)
    × IsRecordedAs codecs fault_codecs plain
        (some "plain")
        (ok "paid")
        (check_workflow_result codecs "a" after)
unfolding find_row serialize_value_as
persist_records_example =
    persist_records codecs fault_codecs plain invoked 5 pays db0 0 (ok "paid") db0 1 running refl
      refl db0-HasPrimaryKey refl refl refl faults-PlainIsWritten
      (codecs-AllReadBack "paid", ("paid", "plain"), refl)

persist-cancelled_example :
    persist codecs fault_codecs plain invoked 10 pays_too_late db0 0
    ≡ (returned (err (awaited_workflow_cancelled "a")), cancel_workflows ("a" ∷ []) 9 db0, 1)
unfolding find_row serialize_value_as cancel_workflows update_where any_where
persist-cancelled_example =
    persist-cancelled codecs fault_codecs plain invoked 10 pays_too_late db0 0 (ok "paid")
      (cancel_workflows ("a" ∷ []) 9 db0) 1 (cancel_row 9 running) refl refl
      (refl, (refl, (refl, tt))) refl refl faults-PlainIsWritten
      (codecs-AllReadBack "paid", ("paid", "plain"), refl)
