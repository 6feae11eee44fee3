-- ===== src/Executor/Run/Tests.antt =====
-- Executions that are denied, are a second one, or come after a crash.
use dbos_workload.Executor.{Body, ExecutionEnd, InvokedStatus, awaits, persist, returned}
use dbos_workload.Executor.Active.{ActiveWorkflows, has_key}
use dbos_workload.Executor.Outcome.{PlainIsWritten}
use dbos_workload.Executor.Recorded.{IsRecordedAs}
use dbos_workload.Executor.Roles.{check_required_roles}
use dbos_workload.Executor.Run.{execute_workflow}
use dbos_workload.Executor.Run.Denied.{execute_workflow-denied}
use dbos_workload.Executor.Run.Exclusive.{entered, execute_workflow_exclusive, with_rivals}
use dbos_workload.Fixtures.{codecs, db0, db0-HasPrimaryKey, fault_codecs, running}
use dbos_workload.Prelude.{
  List, Option, String, [], arith, compares_text, eq_iff, false, mem, none, refl, some, subst, suc,
  sym, true, ℕ, ◌==◌, ◌∷◌, ◌≡◌,
}
use dbos_workload.Schema.{SysDb, pending}
use dbos_workload.Serialization.{serialize_value_as}
use dbos_workload.Table.{any_where, find_row}
use dbos_workload.Transaction.{Error, dbos_exception, err, not_authorized, ok}
use dbos_workload.Workflow.{check_workflow_result}

abbrev invoked : InvokedStatus
invoked = record {
  workflow_uuid = "a";
  status = pending;
  serialization = some "plain";
  queue_name = some "q";
  queue_partition_key = none;
}

abbrev plain : Error → Error
plain e = dbos_exception

abbrev pays : Body (ActiveWorkflows × ℕ) String
pays db (m, calls) = (ok "paid", db, (m, suc calls))

abbrev admins : Option (List String)
admins = some ("admin" ∷ [])

faults-PlainIsWritten : PlainIsWritten fault_codecs plain (some "plain")
unfolding serialize_value_as
faults-PlainIsWritten e = (("fault", "plain"), refl)

no_admin : (role : String) → mem role ("admin" ∷ []) ≡ true → mem role ("guest" ∷ []) ≡ false
no_admin role h =
    let same : role ≡ "admin" = ground (arith, eq_iff role "admin") in
    subst (λ r. mem r ("guest" ∷ []) ≡ false) (sym same) refl

execute_workflow-denied_example :
    let (ended, m', after, world) =
      execute_workflow codecs fault_codecs plain invoked 5 admins none
        (some ("guest" ∷ []))
        pays
        []
        db0
        0 in
    (ended ≡ returned (err not_authorized))
    × (m' ≡ [])
    × (world ≡ 0)
    × IsRecordedAs codecs fault_codecs plain
        (some "plain")
        (err not_authorized)
        (check_workflow_result codecs "a" after)
unfolding find_row
execute_workflow-denied_example =
    execute_workflow-denied codecs fault_codecs plain invoked 5 admins none "admin" []
      ("guest" ∷ []) pays [] db0 0 running refl no_admin db0-HasPrimaryKey refl refl refl
      faults-PlainIsWritten

abbrev admin : Option (List String)
admin = some ("admin" ∷ [])

abbrev executes :
    Body (ActiveWorkflows × ℕ) String
    → ActiveWorkflows
    → SysDb
    → ℕ
    → ExecutionEnd String × ActiveWorkflows × SysDb × ℕ
executes = execute_workflow codecs fault_codecs plain invoked 5 admins none admin

-- Another execution of the workflow is attempted while this one pays.
abbrev pays_with_rivals : Body (ActiveWorkflows × ℕ) String
pays_with_rivals =
    with_rivals codecs fault_codecs plain admins none invoked invoked 5 6 admin admin (some "admin")
      (some "admin") pays pays

execute_workflow_exclusive_example :
    (executes pays_with_rivals [] db0 0 ≡ executes pays [] db0 0)
    × (any_where (has_key "a") [] ≡ true → executes pays [] db0 0 ≡ (awaits, [], db0, 0))
    × (any_where (has_key "a") [] ≡ false
        → let (ended, after, (left, world)) =
            persist codecs fault_codecs plain invoked 5 pays db0 (entered invoked [], 0) in
          let (ended', m', after', world') = executes pays [] db0 0 in
          (ended' ≡ ended)
          × (after' ≡ after)
          × (world' ≡ world)
          × (any_where (has_key "a") m' ≡ false)
          × ((id : String)
              → ("a" == id) ≡ false
              → any_where (has_key id) m' ≡ any_where (has_key id) left))
unfolding check_required_roles
execute_workflow_exclusive_example =
    execute_workflow_exclusive codecs fault_codecs plain admins none invoked invoked 5 6 admin admin
      (some "admin") (some "admin") pays pays refl refl refl (λ db m w h. h) [] db0 0
