-- ===== src/Export/Tests.antt =====
-- A workflow with one step, exported and imported, and a family of workflows.
use dbos_workload.Export.{export_workflow, exported, import_workflow}
use dbos_workload.Export.Roundtrip.{HasKeys, IsAbsent, export_workflow-import_workflow}
use dbos_workload.Fixtures.{db0, running, workflow_row}
use dbos_workload.Prelude.{List, String, [], none, refl, some, ℕ, ◌∷◌, ◌≡◌}
use dbos_workload.Schema.{SysDb, WorkflowRow, empty_db, pending}
use dbos_workload.Steps.{check_operation_execution, insert_step, operation_row}
use dbos_workload.Steps.Call.{step_result}
use dbos_workload.Table.{any_where, find_row, select}
use dbos_workload.Transaction.{ok}

abbrev source : SysDb
source = insert_step (operation_row (step_result "a" 1 "charge" (some "paid") none 10) 12) db0

abbrev target : SysDb
target = record empty_db { workflow_status = workflow_row "z" pending none 4 ∷ [] }

source-HasKeys : HasKeys source
unfolding any_where
source-HasKeys = record { steps = (refl, tt); events = tt; history = tt; writes = tt }

target-IsAbsent : IsAbsent "a" target
unfolding any_where find_row
target-IsAbsent = record { row = refl; steps = refl; events = refl; history = refl; writes = refl }

export_workflow-import_workflow_example :
    ((import_workflow (exported "a" source running ∷ []) target).0 ≡ ok tt)
    × (export_workflow ("a" ∷ []) (import_workflow (exported "a" source running ∷ []) target).1
        ≡ ok (exported "a" source running ∷ []))
    × ((n : ℕ) (name : String)
        → check_operation_execution "a" n name
            (import_workflow (exported "a" source running ∷ []) target).1
          ≡ check_operation_execution "a" n name source)
unfolding find_row any_where export_workflow select
export_workflow-import_workflow_example =
    export_workflow-import_workflow "a" source target running refl source-HasKeys target-IsAbsent
      refl (exported "a" source running ∷ []) refl

abbrev child_of : String → String → ℕ → WorkflowRow
child_of parent id t = record (workflow_row id pending none t) { parent_workflow_id = some parent }

-- "a", its child "b", a child "c" of that, and "z" beside them.
abbrev family : SysDb
family = record empty_db {
  workflow_status =
      running ∷ child_of "b" "c" 3 ∷ child_of "a" "b" 2 ∷ workflow_row "z" pending none 4 ∷ [];
}
