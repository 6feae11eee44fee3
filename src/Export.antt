-- ===== src/Export.antt =====
-- `export_workflow` and `import_workflow` of dbos/_sys_db.py: the rows of workflows, taken from one
-- database and put into another. A dictionary that an older version exported, which lacks columns,
-- is left out.
pub mod Rows
pub mod Children
pub mod Roundtrip
mod Tests
use dbos_workload.Prelude.{
  Bool, List, [], ◌∷◌, ◌++◌, ◌&&◌, ◌==◌, ◌||◌, compares_nat, compares_text, if◌then◌else◌, is_some,
  none, not, some, false, true,
}
use dbos_workload.Prelude.{String, Option, ℕ}
use dbos_workload.Schema.{EventHistoryRow, EventRow, OperationRow, StreamRow, SysDb, WorkflowRow}
use mathlib.Core.Option.{map}
use dbos_workload.Cascade.{get_workflow_children}
use dbos_workload.Start.{insert_workflow}
use dbos_workload.Steps.{find_workflow}
use dbos_workload.Table.{any_where, select}
use dbos_workload.Transaction.{Result, err, integrity, nonexistent_workflow, ok}
use dbos_workload.Workflow.Lookup.{same_dedup, same_uuid}

pub record ExportedWorkflow : Type 0 where
  pub workflow_status : WorkflowRow
  pub operation_outputs : List OperationRow
  pub workflow_events : List EventRow
  pub workflow_events_history : List EventHistoryRow
  pub streams : List StreamRow

-- owner_xid is left out.
abbrev pub exported_row : WorkflowRow → WorkflowRow
exported_row r = record r { owner_xid = none }

abbrev pub exported : String → SysDb → WorkflowRow → ExportedWorkflow
exported id db r = record {
  workflow_status = exported_row r;
  operation_outputs = select (λ o. o.workflow_uuid == id) db.operation_outputs;
  workflow_events = select (λ e. e.workflow_uuid == id) db.workflow_events;
  workflow_events_history = select (λ e. e.workflow_uuid == id) db.workflow_events_history;
  streams = select (λ w. w.workflow_uuid == id) db.streams;
}

abbrev pub and_exported :
    String
    → SysDb
    → Option WorkflowRow
    → Result (List ExportedWorkflow)
    → Result (List ExportedWorkflow)
and_exported id db none rest = err nonexistent_workflow
and_exported id db (some r) (err e) = err e
and_exported id db (some r) (ok ws) = ok (exported id db r ∷ ws)

unfoldable pub export_workflow : List String → SysDb → Result (List ExportedWorkflow)
export_workflow [] db = ok []
export_workflow (id ∷ ids) db = and_exported id db (find_workflow id db) (export_workflow ids db)

-- The workflow comes first, then its children where they are exported too; `rounds` bounds the walk
-- over them.
unfoldable pub exported_ids : ℕ → Bool → String → SysDb → Option (List String)
exported_ids rounds export_children id db =
    if export_children
    then map (λ ids. id ∷ ids) (get_workflow_children rounds id db)
    else some (id ∷ [])

unfoldable pub export_with_children :
    ℕ → Bool → String → SysDb → Option (Result (List ExportedWorkflow))
export_with_children rounds export_children id db =
    map (λ ids. export_workflow ids db) (exported_ids rounds export_children id db)

-- The primary keys.
abbrev pub same_step : OperationRow → OperationRow → Bool
same_step a b = a.workflow_uuid == b.workflow_uuid && a.function_id == b.function_id

abbrev pub same_event : EventRow → EventRow → Bool
same_event a b = a.workflow_uuid == b.workflow_uuid && a.key == b.key

abbrev pub same_history : EventHistoryRow → EventHistoryRow → Bool
same_history a b =
    a.workflow_uuid == b.workflow_uuid && a.key == b.key && a.function_id == b.function_id

abbrev pub same_write : StreamRow → StreamRow → Bool
same_write a b = a.workflow_uuid == b.workflow_uuid && a.key == b.key && a.offset == b.offset

-- INSERT of one row after another: none where a row has the primary key of another, or where its
-- workflow is not there, as the foreign key wants.
unfoldable pub insert_rows :
    {A : Type 0} → (A → A → Bool) → (A → Bool) → List A → List A → Option (List A)
insert_rows same refers rows [] = some rows
insert_rows same refers rows (x ∷ xs) =
    let rest = insert_rows same refers (rows ++ (x ∷ [])) xs in
    if refers x && not (any_where (same x) rows) then rest else none

infixl 5 ◌>>=◌
abbrev pub ◌>>=◌ : {A B : Type 0} → Option A → (A → Option B) → Option B
none >>= f = none
some a >>= f = f a

abbrev pub is_known : SysDb → String → Bool
is_known db id = is_some (find_workflow id db)

unfoldable pub insert_status : WorkflowRow → SysDb → Option SysDb
insert_status r db =
    if any_where (same_uuid r) db.workflow_status || any_where (same_dedup r) db.workflow_status
    then none
    else some (insert_workflow r db)

unfoldable pub import_rows : ExportedWorkflow → SysDb → Option SysDb
import_rows w db = do
  steps ←
      insert_rows same_step (λ o. is_known db o.workflow_uuid) db.operation_outputs
        w.operation_outputs
  events ←
      insert_rows same_event (λ e. is_known db e.workflow_uuid) db.workflow_events w.workflow_events
  history ←
      insert_rows same_history (λ e. is_known db e.workflow_uuid) db.workflow_events_history
        w.workflow_events_history
  writes ← insert_rows same_write (λ x. is_known db x.workflow_uuid) db.streams w.streams
  some (record db {
    operation_outputs = steps;
    workflow_events = events;
    workflow_events_history = history;
    streams = writes;
  })

unfoldable pub import_each : List ExportedWorkflow → SysDb → Option SysDb
import_each [] db = some db
import_each (w ∷ ws) db = do
  with_status ← insert_status w.workflow_status db
  with_rows ← import_rows w with_status
  import_each ws with_rows

-- A statement that fails raises an IntegrityError, and what came before it is rolled back.
abbrev pub end_import : SysDb → Option SysDb → Result (Unit {0}) × SysDb
end_import before none = (err integrity, before)
end_import before (some db) = (ok tt, db)

unfoldable pub import_workflow : List ExportedWorkflow → SysDb → Result (Unit {0}) × SysDb
unfolding import_each
import_workflow ws db = end_import db (import_each ws db)
