-- ===== src/Export/Roundtrip.antt =====
-- What is imported is what was exported.
use dbos_workload.Export.{
  ExportedWorkflow, export_workflow, exported, exported_row, import_each, import_rows,
  import_workflow, insert_status, is_known, same_event, same_history, same_step, same_write,
}
use dbos_workload.Export.Rows.{find_added, insert_rows-select, select_added}
use dbos_workload.Prelude.{
  List, [], ◌∷◌, ◌++◌, ◌==◌, arith, compares_nat, compares_text, eq_iff, false, none, some, true,
  subst,
}
use dbos_workload.Prelude.{String, ◌≡◌, ℕ, refl}
use dbos_workload.Schema.{EventHistoryRow, EventRow, OperationRow, StreamRow, SysDb, WorkflowRow}
use dbos_workload.Operations.Evolution.{absent_uuid}
use dbos_workload.Start.{insert_workflow}
use dbos_workload.Steps.{by_uuid, check_operation_execution, find_workflow}
use dbos_workload.Table.{any_where, find_row, select}
use dbos_workload.Table.Distinct.{Distinct}
use dbos_workload.Table.Laws.{find_row-append, find_row-holds}
use dbos_workload.Transaction.{ok}
use dbos_workload.Workflow.Lookup.{same_dedup}

-- The primary keys of the tables that are exported.
pub record HasKeys (db : SysDb) : Type 0 where
  pub steps : Distinct same_step db.operation_outputs
  pub events : Distinct same_event db.workflow_events
  pub history : Distinct same_history db.workflow_events_history
  pub writes : Distinct same_write db.streams

-- No table has a row of the workflow.
pub record IsAbsent (id : String) (db : SysDb) : Type 0 where
  pub row : find_workflow id db ≡ none
  pub steps : any_where (λ (r : OperationRow). r.workflow_uuid == id) db.operation_outputs ≡ false
  pub events : any_where (λ (r : EventRow). r.workflow_uuid == id) db.workflow_events ≡ false
  pub history :
      any_where (λ (r : EventHistoryRow). r.workflow_uuid == id) db.workflow_events_history ≡ false
  pub writes : any_where (λ (r : StreamRow). r.workflow_uuid == id) db.streams ≡ false

step_sym : (a b : OperationRow) → same_step a b ≡ same_step b a
step_sym a b =
    ground (arith, eq_iff a.workflow_uuid b.workflow_uuid, eq_iff b.workflow_uuid a.workflow_uuid)

step_refers : (a b : OperationRow) → same_step a b ≡ true → a.workflow_uuid ≡ b.workflow_uuid
step_refers a b h = ground (arith, eq_iff a.workflow_uuid b.workflow_uuid)

event_sym : (a b : EventRow) → same_event a b ≡ same_event b a
event_sym a b = ground (
  arith,
  eq_iff a.workflow_uuid b.workflow_uuid,
  eq_iff b.workflow_uuid a.workflow_uuid,
  eq_iff a.key b.key,
  eq_iff b.key a.key,
)

event_refers : (a b : EventRow) → same_event a b ≡ true → a.workflow_uuid ≡ b.workflow_uuid
event_refers a b h = ground (arith, eq_iff a.workflow_uuid b.workflow_uuid)

history_sym : (a b : EventHistoryRow) → same_history a b ≡ same_history b a
history_sym a b = ground (
  arith,
  eq_iff a.workflow_uuid b.workflow_uuid,
  eq_iff b.workflow_uuid a.workflow_uuid,
  eq_iff a.key b.key,
  eq_iff b.key a.key,
)

history_refers :
    (a b : EventHistoryRow) → same_history a b ≡ true → a.workflow_uuid ≡ b.workflow_uuid
history_refers a b h = ground (arith, eq_iff a.workflow_uuid b.workflow_uuid)

write_sym : (a b : StreamRow) → same_write a b ≡ same_write b a
write_sym a b = ground (
  arith,
  eq_iff a.workflow_uuid b.workflow_uuid,
  eq_iff b.workflow_uuid a.workflow_uuid,
  eq_iff a.key b.key,
  eq_iff b.key a.key,
)

write_refers : (a b : StreamRow) → same_write a b ≡ true → a.workflow_uuid ≡ b.workflow_uuid
write_refers a b h = ground (arith, eq_iff a.workflow_uuid b.workflow_uuid)

module _ (id : String) (db into : SysDb) (r : WorkflowRow) (found : find_workflow id db ≡ some r)
    (keys : HasKeys db) (absent : IsAbsent id into)
    (free : any_where (same_dedup r) into.workflow_status ≡ false) where
  abbrev imported : SysDb
  imported = record (insert_workflow (exported_row r) into) {
    operation_outputs =
        into.operation_outputs ++ select (λ o. o.workflow_uuid == id) db.operation_outputs;
    workflow_events =
        into.workflow_events ++ select (λ e. e.workflow_uuid == id) db.workflow_events;
    workflow_events_history =
        into.workflow_events_history
        ++ select (λ e. e.workflow_uuid == id) db.workflow_events_history;
    streams = into.streams ++ select (λ w. w.workflow_uuid == id) db.streams;
  }

  find-imported : find_workflow id imported ≡ some (exported_row r)
  unfolding find_row
  find-imported = ground (
    arith,
    absent.row,
    find_row-append (by_uuid id) into.workflow_status (exported_row r ∷ []),
    find_row-holds (by_uuid id) db.workflow_status r found,
  )

  status_in : insert_status (exported_row r) into ≡ some (insert_workflow (exported_row r) into)
  unfolding insert_status
  status_in =
      let same =
        (eq_iff r.workflow_uuid id).0 (find_row-holds (by_uuid id) db.workflow_status r found) in
      let new : find_workflow r.workflow_uuid into ≡ none = rw same absent.row in
      rw (absent_uuid (exported_row r) into.workflow_status new, free) refl

  rows_in : import_rows (exported id db r) (insert_workflow (exported_row r) into) ≡ some imported
  unfolding import_rows
  rows_in =
      let known : is_known (insert_workflow (exported_row r) into) id ≡ true =
        rw find-imported refl in
      let knows = is_known (insert_workflow (exported_row r) into) in
      let steps =
        insert_rows-select same_step step_sym (λ o. o.workflow_uuid) step_refers id knows
          into.operation_outputs db.operation_outputs known absent.steps keys.steps in
      let events =
        insert_rows-select same_event event_sym (λ e. e.workflow_uuid) event_refers id knows
          into.workflow_events db.workflow_events known absent.events keys.events in
      let history =
        insert_rows-select same_history history_sym (λ e. e.workflow_uuid) history_refers id knows
          into.workflow_events_history db.workflow_events_history known absent.history
          keys.history in
      let writes =
        insert_rows-select same_write write_sym (λ w. w.workflow_uuid) write_refers id knows
          into.streams db.streams known absent.writes keys.writes in
      rw (steps, events, history, writes) refl

  import-exported : import_workflow (exported id db r ∷ []) into ≡ (ok tt, imported)
  unfolding import_workflow import_each
  import-exported = rw (status_in, rows_in) refl

  exported-imported : exported id imported (exported_row r) ≡ exported id db r
  exported-imported = λ i. record {
    workflow_status = exported_row r;
    operation_outputs =
        select_added (λ o. o.workflow_uuid == id) into.operation_outputs db.operation_outputs
          absent.steps i;
    workflow_events =
        select_added (λ e. e.workflow_uuid == id) into.workflow_events db.workflow_events
          absent.events i;
    workflow_events_history =
        select_added (λ e. e.workflow_uuid == id) into.workflow_events_history
          db.workflow_events_history absent.history i;
    streams = select_added (λ w. w.workflow_uuid == id) into.streams db.streams absent.writes i;
  }

  check-imported :
      (n : ℕ) (name : String)
      → check_operation_execution id n name imported ≡ check_operation_execution id n name db
  unfolding check_operation_execution
  check-imported n name =
      let step =
        find_added (λ o. o.workflow_uuid == id) (λ o. o.function_id == n) into.operation_outputs
          db.operation_outputs absent.steps in
      rw (find-imported, step, found) refl

  -- A workflow that is exported from one database can be imported into another that has no row of it
  -- and where its deduplication ID is free: the import does not raise, and what the other database
  -- exports of the workflow afterwards is what was exported, and each step of the workflow is replayed
  -- there as it is here. The tables of the first have their primary keys.
  pub export_workflow-import_workflow :
      (ws : List ExportedWorkflow)
      → export_workflow (id ∷ []) db ≡ ok ws
      → ((import_workflow ws into).0 ≡ ok tt)
        × (export_workflow (id ∷ []) (import_workflow ws into).1 ≡ ok ws)
        × ((n : ℕ) (name : String)
            → check_operation_execution id n name (import_workflow ws into).1
              ≡ check_operation_execution id n name db)
  unfolding export_workflow
  export_workflow-import_workflow ws made =
      let first : ok (exported id db r ∷ []) ≡ ok ws = rw found at made in
      let same : (exported id db r ∷ []) ≡ ws = cc in
      subst
        (λ us.
          ((import_workflow us into).0 ≡ ok tt)
          × (export_workflow (id ∷ []) (import_workflow us into).1 ≡ ok us)
          × ((n : ℕ) (name : String)
              → check_operation_execution id n name (import_workflow us into).1
                ≡ check_operation_execution id n name db))
        same (rw import-exported (refl, rw (find-imported, exported-imported) refl, check-imported))
