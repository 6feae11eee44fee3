-- ===== src/Steps/Recorded.antt =====
-- What is recorded is found again: the checkpoint table as a write-once map.
use dbos_workload.Prelude.{
  ℕ, String, ◌≡◌, ◌≢◌, refl, Option, none, some, [], ◌∷◌, arith, compares_nat, compares_text,
  eq_refl, beq_refl, ap,
}
use dbos_workload.Table.{find_row}
use dbos_workload.Table.Laws.{find_row-append, find_row-update_where}
use dbos_workload.Schema.{Status, WorkflowRow, OperationRow, SysDb}
use dbos_workload.Transaction.{workflow_conflict_id, ok, err, Conn}
use dbos_workload.Steps.{
  OperationResult, RecordedResult, by_uuid, by_step, find_workflow, find_step, insert_step,
  set_executor, operation_row, record_operation_result, check_operation_execution,
  record_operation_result_txn,
}

-- A step that is inserted where there is none is the one that is found.
pub find_step-insert_step :
    (row : OperationRow) (db : SysDb)
    → find_step row.workflow_uuid row.function_id db ≡ none
    → find_step row.workflow_uuid row.function_id (insert_step row db) ≡ some row
unfolding find_row
find_step-insert_step row db h = ground (
  arith,
  find_row-append (by_step row.workflow_uuid row.function_id) db.operation_outputs (row ∷ []),
  eq_refl row.workflow_uuid,
  beq_refl row.function_id,
)

-- The executor reset changes no workflow's status.
abbrev pub status_of : Option WorkflowRow → Option Status
status_of none = none
status_of (some r) = some r.status

pub status_of-set_executor :
    (executor : Option String) (id j : String) (db : SysDb)
    → status_of (find_workflow j (set_executor executor id db)) ≡ status_of (find_workflow j db)
status_of-set_executor executor id j db = ground (
  arith,
  find_row-update_where (by_uuid j) (by_uuid id)
      (λ (r : WorkflowRow). record r { executor_id = executor }) db.workflow_status (λ r. refl),
)

-- The same inside a transaction.
pub find_step-record_txn :
    (own : Option String) (res : OperationResult) (t : ℕ) (c : Conn)
    → find_step res.workflow_uuid res.function_id c.work ≡ none
    → (record_operation_result_txn own res t c).0 ≡ ok tt
    → find_step res.workflow_uuid res.function_id (record_operation_result_txn own res t c).1.work
      ≡ some (operation_row res t)
unfolding record_operation_result_txn
find_step-record_txn own res t c fresh done = ground (
  arith,
  find_step-insert_step (operation_row res t) c.work,
  find_step-insert_step (operation_row res t) (set_executor own res.workflow_uuid c.work),
)

-- Recording writes the checkpoints and the executor, and no message.
pub notifications-record_txn :
    (own : Option String) (res : OperationResult) (t : ℕ) (c : Conn)
    → (record_operation_result_txn own res t c).1.work.notifications ≡ c.work.notifications
unfolding record_operation_result_txn
notifications-record_txn own res t c = ground arith

pub events-record_txn :
    (own : Option String) (res : OperationResult) (t : ℕ) (c : Conn)
    → (record_operation_result_txn own res t c).1.work.workflow_events ≡ c.work.workflow_events
unfolding record_operation_result_txn
events-record_txn own res t c = ground arith

pub streams-record_txn :
    (own : Option String) (res : OperationResult) (t : ℕ) (c : Conn)
    → (record_operation_result_txn own res t c).1.work.streams ≡ c.work.streams
unfolding record_operation_result_txn
streams-record_txn own res t c = ground arith

pub status_of-record_txn :
    (own : Option String) (res : OperationResult) (t : ℕ) (c : Conn) (id : String)
    → status_of (find_workflow id (record_operation_result_txn own res t c).1.work)
      ≡ status_of (find_workflow id c.work)
unfolding record_operation_result_txn
status_of-record_txn own res t c id =
    ground (arith, status_of-set_executor own res.workflow_uuid id c.work)

-- The step's row after a record that did not raise.
pub find_step-record :
    (own : Option String) (res : OperationResult) (t : ℕ) (db : SysDb)
    → find_step res.workflow_uuid res.function_id db ≡ none
    → (record_operation_result own res t db).0 ≡ ok tt
    → find_step res.workflow_uuid res.function_id (record_operation_result own res t db).1
      ≡ some (operation_row res t)
unfolding record_operation_result
find_step-record own res t db fresh done = ground (
  arith,
  find_step-insert_step (operation_row res t) db,
  find_step-insert_step (operation_row res t) (set_executor own res.workflow_uuid db),
)

pub status_of-record :
    (own : Option String) (res : OperationResult) (t : ℕ) (db : SysDb) (id : String)
    → status_of (find_workflow id (record_operation_result own res t db).1)
      ≡ status_of (find_workflow id db)
unfolding record_operation_result
status_of-record own res t db id =
    ground (arith, status_of-set_executor own res.workflow_uuid id db)

-- A row of the checkpoint table, as the code that replays it sees it.
abbrev pub replayed : OperationResult → RecordedResult
replayed res = record {
  output = res.output;
  error = res.error;
  serialization = res.serialization;
  child_workflow_id = none;
}

-- If the check before a step finds nothing to replay, and recording the step's result then does not
-- raise, a check of that step afterwards finds exactly the recorded output, error and format.
pub check-record :
    (own : Option String) (res : OperationResult) (t : ℕ) (db : SysDb)
    → check_operation_execution res.workflow_uuid res.function_id res.function_name db ≡ ok none
    → (record_operation_result own res t db).0 ≡ ok tt
    → check_operation_execution res.workflow_uuid res.function_id res.function_name
        (record_operation_result own res t db).1
      ≡ ok (some (replayed res))
unfolding check_operation_execution
check-record own res t db fresh done = ground (
  arith,
  find_step-record own res t db,
  status_of-record own res t db res.workflow_uuid,
  eq_refl res.function_name,
)

-- The same inside a transaction.
pub check-record_txn :
    (own : Option String) (res : OperationResult) (t : ℕ) (c : Conn)
    → check_operation_execution res.workflow_uuid res.function_id res.function_name c.work ≡ ok none
    → (record_operation_result_txn own res t c).0 ≡ ok tt
    → check_operation_execution res.workflow_uuid res.function_id res.function_name
        (record_operation_result_txn own res t c).1.work
      ≡ ok (some (replayed res))
unfolding check_operation_execution
check-record_txn own res t c fresh done = ground (
  arith,
  find_step-record_txn own res t c,
  status_of-record_txn own res t c res.workflow_uuid,
  eq_refl res.function_name,
)

-- Recording a result without an error for a step of an existing workflow, where the step has a
-- checkpoint with another completion time, raises the conflict error, and leaves the database as it
-- was.
pub record-conflict :
    (own : Option String) (res : OperationResult) (t old : ℕ) (db : SysDb) (w : WorkflowRow)
    (row : OperationRow)
    → res.error ≡ none
    → find_workflow res.workflow_uuid db ≡ some w
    → find_step res.workflow_uuid res.function_id db ≡ some row
    → row.completed_at_epoch_ms ≡ some old
    → old ≢ t
    → record_operation_result own res t db ≡ (err (workflow_conflict_id res.workflow_uuid), db)
unfolding record_operation_result
record-conflict own res t old db w row clean known present at differs = ground arith

-- A check reads the workflows and the checkpoints alone.
pub check_same :
    (id : String) (n : ℕ) (name : String) (db db' : SysDb)
    → db.workflow_status ≡ db'.workflow_status
    → db.operation_outputs ≡ db'.operation_outputs
    → check_operation_execution id n name db ≡ check_operation_execution id n name db'
unfolding check_operation_execution
check_same id n name db db' workflows outputs =
    ground (arith, ap (find_row (by_uuid id)) workflows, ap (find_row (by_step id n)) outputs)
