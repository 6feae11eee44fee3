-- ===== src/Steps.antt =====
-- Step checkpoints of dbos/_sys_db.py: what a workflow has executed is a row of operation_outputs,
-- found again by the workflow's ID and the step's number.
pub mod Recorded
pub mod Children
pub mod Call
mod Tests
use dbos_workload.Prelude.{
  ℕ, String, Bool, true, false, not, ◌&&◌, ◌||◌, Option, none, some, List, [], ◌∷◌, ◌++◌, ◌==◌,
  compares_nat, compares_text, compares_option, is_none, is_some, if◌then◌else◌,
}
use dbos_workload.Table.{find_row, update_where}
use dbos_workload.Schema.{Status, is_cancelled, WorkflowRow, OperationRow, SysDb}
use dbos_workload.Transaction.{
  Error, workflow_conflict_id, unexpected_step, workflow_cancelled, assertion, type_error,
  dbos_exception, integrity, Result, ok, err, Tx, ◌>>=◌, ◌>>◌, pure, raise, assert, query, execute,
  begin,
}

-- OperationResultInternal
pub record OperationResult : Type 0 where
  pub workflow_uuid : String
  pub function_id : ℕ
  pub function_name : String
  pub output : Option String
  pub error : Option String
  pub serialization : Option String
  pub started_at_epoch_ms : Option ℕ

pub record RecordedResult : Type 0 where
  pub output : Option String
  pub error : Option String
  pub serialization : Option String
  pub child_workflow_id : Option String

abbrev pub by_uuid : String → WorkflowRow → Bool
by_uuid id r = r.workflow_uuid == id

-- The primary key of operation_outputs.
abbrev pub by_step : String → ℕ → OperationRow → Bool
by_step id n r = r.workflow_uuid == id && r.function_id == n

abbrev pub find_workflow : String → SysDb → Option WorkflowRow
find_workflow id db = find_row (by_uuid id) db.workflow_status

abbrev pub find_step : String → ℕ → SysDb → Option OperationRow
find_step id n db = find_row (by_step id n) db.operation_outputs

abbrev pub insert_step : OperationRow → SysDb → SysDb
insert_step r db = record db { operation_outputs = db.operation_outputs ++ (r ∷ []) }

-- "Reset it to this process's executor ID": an UPDATE of the workflow's executor.
abbrev pub set_executor : Option String → String → SysDb → SysDb
set_executor executor id db = record db {
  workflow_status =
      update_where (by_uuid id) (λ r. record r { executor_id = executor }) db.workflow_status;
}

abbrev pub operation_row : OperationResult → ℕ → OperationRow
operation_row result completed = record {
  workflow_uuid = result.workflow_uuid;
  function_id = result.function_id;
  function_name = result.function_name;
  output = result.output;
  error = result.error;
  child_workflow_id = none;
  started_at_epoch_ms = result.started_at_epoch_ms;
  completed_at_epoch_ms = some completed;
  serialization = result.serialization;
}

-- INSERT … ON CONFLICT DO UPDATE SET completed_at = completed_at RETURNING completed_at, and the
-- test of the time that it returns. A row without a time makes `int(None)` raise.
unfoldable pub insert_or_conflict : OperationResult → ℕ → Option OperationRow → Tx (Unit {0})
insert_or_conflict result completed none = execute (insert_step (operation_row result completed))
insert_or_conflict result completed (some row) = elim row.completed_at_epoch_ms [
  | none ↦ raise type_error
  | some t ↦ if t == completed then pure tt else raise (workflow_conflict_id result.workflow_uuid)
]

unfoldable pub reset_executor : Option String → String → Option WorkflowRow → Tx (Unit {0})
reset_executor own id none = raise assertion
reset_executor own id (some row) =
    if is_some own && not (row.executor_id == own) then execute (set_executor own id) else pure tt

-- `own` is the executor ID of this process.
unfoldable pub record_operation_result_txn : Option String → OperationResult → ℕ → Tx (Unit {0})
unfolding insert_or_conflict reset_executor
record_operation_result_txn own result completed = do
  assert (is_none result.error || is_none result.output)
  row ← query (find_workflow result.workflow_uuid)
  reset_executor own result.workflow_uuid row
  existing ← query (find_step result.workflow_uuid result.function_id)
  insert_or_conflict result completed existing

unfoldable pub record_operation_result :
    Option String → OperationResult → ℕ → SysDb → Result (Unit {0}) × SysDb
unfolding record_operation_result_txn
record_operation_result own result completed =
    begin (record_operation_result_txn own result completed)

check_recorded : String → ℕ → String → Option OperationRow → Result (Option RecordedResult)
check_recorded id n name none = ok none
check_recorded id n name (some row) =
    if not (name == row.function_name)
    then err (unexpected_step id n name row.function_name)
    else ok (
        some (record {
          output = row.output;
          error = row.error;
          serialization = row.serialization;
          child_workflow_id = row.child_workflow_id;
        }))

check_status :
    String → Option WorkflowRow → Result (Option RecordedResult) → Result (Option RecordedResult)
check_status id none rest = err assertion
check_status id (some row) rest =
    if is_cancelled row.status then err (workflow_cancelled id) else rest

-- The transaction only reads.
unfoldable pub check_operation_execution :
    String → ℕ → String → SysDb → Result (Option RecordedResult)
unfolding check_recorded check_status
check_operation_execution id n name db =
    check_status id (find_workflow id db) (check_recorded id n name (find_step id n db))

abbrev pub check_operation_execution_txn : String → ℕ → String → Tx (Option RecordedResult)
check_operation_execution_txn id n name c = (check_operation_execution id n name c.work, c)

-- The foreign key of a table of checkpoints or notifications: the workflow has a row.
abbrev pub require_workflow : Option WorkflowRow → Tx (Unit {0})
require_workflow none = raise integrity
require_workflow (some row) = pure tt

unfoldable pub insert_referring : OperationRow → Tx (Unit {0})
insert_referring row = do
  parent ← query (find_workflow row.workflow_uuid)
  require_workflow parent
  execute (insert_step row)

-- DBOS.getResult: nothing is done where the step has a row.
unfoldable pub insert_if_absent : OperationRow → Option OperationRow → Tx (Unit {0})
insert_if_absent row none = insert_referring row
insert_if_absent row (some old) = pure tt

abbrev pub result_row :
    String → ℕ → String → Option String → Option String → Option String → OperationRow
result_row id n result_id output error serialization = record {
  workflow_uuid = id;
  function_id = n;
  function_name = "DBOS.getResult";
  output = output;
  error = error;
  child_workflow_id = some result_id;
  started_at_epoch_ms = none;
  completed_at_epoch_ms = none;
  serialization = serialization;
}

-- The workflow and step number are the context's, after its counter was advanced.
unfoldable pub record_get_result :
    String
    → ℕ
    → String
    → Option String
    → Option String
    → Option String
    → SysDb
    → Result (Unit {0}) × SysDb
unfolding insert_if_absent insert_referring
record_get_result id n result_id output error serialization = begin do
  existing ← query (find_step id n)
  insert_if_absent (result_row id n result_id output error serialization) existing

abbrev pub child_row : String → String → ℕ → String → OperationRow
child_row parent child n name = record {
  workflow_uuid = parent;
  function_id = n;
  function_name = name;
  output = none;
  error = none;
  child_workflow_id = some child;
  started_at_epoch_ms = none;
  completed_at_epoch_ms = none;
  serialization = none;
}

unfoldable pub insert_child : String → String → ℕ → String → Option OperationRow → Tx (Unit {0})
insert_child parent child n name none = insert_referring (child_row parent child n name)
insert_child parent child n name (some row) =
    if row.child_workflow_id == some child then pure tt else raise (workflow_conflict_id parent)

unfoldable pub record_child_workflow :
    String → String → ℕ → String → SysDb → Result (Unit {0}) × SysDb
unfolding insert_child insert_referring
record_child_workflow parent child n name =
    if child == ""
    then (λ db. (err dbos_exception, db))
    else begin (do existing ← query (find_step parent n); insert_child parent child n name existing)
