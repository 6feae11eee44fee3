-- ===== src/Transactions.antt =====
-- The application's database (dbos/_app_db.py): the application's own tables, and the table of
-- transaction_outputs (dbos/_schemas/application_database.py), a row of which is written in the
-- transaction that it tells of.
pub mod Invoke
pub mod Atomic
pub mod Once
mod Tests
use dbos_workload.Prelude.{
  ℕ, String, Bool, Option, List, [], ◌∷◌, ◌++◌, ◌==◌, ◌&&◌, compares_nat, compares_text,
  if◌then◌else◌, mem, none, not, some, ltb,
}
use dbos_workload.Table.{delete_where, find_row}
use dbos_workload.Transaction.{Result, err, ok, unexpected_step, workflow_conflict_id}

-- ApplicationSchema.transaction_outputs
pub record TransactionRow : Type 0 where
  pub workflow_uuid : String
  pub function_id : ℕ
  pub output : Option String
  pub error : Option String
  pub txn_id : Option String
  pub txn_snapshot : String
  pub executor_id : Option String
  pub function_name : String
  pub created_at : ℕ

-- `tables` are the application's.
pub record AppDb (U : Type 0) : Type 0 where
  pub tables : U
  pub transaction_outputs : List TransactionRow

-- TransactionResultInternal, less what is not written.
pub record TransactionResult : Type 0 where
  pub workflow_uuid : String
  pub function_id : ℕ
  pub output : Option String
  pub error : Option String
  pub txn_snapshot : String
  pub executor_id : Option String
  pub function_name : String

-- RecordedResult
pub record RecordedTransaction : Type 0 where
  pub output : Option String
  pub error : Option String
  pub serialization : Option String

-- The primary key.
abbrev pub by_transaction : String → ℕ → TransactionRow → Bool
by_transaction id n r = r.workflow_uuid == id && r.function_id == n

-- Python's truth of an optional text: none where the text is empty too.
abbrev pub if_truthy : Option String → Option String
if_truthy none = none
if_truthy (some text) = if text == "" then none else some text

abbrev pub transaction_row : TransactionResult → Option String → Option String → ℕ → TransactionRow
transaction_row res output error now = record {
  workflow_uuid = res.workflow_uuid;
  function_id = res.function_id;
  output = output;
  error = error;
  txn_id = some "";
  txn_snapshot = res.txn_snapshot;
  executor_id = if_truthy res.executor_id;
  function_name = res.function_name;
  created_at = now;
}

-- The format is not recorded, and never read.
abbrev pub check_transaction :
    String → ℕ → String → Option TransactionRow → Result (Option RecordedTransaction)
check_transaction id n name none = ok none
check_transaction id n name (some row) =
    if not (name == row.function_name)
    then err (unexpected_step id n name row.function_name)
    else ok (some (record { output = row.output; error = row.error; serialization = none }))

module _ {U : Type 0} where
  abbrev pub find_transaction : String → ℕ → AppDb U → Option TransactionRow
  find_transaction id n db = find_row (by_transaction id n) db.transaction_outputs

  -- INSERT, and the error of the primary key.
  abbrev pub insert_transaction :
      TransactionRow → Option TransactionRow → AppDb U → Result (Unit {0}) × AppDb U
  insert_transaction row (some existing) db = (err (workflow_conflict_id row.workflow_uuid), db)
  insert_transaction row none db =
      (ok tt, record db { transaction_outputs = db.transaction_outputs ++ (row ∷ []) })

  unfoldable pub record_transaction_output :
      TransactionResult → ℕ → AppDb U → Result (Unit {0}) × AppDb U
  record_transaction_output res now db =
      insert_transaction (transaction_row res res.output none now)
        (find_transaction res.workflow_uuid res.function_id db) db

  unfoldable pub record_transaction_error :
      TransactionResult → ℕ → AppDb U → Result (Unit {0}) × AppDb U
  record_transaction_error res now db =
      insert_transaction (transaction_row res none res.error now)
        (find_transaction res.workflow_uuid res.function_id db) db

  unfoldable pub check_transaction_execution :
      String → ℕ → String → AppDb U → Result (Option RecordedTransaction)
  check_transaction_execution id n name db = check_transaction id n name (find_transaction id n db)

  unfoldable pub delete_transaction_outputs : List String → AppDb U → AppDb U
  delete_transaction_outputs ids db = record db {
    transaction_outputs = delete_where (λ r. mem r.workflow_uuid ids) db.transaction_outputs;
  }
