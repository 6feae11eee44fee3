-- ===== src/Transactions/Invoke.antt =====
-- `invoke_tx` of `decorate_transaction` (dbos/_core.py): a transaction of the application, called
-- by a workflow. The waits between its attempts are left out.
use dbos_workload.Execution.{is_base_exception, raise_read}
use dbos_workload.Prelude.{Bool, false, if◌then◌else◌, none, some, suc, true, zero, ◌||◌}
use dbos_workload.Prelude.{String, Option, ℕ}
use dbos_workload.Schema.{SysDb}
use dbos_workload.Serialization.{Serializers, deserialize_value, serialize_value}
use dbos_workload.Steps.{
  OperationResult, RecordedResult, check_operation_execution, record_operation_result,
}
use dbos_workload.Steps.Call.{step_result}
use dbos_workload.Transaction.{Error, Result, dbos_exception, err, ok, unexpected_step}
use dbos_workload.Transactions.{
  AppDb, RecordedTransaction, TransactionResult, check_transaction_execution, if_truthy,
  record_transaction_error, record_transaction_output,
}

-- The code of a transaction acts on the application's tables, and on the world outside.
abbrev pub TransactionCode : Type 0 → Type 0 → Type 0 → Type 0
TransactionCode U W V = U → W → Result V × U × W

-- How the loop over the attempts ends: an attempt is committed, or an earlier run of the
-- transaction is found, or an exception is raised that is not retried.
pub data TriedTransaction (V : Type 0) : Type 0 where
  committed : V → TriedTransaction V
  found : RecordedTransaction → TriedTransaction V
  failed : Error → TriedTransaction V

abbrev pub is_unexpected_step : Error → Bool
is_unexpected_step (unexpected_step id n expected recorded) = true
is_unexpected_step _ = false

abbrev pub output_result : String → ℕ → String → Option String → Option String → TransactionResult
output_result id n name output error = record {
  workflow_uuid = id;
  function_id = n;
  output = output;
  error = error;
  txn_snapshot = "";
  executor_id = none;
  function_name = name;
}

abbrev pub error_result : String → ℕ → String → Option String → Option String → ℕ → OperationResult
error_result id n name error format start = record (step_result id n name none format start) {
  error = error;
}

-- `retriable` tells the errors of the driver after which a transaction is tried again, and
-- `commits` what the database answers to the COMMIT of each attempt, where it raises.
module _ {U W V : Type 0} (s : Serializers V) (id : String) (n : ℕ) (name : String)
    (retriable : Error → Bool) (commits : ℕ → Option Error) (now : ℕ) where
  -- `with session.begin()`: what is not committed is rolled back.
  abbrev pub end_transaction :
      V → Option Error → AppDb U → Result (Unit {0}) × AppDb U → W → Result V × AppDb U × W
  end_transaction v refused before (err e, db) w = (err e, before, w)
  end_transaction v (some e) before (ok u, db) w = (err e, before, w)
  end_transaction v none before (ok u, db) w = (ok v, db, w)

  abbrev pub put_transaction :
      ℕ → V → Result (String × String) → AppDb U → AppDb U → W → Result V × AppDb U × W
  put_transaction i v (err e) before db w = (err e, before, w)
  put_transaction i v (ok (text, format)) before db w =
      end_transaction v (commits i) before
        (record_transaction_output (output_result id n name (some text) none) now db) w

  abbrev pub after_code : ℕ → AppDb U → Result V × U × W → Result V × AppDb U × W
  after_code i before (err e, u, w) = (err e, before, w)
  after_code i before (ok v, u, w) =
      put_transaction i v (serialize_value s v none) before (record before { tables = u }) w

  -- `while True`, with `left` attempts at most: none where they do not end it. `i` counts them.
  -- The attempts that follow are computed by `rest`, from the world.
  abbrev pub after_attempt :
      Result V × AppDb U × W
      → (W → Option (TriedTransaction V × AppDb U × W))
      → Option (TriedTransaction V × AppDb U × W)
  after_attempt (ok v, db, w) rest = some (committed v, db, w)
  after_attempt (err e, db, w) rest = elim (retriable e) [
    | true ↦ rest w
    | false ↦ some (failed e, db, w)
  ]

  abbrev pub unless_found :
      Result (Option RecordedTransaction)
      → AppDb U
      → W
      → Option (TriedTransaction V × AppDb U × W)
      → Option (TriedTransaction V × AppDb U × W)
  unless_found (err e) db w runs = some (failed e, db, w)
  unless_found (ok (some r)) db w runs = some (found r, db, w)
  unless_found (ok none) db w runs = runs

  unfoldable pub try_transaction :
      TransactionCode U W V → ℕ → ℕ → AppDb U → W → Option (TriedTransaction V × AppDb U × W)
  try_transaction fn zero i db w = none
  try_transaction fn (suc left) i db w =
      unless_found (check_transaction_execution id n name db) db w
        (after_attempt (after_code i db (fn db.tables w)) (try_transaction fn left (suc i) db))

module _ {U V : Type 0} (s : Serializers V) (se : Serializers Error) (own : Option String)
    (id : String) (n : ℕ) (name : String) (start now : ℕ) where
  -- What is recorded of the step in the system database, before `r` is returned or raised.
  abbrev pub after_step_record :
      Result V → AppDb U → Result (Unit {0}) × SysDb → Result V × AppDb U × SysDb
  after_step_record r db (ok u, sys) = (r, db, sys)
  after_step_record r db (err e, sys) = (err e, db, sys)

  -- `finally`: both databases get the exception.
  abbrev pub error_recorded :
      Error → String → String → Result (Unit {0}) × AppDb U → SysDb → Result V × AppDb U × SysDb
  error_recorded e text format (err e', db) sys = (err e', db, sys)
  error_recorded e text format (ok u, db) sys =
      after_step_record (err e) db (
        record_operation_result own (error_result id n name (some text) (some format) start) now
          sys)

  abbrev pub record_error :
      Error → Result (String × String) → AppDb U → SysDb → Result V × AppDb U × SysDb
  record_error e (err e') db sys = (err e', db, sys)
  record_error e (ok (text, format)) db sys =
      error_recorded e text format
        (record_transaction_error (output_result id n name none (some text)) now db) sys

  unfoldable pub fail_transaction : Error → AppDb U → SysDb → Result V × AppDb U × SysDb
  fail_transaction e db sys =
      if is_base_exception e || is_unexpected_step e
      then (err e, db, sys)
      else record_error e (serialize_value se e none) db sys

  -- A recorded exception, which is recorded of the step too, and raised. It is taken to be none
  -- that is retried, as it would not have been recorded.
  abbrev pub raise_found :
      String → Option String → Result Error → AppDb U → SysDb → Result V × AppDb U × SysDb
  raise_found text format (err e) db sys = fail_transaction e db sys
  raise_found text format (ok e) db sys =
      after_step_record (err e) db
        (record_operation_result own (error_result id n name (some text) format start) now sys)

  -- A recorded output, which is recorded of the step too, and returned.
  abbrev pub read_found : Result V → AppDb U → SysDb → Result V × AppDb U × SysDb
  read_found (err e) db sys = fail_transaction e db sys
  read_found (ok v) db sys = (ok v, db, sys)

  abbrev pub return_found :
      String → Option String → AppDb U → Result (Unit {0}) × SysDb → Result V × AppDb U × SysDb
  return_found text format db (err e, sys) = fail_transaction e db sys
  return_found text format db (ok u, sys) =
      read_found (deserialize_value s (some text) format) db sys

  abbrev pub found_as :
      RecordedTransaction
      → Option String
      → Option String
      → AppDb U
      → SysDb
      → Result V × AppDb U × SysDb
  found_as r (some text) output db sys =
      raise_found text r.serialization (deserialize_value se (some text) r.serialization) db sys
  found_as r none (some text) db sys = return_found text r.serialization db (
      record_operation_result own (step_result id n name (some text) r.serialization start) now sys)
  found_as r none none db sys = fail_transaction dbos_exception db sys

  unfoldable pub replay_found : RecordedTransaction → AppDb U → SysDb → Result V × AppDb U × SysDb
  replay_found r db sys = found_as r (if_truthy r.error) (if_truthy r.output) db sys

  -- The step's checkpoint, after the commit.
  abbrev pub put_checkpoint :
      V → Result (String × String) → AppDb U → SysDb → Result V × AppDb U × SysDb
  put_checkpoint v (err e) db sys = (err e, db, sys)
  put_checkpoint v (ok (text, format)) db sys =
      after_step_record (ok v) db (
        record_operation_result own (step_result id n name (some text) (some format) start) now sys)

  unfoldable pub end_tried : TriedTransaction V → AppDb U → SysDb → Result V × AppDb U × SysDb
  unfolding fail_transaction replay_found
  end_tried (committed v) db sys = put_checkpoint v (serialize_value s v none) db sys
  end_tried (found r) db sys = replay_found r db sys
  end_tried (failed e) db sys = fail_transaction e db sys

module _ {V : Type 0} (s : Serializers V) (se : Serializers Error) where
  -- A checkpoint is read with its child's ID for the name of its format, which is NULL.
  abbrev pub checkpoint_as : RecordedResult → Option String → Option String → Result V
  checkpoint_as r (some text) output =
      raise_read s se (deserialize_value se (some text) r.serialization)
  checkpoint_as r none (some text) = deserialize_value s (some text) r.child_workflow_id
  checkpoint_as r none none = err dbos_exception

  abbrev pub replay_checkpoint : RecordedResult → Result V
  replay_checkpoint r = checkpoint_as r (if_truthy r.error) (if_truthy r.output)

module _ {U W V : Type 0} (s : Serializers V) (se : Serializers Error) (own : Option String)
    (id : String) (n : ℕ) (name : String) (retriable : Error → Bool) (commits : ℕ → Option Error)
    (start now : ℕ) where
  abbrev pub with_step :
      SysDb → Option (TriedTransaction V × AppDb U × W) → Option (Result V × AppDb U × SysDb × W)
  with_step sys none = none
  with_step sys (some (tried, db, w)) =
      let (r, db', sys') = end_tried s se own id n name start now tried db sys in
      some (r, db', sys', w)

  abbrev pub unless_checkpoint :
      Result (Option RecordedResult)
      → AppDb U
      → SysDb
      → W
      → Option (Result V × AppDb U × SysDb × W)
      → Option (Result V × AppDb U × SysDb × W)
  unless_checkpoint (err e) db sys w runs = some (err e, db, sys, w)
  unless_checkpoint (ok (some r)) db sys w runs = some (replay_checkpoint s se r, db, sys, w)
  unless_checkpoint (ok none) db sys w runs = runs

  unfoldable pub invoke_tx :
      TransactionCode U W V → ℕ → AppDb U → SysDb → W → Option (Result V × AppDb U × SysDb × W)
  invoke_tx fn attempts db sys w =
      unless_checkpoint (check_operation_execution id n name sys) db sys w
        (with_step sys (try_transaction s id n name retriable commits now fn attempts 0 db w))
