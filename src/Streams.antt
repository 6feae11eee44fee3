-- ===== src/Streams.antt =====
-- Durable streams: the INSERT of the next offset, `write_stream_from_step`,
-- `write_stream_from_workflow`, `close_stream` and `read_stream` of dbos/_sys_db.py. Transactions
-- run one at a time here, so two writes never take the same offset; the retry after an
-- IntegrityError is taken where the workflow does not exist.
pub mod Offsets
pub mod Replay
mod Tests
use dbos_workload.Prelude.{
  ℕ, zero, suc, String, Bool, true, false, ◌&&◌, ◌+◌, Option, none, some, List, [], ◌∷◌, ◌++◌, ◌==◌,
  compares_nat, compares_text, max, if◌then◌else◌,
}
use dbos_workload.Table.{find_row, select}
use dbos_workload.Schema.{StreamRow, SysDb}
use dbos_workload.Transaction.{
  Error, value_error, Result, ok, err, Tx, ◌>>=◌, ◌>>◌, pure, query, execute, begin,
}
use dbos_workload.Serialization.{Serializers, Format, serialize_value, deserialize_value}
use dbos_workload.Steps.{
  RecordedResult, find_workflow, check_operation_execution_txn, record_operation_result_txn,
  require_workflow,
}
use dbos_workload.Steps.Call.{step_result}

abbrev pub in_stream : String → String → StreamRow → Bool
in_stream id key r = r.workflow_uuid == id && r.key == key

-- `COALESCE(MAX(offset), -1) + 1`
pub next_offset : List StreamRow → ℕ
next_offset [] = 0
next_offset (r ∷ rs) = max (suc r.offset) (next_offset rs)

abbrev pub stream_row : String → ℕ → String → String → String → SysDb → StreamRow
stream_row id n key text format db = record {
  workflow_uuid = id;
  key = key;
  value = text;
  offset = next_offset (select (in_stream id key) db.streams);
  function_id = n;
  serialization = some format;
}

-- _stream_insert_stmt
unfoldable pub insert_stream : String → ℕ → String → String → String → SysDb → SysDb
unfolding next_offset
insert_stream id n key text format db = record db {
  streams = db.streams ++ (stream_row id n key text format db ∷ []);
}

-- One attempt of the loop in write_stream_from_step.
pub attempt_write : String → ℕ → String → String → String → SysDb → Result (Unit {0}) × SysDb
attempt_write id n key text format = begin do
  workflow ← query (find_workflow id)
  require_workflow workflow
  execute (insert_stream id n key text format)

is_integrity : Result (Unit {0}) → Bool
is_integrity (err Error.integrity) = true
is_integrity _ = false

-- `while True`, with `attempts` at most: none where an IntegrityError ends each of them.
pub retry_write :
    ℕ → String → ℕ → String → String → String → SysDb → Option (Result (Unit {0}) × SysDb)
unfolding is_integrity
retry_write zero id n key text format db = none
retry_write (suc attempts) id n key text format db =
    let tried = attempt_write id n key text format db in
    let rest = retry_write attempts id n key text format tried.1 in
    if is_integrity tried.0 then rest else some tried

pub write_directly :
    ℕ → String → ℕ → String → Result (String × String) → SysDb → Option (Result (Unit {0}) × SysDb)
write_directly attempts id n key (err e) db = some (err e, db)
write_directly attempts id n key (ok (text, format)) db =
    retry_write attempts id n key text format db

unfoldable pub append_step :
    Option String
    → String
    → ℕ
    → String
    → String
    → String
    → String
    → ℕ
    → ℕ
    → Option RecordedResult
    → Tx (Unit {0})
append_step own id n name key text format start now (some recorded_output) = pure tt
append_step own id n name key text format start now none = do
  execute (insert_stream id n key text format)
  record_operation_result_txn own (step_result id n name none none start) now

unfoldable pub write_step :
    Option String
    → String
    → ℕ
    → String
    → String
    → ℕ
    → ℕ
    → Result (String × String)
    → SysDb
    → Result (Unit {0}) × SysDb
unfolding append_step
write_step own id n name key start now (err e) db = (err e, db)
write_step own id n name key start now (ok (text, format)) db =
    begin
      (do
        recorded_output ← check_operation_execution_txn id n name
        append_step own id n name key text format start now recorded_output)
      db

abbrev pub write_name : Bool → String
write_name closing = if closing then "DBOS.closeStream" else "DBOS.writeStream"

module _ {V : Type 0} (s : Serializers V) where
  unfoldable pub write_stream_from_step :
      ℕ → String → ℕ → String → V → Option Format → SysDb → Option (Result (Unit {0}) × SysDb)
  write_stream_from_step attempts id n key v format =
      write_directly attempts id n key (serialize_value s v format)

-- `sentinel` is the value that closes a stream, and `is_sentinel` Python's `==` with it.
module _ {V : Type 0} (s : Serializers V) (own : Option String) (sentinel : V)
    (is_sentinel : V → Bool) where
  unfoldable pub write_stream_from_workflow :
      String → ℕ → String → V → Option Format → ℕ → ℕ → SysDb → Result (Unit {0}) × SysDb
  write_stream_from_workflow id n key v format start now =
      write_step own id n (write_name (is_sentinel v)) key start now (serialize_value s v format)

  unfoldable pub close_stream : String → ℕ → String → ℕ → ℕ → SysDb → Result (Unit {0}) × SysDb
  unfolding write_stream_from_workflow
  close_stream id n key start now =
      write_stream_from_workflow id n key sentinel (some Format.portable) start now

abbrev pub by_offset : String → String → ℕ → StreamRow → Bool
by_offset id key offset r = r.workflow_uuid == id && r.key == key && r.offset == offset

read_row : {V : Type 0} → Serializers V → Option StreamRow → Result V
read_row s none = err value_error
read_row s (some r) = deserialize_value s (some r.value) r.serialization

unfoldable pub read_stream : {V : Type 0} → Serializers V → String → String → ℕ → SysDb → Result V
unfolding read_row
read_stream s id key offset db = read_row s (find_row (by_offset id key offset) db.streams)
