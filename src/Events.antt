-- ===== src/Events.antt =====
-- Workflow events: `set_event_from_workflow`, `set_event_from_step` and `get_event_consume` of
-- dbos/_sys_db.py. An event is kept at its latest value, and in a history by step.
pub mod Published
mod Tests
use dbos_workload.Prelude.{
  ℕ, String, Bool, true, false, ◌&&◌, Option, none, some, List, [], ◌∷◌, ◌++◌, ◌==◌, compares_nat,
  compares_text, if◌then◌else◌,
}
use dbos_workload.Table.{find_row, update_where, any_where}
use dbos_workload.Schema.{EventRow, EventHistoryRow, SysDb}
use dbos_workload.Transaction.{
  Error, integrity, Result, ok, err, Tx, ◌>>=◌, ◌>>◌, pure, raise, query, execute, begin,
}
use dbos_workload.Serialization.{
  Serializers, Format, serialize_value, serialize_value_as, deserialize_value,
}
use dbos_workload.Steps.{
  RecordedResult, find_workflow, check_operation_execution_txn, record_operation_result_txn,
  record_operation_result, require_workflow,
}
use dbos_workload.Steps.Call.{step_result}

abbrev pub by_event : String → String → EventRow → Bool
by_event id key r = r.workflow_uuid == id && r.key == key

abbrev pub by_event_step : String → String → ℕ → EventHistoryRow → Bool
by_event_step id key n r = r.workflow_uuid == id && r.key == key && r.function_id == n

-- INSERT INTO workflow_events … ON CONFLICT DO UPDATE SET value, serialization
abbrev pub upsert_event : String → String → String → Option String → SysDb → SysDb
upsert_event id key text format db = record db {
  workflow_events =
      if any_where (by_event id key) db.workflow_events
      then update_where (by_event id key) (λ r. record r { value = text; serialization = format })
          db.workflow_events
      else db.workflow_events
        ++ (record { workflow_uuid = id; key = key; value = text; serialization = format } ∷ []);
}

abbrev pub upsert_history : String → ℕ → String → String → Option String → SysDb → SysDb
upsert_history id n key text format db = record db {
  workflow_events_history =
      if any_where (by_event_step id key n) db.workflow_events_history
      then update_where (by_event_step id key n)
          (λ r. record r { value = text; serialization = format }) db.workflow_events_history
      else db.workflow_events_history
        ++ (record {
          workflow_uuid = id;
          key = key;
          value = text;
          function_id = n;
          serialization = format;
        }
            ∷ []);
}

abbrev pub set_event_name : String
set_event_name = "DBOS.setEvent"

-- The transaction of a step that sets an event to a serialized value.
unfoldable pub publish :
    Option String
    → String
    → ℕ
    → String
    → String
    → String
    → ℕ
    → ℕ
    → Option RecordedResult
    → Tx (Unit {0})
publish own id n key text format start now (some recorded_output) = pure tt
publish own id n key text format start now none = do
  execute (upsert_event id key text (some format))
  execute (upsert_history id n key text (some format))
  record_operation_result_txn own (step_result id n set_event_name none none start) now

unfoldable pub publish_step :
    Option String
    → String
    → ℕ
    → String
    → ℕ
    → ℕ
    → Result (String × String)
    → SysDb
    → Result (Unit {0}) × SysDb
unfolding publish
publish_step own id n key start now (err e) db = (err e, db)
publish_step own id n key start now (ok (text, format)) db =
    begin
      (do
        recorded_output ← check_operation_execution_txn id n set_event_name
        publish own id n key text format start now recorded_output)
      db

unfoldable pub publish_directly :
    String → ℕ → String → Result (String × String) → SysDb → Result (Unit {0}) × SysDb
publish_directly id n key (err e) db = (err e, db)
publish_directly id n key (ok (text, format)) db =
    begin
      (do
        workflow ← query (find_workflow id)
        require_workflow workflow
        execute (upsert_event id key text (some format))
        execute (upsert_history id n key text (some format)))
      db

module _ {V : Type 0} (s : Serializers V) (own : Option String) where
  unfoldable pub set_event_from_workflow :
      String → ℕ → String → V → Option Format → ℕ → ℕ → SysDb → Result (Unit {0}) × SysDb
  set_event_from_workflow id n key message format start now =
      publish_step own id n key start now (serialize_value s message format)

  unfoldable pub set_event_from_step :
      String → ℕ → String → V → Option Format → SysDb → Result (Unit {0}) × SysDb
  set_event_from_step id n key message format =
      publish_directly id n key (serialize_value s message format)

  value_of : Option EventRow → Result V
  value_of none = ok s.null
  value_of (some r) = deserialize_value s (some r.value) r.serialization

  abbrev format_of : Option EventRow → Option String
  format_of none = none
  format_of (some r) = r.serialization

  unfoldable pub after_record : V → Result (Unit {0}) × SysDb → Result V × SysDb
  after_record v (ok u, db) = (ok v, db)
  after_record v (err e, db) = (err e, db)

  unfoldable pub record_value :
      String → ℕ → ℕ → ℕ → V → Result (String × String) → SysDb → Result V × SysDb
  record_value id n start now v (err e) db = (err e, db)
  record_value id n start now v (ok (text, format)) db = after_record v (
      record_operation_result own (step_result id n "DBOS.getEvent" (some text) (some format) start)
        now db)

  -- Recorded as a step of the caller, if the caller is a workflow.
  unfoldable pub answer :
      Option (String × ℕ) → ℕ → ℕ → Option String → Result V → SysDb → Result V × SysDb
  answer caller start now format (err e) db = (err e, db)
  answer none start now format (ok v) db = (ok v, db)
  answer (some (id, n)) start now format (ok v) db =
      record_value id n start now v (serialize_value_as s v format) db

  unfoldable pub get_event_consume :
      String → String → ℕ → ℕ → Option (String × ℕ) → SysDb → Result V × SysDb
  unfolding value_of answer record_value after_record
  get_event_consume target key start now caller db =
      let row = find_row (by_event target key) db.workflow_events in
      answer caller start now (format_of row) (value_of row) db
