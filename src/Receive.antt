-- ===== src/Receive.antt =====
-- The receiving side of messages: `recv_check` and `recv_consume` of dbos/_sys_db.py. The wait
-- between them, on an in-memory event, only decides when `recv_consume` runs.
pub mod Replay
pub mod Oldest
mod Tests
use dbos_workload.Prelude.{
  ℕ, String, Bool, true, false, not, ◌&&◌, Option, none, some, List, [], ◌∷◌, ◌==◌, compares_text,
  leb, if◌then◌else◌,
}
use dbos_workload.Table.{update_where, select, any_where}
use dbos_workload.Schema.{NotificationRow, OperationRow, SysDb}
use dbos_workload.Transaction.{Result, ok, err, Tx, ◌>>=◌, ◌>>◌, pure, lift, query, execute, begin}
use dbos_workload.Serialization.{Serializers, serialize_value_as, deserialize_value}
use dbos_workload.Steps.{find_step, record_operation_result_txn}
use dbos_workload.Steps.Call.{step_result}
use dbos_workload.Messages.{topic_or_null}

abbrev pub recv_name : String
recv_name = "DBOS.recv"

-- `destination_uuid == id AND topic == topic AND NOT consumed`
abbrev pub is_unread : String → String → NotificationRow → Bool
is_unread id topic r = r.destination_uuid == id && r.topic == topic && not r.consumed

unfoldable pub recv_check : String → Option String → SysDb → Bool
recv_check id topic db = any_where (is_unread id (topic_or_null topic)) db.notifications

older : NotificationRow → Option NotificationRow → NotificationRow
older r none = r
older r (some best) = if leb r.created_at_epoch_ms best.created_at_epoch_ms then r else best

-- ORDER BY created_at_epoch_ms LIMIT 1; of messages of one time, the one inserted first.
pub oldest : List NotificationRow → Option NotificationRow
oldest [] = none
oldest (r ∷ rs) = some (older r (oldest rs))

-- The row that the UPDATE … RETURNING is about.
unfoldable pub next_message : String → Option String → SysDb → Option NotificationRow
unfolding oldest older
next_message id topic db = oldest (select (is_unread id (topic_or_null topic)) db.notifications)

abbrev pub to_consume : String → Option String → NotificationRow → NotificationRow → Bool
to_consume id topic m r = is_unread id (topic_or_null topic) r && r.message_uuid == m.message_uuid

abbrev pub consume : String → Option String → Option NotificationRow → SysDb → SysDb
consume id topic none db = db
consume id topic (some m) db = record db {
  notifications =
      update_where (to_consume id topic m) (λ r. record r { consumed = true }) db.notifications;
}

-- The message of the row that was consumed, and its format; None where there is no row.
pub message_of : {V : Type 0} → Serializers V → Option NotificationRow → Result V
message_of s none = ok s.null
message_of s (some m) = deserialize_value s (some m.message) m.serialization

pub format_of : Option NotificationRow → Option String
format_of none = none
format_of (some m) = m.serialization

module _ {V : Type 0} (s : Serializers V) (own : Option String) where
  unfoldable pub receive : String → ℕ → Option String → ℕ → ℕ → Option OperationRow → Tx V
  receive id n topic start now (some row) = lift (deserialize_value s row.output row.serialization)
  receive id n topic start now none = do
    found ← query (next_message id topic)
    execute (consume id topic found)
    message ← lift (message_of s found)
    (text, format) ← lift (serialize_value_as s message (format_of found))
    record_operation_result_txn own (step_result id n recv_name (some text) (some format) start) now
    pure message

  unfoldable pub recv_consume : String → ℕ → Option String → ℕ → ℕ → SysDb → Result V × SysDb
  recv_consume id n topic start now =
      begin do recorded ← query (find_step id n); receive id n topic start now recorded
