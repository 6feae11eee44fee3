-- ===== src/Messages.antt =====
-- Messages between workflows: `_send_bulk_txn`, `recv_consume` and `recv_check` of dbos/_sys_db.py.
-- The walk that finds the forks of the destinations is an argument, `forks`, as is the source of
-- the generated message IDs.
pub mod Idempotence
mod Tests
use dbos_workload.Prelude.{compares_nat, compares_option}
use dbos_workload.Schema.{WorkflowRow}
use dbos_workload.Transaction.{execute}
use Prim.Native.String.{◌++◌ as text_append}
use dbos_workload.Prelude.{
  ℕ, suc, String, Bool, true, false, Option, none, some, List, [], ◌∷◌, ◌++◌, ◌==◌, compares_text,
  mem, if◌then◌else◌,
}
use dbos_workload.Table.{any_where}
use dbos_workload.Schema.{NotificationRow, SysDb}
use dbos_workload.Transaction.{
  nonexistent_workflow, dbos_exception, Result, ok, err, Tx, ◌>>=◌, ◌>>◌, pure, raise, lift, begin,
}
use dbos_workload.Serialization.{Serializers, Format, serialize_value}
use dbos_workload.Steps.{
  RecordedResult, find_workflow, check_operation_execution_txn, record_operation_result_txn,
}
use dbos_workload.Steps.Call.{step_result}

pub record SendMessage (V : Type 0) : Type 0 where
  pub destination_id : String
  pub message : V
  pub topic : Option String
  pub idempotency_key : Option String

abbrev pub null_topic : String
null_topic = "__null__topic__"

abbrev pub topic_or_null : Option String → String
topic_or_null none = null_topic
topic_or_null (some t) = t

-- The keys that are given and not empty.
pub provided_keys : {V : Type 0} → List (SendMessage V) → List String
provided_keys [] = []
provided_keys (m ∷ ms) = elim m.idempotency_key [
  | none ↦ provided_keys ms
  | some k ↦ if k == "" then provided_keys ms else k ∷ provided_keys ms
]

pub has_duplicates : List String → Bool
has_duplicates [] = false
has_duplicates (k ∷ ks) = let rest = has_duplicates ks in if mem k ks then true else rest

-- A message with its serialized text and format.
abbrev Prepared : Type 0 → Type 0
Prepared V = SendMessage V × String × String

pub prepare_next :
    {V : Type 0}
    → SendMessage V
    → Result (String × String)
    → Result (List (Prepared V))
    → Result (List (Prepared V))
prepare_next m (err e) rest = err e
prepare_next m (ok (text, format)) (err e) = err e
prepare_next m (ok (text, format)) (ok ms) = ok ((m, text, format) ∷ ms)

pub prepare :
    {V : Type 0} → Serializers V → Option Format → List (SendMessage V) → Result (List (Prepared V))
prepare s format [] = ok []
prepare s format (m ∷ ms) =
    prepare_next m (serialize_value s m.message format) (prepare s format ms)

-- `forks` maps a destination to its forks, in order; it is empty unless they are sent to.
abbrev pub Forks : Type 0
Forks = List (String × List String)

pub forks_of : String → Forks → List String
forks_of id [] = []
forks_of id ((root, ids) ∷ rest) =
    let others = forks_of id rest in if root == id then ids else others

-- `uuid` is the generated ID of the n-th row.
abbrev message_id : (ℕ → String) → ℕ → Option String → String → String
message_id uuid n none dest = uuid n
message_id uuid n (some key) dest = text_append key (text_append "::" dest)

module _ (uuid : ℕ → String) (now : ℕ) where
  abbrev notification_row : {V : Type 0} → ℕ → Prepared V → String → NotificationRow
  notification_row n (m, text, format) dest = record {
    destination_uuid = dest;
    topic = topic_or_null m.topic;
    message = text;
    created_at_epoch_ms = now;
    message_uuid = message_id uuid n m.idempotency_key dest;
    serialization = some format;
    consumed = false;
  }

  -- One message's rows, the next number for a generated ID, and the rows of the rest.
  pub rows_to :
      {V : Type 0}
      → ℕ
      → Prepared V
      → List String
      → (ℕ → List NotificationRow)
      → List NotificationRow
  rows_to n p [] rest = rest n
  rows_to n p (dest ∷ dests) rest = notification_row n p dest ∷ rows_to (suc n) p dests rest

  pub rows_of : {V : Type 0} → Forks → List (Prepared V) → ℕ → List NotificationRow
  rows_of forks [] n = []
  rows_of forks (p ∷ ps) n =
      rows_to n p (p.0.destination_id ∷ forks_of p.0.destination_id forks) (rows_of forks ps)

abbrev pub by_message : String → NotificationRow → Bool
by_message id r = r.message_uuid == id

abbrev pub insert_delivered : NotificationRow → Option WorkflowRow → Tx (Unit {0})
insert_delivered r none = raise nonexistent_workflow
insert_delivered r (some w) =
    execute (λ db. record db { notifications = db.notifications ++ (r ∷ []) })

-- A row of the INSERT … ON CONFLICT DO NOTHING: a row with the message ID is left as it is, and
-- a destination that does not exist violates the foreign key.
unfoldable pub insert_notification : NotificationRow → Tx (Unit {0})
insert_notification r c =
    if any_where (by_message r.message_uuid) c.work.notifications
    then (ok tt, c)
    else insert_delivered r (find_workflow r.destination_uuid c.work) c

unfoldable pub insert_notifications : List NotificationRow → Tx (Unit {0})
insert_notifications [] = pure tt
insert_notifications (r ∷ rs) = do insert_notification r; insert_notifications rs

module _ {V : Type 0} (s : Serializers V) (own : Option String) (uuid : ℕ → String) where
  unfoldable pub deliver : List (SendMessage V) → Option Format → Forks → ℕ → Tx (Unit {0})
  deliver messages format forks now = do
    prepared ← lift (prepare s format messages)
    insert_notifications (rows_of uuid now forks prepared 0)

  -- The send as a step of a workflow: replayed if it was recorded.
  unfoldable pub deliver_once :
      List (SendMessage V)
      → Option Format
      → Forks
      → String
      → ℕ
      → String
      → ℕ
      → ℕ
      → Option RecordedResult
      → Tx (Unit {0})
  deliver_once messages format forks id n name start now (some recorded_output) = pure tt
  deliver_once messages format forks id n name start now none = do
    deliver messages format forks now
    record_operation_result_txn own (step_result id n name none none start) now

  unfoldable pub send_from :
      List (SendMessage V)
      → Option Format
      → Forks
      → Option (String × ℕ)
      → String
      → ℕ
      → ℕ
      → Tx (Unit {0})
  send_from messages format forks none name start now = deliver messages format forks now
  send_from messages format forks (some (id, n)) name start now = do
    prepared ← lift (prepare s format messages)
    recorded_output ← check_operation_execution_txn id n name
    deliver_once messages format forks id n name start now recorded_output

  -- `caller` is the workflow and the step number that send, if a workflow does.
  unfoldable pub send_bulk_txn :
      List (SendMessage V)
      → Option Format
      → Forks
      → Option (String × ℕ)
      → String
      → ℕ
      → ℕ
      → Tx (Unit {0})
  send_bulk_txn messages format forks caller name start now =
      if has_duplicates (provided_keys messages)
      then raise dbos_exception
      else send_from messages format forks caller name start now

  unfoldable pub send_bulk :
      List (SendMessage V)
      → Option Format
      → Forks
      → Option (String × ℕ)
      → String
      → ℕ
      → ℕ
      → SysDb
      → Result (Unit {0}) × SysDb
  unfolding send_bulk_txn
  send_bulk messages format forks caller name start now =
      begin (send_bulk_txn messages format forks caller name start now)

  -- In a transaction of the caller's, and as no workflow's step.
  unfoldable pub send_bulk_with_connection :
      List (SendMessage V) → Option Format → Forks → String → ℕ → ℕ → Tx (Unit {0})
  unfolding send_bulk_txn
  send_bulk_with_connection messages format forks name start now =
      send_bulk_txn messages format forks none name start now
