-- ===== src/Operations/Delivering.antt =====
-- Sending and receiving keep every workflow.
use dbos_workload.Receive.{format_of}
use dbos_workload.Operations.Keeping.{Keeps-after}
use dbos_workload.Receive.{format_of, message_of, next_message, recv_name}
use dbos_workload.Serialization.{serialize_value_as}
use dbos_workload.Steps.{record_operation_result_txn}
use dbos_workload.Transaction.{Tx, pure}
use dbos_workload.Messages.{
  Forks, SendMessage, by_message, deliver, deliver_once, has_duplicates, insert_delivered,
  insert_notification, insert_notifications, prepare, provided_keys, rows_of, send_bulk, send_from,
}
use dbos_workload.Operations.Checkpoints.{Keeps-record}
use dbos_workload.Operations.Evolution.{Evolves, Evolves-refl, Evolves-same}
use dbos_workload.Operations.Keeping.{
  Evolves-begin, Evolves-begin_query, Keeps, Keeps-bind, Keeps-execute, Keeps-if,
}
use dbos_workload.Prelude.{Bool-cases, List, [], if◌then◌else◌, inl, inr, none, some, ◌++◌, ◌∷◌}
use dbos_workload.Receive.{consume, receive, recv_consume}
use dbos_workload.Schema.{NotificationRow, OperationRow, SysDb, WorkflowRow}
use dbos_workload.Serialization.{Format, Serializers}
use dbos_workload.Steps.{RecordedResult, check_operation_execution_txn, find_step, find_workflow}
use dbos_workload.Steps.Call.{step_result}
use dbos_workload.Table.{any_where}
use dbos_workload.Transaction.{lift, raise, dbos_exception}
use dbos_workload.Prelude.{String, Option, ℕ, refl}
use dbos_workload.Transaction.{◌>>=◌, ◌>>◌}

module _ (id : String) where
  Evolves-consume :
      (j : String) (topic : Option String) (found : Option NotificationRow) (db : SysDb)
      → Evolves id db (consume j topic found db)
  Evolves-consume j topic none db = Evolves-refl
  Evolves-consume j topic (some m) db = Evolves-same db (consume j topic (some m) db) refl refl

module _ (id : String) (base : SysDb) where
  Keeps-delivered :
      (r : NotificationRow) (o : Option WorkflowRow) → Keeps id base (insert_delivered r o)
  Keeps-delivered r none = λ c w. w
  Keeps-delivered r (some x) =
      Keeps-execute id base (λ db. record db { notifications = db.notifications ++ (r ∷ []) })
        (λ db.
          Evolves-same db (record db { notifications = db.notifications ++ (r ∷ []) }) refl refl)

  Keeps-notification : (r : NotificationRow) → Keeps id base (insert_notification r)
  unfolding insert_notification
  Keeps-notification r c w =
      elim (Bool-cases (any_where (by_message r.message_uuid) c.work.notifications)) [
        | inl e ↦ rw e w
        | inr e ↦ rw e (Keeps-delivered r (find_workflow r.destination_uuid c.work) c w)
      ]

  Keeps-notifications : (rs : List NotificationRow) → Keeps id base (insert_notifications rs)
  unfolding insert_notifications
  Keeps-notifications [] = λ c w. w
  Keeps-notifications (r ∷ rs) =
      Keeps-bind id base (insert_notification r) _ (Keeps-notification r)
        (λ u. Keeps-notifications rs)

  module _ {V : Type 0} (s : Serializers V) (own : Option String) where
    Keeps-deliver :
        (uuid : ℕ → String) (messages : List (SendMessage V)) (format : Option Format)
        (forks : Forks) (now : ℕ)
        → Keeps id base (deliver s own uuid messages format forks now)
    unfolding deliver
    Keeps-deliver uuid messages format forks now =
        Keeps-bind id base (lift (prepare s format messages)) _ (λ c w. w)
          (λ ps. Keeps-notifications (rows_of uuid now forks ps 0))

    Keeps-deliver_once :
        (uuid : ℕ → String) (messages : List (SendMessage V)) (format : Option Format)
        (forks : Forks) (j : String) (n : ℕ) (name : String) (start now : ℕ)
        (o : Option RecordedResult)
        → Keeps id base (deliver_once s own uuid messages format forks j n name start now o)
    unfolding deliver_once
    Keeps-deliver_once uuid messages format forks j n name start now (some r) = λ c w. w
    Keeps-deliver_once uuid messages format forks j n name start now none =
        Keeps-bind id base (deliver s own uuid messages format forks now) _
          (Keeps-deliver uuid messages format forks now)
          (λ u. Keeps-record id base own (step_result j n name none none start) now)

    Keeps-send_from :
        (uuid : ℕ → String) (messages : List (SendMessage V)) (format : Option Format)
        (forks : Forks) (caller : Option (String × ℕ)) (name : String) (start now : ℕ)
        → Keeps id base (send_from s own uuid messages format forks caller name start now)
    unfolding send_from
    Keeps-send_from uuid messages format forks none name start now =
        Keeps-deliver uuid messages format forks now
    Keeps-send_from uuid messages format forks (some (j, n)) name start now =
        Keeps-bind id base (lift (prepare s format messages)) _ (λ c w. w)
          (λ ps.
            Keeps-bind id base (check_operation_execution_txn j n name) _ (λ c w. w)
              (Keeps-deliver_once uuid messages format forks j n name start now))

    Keeps-receive :
        (j : String) (n : ℕ) (topic : Option String) (start now : ℕ) (o : Option OperationRow)
        → Keeps id base (receive s own j n topic start now o)
    unfolding receive
    Keeps-receive j n topic start now (some row) c = λ w. w
    Keeps-receive j n topic start now none c =
        let found = next_message j topic c.work in
        let recorded : String × String → Tx (Unit {0}) = λ x.
          record_operation_result_txn own (step_result j n recv_name (some x.0) (some x.1) start)
            now in
        let rest : Tx V = lift (message_of s found) >>= λ message.
        lift (serialize_value_as s message (format_of found)) >>= λ x. recorded x >> pure message in
        Keeps-after id base (consume j topic found) rest (Evolves-consume id j topic found)
          (Keeps-bind id base (lift (message_of s found)) _ (λ d w. w)
            (λ message.
              Keeps-bind id base (lift (serialize_value_as s message (format_of found))) _
                (λ d w. w)
                (λ x.
                  Keeps-bind id base (recorded x) _
                    (Keeps-record id base own
                      (step_result j n recv_name (some x.0) (some x.1) start) now)
                    (λ u d w. w))))
          c

module _ (id : String) (db : SysDb) {V : Type 0} (s : Serializers V) (own : Option String) where
  pub Evolves-send :
      (uuid : ℕ → String) (messages : List (SendMessage V)) (format : Option Format) (forks : Forks)
      (caller : Option (String × ℕ)) (name : String) (start now : ℕ)
      → Evolves id db (send_bulk s own uuid messages format forks caller name start now db).1
  unfolding send_bulk
  Evolves-send uuid messages format forks caller name start now =
      Evolves-begin id db
        (if has_duplicates (provided_keys messages)
          then raise dbos_exception
          else send_from s own uuid messages format forks caller name start now)
        (Keeps-if id db (has_duplicates (provided_keys messages)) _ _ (λ c w. w)
          (Keeps-send_from id db s own uuid messages format forks caller name start now))

  pub Evolves-receive :
      (j : String) (n : ℕ) (topic : Option String) (start now : ℕ)
      → Evolves id db (recv_consume s own j n topic start now db).1
  unfolding recv_consume
  Evolves-receive j n topic start now =
      Evolves-begin_query id db (find_step j n) (receive s own j n topic start now)
        (Keeps-receive id db s own j n topic start now)
