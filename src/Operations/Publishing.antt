-- ===== src/Operations/Publishing.antt =====
-- The operations on events and streams keep every workflow: they write other tables, and
-- record their step.
use dbos_workload.Events.{
  after_record, answer, by_event, get_event_consume, record_value, set_event_from_step,
  set_event_from_workflow,
}
use dbos_workload.Operations.Checkpoints.{Evolves-record}
use dbos_workload.Prelude.{Bool}
use dbos_workload.Serialization.{Format, Serializers, serialize_value, serialize_value_as}
use dbos_workload.Steps.{record_operation_result}
use dbos_workload.Streams.{write_name, write_stream_from_workflow}
use dbos_workload.Table.{find_row}
use dbos_workload.Events.{publish_directly}
use dbos_workload.Operations.Keeping.{Evolves-begin_query, Keeps-after, Keeps-require}
use dbos_workload.Steps.{find_workflow, record_operation_result_txn, require_workflow}
use dbos_workload.Streams.{write_step}
use dbos_workload.Events.{publish, publish_step, set_event_name, upsert_event, upsert_history}
use dbos_workload.Operations.Checkpoints.{Keeps-record}
use dbos_workload.Operations.Evolution.{Evolves, Evolves-refl, Evolves-same}
use dbos_workload.Operations.Keeping.{Evolves-begin, Keeps, Keeps-bind, Keeps-execute}
use dbos_workload.Prelude.{none, some}
use dbos_workload.Schema.{SysDb}
use dbos_workload.Steps.{RecordedResult, check_operation_execution_txn}
use dbos_workload.Steps.Call.{step_result}
use dbos_workload.Streams.{append_step, insert_stream}
use dbos_workload.Transaction.{Result, err, execute, ok}
use dbos_workload.Prelude.{String, Option, ℕ, refl}
use dbos_workload.Transaction.{◌>>=◌, ◌>>◌}

module _ (id : String) where
  Evolves-event :
      (j key text : String) (format : Option String) (db : SysDb)
      → Evolves id db (upsert_event j key text format db)
  Evolves-event j key text format db = Evolves-same db (upsert_event j key text format db) refl refl

  Evolves-history :
      (j : String) (n : ℕ) (key text : String) (format : Option String) (db : SysDb)
      → Evolves id db (upsert_history j n key text format db)
  Evolves-history j n key text format db =
      Evolves-same db (upsert_history j n key text format db) refl refl

  Evolves-insert_stream :
      (j : String) (n : ℕ) (key text format : String) (db : SysDb)
      → Evolves id db (insert_stream j n key text format db)
  unfolding insert_stream
  Evolves-insert_stream j n key text format db =
      Evolves-same db (insert_stream j n key text format db) refl refl

module _ (id : String) (base : SysDb) where
  Keeps-publish :
      (own : Option String) (j : String) (n : ℕ) (key text format : String) (start now : ℕ)
      (o : Option RecordedResult)
      → Keeps id base (publish own j n key text format start now o)
  unfolding publish
  Keeps-publish own j n key text format start now (some r) = λ c w. w
  Keeps-publish own j n key text format start now none =
      let step = step_result j n set_event_name none none start in
      Keeps-after id base (upsert_event j key text (some format))
        (execute (upsert_history j n key text (some format))
          >> record_operation_result_txn own step now)
        (Evolves-event id j key text (some format))
        (Keeps-after id base (upsert_history j n key text (some format))
          (record_operation_result_txn own step now) (Evolves-history id j n key text (some format))
          (Keeps-record id base own step now))

  Keeps-append :
      (own : Option String) (j : String) (n : ℕ) (name key text format : String) (start now : ℕ)
      (o : Option RecordedResult)
      → Keeps id base (append_step own j n name key text format start now o)
  unfolding append_step
  Keeps-append own j n name key text format start now (some r) = λ c w. w
  Keeps-append own j n name key text format start now none =
      let step = step_result j n name none none start in
      Keeps-after id base (insert_stream j n key text format)
        (record_operation_result_txn own step now) (Evolves-insert_stream id j n key text format)
        (Keeps-record id base own step now)

module _ (id : String) (db : SysDb) where
  Evolves-publish_step :
      (own : Option String) (j : String) (n : ℕ) (key : String) (start now : ℕ)
      (r : Result (String × String))
      → Evolves id db (publish_step own j n key start now r db).1
  unfolding publish_step
  Evolves-publish_step own j n key start now (err e) = Evolves-refl
  Evolves-publish_step own j n key start now (ok (text, format)) =
      Evolves-begin id db
        (check_operation_execution_txn j n set_event_name
          >>= publish own j n key text format start now)
        (Keeps-bind id db (check_operation_execution_txn j n set_event_name) _ (λ c w. w)
          (Keeps-publish id db own j n key text format start now))

  Evolves-publish_directly :
      (j : String) (n : ℕ) (key : String) (r : Result (String × String))
      → Evolves id db (publish_directly j n key r db).1
  unfolding publish_directly
  Evolves-publish_directly j n key (err e) = Evolves-refl
  Evolves-publish_directly j n key (ok (text, format)) =
      let sets =
        execute (upsert_event j key text (some format))
        >> execute (upsert_history j n key text (some format)) in
      Evolves-begin_query id db (find_workflow j) (λ w. require_workflow w >> sets)
        (λ w. Keeps-bind id db (require_workflow w) _ (Keeps-require id db w) (λ u.
          Keeps-after id db (upsert_event j key text (some format))
            (execute (upsert_history j n key text (some format)))
            (Evolves-event id j key text (some format))
            (Keeps-execute id db (upsert_history j n key text (some format))
              (Evolves-history id j n key text (some format)))))

  Evolves-write_step :
      (own : Option String) (j : String) (n : ℕ) (name key : String) (start now : ℕ)
      (r : Result (String × String))
      → Evolves id db (write_step own j n name key start now r db).1
  unfolding write_step
  Evolves-write_step own j n name key start now (err e) = Evolves-refl
  Evolves-write_step own j n name key start now (ok (text, format)) =
      Evolves-begin id db
        (check_operation_execution_txn j n name
          >>= append_step own j n name key text format start now)
        (Keeps-bind id db (check_operation_execution_txn j n name) _ (λ c w. w)
          (Keeps-append id db own j n name key text format start now))

  answered :
      {V : Type 0} (s : Serializers V) (own : Option String) (v : V) (r : Result (Unit {0}) × SysDb)
      → Evolves id db r.1
      → Evolves id db (after_record s own v r).1
  unfolding after_record
  answered s own v (ok u, d) h = h
  answered s own v (err e, d) h = h

  Evolves-record_value :
      {V : Type 0} (s : Serializers V) (own : Option String) (j : String) (n start now : ℕ) (v : V)
      (r : Result (String × String))
      → Evolves id db (record_value s own j n start now v r db).1
  unfolding record_value after_record
  Evolves-record_value s own j n start now v (err e) = Evolves-refl
  Evolves-record_value s own j n start now v (ok (text, format)) =
      let step = step_result j n "DBOS.getEvent" (some text) (some format) start in
      answered s own v (record_operation_result own step now db) (Evolves-record id db own step now)

  Evolves-answer :
      {V : Type 0} (s : Serializers V) (own : Option String) (caller : Option (String × ℕ))
      (start now : ℕ) (format : Option String) (r : Result V)
      → Evolves id db (answer s own caller start now format r db).1
  unfolding answer
  Evolves-answer s own caller start now format (err e) = Evolves-refl
  Evolves-answer s own none start now format (ok v) = Evolves-refl
  Evolves-answer s own (some (j, n)) start now format (ok v) =
      Evolves-record_value s own j n start now v (serialize_value_as s v format)

  module _ {V : Type 0} (s : Serializers V) (own : Option String) where
    pub Evolves-set_event :
        (j : String) (n : ℕ) (key : String) (v : V) (format : Option Format) (start now : ℕ)
        → Evolves id db (set_event_from_workflow s own j n key v format start now db).1
    unfolding set_event_from_workflow
    Evolves-set_event j n key v format start now =
        Evolves-publish_step own j n key start now (serialize_value s v format)

    pub Evolves-set_event_in_step :
        (j : String) (n : ℕ) (key : String) (v : V) (format : Option Format)
        → Evolves id db (set_event_from_step s own j n key v format db).1
    unfolding set_event_from_step
    Evolves-set_event_in_step j n key v format =
        Evolves-publish_directly j n key (serialize_value s v format)

    pub Evolves-get_event :
        (target key : String) (start now : ℕ) (caller : Option (String × ℕ))
        → Evolves id db (get_event_consume s own target key start now caller db).1
    unfolding get_event_consume
    Evolves-get_event target key start now caller =
        let row = find_row (by_event target key) db.workflow_events in
        Evolves-answer s own caller start now _ _

    pub Evolves-write_stream :
        (sentinel : V) (is_sentinel : V → Bool) (j : String) (n : ℕ) (key : String) (v : V)
        (format : Option Format) (start now : ℕ)
        → Evolves id db
            (write_stream_from_workflow s own sentinel is_sentinel j n key v format start now db).1
    unfolding write_stream_from_workflow
    Evolves-write_stream sentinel is_sentinel j n key v format start now =
        Evolves-write_step own j n (write_name (is_sentinel v)) key start now
          (serialize_value s v format)
