-- ===== src/Receive/Replay.antt =====
-- A receive that returned is not made again.
use dbos_workload.Prelude.{ℕ, String, ◌≡◌, refl, Option, none, some, arith, Option-cases, inl, inr}
use dbos_workload.Schema.{OperationRow, SysDb}
use dbos_workload.Transaction.{Result, ok, err, Conn}
use dbos_workload.Serialization.{Serializers, serialize_value_as, deserialize_value}
use dbos_workload.Serialization.Roundtrip.{
  AllReadBack, NamesAgree, deserialize_value-serialize_value_as,
}
use dbos_workload.Steps.{find_step, operation_row}
use dbos_workload.Steps.Recorded.{find_step-record_txn}
use dbos_workload.Steps.Call.{step_result}
use dbos_workload.Receive.{
  recv_name, next_message, consume, message_of, format_of, receive, recv_consume,
}

module _ {V : Type 0} (s : Serializers V) (own : Option String) (id : String) (n : ℕ)
    (topic : Option String) (start now : ℕ) (v : V) (back : AllReadBack s v)
    (agree : NamesAgree s v) where
  abbrev consumed_conn : Conn → Conn
  consumed_conn c = record c { work = consume id topic (next_message id topic c.work) c.work }

  -- After a first receive that returned `v`, the step's row reads back as `v`.
  recorded-receive :
      (r : Result (String × String)) (c c' : Conn)
      → find_step id n c.work ≡ none
      → message_of s (next_message id topic c.work) ≡ ok v
      → serialize_value_as s v (format_of (next_message id topic c.work)) ≡ r
      → receive s own id n topic start now none c ≡ (ok v, c')
      → (row : OperationRow) × (find_step id n c'.work ≡ some row)
        × (deserialize_value s row.output row.serialization ≡ ok v)
  unfolding receive
  recorded-receive (err e) c c' fresh read written done = ground arith
  recorded-receive (ok (text, format)) c c' fresh read written done =
      let res = step_result id n recv_name (some text) (some format) start in
      let found = find_step-record_txn own res now (consumed_conn c) in
      let reads =
        deserialize_value-serialize_value_as s v back agree
          (format_of (next_message id topic c.work)) text format written in
      (operation_row res now, ground arith, reads)

  receive-some :
      (start' now' : ℕ) (row : OperationRow) (c : Conn)
      → receive s own id n topic start' now' (some row) c
        ≡ (deserialize_value s row.output row.serialization, c)
  unfolding receive
  receive-some start' now' row c = refl

  message-receive :
      (c c' : Conn)
      → receive s own id n topic start now none c ≡ (ok v, c')
      → message_of s (next_message id topic c.work) ≡ ok v
  unfolding receive
  message-receive c c' done = ground arith

  recv_consume-recorded :
      (db db' : SysDb)
      → recv_consume s own id n topic start now db ≡ (ok v, db')
      → (row : OperationRow) × (find_step id n db' ≡ some row)
        × (deserialize_value s row.output row.serialization ≡ ok v)
  unfolding recv_consume
  recv_consume-recorded db db' done = elim (Option-cases (find_step id n db)) [
    | inl fresh ↦
        let c : Conn = record { work = db; saved = db } in
        let c' = (receive s own id n topic start now none c).1 in
        let ran : receive s own id n topic start now none c ≡ (ok v, c') = ground arith in
        let (row, found, reads) =
          recorded-receive (serialize_value_as s v (format_of (next_message id topic db))) c c'
            fresh (message-receive c c' ran) refl ran in
        (row, ground arith, reads)
    | inr (row, found) ↦
        let replayed = receive-some start now row (record { work = db; saved = db }) in
        (row, ground arith, ground arith)
  ]

-- Receiving as step `n` of a workflow, once it returned a value, returns that value each time it
-- is run again, at any time, and consumes nothing more; the codecs must read back the value.
pub recv_consume_once :
    {V : Type 0} (s : Serializers V) (own : Option String) (id : String) (n : ℕ)
    (topic : Option String) (start now start' now' : ℕ) (v : V) (db db' : SysDb)
    → AllReadBack s v
    → NamesAgree s v
    → recv_consume s own id n topic start now db ≡ (ok v, db')
    → recv_consume s own id n topic start' now' db' ≡ (ok v, db')
unfolding recv_consume
recv_consume_once s own id n topic start now start' now' v db db' back agree done =
    let (row, found, reads) =
      recv_consume-recorded s own id n topic start now v back agree db db' done in
    let replayed =
      receive-some s own id n topic start now v back agree start' now' row
        (record { work = db'; saved = db' }) in
    ground arith
