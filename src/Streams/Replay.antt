-- ===== src/Streams/Replay.antt =====
-- A workflow writes each value to a stream once.
use dbos_workload.Prelude.{Bool, refl, some}
use dbos_workload.Serialization.{Format, Serializers, serialize_value}
use dbos_workload.Steps.{RecordedResult}
use dbos_workload.Streams.{write_name}
use dbos_workload.Transaction.{Result, err}
use dbos_workload.Prelude.{List, Option, String, arith, none, sym, ℕ, ◌≡◌, subst, ◌∙◌}
use dbos_workload.Schema.{StreamRow, SysDb}
use dbos_workload.Steps.{check_operation_execution}
use dbos_workload.Steps.Call.{step_result}
use dbos_workload.Steps.Recorded.{check-record_txn, check_same, streams-record_txn}
use dbos_workload.Streams.{insert_stream, in_stream, insert_stream}
use dbos_workload.Streams.Offsets.{Counts}
use dbos_workload.Table.{select}
use dbos_workload.Transaction.{Conn, ok}
use dbos_workload.Streams.{write_stream_from_workflow, write_step, append_step}
use dbos_workload.Streams.Offsets.{AreNumbered, insert_stream-AreNumbered}

module _ (own : Option String) (id : String) (n : ℕ) (name key : String) where
  -- Only the streams of a database matter to their numbering.
  AreNumbered-same : (db db' : SysDb) → db'.streams ≡ db.streams → AreNumbered db → AreNumbered db'
  AreNumbered-same db db' same numbered id' key' =
      subst (λ (rows : List StreamRow). Counts 0 (select (in_stream id' key') rows)) (sym same)
        (numbered id' key')

  written_step :
      (text format : String) (start now start' now' : ℕ) (db db' : SysDb)
      → check_operation_execution id n name db ≡ ok none
      → AreNumbered db
      → write_step own id n name key start now (ok (text, format)) db ≡ (ok tt, db')
      → AreNumbered db'
        × (write_step own id n name key start' now' (ok (text, format)) db' ≡ (ok tt, db'))
  unfolding write_step append_step insert_stream
  written_step text format start now start' now' db db' fresh numbered done =
      let inserted = insert_stream id n key text format db in
      let c : Conn = record { work = inserted; saved = db } in
      let res = step_result id n name none none start in
      let before = sym (check_same id n name db inserted refl refl) ∙ fresh in
      let checked = check-record_txn own res now c before in
      let kept = streams-record_txn own res now c in
      let same : db'.streams ≡ inserted.streams = ground arith in
      (
        AreNumbered-same inserted db' same
            (insert_stream-AreNumbered id n key text format db numbered),
        ground arith,
      )

  rewritten_step :
      (text format : String) (start now start' now' : ℕ) (db db' : SysDb)
      → AreNumbered db
      → write_step own id n name key start now (ok (text, format)) db ≡ (ok tt, db')
      → AreNumbered db'
        × (write_step own id n name key start' now' (ok (text, format)) db' ≡ (ok tt, db'))
  unfolding write_step append_step
  rewritten_step text format start now start' now' db db' numbered done =
      replayed_step (check_operation_execution id n name db) refl
    where
      replayed_step :
          (r : Result (Option RecordedResult))
          → check_operation_execution id n name db ≡ r
          → AreNumbered db'
            × (write_step own id n name key start' now' (ok (text, format)) db' ≡ (ok tt, db'))
      replayed_step (err e) checked = cc
      replayed_step (ok (some old)) checked =
          let same : db ≡ db' = ground arith in (subst AreNumbered same numbered, ground arith)
      replayed_step (ok none) checked =
          written_step text format start now start' now' db db' checked numbered done

-- A write to a stream as a step of a workflow, once it returned, keeps every stream numbered 0, 1,
-- 2, … in the order of writing, if it was; and run again as that step, at any time, it returns and
-- writes nothing more.
pub write_stream_from_workflow_once :
    {V : Type 0} (s : Serializers V) (own : Option String) (sentinel : V) (is_sentinel : V → Bool)
    (id : String) (n : ℕ) (key : String) (v : V) (format : Option Format)
    (start now start' now' : ℕ) (db db' : SysDb) (text name : String)
    → AreNumbered db
    → serialize_value s v format ≡ ok (text, name)
    → write_stream_from_workflow s own sentinel is_sentinel id n key v format start now db
      ≡ (ok tt, db')
    → AreNumbered db'
      × (write_stream_from_workflow s own sentinel is_sentinel id n key v format start' now' db'
          ≡ (ok tt, db'))
unfolding write_stream_from_workflow
write_stream_from_workflow_once s own sentinel is_sentinel id n key v format start now start' now'
      db db' text name numbered written done =
    rw written (
      rewritten_step own id n (write_name (is_sentinel v)) key text name start now start' now' db
        db' numbered (rw written at done))
