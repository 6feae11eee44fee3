-- ===== src/Steps/Call/Replay.antt =====
-- A step that returned is not run again.
use dbos_workload.Prelude.{
  ℕ, String, ◌≡◌, false, Option, none, some, arith, compares_text, compares_option, refl,
}
use dbos_workload.Schema.{SysDb}
use dbos_workload.Transaction.{Result, ok, err}
use dbos_workload.Serialization.{Serializers, serialize_value}
use dbos_workload.Serialization.Roundtrip.{
  AllReadBack, NamesAgree, deserialize_value-serialize_value,
}
use dbos_workload.Steps.{RecordedResult, check_operation_execution}
use dbos_workload.Steps.Recorded.{check-record}
use dbos_workload.Steps.Call.{
  UserCode, step_result, call_function_as_step, record_serialized, run_or_replay, finish,
  record_returned, replay_recorded,
}
use mathlib.Core.Path.{subst}

module _ {V W : Type 0} (s : Serializers V) (own : Option String) (id : String) (n : ℕ)
    (name : String) (fn again : UserCode W V) (start now start' now' : ℕ) (v : V)
    (back : AllReadBack s v) (agree : NamesAgree s v) where
  -- The value is serialized, recorded, found by the check and read back.
  replay-record_serialized :
      (r : Result (String × String)) (db db' : SysDb) (w w' w'' : W)
      → serialize_value s v none ≡ r
      → check_operation_execution id n name db ≡ ok none
      → record_serialized s own id n name start now v r db w ≡ (ok v, db', w')
      → run_or_replay s own id n name start' now' again
          (check_operation_execution id n name db')
          db'
          w''
        ≡ (ok v, db', w'')
  unfolding record_serialized run_or_replay finish replay_recorded
  replay-record_serialized (err e) db db' w w' w'' written fresh ran = cc
  replay-record_serialized (ok (text, format)) db db' w w' w'' written fresh ran =
      let res = step_result id n name (some text) (some format) start in
      let recorded_once = check-record own res now db fresh in
      let reads = deserialize_value-serialize_value s v back agree none text format written in
      ground (arith, recorded_once, reads)

  value-record_serialized :
      (u : V) (r : Result (String × String)) (db db' : SysDb) (w w' : W)
      → record_serialized s own id n name start now u r db w ≡ (ok v, db', w')
      → u ≡ v
  unfolding record_serialized finish
  value-record_serialized u (err e) db db' w w' ran = cc
  value-record_serialized u (ok (text, format)) db db' w w' ran = ground arith

  replay-record_returned :
      (r : Result V × W) (db db' : SysDb) (w' w'' : W)
      → check_operation_execution id n name db ≡ ok none
      → record_returned s own id n name start now r db ≡ (ok v, db', w')
      → run_or_replay s own id n name start' now' again
          (check_operation_execution id n name db')
          db'
          w''
        ≡ (ok v, db', w'')
  unfolding record_returned
  replay-record_returned (err e, w) db db' w' w'' fresh ran = cc
  replay-record_returned (ok u, w) db db' w' w'' fresh ran =
      let same = value-record_serialized u (serialize_value s u none) db db' w w' ran in
      replay-record_serialized (serialize_value s v none) db db' w w' w'' refl fresh (
        subst
          (λ x.
            record_serialized s own id n name start now x (serialize_value s x none) db w
            ≡ (ok v, db', w'))
          same ran)

  replay-run_or_replay :
      (r : Result (Option RecordedResult)) (db db' : SysDb) (w w' w'' : W)
      → check_operation_execution id n name db ≡ r
      → run_or_replay s own id n name start now fn r db w ≡ (ok v, db', w')
      → run_or_replay s own id n name start' now' again
          (check_operation_execution id n name db')
          db'
          w''
        ≡ (ok v, db', w'')
  unfolding run_or_replay record_returned
  replay-run_or_replay (err e) db db' w w' w'' checked ran = cc
  replay-run_or_replay (ok (some r)) db db' w w' w'' checked ran = ground arith
  replay-run_or_replay (ok none) db db' w w' w'' checked ran =
      replay-record_returned (fn w) db db' w' w'' checked ran

-- If a step of a workflow returned a value, running the step again, with whatever code under its
-- name, at any time and in any world, returns that value, runs nothing (the world stays as it is)
-- and leaves the database as it is; the codecs must read back the value.
pub call_function_as_step_once :
    {V W : Type 0} (s : Serializers V) (own : Option String) (id : String) (n : ℕ) (name : String)
    (fn again : UserCode W V) (start now start' now' : ℕ) (db db' : SysDb) (w w' w'' : W) (v : V)
    → AllReadBack s v
    → NamesAgree s v
    → call_function_as_step s own
        (record { is_transaction = false; workflow = some (id, n) })
        fn
        name
        start
        now
        db
        w
      ≡ (ok v, db', w')
    → call_function_as_step s own
        (record { is_transaction = false; workflow = some (id, n) })
        again
        name
        start'
        now'
        db'
        w''
      ≡ (ok v, db', w'')
unfolding call_function_as_step
call_function_as_step_once s own id n name fn again start now start' now' db db' w w' w'' v back
      agree ran =
    replay-run_or_replay s own id n name fn again start now start' now' v back agree
      (check_operation_execution id n name db) db db' w w' w'' refl ran
