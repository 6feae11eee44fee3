-- ===== src/Sleep.antt =====
-- `record_sleep` of dbos/_sys_db.py: a durable sleep records when it ends. Times are milliseconds.
pub mod Deadline
mod Tests
use dbos_workload.Prelude.{none, some}
use dbos_workload.Prelude.{String, Option, ℕ, ◌+◌, ◌-◌}
use dbos_workload.Schema.{SysDb}
use dbos_workload.Serialization.{Serializers, deserialize_value, portable_name}
use dbos_workload.Steps.{RecordedResult, check_operation_execution, record_operation_result}
use dbos_workload.Steps.Call.{step_result}
use dbos_workload.Transaction.{Result, assertion, err, ok, workflow_conflict_id}

abbrev pub sleep_name : String
sleep_name = "DBOS.sleep"

-- `max(0, end_time - time.time())`: the subtraction stops at 0.
abbrev pub time_left : ℕ → Result ℕ → Result ℕ
time_left last (ok end_time) = ok (end_time - last)
time_left last (err e) = err e

module _ (s : Serializers ℕ) (own : Option String) (id : String) (n start now : ℕ) where
  -- `except DBOSWorkflowConflictIDError: pass`
  abbrev pub sleep_recorded : ℕ → Result (Unit {0}) × SysDb → Result ℕ × SysDb
  sleep_recorded end_time (ok u, db) = (ok end_time, db)
  sleep_recorded end_time (err (workflow_conflict_id j), db) = (ok end_time, db)
  sleep_recorded end_time (err e, db) = (err e, db)

  abbrev pub put_sleep : ℕ → Result String → SysDb → Result ℕ × SysDb
  put_sleep end_time (err e) db = (err e, db)
  put_sleep end_time (ok text) db = sleep_recorded end_time (
      record_operation_result own
        (step_result id n sleep_name (some text) (some portable_name) start) now db)

  abbrev pub end_recorded : Option String → Option String → Result ℕ
  end_recorded none format = err assertion
  end_recorded (some text) format = deserialize_value s (some text) format

  -- When the sleep ends: as it was recorded, or after `delay` from `now`.
  abbrev pub sleep_end : ℕ → Result (Option RecordedResult) → SysDb → Result ℕ × SysDb
  sleep_end delay (err e) db = (err e, db)
  sleep_end delay (ok (some r)) db = (end_recorded r.output r.serialization, db)
  sleep_end delay (ok none) db = put_sleep (now + delay) (s.portable.serialize (now + delay)) db

  -- How long to sleep from `last` on, the time at the end of the call.
  unfoldable pub record_sleep : ℕ → ℕ → SysDb → Result ℕ × SysDb
  record_sleep delay last db =
      let (end_time, db') = sleep_end delay (check_operation_execution id n sleep_name db) db in
      (time_left last end_time, db')
