-- ===== src/Sleep/Deadline.antt =====
-- A sleep that is resumed ends when it was to end at first.
use dbos_workload.Prelude.{◌≡◌, none, refl, some, compares_option, compares_text}
use dbos_workload.Prelude.{String, Option, ℕ, ◌+◌, ◌-◌}
use dbos_workload.Schema.{SysDb}
use dbos_workload.Serialization.{Serializers, deserialize_value, portable_name}
use dbos_workload.Serialization.Roundtrip.{ReadsBack}
use dbos_workload.Sleep.{record_sleep, sleep_name, sleep_recorded}
use dbos_workload.Steps.{check_operation_execution, record_operation_result}
use dbos_workload.Steps.Call.{step_result}
use dbos_workload.Steps.Recorded.{check-record}
use dbos_workload.Transaction.{Result, err, ok, workflow_conflict_id}

module _ (s : Serializers ℕ) (own : Option String) (id : String) (n start now : ℕ) where
  sleep_recorded_ok :
      (end_time : ℕ) (x : Result (Unit {0}) × SysDb)
      → x.0 ≡ ok tt
      → sleep_recorded s own id n start now end_time x ≡ (ok end_time, x.1)
  sleep_recorded_ok end_time (ok u, db) h = refl
  sleep_recorded_ok end_time (err (workflow_conflict_id j), db) h = cc
  sleep_recorded_ok end_time (err _, db) h = cc

read_portable :
    (s : Serializers ℕ) (t : ℕ) (text : String)
    → ReadsBack s.portable t
    → s.portable.serialize t ≡ ok text
    → deserialize_value s (some text) (some portable_name) ≡ ok t
unfolding deserialize_value
read_portable s t text back written = back text written

-- A sleep of `delay` that is called at `now` for the first time, and recorded, has the rest until
-- `now + delay` left. Called again at any time, after a crash or for whatever delay, it has the rest
-- until that same time left, or nothing when the time is over, and changes nothing: a workflow that
-- is resumed does not sleep longer. The portable codec reads back the time that it wrote.
pub record_sleep_deadline :
    (s : Serializers ℕ) (own : Option String) (id : String)
    (n start start' now now' delay delay' last last' : ℕ) (text : String) (db : SysDb)
    → check_operation_execution id n sleep_name db ≡ ok none
    → s.portable.serialize (now + delay) ≡ ok text
    → ReadsBack s.portable (now + delay)
    → (record_operation_result own
        (step_result id n sleep_name (some text) (some portable_name) start)
        now
        db).0
      ≡ ok tt
    → let (left, after) = record_sleep s own id n start now delay last db in
      (left ≡ ok (now + delay - last))
      × (record_sleep s own id n start' now' delay' last' after ≡ (ok (now + delay - last'), after))
unfolding record_sleep
record_sleep_deadline s own id n start start' now now' delay delay' last last' text db fresh written
      back done =
    let res = step_result id n sleep_name (some text) (some portable_name) start in
    let put =
      sleep_recorded_ok s own id n start now (now + delay) (record_operation_result own res now db)
        done in
    let there = check-record own res now db fresh done in
    let reads = read_portable s (now + delay) text back written in
    rw (fresh, written, put) (refl, rw (there, reads) refl)
