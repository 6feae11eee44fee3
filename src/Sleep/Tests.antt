-- ===== src/Sleep/Tests.antt =====
-- A sleep of 50 at time 100, resumed at time 130.
use dbos_workload.Fixtures.{db0}
use dbos_workload.Prelude.{◌≡◌, refl, some, subst, ◌==◌, if◌then◌else◌, compares_text}
use dbos_workload.Prelude.{ℕ, ◌+◌, ◌-◌}
use dbos_workload.Schema.{SysDb}
use dbos_workload.Serialization.{Codec, Serializers, deserialize_value, portable_name}
use dbos_workload.Serialization.Roundtrip.{ReadsBack}
use dbos_workload.Sleep.{record_sleep, sleep_name}
use dbos_workload.Sleep.Deadline.{record_sleep_deadline}
use dbos_workload.Steps.{check_operation_execution, record_operation_result}
use dbos_workload.Steps.Call.{step_result}
use dbos_workload.Table.{find_row}
use dbos_workload.Transaction.{err, ok, type_error}

-- The only time that is written here.
abbrev times : Codec ℕ
times = record {
  serialize = λ t. ok "150";
  deserialize = λ text. if text == "150" then ok 150 else err type_error;
}

abbrev time_codecs : Serializers ℕ
time_codecs = record {
  null = 0;
  portable = times;
  default = times;
  own = times;
  own_name = "plain";
}

abbrev asleep : SysDb
asleep =
    (record_operation_result (some "local")
      (step_result "a" 1 sleep_name (some "150") (some portable_name) 100) 100 db0).1

times_back : ReadsBack times 150
times_back text e =
    let same : "150" ≡ text = cc in subst (λ u. times.deserialize u ≡ ok 150) same refl

record_sleep_deadline_example :
    let (left, after) = record_sleep time_codecs (some "local") "a" 1 100 100 50 101 db0 in
    (left ≡ ok (100 + 50 - 101))
    × (record_sleep time_codecs (some "local") "a" 1 130 130 50 131 after
        ≡ (ok (100 + 50 - 131), after))
unfolding check_operation_execution record_operation_result find_row
record_sleep_deadline_example =
    record_sleep_deadline time_codecs (some "local") "a" 1 100 130 100 130 50 50 101 131 "150" db0
      refl refl times_back refl

sleep_resumed_test :
    record_sleep time_codecs (some "local") "a" 1 130 130 50 131 asleep ≡ (ok 19, asleep)
unfolding record_sleep check_operation_execution record_operation_result find_row deserialize_value
sleep_resumed_test = refl
