-- ===== src/Streams/Tests.antt =====
-- Values written to streams.
use dbos_workload.Streams.{
  write_stream_from_workflow, write_step, append_step, insert_stream, Result,
}
use dbos_workload.Steps.{record_operation_result_txn, check_operation_execution}
use dbos_workload.Streams.Replay.{write_stream_from_workflow_once}
use dbos_workload.Prelude.{Bool, ◌==◌, compares_text, String}
use dbos_workload.Fixtures.{codecs, codecs-AllReadBack, codecs-NamesAgree, db0, running}
use dbos_workload.Prelude.{none, refl, some, ℕ, ◌≡◌, ◌≢◌}
use dbos_workload.Prelude.{length}
use dbos_workload.Schema.{SysDb}
use dbos_workload.Streams.{read_stream, write_stream_from_step}
use dbos_workload.Streams.Offsets.{
  AreNumbered, stream, write_stream_from_step-read_stream, write_stream_from_step_stuck,
}
use dbos_workload.Transaction.{ok}
use dbos_workload.Table.{find_row, select}
use dbos_workload.Serialization.{serialize_value}

-- An empty database's streams are numbered.
db0-AreNumbered : AreNumbered db0
unfolding select
db0-AreNumbered id key = tt

write_stream_from_step-read_stream_example :
    (db' : SysDb) × (write_stream_from_step codecs 1 "a" 1 "log" "hello" none db0
      ≡ some (ok tt, db'))
    × AreNumbered db'
    × (read_stream codecs "a" "log" (length (stream "a" "log" db0)) db' ≡ ok "hello")
    × ((offset : ℕ)
        → offset ≢ length (stream "a" "log" db0)
        → read_stream codecs "a" "log" offset db' ≡ read_stream codecs "a" "log" offset db0)
unfolding find_row serialize_value
write_stream_from_step-read_stream_example =
    write_stream_from_step-read_stream codecs 0 "a" 1 "log" "hello" none db0 running "hello" "plain"
      (codecs-AllReadBack "hello") (codecs-NamesAgree "hello") db0-AreNumbered refl refl

write_stream_from_step_stuck_example :
    write_stream_from_step codecs 5 "z" 1 "log" "hello" none db0 ≡ none
unfolding find_row serialize_value
write_stream_from_step_stuck_example =
    write_stream_from_step_stuck codecs 5 "z" 1 "log" "hello" none db0 "hello" "plain" refl refl

-- `is_closing` compares with the sentinel.
abbrev is_closing : String → Bool
is_closing v = v == "__DBOS_STREAM_CLOSED__"

abbrev logged : Result (Unit {0}) × SysDb
logged =
    write_stream_from_workflow codecs (some "local") "__DBOS_STREAM_CLOSED__" is_closing "a" 1 "log"
      "hello" none 10 12 db0

logged_test : logged ≡ (ok tt, logged.1)
unfolding write_stream_from_workflow write_step append_step insert_stream find_row serialize_value
    record_operation_result_txn check_operation_execution
logged_test = refl

write_stream_from_workflow_once_test :
    AreNumbered logged.1
    × (write_stream_from_workflow codecs
          (some "local")
          "__DBOS_STREAM_CLOSED__"
          is_closing
          "a"
          1
          "log"
          "hello"
          none
          20
          22
          logged.1
        ≡ (ok tt, logged.1))
unfolding serialize_value
write_stream_from_workflow_once_test =
    write_stream_from_workflow_once codecs (some "local") "__DBOS_STREAM_CLOSED__" is_closing "a" 1
      "log" "hello" none 10 12 20 22 db0 logged.1 "hello" "plain" db0-AreNumbered refl logged_test
