-- ===== src/Receive/Tests.antt =====
-- A message received, and received again.
use dbos_workload.Fixtures.{codecs, codecs-AllReadBack, codecs-NamesAgree, db0}
use dbos_workload.Prelude.{String, [], false, none, refl, some, ◌∷◌, ◌≡◌}
use dbos_workload.Receive.Replay.{recv_consume_once}
use dbos_workload.Schema.{SysDb}
use dbos_workload.Transaction.{Result, ok}
use dbos_workload.Table.{find_row, select, update_where}
use dbos_workload.Serialization.{serialize_value_as, deserialize_value}
use dbos_workload.Steps.{record_operation_result_txn}
use dbos_workload.Receive.{
  recv_consume, receive, next_message, oldest, older, message_of, format_of,
}

abbrev mail : SysDb
mail = record db0 {
  notifications =
      (record {
        destination_uuid = "a";
        topic = "__null__topic__";
        message = "ship";
        created_at_epoch_ms = 5;
        message_uuid = "m";
        serialization = some "portable_json";
        consumed = false;
      })
      ∷ [];
}

abbrev got : Result String × SysDb
got = recv_consume codecs (some "local") "a" 1 none 10 12 mail

got_test : got ≡ (ok "ship", got.1)
unfolding recv_consume receive next_message oldest older message_of format_of find_row select
    update_where serialize_value_as deserialize_value record_operation_result_txn
got_test = refl

recv_consume_once_example :
    recv_consume codecs (some "local") "a" 1 none 20 22 got.1 ≡ (ok "ship", got.1)
recv_consume_once_example =
    recv_consume_once codecs (some "local") "a" 1 none 10 12 20 22 "ship" mail got.1
      (codecs-AllReadBack "ship") (codecs-NamesAgree "ship") got_test
