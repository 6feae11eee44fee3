-- ===== src/Messages/Tests.antt =====
-- A message sent twice under one idempotency key.
use dbos_workload.Fixtures.{codecs, db0}
use dbos_workload.Messages.{SendMessage}
use dbos_workload.Messages.Idempotence.{send_bulk_twice}
use dbos_workload.Prelude.{String, [], none, refl, some, ◌∷◌, ◌≡◌}
use dbos_workload.Schema.{SysDb}
use dbos_workload.Transaction.{Result, ok}
use dbos_workload.Table.{find_row, any_where}
use dbos_workload.Serialization.{serialize_value}
use dbos_workload.Messages.{
  send_bulk, send_from, deliver, prepare, prepare_next, insert_notifications, insert_notification,
  rows_of, rows_to, forks_of, has_duplicates, provided_keys,
}

abbrev order : SendMessage String
order = record { destination_id = "a"; message = "ship"; topic = none; idempotency_key = some "k" }

abbrev sent : Result (Unit {0}) × SysDb
sent = send_bulk codecs none (λ n. "u") (order ∷ []) none [] none "DBOS.send" 5 6 db0

sent_test : sent ≡ (ok tt, sent.1)
unfolding send_bulk send_from deliver prepare prepare_next insert_notifications insert_notification
    rows_of rows_to forks_of has_duplicates provided_keys find_row any_where serialize_value
sent_test = refl

send_bulk_twice_example :
    send_bulk codecs none (λ n. "w") (order ∷ []) none [] none "DBOS.send" 8 9 sent.1
    ≡ (ok tt, sent.1)
send_bulk_twice_example =
    send_bulk_twice codecs none (λ n. "u") (λ n. "w") 5 6 8 9 "DBOS.send" none [] (order ∷ []) db0
      sent.1 (refl, tt) sent_test
