-- ===== src/Queues/Tests.antt =====
-- Registering a queue twice.
use dbos_workload.Prelude.{
  String, arith, compares_nat, compares_option, compares_text, false, none, refl, some, true, ◌==◌,
  ◌≡◌,
}
use dbos_workload.Queues.{
  QueueValues, find_queue, get_queue, queue_from_db_row, upsert_queue, validate_queue, value_error,
}
use dbos_workload.Queues.Registered.{IsValid, queue_of_values, upsert_queue-get_queue}
use dbos_workload.Schema.{QueueRow, SysDb, empty_db}
use dbos_workload.Table.{find_row}
use dbos_workload.Transaction.{err, ok}

abbrev mail : QueueValues
mail = record {
  name = "mail";
  concurrency = some 4;
  worker_concurrency = some 2;
  rate_limit_max = none;
  rate_limit_period_ms = none;
  priority_enabled = false;
  partition_queue = false;
  polling_interval_ms = 1000;
}

abbrev registered : SysDb
registered = (upsert_queue mail false "id1" 5 empty_db).1

abbrev wider : QueueValues
wider = record mail {
  concurrency = some 8;
  rate_limit_max = some 3;
  rate_limit_period_ms = some 60;
}

abbrev widened : SysDb
widened = (upsert_queue wider true "id2" 9 registered).1

upsert_queue-get_queue_example :
    ((upsert_queue wider true "id2" 9 registered).0 ≡ ok false)
    × (true ≡ true
        → (IsValid wider → get_queue "mail" widened ≡ ok (some (queue_of_values wider)))
          × (¬ IsValid wider → get_queue "mail" widened ≡ err value_error))
    × ((old : QueueRow)
        → find_queue "mail" registered ≡ some old
        → (row : QueueRow) × (find_queue "mail" widened ≡ some row)
          × (row.queue_id ≡ old.queue_id)
          × (row.created_at ≡ old.created_at)
          × (true ≡ false → row ≡ old))
    × ((name : String)
        → ("mail" == name) ≡ false
        → find_queue name widened ≡ find_queue name registered)
unfolding upsert_queue find_row
upsert_queue-get_queue_example = upsert_queue-get_queue wider true "id2" 9 registered

wider-IsValid : IsValid wider
wider-IsValid = (omega arith, omega arith, tt)

-- More workers than the queue has room for.
oversized_test :
    get_queue "mail"
      (upsert_queue (record mail { worker_concurrency = some 5 }) false "id1" 5 empty_db).1
    ≡ err value_error
unfolding upsert_queue find_row get_queue queue_from_db_row validate_queue
oversized_test = refl
