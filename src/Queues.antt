-- ===== src/Queues.antt =====
-- Queues that are kept in the database (dbos/_sys_db.py), and the validation of queues
-- (dbos/_queue.py). The periods are in milliseconds, as the columns are kept.
pub mod Registered
mod Tests
use dbos_workload.Prelude.{
  Bool, List, [], compares_nat, compares_option, compares_text, false, if◌then◌else◌, is_none, leb,
  ltb, none, some, true, ◌++◌, ◌==◌, ◌||◌, ◌∷◌,
}
use dbos_workload.Schema.{QueueRow, SysDb}
use dbos_workload.Table.{delete_where, find_row, update_where}
use dbos_workload.Transaction.{Result, begin, err, execute, ok, pure, query, value_error}
use dbos_workload.Prelude.{String, Option, ℕ}
use dbos_workload.Transaction.{◌>>=◌, ◌>>◌}

-- QueueRateLimit, as `get` reads it.
pub record Limiter : Type 0 where
  pub limit : Option ℕ
  pub period_ms : Option ℕ

pub record Queue : Type 0 where
  pub name : String
  pub concurrency : Option ℕ
  pub limiter : Option Limiter
  pub worker_concurrency : Option ℕ
  pub priority_enabled : Bool
  pub partition_queue : Bool
  pub polling_interval_ms : ℕ
  pub database_backed_queue : Bool

abbrev pub exceeds_concurrency : Option ℕ → Option ℕ → Bool
exceeds_concurrency (some worker) (some concurrency) = ltb concurrency worker
exceeds_concurrency _ _ = false

abbrev pub lacks_field : Option Limiter → Bool
lacks_field none = false
lacks_field (some l) = is_none l.limit || is_none l.period_ms

unfoldable pub validate_queue : Option ℕ → Option ℕ → ℕ → Option Limiter → Result (Unit {0})
validate_queue concurrency worker_concurrency polling_interval_ms limiter =
    if exceeds_concurrency worker_concurrency concurrency
    then err value_error
    else if leb polling_interval_ms 0
    then err value_error
    else if lacks_field limiter
    then err value_error
    else ok tt

abbrev pub limiter_of : QueueRow → Option Limiter
limiter_of m = elim m.rate_limit_max [
  | none ↦ none
  | some limit ↦ some (record { limit = some limit; period_ms = m.rate_limit_period_ms })
]

-- The constructor validates before it sets the fields.
abbrev pub constructed : Queue → Result (Unit {0}) → Result Queue
constructed q (ok u) = ok q
constructed q (err e) = err e

unfoldable pub queue_from_db_row : QueueRow → Result Queue
queue_from_db_row m =
    constructed
      (record {
        name = m.name;
        concurrency = m.concurrency;
        limiter = limiter_of m;
        worker_concurrency = m.worker_concurrency;
        priority_enabled = m.priority_enabled;
        partition_queue = m.partition_queue;
        polling_interval_ms = m.polling_interval_ms;
        database_backed_queue = true;
      })
      (validate_queue m.concurrency m.worker_concurrency m.polling_interval_ms (limiter_of m))

abbrev pub by_queue : String → QueueRow → Bool
by_queue name r = r.name == name

abbrev pub find_queue : String → SysDb → Option QueueRow
find_queue name db = find_row (by_queue name) db.queues

abbrev pub got_queue : Result Queue → Result (Option Queue)
got_queue (ok q) = ok (some q)
got_queue (err e) = err e

abbrev pub queue_found : Option QueueRow → Result (Option Queue)
queue_found none = ok none
queue_found (some m) = got_queue (queue_from_db_row m)

unfoldable pub get_queue : String → SysDb → Result (Option Queue)
get_queue name db = queue_found (find_queue name db)

abbrev pub and_queue : Result Queue → Result (List Queue) → Result (List Queue)
and_queue (err e) rest = err e
and_queue (ok q) (err e) = err e
and_queue (ok q) (ok qs) = ok (q ∷ qs)

queues_of : List QueueRow → Result (List Queue)
queues_of [] = ok []
queues_of (m ∷ ms) = and_queue (queue_from_db_row m) (queues_of ms)

unfoldable pub list_queues : SysDb → Result (List Queue)
unfolding queues_of
list_queues db = queues_of db.queues

unfoldable pub delete_queue : String → SysDb → SysDb
delete_queue name db = record db { queues = delete_where (by_queue name) db.queues }

abbrev pub update_queues : String → (QueueRow → QueueRow) → SysDb → SysDb
update_queues name f db = record db { queues = update_where (by_queue name) f db.queues }

-- A field of a partial update.
pub data QueueField : Type 0 where
  concurrency worker_concurrency rate_limit_max rate_limit_period_ms : Option ℕ → QueueField
  priority_enabled partition_queue : Bool → QueueField
  polling_interval_ms : ℕ → QueueField

abbrev pub set_field : QueueField → QueueRow → QueueRow
set_field (QueueField.concurrency v) r = record r { concurrency = v }
set_field (QueueField.worker_concurrency v) r = record r { worker_concurrency = v }
set_field (QueueField.rate_limit_max v) r = record r { rate_limit_max = v }
set_field (QueueField.rate_limit_period_ms v) r = record r { rate_limit_period_ms = v }
set_field (QueueField.priority_enabled v) r = record r { priority_enabled = v }
set_field (QueueField.partition_queue v) r = record r { partition_queue = v }
set_field (QueueField.polling_interval_ms v) r = record r { polling_interval_ms = v }

pub set_fields : List QueueField → QueueRow → QueueRow
set_fields [] r = r
set_fields (f ∷ fs) r = set_fields fs (set_field f r)

unfoldable pub update_queue : String → List QueueField → ℕ → SysDb → SysDb
update_queue name [] now db = db
update_queue name (f ∷ fs) now db =
    update_queues name (λ r. record (set_fields (f ∷ fs) r) { updated_at = now }) db

-- The arguments of `upsert_queue`.
pub record QueueValues : Type 0 where
  pub name : String
  pub concurrency : Option ℕ
  pub worker_concurrency : Option ℕ
  pub rate_limit_max : Option ℕ
  pub rate_limit_period_ms : Option ℕ
  pub priority_enabled : Bool
  pub partition_queue : Bool
  pub polling_interval_ms : ℕ

abbrev pub queue_row : QueueValues → String → ℕ → QueueRow
queue_row v uuid now = record {
  queue_id = uuid;
  name = v.name;
  concurrency = v.concurrency;
  worker_concurrency = v.worker_concurrency;
  rate_limit_max = v.rate_limit_max;
  rate_limit_period_ms = v.rate_limit_period_ms;
  priority_enabled = v.priority_enabled;
  partition_queue = v.partition_queue;
  polling_interval_ms = v.polling_interval_ms;
  created_at = now;
  updated_at = now;
}

-- What ON CONFLICT DO UPDATE sets.
abbrev pub reconfigured : QueueValues → ℕ → QueueRow → QueueRow
reconfigured v now old = record old {
  concurrency = v.concurrency;
  worker_concurrency = v.worker_concurrency;
  rate_limit_max = v.rate_limit_max;
  rate_limit_period_ms = v.rate_limit_period_ms;
  priority_enabled = v.priority_enabled;
  partition_queue = v.partition_queue;
  polling_interval_ms = v.polling_interval_ms;
  updated_at = now;
}

-- `uuid` is the generated ID, and `now` the caller's clock and the default of created_at.
unfoldable pub put_queue : QueueValues → Bool → String → ℕ → Option QueueRow → SysDb → SysDb
put_queue v update_existing uuid now none db = record db {
  queues = db.queues ++ (queue_row v uuid now ∷ []);
}
put_queue v update_existing uuid now (some old) db =
    if update_existing then update_queues v.name (reconfigured v now) db else db

unfoldable pub upsert_queue : QueueValues → Bool → String → ℕ → SysDb → Result Bool × SysDb
unfolding put_queue
upsert_queue v update_existing uuid now = begin do
  existed ← query (find_queue v.name)
  execute (put_queue v update_existing uuid now existed)
  pure (is_none existed)
