-- ===== src/Schedules.antt =====
-- Schedules of dbos/_sys_db.py: the rows of workflow_schedules by name. The forms that take a
-- connection are the transactions, and those without one are the same in `begin`.
pub mod Laws
mod Tests
use dbos_workload.Prelude.{
  Bool, List, [], compares_nat, compares_option, compares_text, if◌then◌else◌, mem, none, some,
  true, ◌&&◌, ◌++◌, ◌==◌, ◌||◌, ◌∷◌,
}
use dbos_workload.Schema.{ScheduleRow, SysDb}
use dbos_workload.Table.{any_where, delete_where, find_row, select, update_where}
use dbos_workload.Transaction.{Result, Tx, begin, execute, query, raise, dbos_exception, integrity}
use dbos_workload.Prelude.{String, ◌≡◌, Option, ℕ, refl}
use dbos_workload.Transaction.{◌>>=◌, ◌>>◌}

abbrev pub by_schedule : String → ScheduleRow → Bool
by_schedule name r = r.schedule_name == name

-- The primary key or the unique name.
abbrev pub same_schedule : ScheduleRow → ScheduleRow → Bool
same_schedule a b = a.schedule_id == b.schedule_id || a.schedule_name == b.schedule_name

abbrev pub insert_schedule : ScheduleRow → SysDb → SysDb
insert_schedule s db = record db { workflow_schedules = db.workflow_schedules ++ (s ∷ []) }

abbrev pub update_schedules : (ScheduleRow → Bool) → (ScheduleRow → ScheduleRow) → SysDb → SysDb
update_schedules p f db = record db { workflow_schedules = update_where p f db.workflow_schedules }

unfoldable pub create_schedule_txn : ScheduleRow → Tx (Unit {0})
create_schedule_txn s = do
  taken ← query (λ db. any_where (same_schedule s) db.workflow_schedules)
  if taken then raise dbos_exception else execute (insert_schedule s)

unfoldable pub create_schedule : ScheduleRow → SysDb → Result (Unit {0}) × SysDb
unfolding create_schedule_txn
create_schedule s = begin (create_schedule_txn s)

-- What ON CONFLICT DO UPDATE sets.
abbrev pub redefined : ScheduleRow → ScheduleRow → ScheduleRow
redefined s old = record old {
  workflow_name = s.workflow_name;
  workflow_class_name = s.workflow_class_name;
  schedule = s.schedule;
  context = s.context;
  automatic_backfill = s.automatic_backfill;
  cron_timezone = s.cron_timezone;
  queue_name = s.queue_name;
}

-- A new name with the ID of another schedule violates the primary key.
unfoldable pub upsert_schedule_txn : ScheduleRow → Tx (Unit {0})
upsert_schedule_txn s = do
  named ← query (λ db. any_where (by_schedule s.schedule_name) db.workflow_schedules)
  taken ← query (λ db. any_where (same_schedule s) db.workflow_schedules)
  if named
      then execute (update_schedules (by_schedule s.schedule_name) (redefined s))
      else if taken
      then raise integrity
      else execute (insert_schedule s)

unfoldable pub upsert_schedule : ScheduleRow → SysDb → Result (Unit {0}) × SysDb
unfolding upsert_schedule_txn
upsert_schedule s = begin (upsert_schedule_txn s)

-- A filter of `list_schedules`: one value or several are a list.
abbrev pub is_among : Option (List String) → String → Bool
is_among none v = true
is_among (some vs) v = mem v vs

-- `starts_with` is the database's test of a prefix, LIKE.
abbrev has_prefix : (String → String → Bool) → Option (List String) → String → Bool
has_prefix starts_with none v = true
has_prefix starts_with (some ps) v = any_where (λ p. starts_with v p) ps

unfoldable pub list_schedules :
    (String → String → Bool)
    → Option (List String)
    → Option (List String)
    → Option (List String)
    → SysDb
    → List ScheduleRow
list_schedules starts_with status workflow_name prefixes db =
    select
      (λ r.
        is_among status r.status
        && is_among workflow_name r.workflow_name
        && has_prefix starts_with prefixes r.schedule_name)
      db.workflow_schedules

abbrev pub get_schedule : String → SysDb → Option ScheduleRow
get_schedule name db = find_row (by_schedule name) db.workflow_schedules

unfoldable pub set_schedule_status : String → String → SysDb → SysDb
set_schedule_status name status =
    update_schedules (by_schedule name) (λ r. record r { status = status })

unfoldable pub pause_schedule : String → SysDb → SysDb
unfolding set_schedule_status
pause_schedule name = set_schedule_status name "PAUSED"

unfoldable pub resume_schedule : String → SysDb → SysDb
unfolding set_schedule_status
resume_schedule name = set_schedule_status name "ACTIVE"

unfoldable pub update_last_fired_at : String → String → SysDb → SysDb
update_last_fired_at name last_fired_at =
    update_schedules (by_schedule name) (λ r. record r { last_fired_at = some last_fired_at })

unfoldable pub delete_schedule : String → SysDb → SysDb
delete_schedule name db = record db {
  workflow_schedules = delete_where (by_schedule name) db.workflow_schedules;
}
