-- ===== src/Schedules/Tests.antt =====
-- A schedule that was paused is defined anew.
use dbos_workload.Prelude.{
  compares_nat, compares_option, compares_text, false, if◌then◌else◌, none, some, true, ◌==◌,
}
use dbos_workload.Schedules.{
  create_schedule, get_schedule, pause_schedule, upsert_schedule, dbos_exception,
}
use dbos_workload.Schedules.Laws.{create_schedule_branches, upsert_schedule-get_schedule}
use dbos_workload.Schema.{ScheduleRow, SysDb, empty_db}
use dbos_workload.Table.{any_where, find_row, update_where}
use dbos_workload.Transaction.{err, ok}
use dbos_workload.Prelude.{String, ◌≡◌, refl}

abbrev nightly : ScheduleRow
nightly = record {
  schedule_id = "s1";
  schedule_name = "nightly";
  workflow_name = "report";
  workflow_class_name = none;
  schedule = "0 0 * * *";
  status = "ACTIVE";
  context = "null";
  last_fired_at = none;
  automatic_backfill = false;
  cron_timezone = none;
  queue_name = none;
}

abbrev hourly : ScheduleRow
hourly = record nightly { schedule_id = "s2"; schedule = "0 * * * *" }

abbrev paused : SysDb
paused = pause_schedule "nightly" (create_schedule nightly empty_db).1

upsert_schedule-get_schedule_example :
    get_schedule "nightly" (upsert_schedule hourly paused).1
    ≡ some (record nightly { schedule = "0 * * * *"; status = "PAUSED" })
unfolding find_row create_schedule pause_schedule upsert_schedule any_where update_where
upsert_schedule-get_schedule_example = upsert_schedule-get_schedule hourly paused "nightly" refl

create_again_test :
    (true ≡ true → create_schedule hourly paused ≡ (err dbos_exception, paused))
    × (true ≡ false
        → ((create_schedule hourly paused).0 ≡ ok tt)
          × ((name : String)
              → get_schedule name (create_schedule hourly paused).1
                ≡ (if hourly.schedule_name == name then some hourly else get_schedule name paused)))
unfolding any_where create_schedule pause_schedule update_where
create_again_test = create_schedule_branches hourly paused
