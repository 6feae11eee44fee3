-- ===== src/Schedules/Laws.antt =====
-- Schedules are found by name as they were written.
use dbos_workload.Prelude.{ap}
use dbos_workload.Table.Laws.{find_row-holds}
use dbos_workload.Table.Keyed.{any_where-by_key, find_row-insert_key, find_row-update_key}
use dbos_workload.Prelude.{Bool-cases, eq_iff, false, inl, inr, true}
use dbos_workload.Schedules.{
  create_schedule, redefined, same_schedule, upsert_schedule, dbos_exception,
}
use dbos_workload.Transaction.{err, ok}
use dbos_workload.Prelude.{
  List, [], arith, compares_nat, compares_option, compares_text, if◌then◌else◌, none, some, ◌==◌,
  ◌∷◌,
}
use dbos_workload.Schedules.{by_schedule, get_schedule}
use dbos_workload.Schema.{ScheduleRow, SysDb}
use dbos_workload.Table.{any_where, find_row}
use dbos_workload.Prelude.{String, ◌≡◌, Option, refl}

abbrev schedule_key : ScheduleRow → String
schedule_key r = r.schedule_name

abbrev defined : ScheduleRow → Option ScheduleRow → ScheduleRow
defined s none = s
defined s (some old) = redefined s old

upsert-redefined :
    (s : ScheduleRow) (db : SysDb) (name : String)
    → (upsert_schedule s db).0 ≡ ok tt
    → get_schedule name (upsert_schedule s db).1 ≡ (
        if s.schedule_name == name
        then some (defined s (get_schedule s.schedule_name db))
        else get_schedule name db)
unfolding upsert_schedule
upsert-redefined s db name done =
    let rows = db.workflow_schedules in
    let known = any_where-by_key schedule_key s.schedule_name rows in
    let renamed =
      find_row-update_key schedule_key s.schedule_name name (redefined s) rows (λ r. refl) in
    elim (Bool-cases (any_where (by_schedule s.schedule_name) rows)) [
      | inl named ↦ rw named (ground (arith, renamed, known))
      | inr new ↦
          let absent : get_schedule s.schedule_name db ≡ none = ground (arith, known) in
          elim (Bool-cases (any_where (same_schedule s) rows)) [
            | inl taken ↦ cc
            | inr free ↦
                rw (new, free, absent) (find_row-insert_key schedule_key s name rows absent)
          ]
    ]

-- What a schedule is when it was written: as it is given, but for the ID, the status and the time
-- of the last firing of an old one.
abbrev written : ScheduleRow → Option ScheduleRow → ScheduleRow
written s none = s
written s (some old) = record s {
  schedule_id = old.schedule_id;
  status = old.status;
  last_fired_at = old.last_fired_at;
}

defined-written :
    (s : ScheduleRow) (db : SysDb) (o : Option ScheduleRow)
    → get_schedule s.schedule_name db ≡ o
    → defined s o ≡ written s o
defined-written s db none found = refl
defined-written s db (some old) found =
    let here = find_row-holds (by_schedule s.schedule_name) db.workflow_schedules old found in
    ap (λ (n : String). record (written s (some old)) { schedule_name = n })
      ((eq_iff old.schedule_name s.schedule_name).0 here)

-- An upsert that does not raise writes the schedule of its name: a new one as it is given, and an
-- old one with the given definition, and with the ID, the status and the time of the last firing
-- that it had. A schedule of another name is as it was.
pub upsert_schedule-get_schedule :
    (s : ScheduleRow) (db : SysDb) (name : String)
    → (upsert_schedule s db).0 ≡ ok tt
    → get_schedule name (upsert_schedule s db).1 ≡ (
        if s.schedule_name == name
        then some (written s (get_schedule s.schedule_name db))
        else get_schedule name db)
upsert_schedule-get_schedule s db name done = ground (
  arith,
  upsert-redefined s db name done,
  defined-written s db (get_schedule s.schedule_name db) refl,
)

unnamed :
    (s : ScheduleRow) (rs : List ScheduleRow)
    → any_where (same_schedule s) rs ≡ false
    → find_row (by_schedule s.schedule_name) rs ≡ none
unfolding any_where find_row
unnamed s [] h = refl
unnamed s (r ∷ rs) h = ground (
  arith,
  unnamed s rs,
  eq_iff r.schedule_name s.schedule_name,
  eq_iff s.schedule_name r.schedule_name,
)

-- Creating a schedule whose name or ID exists raises and changes nothing; otherwise it is found by
-- its name, and the schedules of other names are as they were.
pub create_schedule_branches :
    (s : ScheduleRow) (db : SysDb)
    → (any_where (same_schedule s) db.workflow_schedules ≡ true
        → create_schedule s db ≡ (err dbos_exception, db))
      × (any_where (same_schedule s) db.workflow_schedules ≡ false
          → ((create_schedule s db).0 ≡ ok tt)
            × ((name : String)
                → get_schedule name (create_schedule s db).1
                  ≡ (if s.schedule_name == name then some s else get_schedule name db)))
unfolding create_schedule
create_schedule_branches s db = (
  (λ taken. rw taken refl),
  (λ new. (
    rw new refl,
    (λ name. rw new (
        find_row-insert_key schedule_key s name db.workflow_schedules
          (unnamed s db.workflow_schedules new))),
  )),
)
