-- ===== src/Events/Published.antt =====
-- An event that was set is the one that is got.
use dbos_workload.Prelude.{
  ℕ, String, ◌≡◌, refl, true, false, Option, none, some, arith, List, [], ◌∷◌, compares_text,
  eq_refl, eq_iff, sym, ◌∙◌,
}
use dbos_workload.Table.{find_row, update_where, any_where}
use dbos_workload.Schema.{EventRow, SysDb}
use dbos_workload.Transaction.{Result, ok, err, Conn}
use dbos_workload.Serialization.{Serializers, Format, serialize_value}
use dbos_workload.Serialization.Roundtrip.{
  AllReadBack, NamesAgree, deserialize_value-serialize_value,
}
use dbos_workload.Steps.{check_operation_execution}
use dbos_workload.Events.{
  by_event, upsert_event, set_event_from_workflow, get_event_consume, publish_step, set_event_name,
  step_result, upsert_history,
}
use dbos_workload.Table.Laws.{find_row-append}
use dbos_workload.Steps.Recorded.{replayed, check_same, check-record_txn, events-record_txn}

abbrev event_row : String → String → String → Option String → EventRow
event_row id key text format = record {
  workflow_uuid = id;
  key = key;
  value = text;
  serialization = format;
}

find_row-upsert_rows :
    (id key text : String) (format : Option String) (rs : List EventRow)
    → any_where (by_event id key) rs ≡ true
    → find_row
        (by_event id key)
        (update_where (by_event id key) (λ r. record r { value = text; serialization = format }) rs)
      ≡ some (event_row id key text format)
unfolding find_row update_where any_where
find_row-upsert_rows id key text format [] h = cc
find_row-upsert_rows id key text format (x ∷ xs) h =
    ground (
      arith,
      find_row-upsert_rows id key text format xs,
      eq_iff x.workflow_uuid id,
      eq_iff x.key key,
    )

find_row-none :
    (id key : String) (rs : List EventRow)
    → any_where (by_event id key) rs ≡ false
    → find_row (by_event id key) rs ≡ none
unfolding find_row any_where
find_row-none id key [] h = refl
find_row-none id key (x ∷ xs) h = ground (arith, find_row-none id key xs)

find_event-upsert :
    (id key text : String) (format : Option String) (db : SysDb)
    → find_row (by_event id key) (upsert_event id key text format db).workflow_events
      ≡ some (event_row id key text format)
unfolding find_row
find_event-upsert id key text format db = ground (
  arith,
  find_row-upsert_rows id key text format db.workflow_events,
  find_row-none id key db.workflow_events,
  eq_refl id,
  eq_refl key,
  find_row-append (by_event id key) db.workflow_events (event_row id key text format ∷ []),
)

-- What the database holds after a step that set an event and was not a replay.
published :
    (own : Option String) (id : String) (n : ℕ) (key text format : String) (start now : ℕ)
    (db db' : SysDb)
    → check_operation_execution id n set_event_name db ≡ ok none
    → publish_step own id n key start now (ok (text, format)) db ≡ (ok tt, db')
    → (find_row (by_event id key) db'.workflow_events ≡ some (event_row id key text (some format)))
      × (check_operation_execution id n set_event_name db'
          ≡ ok (some (replayed (step_result id n set_event_name none none start))))
unfolding publish_step
published own id n key text format start now db db' fresh done =
    let written =
      upsert_history id n key text (some format) (upsert_event id key text (some format) db) in
    let c : Conn = record { work = written; saved = db } in
    let res = step_result id n set_event_name none none start in
    let event = find_event-upsert id key text (some format) db in
    let kept = events-record_txn own res now c in
    let before = sym (check_same id n set_event_name db written refl refl) ∙ fresh in
    let checked = check-record_txn own res now c before in (ground arith, ground arith)

got_and_replayed :
    {V : Type 0} (s : Serializers V) (own : Option String) (id : String) (n : ℕ) (key : String)
    (v : V) (format : Option Format) (start now start' now' : ℕ) (db db' : SysDb)
    (text' name' : String) (r : Result (String × String))
    → AllReadBack s v
    → NamesAgree s v
    → check_operation_execution id n set_event_name db ≡ ok none
    → serialize_value s v format ≡ r
    → publish_step own id n key start now r db ≡ (ok tt, db')
    → (get_event_consume s own id key start' now' none db' ≡ (ok v, db'))
      × (publish_step own id n key start' now' (ok (text', name')) db' ≡ (ok tt, db'))
unfolding publish_step get_event_consume
got_and_replayed s own id n key v format start now start' now' db db' text' name' (err e) back agree
      fresh written done =
    cc
got_and_replayed s own id n key v format start now start' now' db db' text' name' (ok (text, name))
      back agree fresh written done =
    let (event, step) = published own id n key text name start now db db' fresh done in
    let reads = deserialize_value-serialize_value s v back agree format text name written in
    (ground arith, ground arith)

-- An event that a workflow sets at a fresh step is what anyone outside a workflow then gets for its
-- key, at any time, with the database left as it is; and setting it again as that step, to whatever
-- value that serializes, returns and changes nothing. The codecs must read back the value.
pub set_event_from_workflow-get_event :
    {V : Type 0} (s : Serializers V) (own : Option String) (id : String) (n : ℕ) (key : String)
    (v v' : V) (format : Option Format) (start now start' now' : ℕ) (db db' : SysDb)
    (text name : String)
    → AllReadBack s v
    → NamesAgree s v
    → check_operation_execution id n set_event_name db ≡ ok none
    → set_event_from_workflow s own id n key v format start now db ≡ (ok tt, db')
    → serialize_value s v' format ≡ ok (text, name)
    → (get_event_consume s own id key start' now' none db' ≡ (ok v, db'))
      × (set_event_from_workflow s own id n key v' format start' now' db' ≡ (ok tt, db'))
unfolding set_event_from_workflow
set_event_from_workflow-get_event s own id n key v v' format start now start' now' db db' text name
      back agree fresh done other =
    let both =
      got_and_replayed s own id n key v format start now start' now' db db' text name
        (serialize_value s v format) back agree fresh refl done in
    (both.0, rw other both.1)
