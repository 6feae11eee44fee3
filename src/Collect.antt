-- ===== src/Collect.antt =====
-- `garbage_collect` of dbos/_sys_db.py: old workflows that are not active are deleted, at once or
-- in batches, each batch in a transaction of its own.
pub mod Batches
mod Tests
use dbos_workload.Prelude.{
  Bool, List, Option, String, [], compares_option, get_elem?, if◌then◌else◌, leb, ltb, map, none,
  not, some, suc, zero, ℕ, ◌&&◌, ◌-◌, ◌==◌, ◌∷◌,
}
use dbos_workload.Schema.{SysDb, WorkflowRow, workflow_is_active}
use dbos_workload.Transaction.{err, value_error}
use dbos_workload.Prelude.{compares_text, compares_nat}
use dbos_workload.Table.{select, delete_where, any_where}
use dbos_workload.Transaction.{Result, ok, database_error}

-- DELETE FROM workflow_status WHERE p; the foreign keys of the other tables delete with it.
abbrev pub is_gone : (WorkflowRow → Bool) → SysDb → String → Bool
is_gone p db id = any_where (λ w. p w && w.workflow_uuid == id) db.workflow_status

unfoldable pub delete_rows : (WorkflowRow → Bool) → SysDb → SysDb
delete_rows p db = record {
  workflow_status = delete_where p db.workflow_status;
  operation_outputs = delete_where (λ r. is_gone p db r.workflow_uuid) db.operation_outputs;
  notifications = delete_where (λ r. is_gone p db r.destination_uuid) db.notifications;
  workflow_events = delete_where (λ r. is_gone p db r.workflow_uuid) db.workflow_events;
  workflow_events_history =
      delete_where (λ r. is_gone p db r.workflow_uuid) db.workflow_events_history;
  streams = delete_where (λ r. is_gone p db r.workflow_uuid) db.streams;
  application_versions = db.application_versions;
  queues = db.queues;
  workflow_schedules = db.workflow_schedules;
}

abbrev pub gc_filter : ℕ → WorkflowRow → Bool
gc_filter cutoff r = ltb r.created_at cutoff && not (workflow_is_active r.status)

-- ORDER BY of numbers.
insert_number : ℕ → List ℕ → List ℕ
insert_number n [] = n ∷ []
insert_number n (x ∷ xs) = let rest = insert_number n xs in if leb n x then n ∷ x ∷ xs else x ∷ rest

pub ascending : List ℕ → List ℕ
ascending [] = []
ascending (n ∷ ns) = insert_number n (ascending ns)

insert_descending : ℕ → List ℕ → List ℕ
insert_descending n [] = n ∷ []
insert_descending n (x ∷ xs) =
    let rest = insert_descending n xs in if leb x n then n ∷ x ∷ xs else x ∷ rest

descending : List ℕ → List ℕ
descending [] = []
descending (n ∷ ns) = insert_descending n (descending ns)

abbrev created : List WorkflowRow → List ℕ
created = map (λ r. r.created_at)

-- The later of the given cutoff and the one by the number of rows. PostgreSQL refuses the OFFSET
-- of a threshold of 0, which is -1.
later_cutoff : Option ℕ → Option ℕ → Option ℕ
later_cutoff cutoff none = cutoff
later_cutoff none (some based) = some based
later_cutoff (some cutoff) (some based) = if ltb cutoff based then some based else some cutoff

unfoldable pub cutoff_of : Option ℕ → Option ℕ → SysDb → Result (Option ℕ)
unfolding later_cutoff descending insert_descending
cutoff_of cutoff none db = ok cutoff
cutoff_of cutoff (some zero) db = err database_error
cutoff_of cutoff (some (suc k)) db =
    ok (later_cutoff cutoff (get_elem? (descending (created db.workflow_status)) k))

abbrev pub above : ℕ → ℕ → WorkflowRow → Bool
above cutoff watermark r = gc_filter cutoff r && ltb watermark r.created_at

abbrev pub in_batch : ℕ → ℕ → ℕ → WorkflowRow → Bool
in_batch cutoff watermark step r = above cutoff watermark r && leb r.created_at step

-- The created_at of the batch's last row, if that many rows are left above the watermark.
pub batch_step : ℕ → ℕ → ℕ → SysDb → Option ℕ
batch_step batch cutoff watermark db =
    get_elem? (ascending (created (select (above cutoff watermark) db.workflow_status))) (batch - 1)

-- `while True`, with `rounds` at most: none where they do not end it.
pub delete_batches : ℕ → ℕ → ℕ → ℕ → SysDb → Option SysDb
delete_batches zero batch cutoff watermark db = none
delete_batches (suc rounds) batch cutoff watermark db =
    elim (batch_step batch cutoff watermark db) [
      | none ↦ some (delete_rows (gc_filter cutoff) db)
      | some step ↦
          delete_batches rounds batch cutoff step (delete_rows (in_batch cutoff watermark step) db)
    ]

delete_old : ℕ → Option ℕ → ℕ → SysDb → Option SysDb
delete_old rounds none cutoff db = some (delete_rows (gc_filter cutoff) db)
delete_old rounds (some batch) cutoff db = delete_batches rounds batch cutoff 0 db

-- The IDs of the old workflows that remain.
abbrev pub remaining : ℕ → SysDb → List String
remaining cutoff db =
    map (λ r. r.workflow_uuid) (select (λ r. ltb r.created_at cutoff) db.workflow_status)

abbrev pub Collected : Type 0
Collected = Result (Option (ℕ × List String)) × SysDb

collect_from : ℕ → Option ℕ → Result (Option ℕ) → SysDb → Option Collected
collect_from rounds batch (err e) db = some (err e, db)
collect_from rounds batch (ok none) db = some (ok none, db)
collect_from rounds batch (ok (some cutoff)) db = elim (delete_old rounds batch cutoff db) [
  | none ↦ none
  | some db' ↦ some (ok (some (cutoff, remaining cutoff db')), db')
]

unfoldable pub garbage_collect : ℕ → Option ℕ → Option ℕ → Option ℕ → SysDb → Option Collected
unfolding collect_from delete_old
garbage_collect rounds cutoff threshold batch db =
    if batch == some 0
    then some (err value_error, db)
    else collect_from rounds batch (cutoff_of cutoff threshold db) db
