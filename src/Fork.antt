-- ===== src/Fork.antt =====
-- Forking workflows: `fork_workflow` of dbos/_sys_db.py. A fork is a new workflow, enqueued, with
-- the checkpoints, events and streams that the original had before a step. The copies need no test
-- for conflicts: the rows of the other tables refer to workflow_status, so there are none of an ID
-- that was only now inserted.
pub mod Entries
pub mod Copies
pub mod Replay
pub mod Events
pub mod Failure
mod Tests
use dbos_workload.Transaction.{◌>>=◌, ◌>>◌, pure, query, execute, lift, begin, raise, value_error}
use dbos_workload.Fork.Entries.{ForkEntry, ForkOptions, copies_steps}
use dbos_workload.Prelude.{
  List, Option, String, [], compares_option, false, if◌then◌else◌, length, mem, none, not, some,
  true, ℕ, ◌==◌, ◌||◌, ◌∷◌,
}
use dbos_workload.Schema.{SysDb, WorkflowRow, enqueued}
use dbos_workload.Start.{insert_workflow}
use dbos_workload.Steps.{find_workflow}
use dbos_workload.Table.{select}
use dbos_workload.Transaction.{
  Tx, begin, err, execute, lift, pure, query, raise, dbos_exception, integrity,
}
use dbos_workload.Workflow.{internal_queue_name, update_workflows}
use dbos_workload.Prelude.{compares_text, compares_nat}
use dbos_workload.Fork.Entries.{zip, copy_tables}
use dbos_workload.Transaction.{Result, ok}

abbrev pub forked_row : ForkOptions → ForkEntry → ℕ → WorkflowRow → WorkflowRow
forked_row o e now status = record {
  workflow_uuid = e.fork;
  status = enqueued;
  name = status.name;
  authenticated_user = status.authenticated_user;
  assumed_role = status.assumed_role;
  authenticated_roles = status.authenticated_roles;
  output = none;
  error = none;
  executor_id = none;
  created_at = now;
  updated_at = now;
  application_version = o.application_version;
  application_id = status.application_id;
  class_name = status.class_name;
  config_name = status.config_name;
  recovery_attempts = 0;
  queue_name = elim o.queue_name [ none ↦ some internal_queue_name | some q ↦ some q ];
  workflow_timeout_ms = none;
  workflow_deadline_epoch_ms = none;
  started_at_epoch_ms = none;
  deduplication_id = none;
  inputs = status.inputs;
  priority = 0;
  queue_partition_key = o.queue_partition_key;
  forked_from = some e.original;
  was_forked_from = false;
  owner_xid = none;
  parent_workflow_id = none;
  serialization = status.serialization;
  delay_until_epoch_ms = none;
  rate_limited = false;
  completed_at = none;
  attributes = status.attributes;
  schedule_name = none;
  debounce_deadline_epoch_ms = none;
  is_debounced = false;
}

-- `statuses`, in the order of the originals; the first that is missing raises.
with_status :
    ForkEntry
    → Option WorkflowRow
    → Result (List (ForkEntry × WorkflowRow))
    → Result (List (ForkEntry × WorkflowRow))
with_status e none rest = err dbos_exception
with_status e (some status) (err x) = err x
with_status e (some status) (ok rest) = ok ((e, status) ∷ rest)

pub statuses_of : List ForkEntry → SysDb → Result (List (ForkEntry × WorkflowRow))
statuses_of [] db = ok []
statuses_of (e ∷ es) db = with_status e (find_workflow e.original db) (statuses_of es db)

-- A row of the INSERT; an ID that exists violates the primary key.
unfoldable pub insert_new : WorkflowRow → Option WorkflowRow → Tx (Unit {0})
insert_new r none = execute (insert_workflow r)
insert_new r (some old) = raise integrity

unfoldable pub insert_forks : ForkOptions → ℕ → List (ForkEntry × WorkflowRow) → Tx (Unit {0})
insert_forks o now [] = pure tt
insert_forks o now ((e, status) ∷ rest) = do
  old ← query (find_workflow e.fork)
  insert_new (forked_row o e now status) old
  insert_forks o now rest

abbrev pub mark_forked : List String → SysDb → SysDb
mark_forked originals =
    update_workflows (λ r. mem r.workflow_uuid originals) (λ r. record r { was_forked_from = true })

unfoldable pub fork_entries : ForkOptions → List String → List ForkEntry → ℕ → Tx (Unit {0})
fork_entries o originals entries now = do
  found ← query (statuses_of entries)
  statuses ← lift found
  insert_forks o now statuses
  execute (mark_forked originals)
  execute (copy_tables o (select copies_steps entries))

unfoldable pub returning : {A : Type 0} → A → Result (Unit {0}) × SysDb → Result A × SysDb
returning a (ok u, db) = (ok a, db)
returning a (err e, db) = (err e, db)

unfoldable pub fork_workflow :
    ForkOptions → List String → List String → List ℕ → ℕ → SysDb → Result (List String) × SysDb
unfolding fork_entries returning zip
fork_workflow o [] forks steps now db = (ok [], db)
fork_workflow o (id ∷ ids) forks steps now db =
    if not (length (id ∷ ids) == length forks) || not (length (id ∷ ids) == length steps)
    then (err value_error, db)
    else returning forks (begin (fork_entries o (id ∷ ids) (zip (id ∷ ids) forks steps) now) db)
