-- ===== src/Operations/History.antt =====
-- What holds over every run of operations, whatever executors and clients do in between.
use dbos_workload.Operations.Rows.{negated_false}
use dbos_workload.Operations.{
  Operation, cancel, debounce, delete, dequeue, finish, fork, get_event, init, consume_message,
  record_child, record_result, record_step, requeue, resume, run, run_all, send, set_attributes,
  put_delay, set_event, set_event_in_step, spares, undelay, write_stream,
}
use dbos_workload.Operations.Checkpoints.{Evolves-child, Evolves-get_result, Evolves-record}
use dbos_workload.Operations.Delivering.{Evolves-receive, Evolves-send}
use dbos_workload.Operations.Evolution.{Evolves, Evolves-refl, Evolves-trans}
use dbos_workload.Operations.Inserts.{Evolves-delete, Evolves-dequeue, Evolves-fork, Evolves-init}
use dbos_workload.Operations.Publishing.{
  Evolves-get_event, Evolves-set_event, Evolves-set_event_in_step, Evolves-write_stream,
}
use dbos_workload.Operations.Rows.{
  Evolves-attributes, Evolves-cancel, Evolves-debounce, Evolves-finish, Evolves-requeue,
  Evolves-resume, Evolves-set_delay, Evolves-undelay,
}
use dbos_workload.Prelude.{All, List, [], compares_text, mem, some, true, ◌∷◌}
use dbos_workload.Schema.{OperationRow, SysDb}
use dbos_workload.Serialization.{Serializers}
use dbos_workload.Steps.{find_step}
use dbos_workload.Table.Distinct.{Distinct-delete_where}
use dbos_workload.Workflow.{delete_workflows}
use dbos_workload.Workflow.Lookup.{HasPrimaryKey, same_uuid}
use dbos_workload.Prelude.{String, ◌≡◌, Option, ℕ, refl}

module _ {V : Type 0} (s : Serializers V) (own : Option String) (id : String) where
  pub Evolves-run :
      (op : Operation V) (db : SysDb) → spares id op ≡ true → Evolves id db (run s own op db)
  unfolding run
  Evolves-run (init w limit owner_xid recovery from_queue now) db h =
      Evolves-init id db w limit owner_xid recovery from_queue now
  Evolves-run (dequeue q executor version key local start now) db h =
      Evolves-dequeue id db q executor version key local start now
  Evolves-run (finish j ending output error now) db h =
      Evolves-finish id db j ending output error now
  Evolves-run (cancel ids now) db h = Evolves-cancel id db ids now
  Evolves-run (resume ids queue now) db h = Evolves-resume id db ids queue now
  Evolves-run (fork o ids forks steps now) db h = Evolves-fork id db o ids forks steps now
  Evolves-run (delete ids) db h = Evolves-delete id db ids (negated_false (mem id ids) h)
  Evolves-run (put_delay j delay until clock now) db h =
      Evolves-set_delay id db j delay until clock now
  Evolves-run (set_attributes j attributes now) db h = Evolves-attributes id db j attributes now
  Evolves-run (undelay now) db h = Evolves-undelay id db now
  Evolves-run (requeue j) db h = Evolves-requeue id db j
  Evolves-run (debounce b now) db h = Evolves-debounce id db b now
  Evolves-run (record_step result completed) db h = Evolves-record id db own result completed
  Evolves-run (record_result j n result_id output error format) db h =
      Evolves-get_result id db j n result_id output error format
  Evolves-run (record_child parent child n name) db h = Evolves-child id db parent child n name
  Evolves-run (send uuid messages format forks caller name start now) db h =
      Evolves-send id db s own uuid messages format forks caller name start now
  Evolves-run (consume_message j n topic start now) db h =
      Evolves-receive id db s own j n topic start now
  Evolves-run (set_event j n key v format start now) db h =
      Evolves-set_event id db s own j n key v format start now
  Evolves-run (set_event_in_step j n key v format) db h =
      Evolves-set_event_in_step id db s own j n key v format
  Evolves-run (get_event target key start now caller) db h =
      Evolves-get_event id db s own target key start now caller
  Evolves-run (write_stream sentinel is_sentinel j n key v format start now) db h =
      Evolves-write_stream id db s own sentinel is_sentinel j n key v format start now

  Evolves-run_all :
      (ops : List (Operation V)) (db : SysDb)
      → All (λ op. spares id op ≡ true) ops
      → Evolves id db (run_all s own ops db)
  unfolding run_all
  Evolves-run_all [] db h = Evolves-refl
  Evolves-run_all (op ∷ ops) db (h, hs) =
      Evolves-trans (Evolves-run op db h) (Evolves-run_all ops (run s own op db) hs)

  -- A checkpoint is written once: over any sequence of operations that does not delete the
  -- workflow, whatever they are, each recorded step keeps the row that it was recorded with.
  pub run_all_checkpoints :
      (ops : List (Operation V)) (db : SysDb) (n : ℕ) (o : OperationRow)
      → All (λ op. spares id op ≡ true) ops
      → find_step id n db ≡ some o
      → find_step id n (run_all s own ops db) ≡ some o
  run_all_checkpoints ops db n o spared found = (Evolves-run_all ops db spared).steps n o found

HasPrimaryKey-run :
    {V : Type 0} (s : Serializers V) (own : Option String) (op : Operation V) (db : SysDb)
    → HasPrimaryKey db
    → HasPrimaryKey (run s own op db)
unfolding run delete_workflows
HasPrimaryKey-run s own (delete ids) db unique =
    Distinct-delete_where same_uuid (λ r. mem r.workflow_uuid ids) db.workflow_status unique
HasPrimaryKey-run s own op db unique = (Evolves-run s own "" op db refl).key unique

-- The ID is the primary key of workflow_status in every database that operations reach from one
-- where it is: no operation, deletions included, makes two rows of one workflow.
pub HasPrimaryKey-run_all :
    {V : Type 0} (s : Serializers V) (own : Option String) (ops : List (Operation V)) (db : SysDb)
    → HasPrimaryKey db
    → HasPrimaryKey (run_all s own ops db)
unfolding run_all
HasPrimaryKey-run_all s own [] db unique = unique
HasPrimaryKey-run_all s own (op ∷ ops) db unique =
    HasPrimaryKey-run_all s own ops (run s own op db) (HasPrimaryKey-run s own op db unique)
