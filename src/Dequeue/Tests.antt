-- ===== src/Dequeue/Tests.antt =====
-- A queue of two waiting workflows, dequeued.
use mathlib.Core.List.{Perm}
use dbos_workload.Prelude.{if◌then◌else◌, compares_text}
use dbos_workload.Dequeue.{QueueConfig, is_running, start_row}
use dbos_workload.Dequeue.Dispatch.{start_queued_workflows_exclusive, start_queued_workflows_rows}
use dbos_workload.Dequeue.Limits.{start_queued_workflows_concurrency, start_queued_workflows_worker}
use dbos_workload.Dequeue.Order.{IsOrdered, dequeued-IsOrdered}
use dbos_workload.Fixtures.{db0, db0-HasPrimaryKey, waiting}
use dbos_workload.Prelude.{
  List, String, [], false, none, refl, some, true, ◌++◌, ◌∷◌, ◌≡◌, ◌≤◌, ◌-◌,
}
use dbos_workload.Prelude.{mem}
use dbos_workload.Prelude.{length}
use dbos_workload.Schema.{SysDb, WorkflowRow}
use dbos_workload.Steps.{find_workflow}
use dbos_workload.Table.{find_row, any_where, update_where, count_where, select}
use dbos_workload.Dequeue.{
  start_queued_workflows, dequeued, start_each, ready_rows, in_order, place, max_tasks, worker_room,
  global_room, latest_version, newer,
}

abbrev one_at_a_time : QueueConfig
one_at_a_time = record {
  name = "q";
  concurrency = some 1;
  worker_concurrency = some 1;
  limiter = some (record { limit = 1; period_ms = 60 });
}

abbrev taken : List String × SysDb
taken = start_queued_workflows one_at_a_time "x1" "v1" none 0 100 101 db0

-- The older one is started.
taken_test : taken.0 ≡ "b" ∷ []
unfolding start_queued_workflows dequeued start_each ready_rows in_order place max_tasks worker_room
    global_room latest_version newer find_row any_where update_where count_where select
taken_test = refl

start_queued_workflows_concurrency_example :
    (count_where (is_running one_at_a_time none) db0.workflow_status ≤ 1
      → count_where (is_running one_at_a_time none) taken.1.workflow_status ≤ 1)
    × (length taken.0 ≤ 1 - count_where (is_running one_at_a_time none) db0.workflow_status)
start_queued_workflows_concurrency_example =
    start_queued_workflows_concurrency one_at_a_time "x1" "v1" none 0 100 101 1 db0
      db0-HasPrimaryKey refl

start_queued_workflows_worker_test : length taken.0 ≤ 1 - 0
start_queued_workflows_worker_test =
    start_queued_workflows_worker one_at_a_time "x1" "v1" none 0 100 101 1 db0 refl

dequeued-IsOrdered_example :
    (rest : List WorkflowRow) × Perm
      (dequeued one_at_a_time none "v1" 0 db0 ++ rest)
      (ready_rows one_at_a_time none "v1" db0)
    × IsOrdered (dequeued one_at_a_time none "v1" 0 db0 ++ rest)
dequeued-IsOrdered_example = dequeued-IsOrdered one_at_a_time none "v1" 0 db0

start_queued_workflows_rows_test :
    (find_workflow "b" taken.1
      ≡ some (if mem "b" taken.0 then start_row "x1" "v1" 100 101 true waiting else waiting))
    × (mem "b" taken.0 ≡ true → true ≡ true)
unfolding find_row
start_queued_workflows_rows_test =
    start_queued_workflows_rows one_at_a_time "x1" "v1" none 0 100 101 db0 "b" waiting
      db0-HasPrimaryKey refl

start_queued_workflows_exclusive_example :
    mem "b" (start_queued_workflows one_at_a_time "x2" "v1" none 0 200 201 taken.1).0 ≡ false
unfolding start_queued_workflows dequeued start_each ready_rows in_order place max_tasks worker_room
    global_room latest_version newer find_row any_where update_where count_where select
start_queued_workflows_exclusive_example =
    start_queued_workflows_exclusive one_at_a_time one_at_a_time "x1" "x2" "v1" "v1" none none 0 0
      100 200 101 201 db0 "b" waiting db0-HasPrimaryKey refl refl

abbrev unlimited : QueueConfig
unlimited = record { name = "q"; concurrency = none; worker_concurrency = none; limiter = none }
