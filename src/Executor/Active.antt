-- ===== src/Executor/Active.antt =====
-- `ActiveWorkflowById` of dbos/_core.py: the workflows that this process is running, each with its
-- queue and partition. A dictionary is a list of its entries, in the order of insertion; the lock
-- makes each method one step.
pub mod Owned
use dbos_workload.Prelude.{
  Bool, List, [], compares_nat, compares_option, compares_text, false, none, some, true, ◌++◌, ◌==◌,
  ◌∷◌, if◌then◌else◌, map, ◌&&◌,
}
use dbos_workload.Prelude.{String, Option, ℕ}
use dbos_workload.Table.{any_where, count_where, delete_where}

abbrev pub Bucket : Type 0
Bucket = Option (String × Option String)

abbrev pub ActiveWorkflows : Type 0
ActiveWorkflows = List (String × Bucket)

abbrev pub has_key : String → String × Bucket → Bool
has_key key (k, bucket) = k == key

abbrev pub bucket_of : Option String → Option String → Bucket
bucket_of none partition = none
bucket_of (some queue) partition = some (queue, partition)

-- Whether the caller owns the workflow now, and the entries.
unfoldable pub acquire :
    String → Option String → Option String → ActiveWorkflows → Bool × ActiveWorkflows
acquire key queue partition m =
    if any_where (has_key key) m
    then (false, m)
    else (true, m ++ ((key, bucket_of queue partition) ∷ []))

-- `none` is the KeyError of a workflow that is not there.
unfoldable pub release : String → ActiveWorkflows → Option ActiveWorkflows
release key m = if any_where (has_key key) m then some (delete_where (has_key key) m) else none

unfoldable pub active_list : ActiveWorkflows → List String
active_list m = map (λ entry. entry.0) m

abbrev pub is_in : String → Option String → String × Bucket → Bool
is_in queue partition (k, none) = false
is_in queue partition (k, some (q, p)) = q == queue && p == partition

unfoldable pub count_for_queue : String → Option String → ActiveWorkflows → ℕ
count_for_queue queue partition m = count_where (is_in queue partition) m
