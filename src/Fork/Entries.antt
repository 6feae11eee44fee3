-- ===== src/Fork/Entries.antt =====
-- What is copied to forks: the four INSERTs from SELECTs of `fork_workflow` (dbos/_sys_db.py).
use dbos_workload.Prelude.{
  Bool, List, Option, String, [], compares_nat, compares_option, compares_text, if◌then◌else◌, map,
  none, not, some, true, ℕ, ◌&&◌, ◌++◌, ◌==◌, ◌∷◌,
}
use dbos_workload.Schema.{EventHistoryRow, EventRow, OperationRow, StreamRow, SysDb}
use dbos_workload.Prelude.{ltb, leb}
use dbos_workload.Table.{find_row, select}

-- A triple of the three lists: the original, its fork, and the step that the fork starts at.
pub record ForkEntry : Type 0 where
  pub original : String
  pub fork : String
  pub start_step : ℕ

-- zip
unfoldable pub zip : List String → List String → List ℕ → List ForkEntry
zip (o ∷ os) (f ∷ fs) (n ∷ ns) = record { original = o; fork = f; start_step = n } ∷ zip os fs ns
zip _ _ _ = []

-- The arguments that all forks share; `replacement_children` is a dictionary of IDs.
pub record ForkOptions : Type 0 where
  pub application_version : Option String
  pub queue_name : Option String
  pub queue_partition_key : Option String
  pub replacement_children : List (String × String)

-- The child of a step in the fork: the first replacement of it, if there is one.
unfoldable pub replaced : List (String × String) → String → String
replaced [] child = child
replaced ((old, new) ∷ rest) child =
    let others = replaced rest child in if child == old then new else others

abbrev pub replaced_child : List (String × String) → Option String → Option String
replaced_child replacements none = none
replaced_child replacements (some child) = some (replaced replacements child)

abbrev pub copied_step : ForkOptions → String → OperationRow → OperationRow
copied_step o fork r = record r {
  workflow_uuid = fork;
  child_workflow_id = replaced_child o.replacement_children r.child_workflow_id;
}

abbrev pub is_step_before : ForkEntry → OperationRow → Bool
is_step_before e r = r.workflow_uuid == e.original && ltb r.function_id e.start_step

-- The rows of a join with the mapping, for each mapping in turn.
unfoldable pub copied_steps : ForkOptions → List ForkEntry → List OperationRow → List OperationRow
copied_steps o [] rows = []
copied_steps o (e ∷ es) rows =
    map (copied_step o e.fork) (select (is_step_before e) rows) ++ copied_steps o es rows

abbrev pub is_event_before : ForkEntry → EventHistoryRow → Bool
is_event_before e r = r.workflow_uuid == e.original && ltb r.function_id e.start_step

-- The history's rows with the forks that they are copied to.
unfoldable pub joined_history :
    List ForkEntry → List EventHistoryRow → List (String × EventHistoryRow)
joined_history [] rows = []
joined_history (e ∷ es) rows =
    map (λ r. (e.fork, r)) (select (is_event_before e) rows) ++ joined_history es rows

abbrev pub in_same_part : EventHistoryRow → String × EventHistoryRow → Bool
in_same_part r (fork, x) = x.workflow_uuid == r.workflow_uuid && x.key == r.key

abbrev pub goes_over : Option (String × EventHistoryRow) → EventHistoryRow → Bool
goes_over none r = true
goes_over (some (fork, x)) r = leb x.function_id r.function_id

-- row_number() OVER (PARTITION BY workflow_uuid, key ORDER BY function_id DESC) = 1: the row that
-- no other of its part goes before; of rows that tie, the one first joined.
unfoldable pub top_ranked : List (String × EventHistoryRow) → List (String × EventHistoryRow)
top_ranked [] = []
top_ranked ((fork, r) ∷ rest) =
    let best = top_ranked rest in
    if goes_over (find_row (in_same_part r) best) r
    then (fork, r) ∷ select (λ x. not (in_same_part r x)) best
    else best

abbrev pub copied_event : String × EventHistoryRow → EventRow
copied_event (fork, r) = record {
  workflow_uuid = fork;
  key = r.key;
  value = r.value;
  serialization = r.serialization;
}

abbrev pub copied_history : String × EventHistoryRow → EventHistoryRow
copied_history (fork, r) = record r { workflow_uuid = fork }

abbrev pub is_write_before : ForkEntry → StreamRow → Bool
is_write_before e r = r.workflow_uuid == e.original && ltb r.function_id e.start_step

abbrev pub copied_write : String → StreamRow → StreamRow
copied_write fork r = record r { workflow_uuid = fork }

unfoldable pub copied_streams : List ForkEntry → List StreamRow → List StreamRow
copied_streams [] rows = []
copied_streams (e ∷ es) rows =
    map (copied_write e.fork) (select (is_write_before e) rows) ++ copied_streams es rows

-- `if step > 1`
abbrev pub copies_steps : ForkEntry → Bool
copies_steps e = ltb 1 e.start_step

-- The four INSERTs from SELECTs.
unfoldable pub copy_tables : ForkOptions → List ForkEntry → SysDb → SysDb
copy_tables o mappings db =
    let history = joined_history mappings db.workflow_events_history in
    record db {
      operation_outputs = db.operation_outputs ++ copied_steps o mappings db.operation_outputs;
      workflow_events_history = db.workflow_events_history ++ map copied_history history;
      workflow_events = db.workflow_events ++ map copied_event (top_ranked history);
      streams = db.streams ++ copied_streams mappings db.streams;
    }
