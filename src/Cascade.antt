-- ===== src/Cascade.antt =====
-- `cancel_workflows` with `cancel_children`, `_get_direct_children` and `get_workflow_children` of
-- dbos/_sys_db.py: the children of workflows are cancelled, or listed, level by level, one
-- transaction for each level.
pub mod Walk
pub mod Round
pub mod Descendants
pub mod Children
mod Tests
use dbos_workload.Prelude.{
  ℕ, zero, suc, String, Bool, true, false, not, Option, none, some, List, [], ◌∷◌, ◌++◌, map, mem,
  compares_text,
}
use dbos_workload.Table.{select}
use dbos_workload.Schema.{WorkflowRow, SysDb}
use dbos_workload.Workflow.{cancel_workflows}

-- `parent_workflow_id IN (ids)`
abbrev pub is_child : List String → WorkflowRow → Bool
is_child ids r = elim r.parent_workflow_id [ none ↦ false | some p ↦ mem p ids ]

abbrev pub children_of : List String → List WorkflowRow → List String
children_of ids rows = map (λ r. r.workflow_uuid) (select (is_child ids) rows)

unfoldable pub get_direct_children : List String → SysDb → List String
get_direct_children [] db = []
get_direct_children (id ∷ ids) db = children_of (id ∷ ids) db.workflow_status

-- `[c for c in children if c not in visited]`
abbrev pub unvisited : List String → List String → List String
unvisited visited = select (λ c. not (mem c visited))

-- `while frontier`, with `rounds` at most: none where the frontier is not empty after them. The
-- clock gives the database's time in each round.
pub cancel_levels : (ℕ → ℕ) → ℕ → List String → List String → SysDb → Option SysDb
cancel_levels clock rounds visited [] db = some db
cancel_levels clock zero visited (id ∷ ids) db = none
cancel_levels clock (suc rounds) visited (id ∷ ids) db =
    let db' = cancel_workflows (id ∷ ids) (clock rounds) db in
    let next = unvisited visited (get_direct_children (id ∷ ids) db') in
    cancel_levels clock rounds (visited ++ next) next db'

unfoldable pub cancel_with_children : (ℕ → ℕ) → ℕ → List String → SysDb → Option SysDb
cancel_with_children clock rounds ids = cancel_levels clock rounds ids ids

-- `while frontier` of `get_workflow_children`, with `rounds` at most. A set of IDs is a list of them
-- here, and nothing else writes to the database between two rounds.
pub descend : ℕ → List String → List String → SysDb → Option (List String)
descend rounds descendants [] db = some descendants
descend zero descendants (id ∷ ids) db = none
descend (suc rounds) descendants (id ∷ ids) db =
    let frontier = unvisited descendants (get_direct_children (id ∷ ids) db) in
    descend rounds (descendants ++ frontier) frontier db

unfoldable pub get_workflow_children : ℕ → String → SysDb → Option (List String)
get_workflow_children rounds id db = descend rounds [] (id ∷ []) db
