-- ===== src/Cascade/Round.antt =====
-- The children of a level, and the rows of a level before and after it is cancelled.
use dbos_workload.Cascade.{children_of, is_child}
use dbos_workload.Cascade.Walk.{children-found, mem-children}
use dbos_workload.Workflow.Lookup.{HasPrimaryKey}
use dbos_workload.Prelude.{
  Bool, Bool-cases, List, Option, Option-cases, String, ap, arith, compares_nat, compares_option,
  eq_iff, false, inl, inr, mem, mem-append, not, refl, some, subst, sym, true, ℕ, ◌&&◌, ◌++◌, ◌==◌,
  ◌≡◌,
}
use dbos_workload.Schema.{SysDb, WorkflowRow, is_complete}
use dbos_workload.Steps.{find_workflow}
use dbos_workload.Workflow.{cancel_row, to_cancel}
use dbos_workload.Workflow.Lookup.{find_workflow-update, updated}
use mathlib.Core.Bool.{false≢true}
use dbos_workload.Prelude.{compares_text}
use dbos_workload.Workflow.{cancel_workflows}

-- The workflows themselves, their children, the children of these, and so on.
pub data Descends (db : SysDb) (ids : List String) : String → Type 0 where
  root : {id : String} → mem id ids ≡ true → Descends db ids id
  child :
      {id parent : String} {r : WorkflowRow}
      → Descends db ids parent
      → find_workflow id db ≡ some r
      → r.parent_workflow_id ≡ some parent
      → Descends db ids id

-- What is found of a row, if it was cancelled and if not.
abbrev pub RowAfter : Bool → WorkflowRow → Option WorkflowRow → Type 0
RowAfter true r after = (t : ℕ) × (after ≡ some (cancel_row t r))
RowAfter false r after = after ≡ some r

is_child-found :
    (level : List String) (r : WorkflowRow)
    → is_child level r ≡ true
    → (parent : String) × (r.parent_workflow_id ≡ some parent) × (mem parent level ≡ true)
is_child-found level r h = elim (Option-cases r.parent_workflow_id) [
  | inl e ↦ absurd (false≢true (rw e at h))
  | inr (parent, e) ↦ (parent, e, (rw e at h))
]

-- The children of a level are the workflows whose parent is in it.
module _ (level : List String) (db : SysDb) (x : String) where
  pub children-parent :
      HasPrimaryKey db
      → mem x (children_of level db.workflow_status) ≡ true
      → (parent : String) × (r : WorkflowRow) × (find_workflow x db ≡ some r)
        × (r.parent_workflow_id ≡ some parent)
        × (mem parent level ≡ true)
  children-parent unique listed =
      let (r, found, is) = children-found (is_child level) x db.workflow_status unique listed in
      let (parent, of, here) = is_child-found level r is in (parent, r, found, of, here)

  pub parent-children :
      (parent : String) (r : WorkflowRow)
      → find_workflow x db ≡ some r
      → r.parent_workflow_id ≡ some parent
      → mem parent level ≡ true
      → mem x (children_of level db.workflow_status) ≡ true
  parent-children parent r found of here =
      mem-children (is_child level) x db.workflow_status r found (rw of here)

-- A row after a round that cancels the level.
module _ (t : ℕ) (level done : List String) (db : SysDb) (x : String) (r : WorkflowRow)
    (here : (r.workflow_uuid == x) ≡ true) where
  abbrev pub Held : Bool → Type 0
  Held cancelled = RowAfter cancelled r (find_workflow x db)

  abbrev pub Holds : Bool → Type 0
  Holds cancelled = RowAfter cancelled r (find_workflow x (cancel_workflows level t db))

  found-cancel :
      (r' : WorkflowRow)
      → find_workflow x db ≡ some r'
      → find_workflow x (cancel_workflows level t db)
        ≡ some (updated (to_cancel level) (cancel_row t) r')
  unfolding cancel_workflows
  found-cancel r' found =
      find_workflow-update x (to_cancel level) (cancel_row t) db r' (λ y. refl) found

  in_level : mem r.workflow_uuid level ≡ mem x level
  in_level = ap (λ (u : String). mem u level) ((eq_iff r.workflow_uuid x).0 here)

  row_after_true : Held true → Holds true
  row_after_true (before, e) = elim (Bool-cases (mem x level)) [
    | inl listed ↦ (t, ground (arith, found-cancel (cancel_row before r) e, in_level))
    | inr other ↦ (before, ground (arith, found-cancel (cancel_row before r) e, in_level))
  ]

  row_after_false : Held false → Holds (mem x level && not (is_complete r.status))
  row_after_false e = elim (Bool-cases (mem x level && not (is_complete r.status))) [
    | inl go ↦ subst Holds (sym go) (t, ground (arith, found-cancel r e, in_level))
    | inr stay ↦ subst Holds (sym stay) (ground (arith, found-cancel r e, in_level))
  ]

  pub rows-cancel :
      Held (mem x done && not (is_complete r.status))
      → Holds (mem x (done ++ level) && not (is_complete r.status))
  rows-cancel before = elim (Bool-cases (mem x done && not (is_complete r.status))) [
    | inl was ↦
        let e : true ≡ (mem x (done ++ level) && not (is_complete r.status)) =
          ground (arith, mem-append x done level) in
        subst Holds e (row_after_true (subst Held was before))
    | inr not_yet ↦
        let e : (mem x level && not (is_complete r.status))
            ≡ (mem x (done ++ level) && not (is_complete r.status)) =
          ground (arith, mem-append x done level) in
        subst Holds e (row_after_false (subst Held not_yet before))
  ]
