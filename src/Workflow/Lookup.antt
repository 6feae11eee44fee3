-- ===== src/Workflow/Lookup.antt =====
-- A workflow's row after an UPDATE, and the unique indexes of workflow_status.
use dbos_workload.Prelude.{
  String, ◌≡◌, refl, Bool, true, false, ◌&&◌, some, List, [], ◌∷◌, arith, eq_iff, ◌==◌,
  compares_text, compares_option, if◌then◌else◌, is_some, ap, ◌≤◌, ◌+◌, and-true_split, Bool-cases,
  inl, inr,
}
use dbos_workload.Table.{find_row, update_where, any_where, count_where}
use dbos_workload.Table.Laws.{find_row-update_where, update_where-absent}
use dbos_workload.Table.Distinct.{Distinct, Distinct-update_where}
use dbos_workload.Schema.{WorkflowRow, SysDb}
use dbos_workload.Steps.{by_uuid, find_workflow}
use dbos_workload.Workflow.{update_workflows}

-- The primary key: no two rows have one ID.
abbrev pub same_uuid : WorkflowRow → WorkflowRow → Bool
same_uuid a b = a.workflow_uuid == b.workflow_uuid

-- uq_workflow_status_dedup_id: NULLs are the same as nothing.
abbrev pub same_dedup : WorkflowRow → WorkflowRow → Bool
same_dedup a b =
    is_some a.queue_name
    && is_some a.deduplication_id
    && a.queue_name == b.queue_name
    && a.deduplication_id == b.deduplication_id

abbrev pub HasPrimaryKey : SysDb → Type 0
HasPrimaryKey db = Distinct same_uuid db.workflow_status

abbrev pub updated : (WorkflowRow → Bool) → (WorkflowRow → WorkflowRow) → WorkflowRow → WorkflowRow
updated p f r = if p r then f r else r

pub find_workflow-update :
    (id : String) (p : WorkflowRow → Bool) (f : WorkflowRow → WorkflowRow) (db : SysDb)
    (r : WorkflowRow)
    → ((x : WorkflowRow) → (f x).workflow_uuid ≡ x.workflow_uuid)
    → find_workflow id db ≡ some r
    → find_workflow id (update_workflows p f db) ≡ some (updated p f r)
find_workflow-update id p f db r keeps h = ground (
  arith,
  find_row-update_where (by_uuid id) p f db.workflow_status
      (λ x. ap (λ (u : String). u == id) (keeps x)),
)

absent_after :
    (id : String) (q : WorkflowRow → Bool) (x : WorkflowRow) (rs : List WorkflowRow)
    → (x.workflow_uuid == id) ≡ true
    → any_where (same_uuid x) rs ≡ false
    → any_where (λ y. y.workflow_uuid == id && q y) rs ≡ false
unfolding any_where
absent_after id q x [] here unique = refl
absent_after id q x (y ∷ rs) here unique = ground (
  arith,
  absent_after id q x rs,
  eq_iff x.workflow_uuid id,
  eq_iff y.workflow_uuid id,
  eq_iff x.workflow_uuid y.workflow_uuid,
)

-- With the primary key, a test of one ID's row decides whether an UPDATE matches.
pub any_where-find_row :
    (id : String) (q : WorkflowRow → Bool) (rs : List WorkflowRow) (r : WorkflowRow)
    → Distinct same_uuid rs
    → find_row (by_uuid id) rs ≡ some r
    → any_where (λ x. x.workflow_uuid == id && q x) rs ≡ q r
unfolding find_row any_where
any_where-find_row id q [] r unique h = cc
any_where-find_row id q (x ∷ rs) r unique h =
    ground (arith, absent_after id q x rs, any_where-find_row id q rs r)

-- An UPDATE that leaves the IDs alone keeps them unique.
pub HasPrimaryKey-update :
    (p : WorkflowRow → Bool) (f : WorkflowRow → WorkflowRow) (db : SysDb)
    → ((x : WorkflowRow) → (f x).workflow_uuid ≡ x.workflow_uuid)
    → HasPrimaryKey db
    → HasPrimaryKey (update_workflows p f db)
HasPrimaryKey-update p f db keeps unique =
    Distinct-update_where same_uuid p f db.workflow_status
      (λ x y e. ground (arith, keeps x, keeps y)) unique

-- With the primary key, an UPDATE of one ID adds at most one row to what a test counts.
pub count-update_one :
    (id : String) (p q : WorkflowRow → Bool) (f : WorkflowRow → WorkflowRow) (rs : List WorkflowRow)
    → Distinct same_uuid rs
    → count_where q (update_where (λ x. x.workflow_uuid == id && p x) f rs)
      ≤ count_where q rs + (if any_where (λ x. x.workflow_uuid == id && p x) rs then 1 else 0)
unfolding count_where update_where any_where
count-update_one id p q f [] unique = omega arith
count-update_one id p q f (x ∷ rs) unique = elim (Bool-cases (x.workflow_uuid == id && p x)) [
  | inl e ↦
      let here = (and-true_split (x.workflow_uuid == id) (p x) e).0 in
      let rest =
        update_where-absent (λ (y : WorkflowRow). y.workflow_uuid == id && p y) f rs
          (absent_after id p x rs here unique.0) in
      rw (e, rest) (ground arith)
  | inr e ↦ ground (arith, count-update_one id p q f rs unique.1)
]
