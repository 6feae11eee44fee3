-- ===== src/Operations/Evolution.antt =====
-- What a step of the database leaves of a workflow: its row moves along the diagram, its
-- checkpoints stay, and the IDs stay unique.
use dbos_workload.Prelude.{compares_nat, compares_option, compares_text, eq_iff, false, ◌==◌}
use dbos_workload.Table.{any_where, find_row}
use dbos_workload.Operations.Transitions.{⟶*-trans}
use dbos_workload.Prelude.{
  Bool, Bool-cases, List, [], arith, inl, inr, none, refl, some, true, ◌++◌, ◌∷◌,
}
use dbos_workload.Schema.{OperationRow, SysDb, WorkflowRow}
use dbos_workload.Start.{insert_workflow}
use dbos_workload.Steps.{by_step, by_uuid, find_step, find_workflow}
use dbos_workload.Table.Distinct.{Distinct-insert}
use dbos_workload.Table.Laws.{find_row-append}
use dbos_workload.Workflow.{update_workflows}
use dbos_workload.Workflow.Lookup.{
  HasPrimaryKey, HasPrimaryKey-update, find_workflow-update, same_uuid, updated,
}
use dbos_workload.Operations.Transitions.{◌⟶*◌, here}
use dbos_workload.Prelude.{String, ◌≡◌, Option, ℕ}

-- The columns that no operation writes after the INSERT.
pub record Identity : Type 0 where
  pub name : Option String
  pub class_name : Option String
  pub config_name : Option String
  pub created_at : ℕ
  pub forked_from : Option String
  pub owner_xid : Option String
  pub parent_workflow_id : Option String

abbrev pub identity : WorkflowRow → Identity
identity r = record {
  name = r.name;
  class_name = r.class_name;
  config_name = r.config_name;
  created_at = r.created_at;
  forked_from = r.forked_from;
  owner_xid = r.owner_xid;
  parent_workflow_id = r.parent_workflow_id;
}

abbrev pub RowStep : WorkflowRow → WorkflowRow → Type 0
RowStep r r' = (r.status ⟶* r'.status) × (identity r ≡ identity r')

pub record Evolves (id : String) (db db' : SysDb) : Type 0 where
  pub rows :
      (r : WorkflowRow)
      → find_workflow id db ≡ some r
      → (r' : WorkflowRow) × (find_workflow id db' ≡ some r') × RowStep r r'
  pub steps : (n : ℕ) (o : OperationRow) → find_step id n db ≡ some o → find_step id n db' ≡ some o
  pub key : HasPrimaryKey db → HasPrimaryKey db'

beq_sym : (a b : String) → (a == b) ≡ (b == a)
beq_sym a b = ground (arith, eq_iff a b, eq_iff b a)

pub absent_uuid :
    (r : WorkflowRow) (rs : List WorkflowRow)
    → find_row (by_uuid r.workflow_uuid) rs ≡ none
    → any_where (same_uuid r) rs ≡ false
unfolding find_row any_where
absent_uuid r [] fresh = refl
absent_uuid r (x ∷ rs) fresh =
    ground (arith, absent_uuid r rs, beq_sym x.workflow_uuid r.workflow_uuid)

module _ {id : String} where
  pub Evolves-refl : {db : SysDb} → Evolves id db db
  Evolves-refl = record { rows = λ r h. (r, h, (here, refl)); steps = λ n o h. h; key = λ h. h }

  pub Evolves-trans : {a b c : SysDb} → Evolves id a b → Evolves id b c → Evolves id a c
  Evolves-trans p q = record {
    rows = λ r h.
        let (r', h', (step, same)) = p.rows r h in
        let (r'', h'', (step', same')) = q.rows r' h' in (r'', h'', (⟶*-trans step step', cc));
    steps = λ n o h. q.steps n o (p.steps n o h);
    key = λ h. q.key (p.key h);
  }

  pub Evolves-update :
      (p : WorkflowRow → Bool) (f : WorkflowRow → WorkflowRow) (db : SysDb)
      → ((x : WorkflowRow) → (f x).workflow_uuid ≡ x.workflow_uuid)
      → ((x : WorkflowRow) → p x ≡ true → RowStep x (f x))
      → Evolves id db (update_workflows p f db)
  Evolves-update p f db keeps moves = record {
    rows = λ r h. (
      updated p f r,
      find_workflow-update id p f db r keeps h,
      elim (Bool-cases (p r)) [ inl e ↦ rw e (moves r e) | inr e ↦ rw e (here, refl) ],
    );
    steps = λ n o h. h;
    key = HasPrimaryKey-update p f db keeps;
  }

  -- A row is inserted whose ID is new.
  pub Evolves-insert :
      (r : WorkflowRow) (db : SysDb)
      → find_workflow r.workflow_uuid db ≡ none
      → Evolves id db (insert_workflow r db)
  Evolves-insert r db fresh = record {
    rows = λ x h.
        (x, ground (arith, find_row-append (by_uuid id) db.workflow_status (r ∷ [])), (here, refl));
    steps = λ n o h. h;
    key =
        Distinct-insert same_uuid (λ x y. beq_sym x.workflow_uuid y.workflow_uuid)
          db.workflow_status r (absent_uuid r db.workflow_status fresh);
  }

  -- Checkpoints are added, and the workflows are left alone.
  pub Evolves-steps :
      (more : List OperationRow) (db db' : SysDb)
      → db'.workflow_status ≡ db.workflow_status
      → db'.operation_outputs ≡ db.operation_outputs ++ more
      → Evolves id db db'
  Evolves-steps more db db' workflows outputs = record {
    rows = λ r h. (r, rw workflows h, (here, refl));
    steps = λ n o h.
        rw outputs (ground (arith, find_row-append (by_step id n) db.operation_outputs more));
    key = λ h. rw workflows h;
  }

  -- Other tables change.
  pub Evolves-same :
      (db db' : SysDb)
      → db'.workflow_status ≡ db.workflow_status
      → db'.operation_outputs ≡ db.operation_outputs
      → Evolves id db db'
  Evolves-same db db' workflows outputs = record {
    rows = λ r h. (r, rw workflows h, (here, refl));
    steps = λ n o h. rw outputs h;
    key = λ h. rw workflows h;
  }
