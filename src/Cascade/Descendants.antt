-- ===== src/Cascade/Descendants.antt =====
-- Cancelling with children reaches the descendants of the workflows, and no others.

use dbos_workload.Cascade.{unvisited}
use dbos_workload.Cascade.Round.{Descends, RowAfter, children-parent, parent-children, rows-cancel}
use dbos_workload.Cascade.Walk.{
  IsEnough, IsEnough-smaller, IsEnough-start, children-cancel, mem-unvisited, unseen, unseen-fewer,
}
use dbos_workload.Prelude.{
  Bool, Bool-cases, List, String, [], ap, arith, false, inl, inr, length, mem, mem-append, not,
  refl, some, subst, suc, true, zero, ℕ, ◌&&◌, ◌++◌, ◌<◌, ◌||◌, ◌∙◌, ◌∷◌, ◌≡◌, ◌⊎◌,
}
use dbos_workload.Schema.{SysDb, WorkflowRow, is_complete}
use dbos_workload.Steps.{by_uuid, find_workflow}
use dbos_workload.Table.Laws.{find_row-holds}
use dbos_workload.Workflow.{cancel_row}
use dbos_workload.Workflow.Lookup.{HasPrimaryKey}
use mathlib.Core.Bool.{false≢true}
use dbos_workload.Prelude.{compares_text}
use dbos_workload.Cascade.{cancel_levels, get_direct_children, cancel_with_children, children_of}
use dbos_workload.Workflow.{cancel_workflows}

-- Between two rounds: the levels before the frontier are done.
record Walked (db0 : SysDb) (ids done visited frontier : List String) (db : SysDb) : Type 0 where
  covers : (x : String) → mem x visited ≡ (mem x done || mem x frontier)
  sound : (x : String) → mem x visited ≡ true → Descends db0 ids x
  roots : (x : String) → mem x ids ≡ true → mem x visited ≡ true
  closed :
      (x parent : String) (r : WorkflowRow)
      → find_workflow x db0 ≡ some r
      → r.parent_workflow_id ≡ some parent
      → mem parent done ≡ true
      → mem x visited ≡ true
  rows :
      (x : String) (r : WorkflowRow)
      → find_workflow x db0 ≡ some r
      → RowAfter (mem x done && not (is_complete r.status)) r (find_workflow x db)
  children :
      (level : List String)
      → children_of level db.workflow_status ≡ children_of level db0.workflow_status

module _ (db0 : SysDb) (ids : List String) (unique : HasPrimaryKey db0) where
  -- One round.
  module _ (t : ℕ) (done visited : List String) (id : String) (rest : List String) (db : SysDb)
      (w : Walked db0 ids done visited (id ∷ rest) db) where
    abbrev level : List String
    level = id ∷ rest

    abbrev after : SysDb
    after = cancel_workflows level t db

    abbrev next : List String
    next = unvisited visited (get_direct_children level after)

    next-children :
        (x : String)
        → mem x next ≡ (mem x (children_of level db0.workflow_status) && not (mem x visited))
    unfolding cancel_workflows get_direct_children
    next-children x =
        mem-unvisited visited x (children_of level after.workflow_status)
        ∙ ap (λ (cs : List String). mem x cs && not (mem x visited))
            (children-cancel level level t db.workflow_status ∙ w.children level)

    sound_next : (x : String) → mem x (visited ++ next) ≡ true → Descends db0 ids x
    sound_next x h = elim (Bool-cases (mem x visited)) [
      | inl old ↦ w.sound x old
      | inr new ↦
          let listed : mem x (children_of level db0.workflow_status) ≡ true =
            ground (arith, mem-append x visited next, next-children x) in
          let (parent, r, found, of, in_level) = children-parent level db0 x unique listed in
          Descends.child (w.sound parent (ground (arith, w.covers parent))) found of
    ]

    closed_next :
        (x parent : String) (r : WorkflowRow)
        → find_workflow x db0 ≡ some r
        → r.parent_workflow_id ≡ some parent
        → mem parent (done ++ level) ≡ true
        → mem x (visited ++ next) ≡ true
    closed_next x parent r found of there = elim (Bool-cases (mem parent done)) [
      | inl old ↦ ground (arith, mem-append x visited next, w.closed x parent r found of old)
      | inr new ↦
          let in_level : mem parent level ≡ true = ground (arith, mem-append parent done level) in
          ground (
            arith,
            mem-append x visited next,
            next-children x,
            parent-children level db0 x parent r found of in_level,
          )
    ]

    children_after :
        (f : List String) → children_of f after.workflow_status ≡ children_of f db0.workflow_status
    unfolding cancel_workflows
    children_after f = children-cancel f level t db.workflow_status ∙ w.children f

    Walked-round : Walked db0 ids (done ++ level) (visited ++ next) next after
    Walked-round = record {
      covers = λ x. ground (arith, mem-append x visited next, mem-append x done level, w.covers x);
      sound = sound_next;
      roots = λ x h. ground (arith, mem-append x visited next, w.roots x h);
      closed = closed_next;
      rows = λ x r found.
          rows-cancel t level done db x r (find_row-holds (by_uuid x) db0.workflow_status r found)
            (w.rows x r found);
      children = children_after;
    }

    -- A round that finds something leaves fewer rows to find.
    fewer_left :
        (x : String)
        → mem x next ≡ true
        → unseen db0.workflow_status (visited ++ next) < unseen db0.workflow_status visited
    fewer_left x new =
        let fresh = next-children x in
        unseen-fewer level visited next db0.workflow_status x (ground (arith, fresh)) new
          (ground (arith, fresh))

  abbrev Ended : (ℕ → ℕ) → ℕ → List String → List String → SysDb → Type 0
  Ended clock rounds visited frontier db =
      (db' : SysDb) × (cancel_levels clock rounds visited frontier db ≡ some db')
      × (done : List String) × (seen : List String) × Walked db0 ids done seen [] db'

  walked :
      (clock : ℕ → ℕ) (rounds : ℕ) (done visited frontier : List String) (db : SysDb)
      → Walked db0 ids done visited frontier db
      → IsEnough db0.workflow_status rounds visited frontier
      → Ended clock rounds visited frontier db
  unfolding cancel_levels
  walked clock rounds done visited [] db w enough = (db, refl, done, visited, w)
  walked clock zero done visited (id ∷ rest) db w enough = absurd (omega arith)
  walked clock (suc rounds) done visited (id ∷ rest) db w enough =
      let t = clock rounds in
      walked clock rounds (done ++ (id ∷ rest)) (visited ++ next t done visited id rest db w)
        (next t done visited id rest db w) (after t done visited id rest db w)
        (Walked-round t done visited id rest db w)
        (IsEnough-smaller db0.workflow_status rounds (unseen db0.workflow_status visited)
          (visited ++ next t done visited id rest db w) (next t done visited id rest db w)
          (fewer_left t done visited id rest db w) enough)

  -- When the frontier is empty, what is done is what descends.
  module _ (done seen : List String) (db : SysDb) (w : Walked db0 ids done seen [] db) where
    done-Descends : {x : String} → Descends db0 ids x → mem x done ≡ true
    done-Descends {x} (Descends.root h) = ground (arith, w.roots x h, w.covers x)
    done-Descends {x} (Descends.child {parent} {r} d found of) =
        ground (arith, w.closed x parent r found of (done-Descends d), w.covers x)

    Descends-done : (x : String) → mem x done ≡ true → Descends db0 ids x
    Descends-done x h = w.sound x (ground (arith, w.covers x))

    cancelled_row :
        (x : String) (r : WorkflowRow)
        → find_workflow x db0 ≡ some r
        → Descends db0 ids x
        → is_complete r.status ≡ false
        → (t : ℕ) × (find_workflow x db ≡ some (cancel_row t r))
    cancelled_row x r found descends going =
        let e : (mem x done && not (is_complete r.status)) ≡ true =
          ground (arith, done-Descends descends) in
        subst (λ (b : Bool). RowAfter b r (find_workflow x db)) e (w.rows x r found)

    kept_row :
        (x : String) (r : WorkflowRow)
        → find_workflow x db0 ≡ some r
        → (¬ Descends db0 ids x) ⊎ (is_complete r.status ≡ true)
        → find_workflow x db ≡ some r
    kept_row x r found outside =
        let e : (mem x done && not (is_complete r.status)) ≡ false =
          elim (Bool-cases (mem x done)) [
            | inl d ↦ elim outside [
              | inl no_descent ↦ absurd (no_descent (Descends-done x d))
              | inr complete ↦ ground arith
            ]
            | inr f ↦ ground arith
          ] in
        subst (λ (b : Bool). RowAfter b r (find_workflow x db)) e (w.rows x r found)

-- Cancelling workflows with their children ends, within one round more than there are workflows.
-- Then each workflow that is one of them, or a child of one, a child of a child, and so on, is
-- CANCELLED unless it was complete; and every other workflow has the row that it had. The ID is
-- the primary key.
pub cancel_with_children_descendants :
    (clock : ℕ → ℕ) (rounds : ℕ) (ids : List String) (db : SysDb)
    → HasPrimaryKey db
    → length db.workflow_status < rounds
    → (db' : SysDb) × (cancel_with_children clock rounds ids db ≡ some db')
      × ((id : String) (r : WorkflowRow)
          → find_workflow id db ≡ some r
          → Descends db ids id
          → is_complete r.status ≡ false
          → (t : ℕ) × (find_workflow id db' ≡ some (cancel_row t r)))
      × ((id : String) (r : WorkflowRow)
          → find_workflow id db ≡ some r
          → (¬ Descends db ids id) ⊎ (is_complete r.status ≡ true)
          → find_workflow id db' ≡ some r)
unfolding cancel_with_children
cancel_with_children_descendants clock rounds ids db unique enough =
    let start : Walked db ids [] ids ids db = record {
      covers = λ x. refl;
      sound = λ x h. Descends.root h;
      roots = λ x h. h;
      closed = λ x parent r found of h. absurd (false≢true h);
      rows = λ x r found. found;
      children = λ f. refl;
    } in
    let (db', ended, done, seen, w) =
      walked db ids unique clock rounds [] ids ids db start
        (IsEnough-start db.workflow_status rounds ids ids enough) in
    (
      db',
      ended,
      cancelled_row db ids unique done seen db' w,
      kept_row db ids unique done seen db' w,
    )
