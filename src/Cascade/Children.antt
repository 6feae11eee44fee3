-- ===== src/Cascade/Children.antt =====
-- `get_workflow_children`: the workflows that are listed are those below the workflow.
use dbos_workload.Cascade.{
  descend, get_direct_children, get_workflow_children, unvisited, children_of,
}
use dbos_workload.Cascade.Round.{Descends, children-parent, parent-children}
use dbos_workload.Cascade.Walk.{
  IsEnough, IsEnough-smaller, IsEnough-start, mem-unvisited, unseen, unseen-fewer,
}
use dbos_workload.Prelude.{
  Bool-cases, List, String, [], arith, eq_iff, eq_refl, inl, inr, length, mem, mem-append, not,
  refl, some, suc, true, zero, ℕ, ◌&&◌, ◌++◌, ◌<◌, ◌||◌, ◌∷◌, ◌≡◌, compares_text,
}
use dbos_workload.Schema.{SysDb, WorkflowRow}
use dbos_workload.Steps.{find_workflow}
use dbos_workload.Workflow.Lookup.{HasPrimaryKey}
use mathlib.Core.Bool.{false≢true}

-- A child of the workflow, a child of a child, and so on.
abbrev pub IsBelow : SysDb → String → String → Type 0
IsBelow db id x =
    (parent : String) × (r : WorkflowRow) × Descends db (id ∷ []) parent
    × (find_workflow x db ≡ some r)
    × (r.parent_workflow_id ≡ some parent)

IsBelow-Descends : (db : SysDb) (id x : String) → IsBelow db id x → Descends db (id ∷ []) x
IsBelow-Descends db id x (parent, r, d, found, of) = Descends.child d found of

-- Between two rounds: the levels before the frontier are done.
record Listed (db : SysDb) (id : String) (done descendants frontier : List String) : Type 0 where
  covers : (x : String) → mem x descendants ≡ true → (mem x done || mem x frontier) ≡ true
  start : (mem id done || mem id frontier) ≡ true
  level : (x : String) → mem x frontier ≡ true → Descends db (id ∷ []) x
  sound : (x : String) → mem x descendants ≡ true → IsBelow db id x
  closed :
      (x parent : String) (r : WorkflowRow)
      → find_workflow x db ≡ some r
      → r.parent_workflow_id ≡ some parent
      → mem parent done ≡ true
      → mem x descendants ≡ true

module _ (db : SysDb) (id : String) (unique : HasPrimaryKey db) where
  module _ (done seen : List String) (y : String) (rest : List String)
      (w : Listed db id done seen (y ∷ rest)) where
    abbrev level : List String
    level = y ∷ rest

    abbrev next : List String
    next = unvisited seen (get_direct_children level db)

    next-children :
        (x : String)
        → mem x next ≡ (mem x (children_of level db.workflow_status) && not (mem x seen))
    unfolding get_direct_children
    next-children x = mem-unvisited seen x (children_of level db.workflow_status)

    next-IsBelow : (x : String) → mem x next ≡ true → IsBelow db id x
    next-IsBelow x h =
        let listed : mem x (children_of level db.workflow_status) ≡ true =
          ground (arith, next-children x) in
        let (parent, r, found, of, here) = children-parent level db x unique listed in
        (parent, r, w.level parent here, found, of)

    sound_next : (x : String) → mem x (seen ++ next) ≡ true → IsBelow db id x
    sound_next x h = elim (Bool-cases (mem x seen)) [
      | inl old ↦ w.sound x old
      | inr new ↦ next-IsBelow x (ground (arith, mem-append x seen next))
    ]

    closed_next :
        (x parent : String) (r : WorkflowRow)
        → find_workflow x db ≡ some r
        → r.parent_workflow_id ≡ some parent
        → mem parent (done ++ level) ≡ true
        → mem x (seen ++ next) ≡ true
    closed_next x parent r found of there = elim (Bool-cases (mem parent done)) [
      | inl old ↦ ground (arith, mem-append x seen next, w.closed x parent r found of old)
      | inr new ↦
          let here : mem parent level ≡ true = ground (arith, mem-append parent done level) in
          ground (
            arith,
            mem-append x seen next,
            next-children x,
            parent-children level db x parent r found of here,
          )
    ]

    Listed-round : Listed db id (done ++ level) (seen ++ next) next
    Listed-round = record {
      covers = λ x h. ground (arith, mem-append x seen next, mem-append x done level, w.covers x);
      start = ground (arith, mem-append id done level, w.start);
      level = λ x h. IsBelow-Descends db id x (next-IsBelow x h);
      sound = sound_next;
      closed = closed_next;
    }

    fewer_left :
        (x : String)
        → mem x next ≡ true
        → unseen db.workflow_status (seen ++ next) < unseen db.workflow_status seen
    fewer_left x new =
        let fresh = next-children x in
        unseen-fewer level seen next db.workflow_status x (ground (arith, fresh)) new
          (ground (arith, fresh))

  abbrev Finished : ℕ → List String → List String → Type 0
  Finished rounds seen frontier =
      (ids : List String) × (descend rounds seen frontier db ≡ some ids)
      × (done : List String) × Listed db id done ids []

  descend-Finished :
      (rounds : ℕ) (done seen frontier : List String)
      → Listed db id done seen frontier
      → IsEnough db.workflow_status rounds seen frontier
      → Finished rounds seen frontier
  unfolding descend
  descend-Finished rounds done seen [] w enough = (seen, refl, done, w)
  descend-Finished zero done seen (y ∷ rest) w enough = absurd (omega arith)
  descend-Finished (suc rounds) done seen (y ∷ rest) w enough =
      descend-Finished rounds (done ++ (y ∷ rest)) (seen ++ next done seen y rest w)
        (next done seen y rest w) (Listed-round done seen y rest w)
        (IsEnough-smaller db.workflow_status rounds (unseen db.workflow_status seen)
          (seen ++ next done seen y rest w) (next done seen y rest w)
          (fewer_left done seen y rest w) enough)

  module _ (done ids : List String) (w : Listed db id done ids []) where
    done-Descends : {x : String} → Descends db (id ∷ []) x → mem x done ≡ true
    done-Descends {x} (Descends.root h) =
        let same : x ≡ id = ground (arith, eq_iff x id) in rw same (ground (arith, w.start))
    done-Descends {x} (Descends.child {parent} {r} d found of) =
        ground (arith, w.closed x parent r found of (done-Descends d), w.covers x)

    mem-IsBelow : (x : String) → IsBelow db id x → mem x ids ≡ true
    mem-IsBelow x (parent, r, d, found, of) = w.closed x parent r found of (done-Descends d)

  -- The walk ends, and lists what is below the workflow and nothing else.
  pub get_workflow_children-IsBelow :
      (rounds : ℕ)
      → length db.workflow_status < rounds
      → (ids : List String) × (get_workflow_children rounds id db ≡ some ids)
        × ((x : String) → mem x ids ≡ true → IsBelow db id x)
        × ((x : String) → IsBelow db id x → mem x ids ≡ true)
  unfolding get_workflow_children
  get_workflow_children-IsBelow rounds enough =
      let start : Listed db id [] [] (id ∷ []) = record {
        covers = λ x h. absurd (false≢true h);
        start = ground (arith, eq_refl id);
        level = λ x h. Descends.root h;
        sound = λ x h. absurd (false≢true h);
        closed = λ x parent r found of h. absurd (false≢true h);
      } in
      let (ids, ended, done, w) =
        descend-Finished rounds [] [] (id ∷ []) start
          (IsEnough-start db.workflow_status rounds [] (id ∷ []) enough) in
      (ids, ended, w.sound, mem-IsBelow done ids w)
