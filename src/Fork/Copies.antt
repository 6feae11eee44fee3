-- ===== src/Fork/Copies.antt =====
-- The checkpoints of a fork among those that are copied.
use dbos_workload.Prelude.{subst, sym}
use dbos_workload.Fork.Entries.{ForkEntry, ForkOptions}
use dbos_workload.Prelude.{
  Bool, Bool-cases, List, Option, String, [], arith, compares_nat, compares_option, compares_text,
  eq_iff, eq_refl, false, if◌then◌else◌, inl, inr, ltb, map, none, refl, some, true, ℕ, ◌==◌, ◌∷◌,
  ◌≡◌,
}
use dbos_workload.Schema.{OperationRow}
use dbos_workload.Steps.{by_step}
use dbos_workload.Table.Distinct.{Distinct}
use dbos_workload.Table.{find_row, select, any_where}
use dbos_workload.Table.Laws.{find_row-append}
use dbos_workload.Fork.Entries.{copied_steps, copied_step, is_step_before, copies_steps}

abbrev pub same_fork : ForkEntry → ForkEntry → Bool
same_fork a b = a.fork == b.fork

abbrev pub by_fork : String → ForkEntry → Bool
by_fork fork e = e.fork == fork

-- What the fork has of a step: the original's, if it lies before the start.
abbrev pub step_of_fork : ForkOptions → ForkEntry → ℕ → List OperationRow → Option OperationRow
step_of_fork o e n rows = elim (find_row (by_step e.original n) rows) [
  | none ↦ none
  | some r ↦ if ltb n e.start_step then some (copied_step o e.fork r) else none
]

find_row-copied :
    (o : ForkOptions) (e : ForkEntry) (n : ℕ) (rows : List OperationRow)
    → find_row (by_step e.fork n) (map (copied_step o e.fork) (select (is_step_before e) rows))
      ≡ step_of_fork o e n rows
unfolding find_row select
find_row-copied o e n [] = refl
find_row-copied o e n (r ∷ rows) =
    ground (arith, find_row-copied o e n rows, eq_refl e.fork, eq_iff r.workflow_uuid e.original)

find_row_other :
    (o : ForkOptions) (fork other : String) (n : ℕ) (rows : List OperationRow)
    → (other == fork) ≡ false
    → find_row (by_step fork n) (map (copied_step o other) rows) ≡ none
unfolding find_row
find_row_other o fork other n [] differs = refl
find_row_other o fork other n (r ∷ rows) differs =
    ground (arith, find_row_other o fork other n rows differs)

find_row_absent :
    (o : ForkOptions) (e : ForkEntry) (n : ℕ) (es : List ForkEntry) (rows : List OperationRow)
    → any_where (same_fork e) es ≡ false
    → find_row (by_step e.fork n) (copied_steps o (select copies_steps es) rows) ≡ none
unfolding any_where select copied_steps find_row
find_row_absent o e n [] rows alone = refl
find_row_absent o e n (x ∷ es) rows alone = elim (Bool-cases (copies_steps x)) [
  | inl t ↦ ground (
    arith,
    find_row_absent o e n es rows,
    find_row-append (by_step e.fork n) (map (copied_step o x.fork) (select (is_step_before x) rows))
        (copied_steps o (select copies_steps es) rows),
    find_row_other o e.fork x.fork n (select (is_step_before x) rows),
    eq_iff x.fork e.fork,
    eq_iff e.fork x.fork,
  )
  | inr f ↦ ground (arith, find_row_absent o e n es rows)
]

find_row-first_copied :
    (o : ForkOptions) (e : ForkEntry) (n : ℕ) (es : List ForkEntry) (rows : List OperationRow)
    → any_where (same_fork e) es ≡ false
    → copies_steps e ≡ true
    → find_row (by_step e.fork n) (copied_steps o (select copies_steps (e ∷ es)) rows)
      ≡ step_of_fork o e n rows
unfolding select copied_steps find_row
find_row-first_copied o e n es rows alone copied = rw copied (
    ground (
      arith,
      find_row-append (by_step e.fork n)
          (map (copied_step o e.fork) (select (is_step_before e) rows))
          (copied_steps o (select copies_steps es) rows),
      find_row-copied o e n rows,
      find_row_absent o e n es rows alone,
    ))

pub find_row-copied_steps :
    (o : ForkOptions) (e : ForkEntry) (n : ℕ) (es : List ForkEntry) (rows : List OperationRow)
    → Distinct same_fork es
    → find_row (by_fork e.fork) es ≡ some e
    → copies_steps e ≡ true
    → find_row (by_step e.fork n) (copied_steps o (select copies_steps es) rows)
      ≡ step_of_fork o e n rows
unfolding select copied_steps find_row
find_row-copied_steps o e n [] rows distinct found copied = cc
find_row-copied_steps o e n (x ∷ es) rows distinct found copied =
    elim (Bool-cases (x.fork == e.fork)) [
      | inl here ↦
          let same : x ≡ e = ground arith in
          subst
            (λ (y : ForkEntry).
              find_row (by_step e.fork n) (copied_steps o (select copies_steps (y ∷ es)) rows)
              ≡ step_of_fork o e n rows)
            (sym same)
            (find_row-first_copied o e n es rows
              (subst (λ (y : ForkEntry). any_where (same_fork y) es ≡ false) same distinct.0)
              copied)
      | inr other ↦
          let later = find_row-copied_steps o e n es rows distinct.1 (ground arith) copied in
          elim (Bool-cases (copies_steps x)) [
            | inl t ↦ rw t (
                ground (
                  arith,
                  later,
                  find_row-append (by_step e.fork n)
                      (map (copied_step o x.fork) (select (is_step_before x) rows))
                      (copied_steps o (select copies_steps es) rows),
                  find_row_other o e.fork x.fork n (select (is_step_before x) rows),
                ))
            | inr f ↦ rw f later
          ]
    ]
