-- ===== src/Cascade/Walk.antt =====
-- The workflows of a level of children, and what is left to visit.

use mathlib.Core.Bool.{false≢true}
use dbos_workload.Prelude.{sym, ◌∙◌, mem-append, ◌≤◌}
use dbos_workload.Cascade.{children_of, unvisited, is_child}
use dbos_workload.Table.Laws.{count_where-le-length}
use dbos_workload.Prelude.{suc, eq_refl, length}
use dbos_workload.Prelude.{
  Bool, Bool-cases, List, String, [], arith, compares_nat, compares_option, compares_text, eq_iff,
  false, inl, inr, map, mem, not, refl, some, true, ℕ, ◌&&◌, ◌++◌, ◌<◌, ◌==◌, ◌∷◌, ◌≡◌,
}
use dbos_workload.Schema.{WorkflowRow}
use dbos_workload.Steps.{by_uuid}
use dbos_workload.Table.Distinct.{Distinct}
use dbos_workload.Workflow.{cancel_row, to_cancel}
use dbos_workload.Workflow.Lookup.{same_uuid}
use dbos_workload.Table.{find_row, select, any_where, count_where, update_where}

child_any_where :
    (q : WorkflowRow → Bool) (x : String) (r : WorkflowRow) (rs : List WorkflowRow)
    → (r.workflow_uuid == x) ≡ true
    → mem x (map (λ r. r.workflow_uuid) (select q rs)) ≡ true
    → any_where (same_uuid r) rs ≡ true
unfolding any_where select
child_any_where q x r [] here there = cc
child_any_where q x r (y ∷ rs) here there = ground (
  arith,
  child_any_where q x r rs,
  eq_iff r.workflow_uuid x,
  eq_iff x y.workflow_uuid,
  eq_iff r.workflow_uuid y.workflow_uuid,
)

-- The rows of a list of IDs.
pub children-found :
    (q : WorkflowRow → Bool) (x : String) (rs : List WorkflowRow)
    → Distinct same_uuid rs
    → mem x (map (λ r. r.workflow_uuid) (select q rs)) ≡ true
    → (r : WorkflowRow) × (find_row (by_uuid x) rs ≡ some r) × (q r ≡ true)
unfolding find_row select
children-found q x [] unique h = cc
children-found q x (r ∷ rs) unique h = elim (Bool-cases (r.workflow_uuid == x)) [
  | inl here ↦ elim (Bool-cases (q r)) [
    | inl t ↦ (r, ground arith, t)
    | inr f ↦ absurd (false≢true (sym unique.0 ∙ child_any_where q x r rs here (ground arith)))
  ]
  | inr other ↦
      let (y, found, holds) =
        children-found q x rs unique.1
          (ground (arith, eq_iff r.workflow_uuid x, eq_iff x r.workflow_uuid)) in
      (y, ground arith, holds)
]

pub mem-children :
    (q : WorkflowRow → Bool) (x : String) (rs : List WorkflowRow) (r : WorkflowRow)
    → find_row (by_uuid x) rs ≡ some r
    → q r ≡ true
    → mem x (map (λ r. r.workflow_uuid) (select q rs)) ≡ true
unfolding find_row select
mem-children q x [] r found holds = cc
mem-children q x (y ∷ rs) r found holds =
    ground (arith, mem-children q x rs r, eq_iff y.workflow_uuid x, eq_iff x y.workflow_uuid)

children-any :
    (q : WorkflowRow → Bool) (x : String) (rs : List WorkflowRow)
    → mem x (map (λ r. r.workflow_uuid) (select q rs)) ≡ true
    → mem x (map (λ (r : WorkflowRow). r.workflow_uuid) rs) ≡ true
unfolding select
children-any q x [] h = h
children-any q x (r ∷ rs) h = ground (arith, children-any q x rs, eq_iff x r.workflow_uuid)

pub mem-unvisited :
    (visited : List String) (x : String) (cs : List String)
    → mem x (unvisited visited cs) ≡ (mem x cs && not (mem x visited))
unfolding select
mem-unvisited visited x [] = refl
mem-unvisited visited x (c ∷ cs) = ground (arith, mem-unvisited visited x cs, eq_iff x c)

-- Cancelling changes no parent.
pub children-cancel :
    (ids ids' : List String) (t : ℕ) (rs : List WorkflowRow)
    → children_of ids (update_where (to_cancel ids') (cancel_row t) rs) ≡ children_of ids rs
unfolding select update_where
children-cancel ids ids' t [] = refl
children-cancel ids ids' t (r ∷ rs) = ground (arith, children-cancel ids ids' t rs)

count_where-le :
    (p q : WorkflowRow → Bool) (rs : List WorkflowRow)
    → ((r : WorkflowRow) → p r ≡ true → q r ≡ true)
    → count_where p rs ≤ count_where q rs
unfolding count_where
count_where-le p q [] implies = omega arith
count_where-le p q (r ∷ rs) implies = ground (arith, implies r, count_where-le p q rs implies)

-- The rows that are not visited are fewer when one of them is.
count-fewer :
    (visited next : List String) (rs : List WorkflowRow) (x : String)
    → mem x (map (λ (r : WorkflowRow). r.workflow_uuid) rs) ≡ true
    → mem x next ≡ true
    → mem x visited ≡ false
    → count_where (λ r. not (mem r.workflow_uuid (visited ++ next))) rs
      < count_where (λ r. not (mem r.workflow_uuid visited)) rs
unfolding count_where
count-fewer visited next [] x there new old = cc
count-fewer visited next (r ∷ rs) x there new old =
    let fewer =
      count_where-le (λ (y : WorkflowRow). not (mem y.workflow_uuid (visited ++ next)))
        (λ y. not (mem y.workflow_uuid visited)) rs
        (λ y e. ground (arith, mem-append y.workflow_uuid visited next)) in
    ground (
      arith,
      fewer,
      count-fewer visited next rs x,
      mem-append r.workflow_uuid visited next,
      eq_iff x r.workflow_uuid,
    )

-- The rows that are not visited yet.
abbrev pub unseen : List WorkflowRow → List String → ℕ
unseen rs visited = count_where (λ r. not (mem r.workflow_uuid visited)) rs

pub unseen-fewer :
    (level visited next : List String) (rs : List WorkflowRow) (x : String)
    → mem x (children_of level rs) ≡ true
    → mem x next ≡ true
    → mem x visited ≡ false
    → unseen rs (visited ++ next) < unseen rs visited
unseen-fewer level visited next rs x listed =
    count-fewer visited next rs x (children-any (is_child level) x rs listed)

-- Enough rounds for what is not visited.
abbrev pub IsEnough : List WorkflowRow → ℕ → List String → List String → Type 0
IsEnough rs rounds visited [] = Unit
IsEnough rs rounds visited (x ∷ xs) = unseen rs visited < rounds

module _ (rs : List WorkflowRow) (rounds : ℕ) where
  pub IsEnough-smaller :
      (n : ℕ) (visited frontier : List String)
      → ((x : String) → mem x frontier ≡ true → unseen rs visited < n)
      → n < suc rounds
      → IsEnough rs rounds visited frontier
  IsEnough-smaller n visited [] fewer h = tt
  IsEnough-smaller n visited (x ∷ xs) fewer h = omega (arith, fewer x (ground (arith, eq_refl x)))

  pub IsEnough-start :
      (visited frontier : List String) → length rs < rounds → IsEnough rs rounds visited frontier
  IsEnough-start visited [] h = tt
  IsEnough-start visited (x ∷ xs) h =
      omega
        (arith, count_where-le-length (λ (r : WorkflowRow). not (mem r.workflow_uuid visited)) rs)
