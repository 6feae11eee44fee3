-- ===== src/Dequeue/Order.antt =====
-- Priority order: which of the ready workflows a dequeue selects.
use mathlib.Core.List.{Perm}
use mathlib.Core.List.Perm
use dbos_workload.Prelude.{
  All, Bool-cases, List, Option, String, [], append-nil, arith, false, inl, inr, ltb, none, refl,
  some, subst, suc, sym, take, true, zero, ℕ, ◌++◌, ◌<◌, ◌∷◌, ◌≡◌, ◌≤◌, ◌⊎◌,
}
use dbos_workload.Schema.{SysDb, WorkflowRow}
use dbos_workload.Dequeue.{
  QueueConfig, dequeued, goes_first, in_order, limited, max_tasks, place, ready_rows,
}

-- A lower number is a higher priority; within a priority, what was created earlier comes first.
abbrev pub IsBefore : WorkflowRow → WorkflowRow → Type 0
IsBefore a b =
    (a.priority < b.priority) ⊎ ((a.priority ≡ b.priority) × (a.created_at ≤ b.created_at))

IsBefore-trans : (a b c : WorkflowRow) → IsBefore a b → IsBefore b c → IsBefore a c
IsBefore-trans a b c (inl h) (inl k) = inl (omega arith)
IsBefore-trans a b c (inl h) (inr k) = inl (omega (arith, k.0))
IsBefore-trans a b c (inr h) (inl k) = inl (omega (arith, h.0))
IsBefore-trans a b c (inr h) (inr k) = inr (omega (arith, h.0, k.0), omega (arith, h.1, k.1))

goes_first-IsBefore : (a b : WorkflowRow) → goes_first a b ≡ true → IsBefore a b
goes_first-IsBefore a b h = elim (Bool-cases (ltb a.priority b.priority)) [
  | inl e ↦ inl (ground arith)
  | inr e ↦ inr (ground arith, ground arith)
]

goes_first-IsBefore-false : (a b : WorkflowRow) → goes_first a b ≡ false → IsBefore b a
goes_first-IsBefore-false a b h = elim (Bool-cases (ltb b.priority a.priority)) [
  | inl e ↦ inl (ground arith)
  | inr e ↦ inr (ground arith, ground arith)
]

abbrev pub GoesBefore : WorkflowRow → List WorkflowRow → Type 0
GoesBefore r = All (λ x. IsBefore r x)

-- Each row goes before all that stand behind it.
abbrev pub IsOrdered : List WorkflowRow → Type 0
IsOrdered [] = Unit
IsOrdered (r ∷ rs) = GoesBefore r rs × IsOrdered rs

GoesBefore-trans :
    (a b : WorkflowRow) (rs : List WorkflowRow) → IsBefore a b → GoesBefore b rs → GoesBefore a rs
GoesBefore-trans a b [] h k = tt
GoesBefore-trans a b (r ∷ rs) h k = (IsBefore-trans a b r h k.0, GoesBefore-trans a b rs h k.1)

GoesBefore-place :
    (a r : WorkflowRow) (rs : List WorkflowRow)
    → IsBefore a r
    → GoesBefore a rs
    → GoesBefore a (place r rs)
unfolding place
GoesBefore-place a r [] h k = (h, tt)
GoesBefore-place a r (x ∷ xs) h k = elim (Bool-cases (goes_first r x)) [
  | inl e ↦ rw e (h, k)
  | inr e ↦ rw e (k.0, GoesBefore-place a r xs h k.1)
]

IsOrdered-place : (r : WorkflowRow) (rs : List WorkflowRow) → IsOrdered rs → IsOrdered (place r rs)
unfolding place
IsOrdered-place r [] h = (tt, tt)
IsOrdered-place r (x ∷ xs) h = elim (Bool-cases (goes_first r x)) [
  | inl e ↦
      rw e ((goes_first-IsBefore r x e, GoesBefore-trans r x xs (goes_first-IsBefore r x e) h.0), h)
  | inr e ↦
      rw e (GoesBefore-place x r xs (goes_first-IsBefore-false r x e) h.0, IsOrdered-place r xs h.1)
]

IsOrdered-in_order : (rs : List WorkflowRow) → IsOrdered (in_order rs)
unfolding in_order
IsOrdered-in_order [] = tt
IsOrdered-in_order (r ∷ rs) = IsOrdered-place r (in_order rs) (IsOrdered-in_order rs)

place-perm : (r : WorkflowRow) (rs : List WorkflowRow) → Perm (place r rs) (r ∷ rs)
unfolding place
place-perm r [] = Perm.refl (r ∷ [])
place-perm r (x ∷ xs) = elim (Bool-cases (goes_first r x)) [
  | inl e ↦ rw e (Perm.refl (r ∷ x ∷ xs))
  | inr e ↦ rw e (Perm.trans (Perm.cons x (place-perm r xs)) (Perm.swap r x xs))
]

in_order-perm : (rs : List WorkflowRow) → Perm (in_order rs) rs
unfolding in_order
in_order-perm [] = Perm.refl []
in_order-perm (r ∷ rs) = Perm.trans (place-perm r (in_order rs)) (Perm.cons r (in_order-perm rs))

abbrev remaining : {A : Type 0} → ℕ → List A → List A
remaining zero xs = xs
remaining (suc n) [] = []
remaining (suc n) (x ∷ xs) = remaining n xs

take-append-remaining : {A : Type 0} (n : ℕ) (xs : List A) → take n xs ++ remaining n xs ≡ xs
take-append-remaining zero xs = refl
take-append-remaining (suc n) [] = refl
take-append-remaining (suc n) (x ∷ xs) = rw (take-append-remaining n xs)

limited_split :
    {A : Type 0} (room : Option ℕ) (xs : List A) → (rest : List A) × (limited room xs ++ rest ≡ xs)
limited_split none xs = ([], append-nil xs)
limited_split (some n) xs = (remaining n xs, take-append-remaining n xs)

-- The rows that a dequeue selects are the first of the ready rows in the order of priority and,
-- within a priority, of creation, the lowest number first: with the rows that are left they are the ready rows, rearranged,
-- and each selected row goes before every selected row behind it and every row that is left.
pub dequeued-IsOrdered :
    (q : QueueConfig) (key : Option String) (app_version : String) (local : ℕ) (db : SysDb)
    → (rest : List WorkflowRow) × Perm
        (dequeued q key app_version local db ++ rest)
        (ready_rows q key app_version db)
      × IsOrdered (dequeued q key app_version local db ++ rest)
unfolding dequeued
dequeued-IsOrdered q key app_version local db =
    let ready = ready_rows q key app_version db in
    let (rest, whole) = limited_split (max_tasks q key local db) (in_order ready) in
    (
      rest,
      subst (λ l. Perm l ready) (sym whole) (in_order-perm ready),
      subst IsOrdered (sym whole) (IsOrdered-in_order ready),
    )
