-- ===== src/Export/Rows.antt =====
-- The rows of a workflow in a table, and those rows inserted into another.
use dbos_workload.Export.{insert_rows}
use dbos_workload.Prelude.{
  All, Bool, Bool-cases, List, [], ◌∷◌, ◌++◌, ◌&&◌, ◌==◌, arith, compares_text, eq_iff, false, inl,
  inr, none, some, subst, sym, true, ap,
}
use dbos_workload.Prelude.{String, ◌≡◌, refl}
use dbos_workload.Table.{any_where, select, find_row}
use dbos_workload.Table.Distinct.{Distinct}
use dbos_workload.Table.Laws.{find_row-append, select-append}

module _ {A : Type 0} where
  select-select : (p : A → Bool) (xs : List A) → select p (select p xs) ≡ select p xs
  unfolding select
  select-select p [] = refl
  select-select p (x ∷ xs) = elim (Bool-cases (p x)) [
    | inl e ↦ rw (e, e) (ap (λ ys. x ∷ ys) (select-select p xs))
    | inr e ↦ rw e (select-select p xs)
  ]

  select-none : (p : A → Bool) (xs : List A) → any_where p xs ≡ false → select p xs ≡ []
  unfolding select any_where
  select-none p [] h = refl
  select-none p (x ∷ xs) h = ground (arith, select-none p xs)

  -- What comes to a table that had none is what is found there.
  pub select_added :
      (p : A → Bool) (rows xs : List A)
      → any_where p rows ≡ false
      → select p (rows ++ select p xs) ≡ select p xs
  select_added p rows xs h =
      rw (select-append p rows (select p xs), select-none p rows h) (select-select p xs)

  -- A row of the workflow is found in the other table just as in the first.
  find_selected :
      (p q : A → Bool) (xs : List A)
      → find_row (λ x. p x && q x) (select p xs) ≡ find_row (λ x. p x && q x) xs
  unfolding find_row select
  find_selected p q [] = refl
  find_selected p q (x ∷ xs) = ground (arith, find_selected p q xs)

  find_missing :
      (p q : A → Bool) (xs : List A) → any_where p xs ≡ false → find_row (λ x. p x && q x) xs ≡ none
  unfolding find_row any_where
  find_missing p q [] h = refl
  find_missing p q (x ∷ xs) h = ground (arith, find_missing p q xs)

  pub find_added :
      (p q : A → Bool) (rows xs : List A)
      → any_where p rows ≡ false
      → find_row (λ x. p x && q x) (rows ++ select p xs) ≡ find_row (λ x. p x && q x) xs
  find_added p q rows xs h = ground (
    arith,
    find_row-append (λ x. p x && q x) rows (select p xs),
    find_missing p q rows h,
    find_selected p q xs,
  )

  append_nil : (xs : List A) → (xs ++ []) ≡ xs
  append_nil [] = refl
  append_nil (x ∷ xs) = ap (λ ys. x ∷ ys) (append_nil xs)

  append_assoc : (xs ys zs : List A) → ((xs ++ ys) ++ zs) ≡ (xs ++ (ys ++ zs))
  append_assoc [] ys zs = refl
  append_assoc (x ∷ xs) ys zs = ap (λ us. x ∷ us) (append_assoc xs ys zs)

module _ {A : Type 0} (same : A → A → Bool) (sym_same : (x y : A) → same x y ≡ same y x) where
  any_where_snoc :
      (x y : A) (rows : List A)
      → any_where (same y) rows ≡ false
      → same y x ≡ false
      → any_where (same y) (rows ++ (x ∷ [])) ≡ false
  unfolding any_where
  any_where_snoc x y [] h k = ground arith
  any_where_snoc x y (r ∷ rows) h k = ground (arith, any_where_snoc x y rows)

  apart :
      (x : A) (rows xs : List A)
      → All (λ y. any_where (same y) rows ≡ false) xs
      → any_where (same x) xs ≡ false
      → All (λ y. any_where (same y) (rows ++ (x ∷ [])) ≡ false) xs
  unfolding any_where
  apart x rows [] h k = tt
  apart x rows (y ∷ xs) (hy, hs) k =
      let other : same y x ≡ false = ground (arith, sym_same x y) in
      (any_where_snoc x y rows hy other, apart x rows xs hs (ground arith))

  -- Rows with keys of their own, and with their workflows there, are all inserted.
  pub insert_rows-append :
      (refers : A → Bool) (rows xs : List A)
      → All (λ x. refers x ≡ true) xs
      → All (λ x. any_where (same x) rows ≡ false) xs
      → Distinct same xs
      → insert_rows same refers rows xs ≡ some (rows ++ xs)
  unfolding insert_rows
  insert_rows-append refers rows [] known fresh unique = rw (append_nil rows) refl
  insert_rows-append refers rows (x ∷ xs) (k, known) (f, fresh) (u, unique) =
      let rest =
        insert_rows-append refers (rows ++ (x ∷ [])) xs known (apart x rows xs fresh u) unique in
      rw (k, f, rest, append_assoc rows (x ∷ []) xs) refl

  module _ (parent : A → String) (refer : (x y : A) → same x y ≡ true → parent x ≡ parent y)
      (id : String) where
    any_selected :
        (x : A) (xs : List A)
        → any_where (same x) xs ≡ false
        → any_where (same x) (select (λ y. parent y == id) xs) ≡ false
    unfolding any_where select
    any_selected x [] h = refl
    any_selected x (y ∷ xs) h = ground (arith, any_selected x xs)

    Distinct-select :
        (xs : List A) → Distinct same xs → Distinct same (select (λ y. parent y == id) xs)
    unfolding select
    Distinct-select [] h = tt
    Distinct-select (x ∷ xs) (hx, hs) = elim (Bool-cases (parent x == id)) [
      | inl e ↦ rw e (any_selected x xs hx, Distinct-select xs hs)
      | inr e ↦ rw e (Distinct-select xs hs)
    ]

    apart_workflow :
        (x : A) (rows : List A)
        → (parent x == id) ≡ true
        → any_where (λ y. parent y == id) rows ≡ false
        → any_where (same x) rows ≡ false
    unfolding any_where
    apart_workflow x [] e h = refl
    apart_workflow x (y ∷ rows) e h =
        let other : same x y ≡ true → (parent y == id) ≡ true = λ s. rw (← refer x y s) e in
        ground (arith, other, apart_workflow x rows)

    All-select :
        (P : A → Type 0) (xs : List A)
        → ((x : A) → (parent x == id) ≡ true → P x)
        → All P (select (λ y. parent y == id) xs)
    unfolding select
    All-select P [] h = tt
    All-select P (x ∷ xs) h = elim (Bool-cases (parent x == id)) [
      | inl e ↦ rw e (h x e, All-select P xs h)
      | inr e ↦ rw e (All-select P xs h)
    ]

    -- The rows of a workflow go into a table that has none of it.
    pub insert_rows-select :
        (known : String → Bool) (rows xs : List A)
        → known id ≡ true
        → any_where (λ y. parent y == id) rows ≡ false
        → Distinct same xs
        → insert_rows same (λ x. known (parent x)) rows (select (λ y. parent y == id) xs)
          ≡ some (rows ++ select (λ y. parent y == id) xs)
    insert_rows-select known rows xs there absent unique =
        insert_rows-append (λ x. known (parent x)) rows (select (λ y. parent y == id) xs)
          (All-select (λ x. known (parent x) ≡ true) xs
            (λ x e. subst (λ j. known j ≡ true) (sym ((eq_iff (parent x) id).0 e)) there))
          (All-select (λ x. any_where (same x) rows ≡ false) xs
            (λ x e. apart_workflow x rows e absent))
          (Distinct-select xs unique)
