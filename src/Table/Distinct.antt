-- ===== src/Table/Distinct.antt =====
-- Unique indexes: no two rows of a table are `same`, as UNIQUE and PRIMARY KEY demand.
use dbos_workload.Prelude.{
  ◌≡◌, refl, Bool, true, false, List, [], ◌∷◌, ◌++◌, arith, if◌then◌else◌, inl, inr, Bool-cases,
}
use dbos_workload.Table.{update_where, delete_where, any_where}

module _ {ℓ} {A : Type ℓ} (same : A → A → Bool) where
  abbrev pub Distinct : List A → Type 0
  Distinct [] = Unit
  Distinct (x ∷ xs) = (any_where (same x) xs ≡ false) × Distinct xs

  any_where-update_where :
      (p : A → Bool) (f : A → A) (x : A) (x' : A) (rs : List A)
      → ((r : A) → same x' (if p r then f r else r) ≡ true → same x r ≡ true)
      → any_where (same x) rs ≡ false
      → any_where (same x') (update_where p f rs) ≡ false
  unfolding any_where update_where
  any_where-update_where p f x x' [] keeps h = refl
  any_where-update_where p f x x' (r ∷ rs) keeps h =
      ground (arith, keeps r, any_where-update_where p f x x' rs keeps)

  -- A change that makes no two rows the same keeps the index unique.
  pub Distinct-update_where :
      (p : A → Bool) (f : A → A) (rs : List A)
      → ((x y : A)
          → same (if p x then f x else x) (if p y then f y else y) ≡ true
          → same x y ≡ true)
      → Distinct rs
      → Distinct (update_where p f rs)
  unfolding update_where
  Distinct-update_where p f [] keeps h = tt
  Distinct-update_where p f (r ∷ rs) keeps h = (
    any_where-update_where p f r (if p r then f r else r) rs (keeps r) h.0,
    Distinct-update_where p f rs keeps h.1,
  )

  any_where-delete_where :
      (p : A → Bool) (x : A) (rs : List A)
      → any_where (same x) rs ≡ false
      → any_where (same x) (delete_where p rs) ≡ false
  unfolding any_where delete_where
  any_where-delete_where p x [] h = refl
  any_where-delete_where p x (r ∷ rs) h = ground (arith, any_where-delete_where p x rs)

  pub Distinct-delete_where :
      (p : A → Bool) (rs : List A) → Distinct rs → Distinct (delete_where p rs)
  unfolding delete_where
  Distinct-delete_where p [] h = tt
  Distinct-delete_where p (r ∷ rs) h = elim (Bool-cases (p r)) [
    | inl e ↦ rw e (Distinct-delete_where p rs h.1)
    | inr e ↦ rw e (any_where-delete_where p r rs h.0, Distinct-delete_where p rs h.1)
  ]

  any_where_snoc :
      (q : A → Bool) (rs : List A) (x : A)
      → any_where q rs ≡ false
      → q x ≡ false
      → any_where q (rs ++ (x ∷ [])) ≡ false
  unfolding any_where
  any_where_snoc q [] x h k = ground arith
  any_where_snoc q (r ∷ rs) x h k = ground (arith, any_where_snoc q rs x)

  -- A row that is the same as none can be inserted.
  pub Distinct-insert :
      ((x y : A) → same x y ≡ same y x)
      → (rs : List A) (x : A) → any_where (same x) rs ≡ false
      → Distinct rs
      → Distinct (rs ++ (x ∷ []))
  unfolding any_where
  Distinct-insert sym_same [] x fresh h = (refl, tt)
  Distinct-insert sym_same (r ∷ rs) x fresh h = (
    any_where_snoc (same r) rs x h.0 (ground (arith, sym_same r x)),
    Distinct-insert sym_same rs x (ground arith) h.1,
  )
