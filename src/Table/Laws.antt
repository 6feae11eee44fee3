-- ===== src/Table/Laws.antt =====
-- What the statements of `Table` do to one another's answers.
use dbos_workload.Table.{delete_where, select}
use dbos_workload.Prelude.{
  length, ◌+◌, ◌≤◌, ◌≡◌, refl, Bool, true, false, none, some, List, [], ◌∷◌, ◌++◌, arith,
  if◌then◌else◌, inl, inr, Bool-cases, All, ◌||◌,
}
use dbos_workload.Table.{find_row, update_where, count_where, any_where}

module _ {ℓ} {A : Type ℓ} where
  -- A row found by a test passes it.
  pub find_row-holds : (p : A → Bool) (rs : List A) (r : A) → find_row p rs ≡ some r → p r ≡ true
  unfolding find_row
  find_row-holds p [] r h = cc
  find_row-holds p (x ∷ rs) r h = elim (Bool-cases (p x)) [
    | inl e ↦ ground (arith)
    | inr e ↦ find_row-holds p rs r (rw e at h)
  ]

  -- A change that respects a test is made after or before the row is found.
  pub find_row-update_where :
      (q p : A → Bool) (f : A → A) (rs : List A)
      → ((r : A) → q (f r) ≡ q r)
      → find_row q (update_where p f rs)
        ≡ elim (find_row q rs) [ none ↦ none | some r ↦ some (if p r then f r else r) ]
  unfolding find_row update_where
  find_row-update_where q p f [] keeps = refl
  find_row-update_where q p f (x ∷ rs) keeps =
      ground (arith, keeps x, find_row-update_where q p f rs keeps)

  pub find_row-append :
      (q : A → Bool) (rs ss : List A)
      → find_row q (rs ++ ss) ≡ elim (find_row q rs) [ none ↦ find_row q ss | some r ↦ some r ]
  unfolding find_row
  find_row-append q [] ss = refl
  find_row-append q (x ∷ rs) ss = ground (arith, find_row-append q rs ss)

  pub select-append :
      (p : A → Bool) (rs ss : List A) → select p (rs ++ ss) ≡ select p rs ++ select p ss
  unfolding select
  select-append p [] ss = refl
  select-append p (x ∷ rs) ss = ground (arith, select-append p rs ss)

  pub count_where-append :
      (q : A → Bool) (rs ss : List A)
      → count_where q (rs ++ ss) ≡ count_where q rs + count_where q ss
  unfolding count_where
  count_where-append q [] ss = omega arith
  count_where-append q (x ∷ rs) ss = ground (arith, count_where-append q rs ss)

  -- A change that puts no row into a test does not raise its count.
  pub count_where-update_where-le :
      (q p : A → Bool) (f : A → A) (rs : List A)
      → ((r : A) → p r ≡ true → q (f r) ≡ true → q r ≡ true)
      → count_where q (update_where p f rs) ≤ count_where q rs
  unfolding count_where update_where
  count_where-update_where-le q p f [] keeps = omega arith
  count_where-update_where-le q p f (x ∷ rs) keeps =
      ground (arith, keeps x, count_where-update_where-le q p f rs keeps)

  pub All-update_where {κ} :
      (P : A → Type κ) (p : A → Bool) (f : A → A) (rs : List A)
      → ((r : A) → p r ≡ true → P r → P (f r))
      → All P rs
      → All P (update_where p f rs)
  unfolding update_where
  All-update_where P p f [] keeps h = tt
  All-update_where P p f (x ∷ rs) keeps (hx, hs) = elim (Bool-cases (p x)) [
    | inl e ↦ rw e (keeps x e hx, All-update_where P p f rs keeps hs)
    | inr e ↦ rw e (hx, All-update_where P p f rs keeps hs)
  ]

  -- An UPDATE that matches no row changes nothing.
  pub update_where-absent :
      (p : A → Bool) (f : A → A) (rs : List A) → any_where p rs ≡ false → update_where p f rs ≡ rs
  unfolding update_where any_where
  update_where-absent p f [] h = refl
  update_where-absent p f (x ∷ rs) h = ground (arith, update_where-absent p f rs)

  pub any_where-update_where-le :
      (q p : A → Bool) (f : A → A) (rs : List A)
      → ((r : A) → p r ≡ true → q (f r) ≡ true → q r ≡ true)
      → any_where q (update_where p f rs) ≡ true
      → any_where q rs ≡ true
  unfolding any_where update_where
  any_where-update_where-le q p f [] keeps h = h
  any_where-update_where-le q p f (x ∷ rs) keeps h =
      ground (arith, keeps x, any_where-update_where-le q p f rs keeps)

  -- Where an UPDATE takes each row of a test out of it, none is left.
  pub any_where-update_where_out :
      (q p : A → Bool) (f : A → A) (rs : List A)
      → ((r : A) → p r ≡ true → q (f r) ≡ false)
      → ((r : A) → p r ≡ false → q r ≡ false)
      → any_where q (update_where p f rs) ≡ false
  unfolding any_where update_where
  any_where-update_where_out q p f [] out other = refl
  any_where-update_where_out q p f (x ∷ rs) out other =
      ground (arith, out x, other x, any_where-update_where_out q p f rs out other)

  pub any_where-append :
      (q : A → Bool) (rs ss : List A) → any_where q (rs ++ ss) ≡ (any_where q rs || any_where q ss)
  unfolding any_where
  any_where-append q [] ss = refl
  any_where-append q (x ∷ rs) ss = ground (arith, any_where-append q rs ss)

  pub count_where-le-length : (p : A → Bool) (rs : List A) → count_where p rs ≤ length rs
  unfolding count_where
  count_where-le-length p [] = omega arith
  count_where-le-length p (r ∷ rs) = ground (arith, count_where-le-length p rs)

  -- Rows that a test does not admit can be deleted before.
  pub find_row-delete_where :
      (q p : A → Bool) (rs : List A)
      → ((r : A) → q r ≡ true → p r ≡ false)
      → find_row q (delete_where p rs) ≡ find_row q rs
  unfolding find_row delete_where
  find_row-delete_where q p [] apart = refl
  find_row-delete_where q p (r ∷ rs) apart =
      ground (arith, apart r, find_row-delete_where q p rs apart)
