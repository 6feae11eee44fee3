-- ===== src/Table/Keyed.antt =====
-- Tables with a unique text column: what is found by it after an INSERT or an UPDATE of one row.
use dbos_workload.Prelude.{
  Bool, Bool-cases, List, [], ap, arith, compares_nat, compares_option, compares_text, eq_iff,
  false, if◌then◌else◌, inl, inr, is_some, none, some, subst, ◌++◌, ◌==◌, ◌∷◌,
}
use dbos_workload.Table.Laws.{find_row-append, find_row-holds, find_row-update_where}
use dbos_workload.Prelude.{String, ◌≡◌, Option, refl}
use dbos_workload.Table.{find_row, update_where, any_where}

module _ {A : Type 0} (key : A → String) where
  abbrev pub by_key : String → A → Bool
  by_key name r = key r == name

  pub any_where-by_key :
      (name : String) (rs : List A)
      → any_where (by_key name) rs ≡ is_some (find_row (by_key name) rs)
  unfolding any_where find_row
  any_where-by_key name [] = refl
  any_where-by_key name (r ∷ rs) = ground (arith, any_where-by_key name rs)

  pub find_row-insert_key :
      (s : A) (name : String) (rs : List A)
      → find_row (by_key (key s)) rs ≡ none
      → find_row (by_key name) (rs ++ (s ∷ []))
        ≡ (if key s == name then some s else find_row (by_key name) rs)
  unfolding find_row
  find_row-insert_key s name rs fresh =
      let split = find_row-append (by_key name) rs (s ∷ []) in
      elim (Bool-cases (key s == name)) [
        | inl e ↦
            let here : find_row (by_key name) rs ≡ none =
              subst (λ n. find_row (by_key n) rs ≡ none) ((eq_iff (key s) name).0 e) fresh in
            ground (arith, split)
        | inr e ↦ ground (arith, split)
      ]

  abbrev pub changed : (A → A) → Option A → Option A
  changed f none = none
  changed f (some r) = some (f r)

  other_key :
      (k name : String) (f : A → A) (rs : List A) (o : Option A)
      → find_row (by_key name) rs ≡ o
      → (k == name) ≡ false
      → elim o [ none ↦ none | some r ↦ some (if key r == k then f r else r) ] ≡ o
  other_key k name f rs none h e = refl
  other_key k name f rs (some r) h e =
      let here = find_row-holds (by_key name) rs r h in
      ground (arith, eq_iff (key r) name, eq_iff (key r) k, eq_iff k name)

  same_key :
      (k : String) (f : A → A) (rs : List A) (o : Option A)
      → find_row (by_key k) rs ≡ o
      → elim o [ none ↦ none | some r ↦ some (if key r == k then f r else r) ] ≡ changed f o
  same_key k f rs none h = refl
  same_key k f rs (some r) h = ground (arith, find_row-holds (by_key k) rs r h)

  pub find_row-update_key :
      (k name : String) (f : A → A) (rs : List A)
      → ((r : A) → key (f r) ≡ key r)
      → find_row (by_key name) (update_where (by_key k) f rs)
        ≡ (if k == name then changed f (find_row (by_key k) rs) else find_row (by_key name) rs)
  find_row-update_key k name f rs keeps =
      let moved =
        find_row-update_where (by_key name) (by_key k) f rs
          (λ r. ap (λ (n : String). n == name) (keeps r)) in
      elim (Bool-cases (k == name)) [
        | inl e ↦ rw e (
            subst
              (λ n.
                find_row (by_key n) (update_where (by_key k) f rs)
                ≡ changed f (find_row (by_key k) rs))
              ((eq_iff k name).0 e)
              (ground (
                arith,
                same_key k f rs (find_row (by_key k) rs) refl,
                find_row-update_where (by_key k) (by_key k) f rs
                    (λ r. ap (λ (n : String). n == k) (keeps r)),
              )))
        | inr e ↦ ground (arith, moved, other_key k name f rs (find_row (by_key name) rs) refl)
      ]
