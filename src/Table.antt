-- ===== src/Table.antt =====
-- SQL statements over a table held as a list of rows, in the order of insertion:
-- SELECT, UPDATE and DELETE with a WHERE test, COUNT, and the first row of a SELECT.
pub mod Laws
pub mod Distinct
pub mod Keyed
use dbos_workload.Prelude.{
  ℕ, suc, ◌+◌, ◌≤◌, ◌≡◌, refl, Bool, true, false, not, ◌&&◌, Option, none, some, List, [], ◌∷◌,
  ◌++◌, arith, if◌then◌else◌, is_some,
}

module _ {ℓ} {A : Type ℓ} where
  unfoldable pub select : (A → Bool) → List A → List A
  select p [] = []
  select p (r ∷ rs) = let rest = select p rs in if p r then r ∷ rest else rest

  -- fetchone(), scalar(): the first row, if any.
  unfoldable pub find_row : (A → Bool) → List A → Option A
  find_row p [] = none
  find_row p (r ∷ rs) = let rest = find_row p rs in if p r then some r else rest

  unfoldable pub update_where : (A → Bool) → (A → A) → List A → List A
  update_where p f [] = []
  update_where p f (r ∷ rs) = (if p r then f r else r) ∷ update_where p f rs

  unfoldable pub delete_where : (A → Bool) → List A → List A
  delete_where p [] = []
  delete_where p (r ∷ rs) = let rest = delete_where p rs in if p r then rest else r ∷ rest

  unfoldable pub count_where : (A → Bool) → List A → ℕ
  count_where p [] = 0
  count_where p (r ∷ rs) = if p r then suc (count_where p rs) else count_where p rs

  unfoldable pub any_where : (A → Bool) → List A → Bool
  any_where p [] = false
  any_where p (r ∷ rs) = let rest = any_where p rs in if p r then true else rest
