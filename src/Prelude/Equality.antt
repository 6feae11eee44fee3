-- ===== src/Prelude/Equality.antt =====
-- Python's `==` on the column types: text, numbers, and values that may be None.
use Prim.Native.Nat.{ℕ}
use Prim.Native.String.{String}
use mathlib.Core.Path.{◌≡◌, refl, ap}
use mathlib.Core.Logic.{◌↔◌}
use mathlib.Core.Bool.{Bool, true, false}
use mathlib.Core.Option.{Option, none, some}
use mathlib.Core.List.{List, [], ◌∷◌, ◌++◌}
use native.Mathlib.Omega.{arith}
use text.Mathlib.Text.{◌==◌ as text_beq}
use text.Mathlib.TextEquality.{eq_iff}
use dbos_workload.Prelude.Tests.{nat_beq, nat_beq_iff, if◌then◌else◌}
use mathlib.Core.Bool.{◌||◌}

-- A test of a type's values, which holds exactly of equal ones.
pub record Compares {ℓ} (A : Type ℓ) : Type ℓ where
  pub same : A → A → Bool
  pub same_iff : (x y : A) → (same x y ≡ true) ↔ (x ≡ y)

abbrev pub opt_beq {ℓ} : {A : Type ℓ} (e : Compares A) → Option A → Option A → Bool
opt_beq e none none = true
opt_beq e (some a) (some b) = e.same a b
opt_beq e _ _ = false

pub opt_beq_iff {ℓ} :
    {A : Type ℓ} (e : Compares A) (a b : Option A) → (opt_beq e a b ≡ true) ↔ (a ≡ b)
opt_beq_iff e none none = ((λ _. refl), (λ _. refl))
opt_beq_iff e none (some b) = ((λ h. cc), (λ h. cc))
opt_beq_iff e (some a) none = ((λ h. cc), (λ h. cc))
opt_beq_iff e (some a) (some b) =
    ((λ h. ap some ((e.same_iff a b).0 h)), (λ h. (e.same_iff a b).1 (cc)))

instance abbrev pub compares_option {ℓ} : {A : Type ℓ} ⦃e : Compares A⦄ → Compares (Option A)
compares_option ⦃e⦄ = record { same = opt_beq e; same_iff = opt_beq_iff e }

instance abbrev pub compares_text : Compares String
compares_text = record { same_iff = eq_iff; same = text_beq }

instance abbrev pub compares_nat : Compares ℕ
compares_nat = record { same_iff = nat_beq_iff; same = nat_beq }

infix 50 ◌==◌
abbrev pub ◌==◌ {ℓ} : {A : Type ℓ} ⦃comparison : Compares A⦄ (x y : A) → Bool
◌==◌ ⦃comparison⦄ x y = comparison.same x y

pub beq_refl {ℓ} : {A : Type ℓ} ⦃e : Compares A⦄ (a : A) → (a == a) ≡ true
beq_refl ⦃e⦄ a = (e.same_iff a a).1 refl

-- SQL's `column = value`: a NULL column matches nothing.
abbrev pub matches {ℓ} : {A : Type ℓ} ⦃e : Compares A⦄ → Option A → A → Bool
matches none v = false
matches (some a) v = a == v

-- SQL's `column IN (list)`, Python's `x in list`.
abbrev pub mem {ℓ} : {A : Type ℓ} ⦃e : Compares A⦄ → A → List A → Bool
mem a [] = false
mem a (x ∷ xs) = let rest = mem a xs in if a == x then true else rest

pub mem-append {ℓ} :
    {A : Type ℓ} ⦃e : Compares A⦄ (a : A) (xs ys : List A)
    → mem a (xs ++ ys) ≡ (mem a xs || mem a ys)
mem-append ⦃e⦄ a [] ys = refl
mem-append ⦃e⦄ a (x ∷ xs) ys = ground (arith, mem-append a xs ys)
