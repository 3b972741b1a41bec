-- ===== src/Prelude/Equality.antt =====
-- Python's `==` on the types that the program compares.
use Prim.Native.Nat.{ℕ, compare, Ordering}
use Prim.Native.String.{String}
use mathlib.Core.Path.{◌≡◌, refl}
use mathlib.Core.Logic.{◌↔◌}
use mathlib.Core.Bool.{Bool, true, false, ◌&&◌}
use mathlib.Core.Option.{Option, none, some}
use mathlib.Core.List.{List, [], ◌∷◌}
use native.Mathlib.Omega.{arith}
use text.Mathlib.Text.{◌==◌ as str_eq}
use text.Mathlib.TextEquality.{eq_iff}

pub record Eq {ℓ} (A : Type ℓ) : Type ℓ where
  pub test : A → A → Bool
  pub agrees : (x y : A) → (test x y ≡ true) ↔ (x ≡ y)

infix 55 ◌==◌
abbrev pub ◌==◌ {ℓ} : {A : Type ℓ} ⦃e : Eq A⦄ → A → A → Bool
◌==◌ ⦃e⦄ = e.test

abbrev nat_beq : ℕ → ℕ → Bool
nat_beq a b = elim (compare a b) [ Ordering.eq ↦ true | _ ↦ false ]

pub nat_beq_iff : (a b : ℕ) → (nat_beq a b ≡ true) ↔ (a ≡ b)
nat_beq_iff a b = (λ h. ground arith, λ h. ground arith)

instance abbrev pub nat_eq : Eq ℕ
nat_eq = record { test = nat_beq; agrees = nat_beq_iff }

instance abbrev pub string_eq : Eq String
string_eq = record { test = str_eq; agrees = eq_iff }

module _ {ℓ κ} {A : Type ℓ} {B : Type κ} ⦃a : Eq A⦄ ⦃b : Eq B⦄ where
  abbrev pair_beq : A × B → A × B → Bool
  pair_beq (x, y) (z, w) = a.test x z && b.test y w

  pub pair_beq_iff : (p q : A × B) → (pair_beq p q ≡ true) ↔ (p ≡ q)
  pair_beq_iff (x, y) (z, w) = (
    λ h. ground (arith, a.agrees x z, b.agrees y w),
    λ h. ground (arith, a.agrees x z, b.agrees y w),
  )

  instance abbrev pub pair_eq : Eq (A × B)
  pair_eq = record { test = pair_beq; agrees = pair_beq_iff }

module _ {ℓ} {A : Type ℓ} ⦃a : Eq A⦄ where
  abbrev option_beq : Option A → Option A → Bool
  option_beq none none = true
  option_beq (some x) (some y) = a.test x y
  option_beq _ _ = false

  pub option_beq_iff : (p q : Option A) → (option_beq p q ≡ true) ↔ (p ≡ q)
  option_beq_iff none none = (λ h. refl, λ h. refl)
  option_beq_iff (some x) (some y) =
      (λ h. ground (arith, a.agrees x y), λ h. ground (arith, a.agrees x y))
  option_beq_iff none (some y) = (λ h. cc, λ h. cc)
  option_beq_iff (some x) none = (λ h. cc, λ h. cc)

  instance abbrev pub option_eq : Eq (Option A)
  option_eq = record { test = option_beq; agrees = option_beq_iff }

  abbrev list_beq : List A → List A → Bool
  list_beq [] [] = true
  list_beq (x ∷ xs) (y ∷ ys) = a.test x y && list_beq xs ys
  list_beq _ _ = false

  pub list_beq_iff : (p q : List A) → (list_beq p q ≡ true) ↔ (p ≡ q)
  list_beq_iff [] [] = (λ h. refl, λ h. refl)
  list_beq_iff (x ∷ xs) (y ∷ ys) = (
    λ h. ground (arith, a.agrees x y, list_beq_iff xs ys),
    λ h. ground (arith, a.agrees x y, list_beq_iff xs ys),
  )
  list_beq_iff [] (y ∷ ys) = (λ h. cc, λ h. cc)
  list_beq_iff (x ∷ xs) [] = (λ h. cc, λ h. cc)

  instance abbrev pub list_eq : Eq (List A)
  list_eq = record { test = list_beq; agrees = list_beq_iff }

  pub beq_refl : (x : A) → (x == x) ≡ true
  beq_refl x = (a.agrees x x).1 refl

  pub eq_of_beq : (x y : A) → (x == y) ≡ true → x ≡ y
  eq_of_beq x y = (a.agrees x y).0

  pub ne_of_beq : (x y : A) → (x == y) ≡ false → ¬ (x ≡ y)
  ne_of_beq x y h p = ground (arith, (a.agrees x y).1 p)
