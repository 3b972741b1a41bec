-- ===== src/Prelude/Sets.antt =====
-- Python's `set` as a list without repetition.
use ehf_applications.Prelude.Tests.{if◌then◌else◌, Bool-cases}
use ehf_applications.Prelude.Equality.{Eq, ◌==◌, eq_of_beq}
use ehf_applications.Prelude.Lists.{all}
use mathlib.Core.Logic.{inl, inr}
use mathlib.Core.Path.{◌≡◌}
use mathlib.Core.Bool.{Bool, true, false, ◌||◌}
use mathlib.Core.List.{List, [], ◌∷◌}
use native.Mathlib.Omega.{arith}

module _ {ℓ} {A : Type ℓ} ⦃e : Eq A⦄ where
  -- x in s
  unfoldable pub member : A → List A → Bool
  member x [] = false
  member x (y ∷ s) = y == x || member x s

  -- s.add(x)
  unfoldable pub add : A → List A → List A
  add x [] = x ∷ []
  add x (y ∷ s) = if y == x then y ∷ s else y ∷ add x s

  pub member-add : (x y : A) (s : List A) → member y (add x s) ≡ (x == y || member y s)
  unfolding member add
  member-add x y [] = ground arith
  member-add x y (z ∷ s) =
      ground (arith, member-add x y s, e.agrees z x, e.agrees z y, e.agrees x y)

  -- A test that holds of every element holds of each.
  pub all-member :
      (p : A → Bool) (xs : List A) (x : A) → all p xs ≡ true → member x xs ≡ true → p x ≡ true
  unfolding member
  all-member p [] x h m = cc
  all-member p (y ∷ xs) x h m = elim (Bool-cases (y == x)) [
    | inl same ↦ ground (arith, eq_of_beq y x same)
    | inr other ↦ all-member p xs x (ground arith) (rw other at m)
  ]
