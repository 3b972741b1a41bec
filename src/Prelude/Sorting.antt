-- ===== src/Prelude/Sorting.antt =====
-- Python's `sorted`: stable, by insertion.
use Prim.Native.String.{[], ◌∷◌}
use mathlib.Core.Path.{◌≡◌}
use mathlib.Core.Logic.{inl, inr}
use mathlib.Core.Bool.{Bool, true, false}
use mathlib.Core.List.{List, [], ◌∷◌, Perm}
use mathlib.Core.List.Perm
use ehf_applications.Prelude.Tests.{if◌then◌else◌, Bool-cases}
use ehf_applications.Prelude.Equality.{nat_eq}
use ehf_applications.Prelude.Lists.{All}

module _ {ℓ} {A : Type ℓ} (le : A → A → Bool) where
  unfoldable pub insert_sorted : A → List A → List A
  insert_sorted x [] = x ∷ []
  insert_sorted x (y ∷ ys) = if le x y then x ∷ y ∷ ys else y ∷ (insert_sorted x ys)

  unfoldable pub sorted : List A → List A
  unfolding insert_sorted
  sorted [] = []
  sorted (x ∷ xs) = insert_sorted x (sorted xs)

  pub insert_sorted-perm : (x : A) (xs : List A) → Perm (insert_sorted x xs) (x ∷ xs)
  unfolding insert_sorted
  insert_sorted-perm x [] = Perm.rfl
  insert_sorted-perm x (y ∷ ys) = elim (Bool-cases (le x y)) [
    | inl first ↦ rw first Perm.rfl
    | inr later ↦ rw later (Perm.trans (Perm.cons y (insert_sorted-perm x ys)) (Perm.swap x y ys))
  ]

  pub sorted-perm : (xs : List A) → Perm (sorted xs) xs
  unfolding sorted
  sorted-perm [] = Perm.rfl
  sorted-perm (x ∷ xs) =
      Perm.trans (insert_sorted-perm x (sorted xs)) (Perm.cons x (sorted-perm xs))

  -- no neighbours are out of order
  abbrev pub Ascends : List A → Type 0
  Ascends [] = Unit
  Ascends (x ∷ []) = Unit
  Ascends (x ∷ y ∷ ys) = (le x y ≡ true) × Ascends (y ∷ ys)

  module _ (total : (x y : A) → le x y ≡ false → le y x ≡ true) where
    -- what comes before the place of insertion stays below what follows it
    Ascends-insert_after :
        (x y : A) (ys : List A)
        → le y x ≡ true
        → Ascends (y ∷ ys)
        → Ascends (y ∷ (insert_sorted x ys))
    unfolding insert_sorted
    Ascends-insert_after x y [] h s = (h, tt)
    Ascends-insert_after x y (z ∷ zs) h s = elim (Bool-cases (le x z)) [
      | inl first ↦ rw first (h, (first, s.1))
      | inr later ↦ rw later (s.0, Ascends-insert_after x z zs (total x z later) s.1)
    ]

    Ascends-insert_sorted : (x : A) (xs : List A) → Ascends xs → Ascends (insert_sorted x xs)
    unfolding insert_sorted
    Ascends-insert_sorted x [] s = tt
    Ascends-insert_sorted x (y ∷ ys) s = elim (Bool-cases (le x y)) [
      | inl first ↦ rw first (first, s)
      | inr later ↦ rw later (Ascends-insert_after x y ys (total x y later) s)
    ]

    pub Ascends-sorted : (xs : List A) → Ascends (sorted xs)
    unfolding sorted
    Ascends-sorted [] = tt
    Ascends-sorted (x ∷ xs) = Ascends-insert_sorted x (sorted xs) (Ascends-sorted xs)

module _ {ℓ κ} {A : Type ℓ} (P : A → Type κ) (le : A → A → Bool) where
  All-insert_sorted : (x : A) (xs : List A) → P x → All P xs → All P (insert_sorted le x xs)
  unfolding insert_sorted
  All-insert_sorted x [] p h = (p, tt)
  All-insert_sorted x (y ∷ ys) p h = elim (Bool-cases (le x y)) [
    | inl first ↦ rw first (p, h)
    | inr later ↦ rw later (h.0, All-insert_sorted x ys p h.1)
  ]

  pub All-sorted : (xs : List A) → All P xs → All P (sorted le xs)
  unfolding sorted
  All-sorted [] h = tt
  All-sorted (x ∷ xs) h = All-insert_sorted x (sorted le xs) h.0 (All-sorted xs h.1)
