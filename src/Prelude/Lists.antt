-- ===== src/Prelude/Lists.antt =====
-- Lists over the native numbers, and the searches that Python writes as generator expressions.
use Prim.Native.Nat.{ℕ, zero, suc, ◌+◌}
use mathlib.Core.Path.{◌≡◌, refl, ap, sym, subst}
use mathlib.Core.Bool.{Bool, true, false, ◌&&◌, ◌||◌}
use mathlib.Core.Option.{Option, none, some}
use mathlib.Core.List.{List, [], ◌∷◌, ◌++◌}
use mathlib.Core.Logic.{inl, inr, ◌⊎◌, ◌↔◌}
use native.Mathlib.Omega.{arith}
use ehf_applications.Prelude.Tests.{if◌then◌else◌, Bool-cases}

module _ {ℓ} {A : Type ℓ} where
  abbrev pub length : List A → ℕ
  length [] = 0
  length (x ∷ xs) = suc (length xs)

  pub length-append : (xs ys : List A) → length (xs ++ ys) ≡ length xs + length ys
  length-append [] ys = omega arith
  length-append (x ∷ xs) ys = omega (arith, length-append xs ys)

  -- [x for x in xs if p(x)]
  abbrev pub keep : (A → Bool) → List A → List A
  keep p [] = []
  keep p (x ∷ xs) = if p x then x ∷ keep p xs else keep p xs

  -- next((x for x in xs if p(x)), None)
  abbrev pub find : (A → Bool) → List A → Option A
  find p [] = none
  find p (x ∷ xs) = if p x then some x else find p xs

  -- next((x for x in reversed(xs) if p(x)), None)
  abbrev pub find_last : (A → Bool) → List A → Option A
  find_last p [] = none
  find_last p (x ∷ xs) = elim (find_last p xs) [
    | some y ↦ some y
    | none ↦ if p x then some x else none
  ]

  abbrev pub any : (A → Bool) → List A → Bool
  any p [] = false
  any p (x ∷ xs) = p x || any p xs

  abbrev pub all : (A → Bool) → List A → Bool
  all p [] = true
  all p (x ∷ xs) = p x && all p xs

  -- xs[-1] if xs else None
  abbrev pub last : List A → Option A
  last [] = none
  last (x ∷ []) = some x
  last (x ∷ y ∷ xs) = last (y ∷ xs)

module _ {ℓ κ} {A : Type ℓ} where
  abbrev pub All : (A → Type κ) → List A → Type κ
  All P [] = Unit
  All P (x ∷ xs) = P x × All P xs

  pub All-append : (P : A → Type κ) (xs ys : List A) → All P xs → All P ys → All P (xs ++ ys)
  All-append P [] ys h k = k
  All-append P (x ∷ xs) ys h k = (h.0, All-append P xs ys h.1 k)

module _ {ℓ} {A : Type ℓ} (p : A → Bool) where
  pub find-holds : (xs : List A) (x : A) → find p xs ≡ some x → p x ≡ true
  find-holds [] x h = cc
  find-holds (y ∷ xs) x h = elim (Bool-cases (p y)) [
    | inl hit ↦ ground arith
    | inr miss ↦ find-holds xs x (rw miss at h)
  ]

module _ {ℓ} {A : Type ℓ} where
  -- xs[:n]
  abbrev pub take : ℕ → List A → List A
  take zero xs = []
  take (suc n) [] = []
  take (suc n) (x ∷ xs) = x ∷ take n xs

  -- xs[n:]
  abbrev pub drop : ℕ → List A → List A
  drop zero xs = xs
  drop (suc n) [] = []
  drop (suc n) (x ∷ xs) = drop n xs

  pub take-append : (xs ys : List A) → take (length xs) (xs ++ ys) ≡ xs
  take-append [] ys = refl
  take-append (x ∷ xs) ys = ap (λ l. x ∷ l) (take-append xs ys)

  pub drop-append : (xs ys : List A) → drop (length xs) (xs ++ ys) ≡ ys
  drop-append [] ys = refl
  drop-append (x ∷ xs) ys = drop-append xs ys

  pub take_first : (n : ℕ) (xs ys : List A) → length xs ≡ n → take n (xs ++ ys) ≡ xs
  take_first n xs ys h = rw (← h) (take-append xs ys)

  pub drop_first : (n : ℕ) (xs ys : List A) → length xs ≡ n → drop n (xs ++ ys) ≡ ys
  drop_first n xs ys h = rw (← h) (drop-append xs ys)

module _ {A : Type 0} where
  -- the element stands in the list
  abbrev pub Holds : A → List A → Type 0
  Holds x [] = ⊥
  Holds x (y ∷ ys) = (x ≡ y) ⊎ Holds x ys

  pub Holds-keep :
      (p : A → Bool) (x : A) (xs : List A) → Holds x (keep p xs) ↔ (Holds x xs × (p x ≡ true))
  Holds-keep p x [] = (λ h. absurd h, λ h. absurd h.0)
  Holds-keep p x (y ∷ ys) =
      let (before, later) = Holds-keep p x ys in
      elim (Bool-cases (p y)) [
        | inl hit ↦ rw hit (
          λ h. elim h [
            | inl same ↦ (inl same, subst (λ z. p z ≡ true) (sym same) hit)
            | inr rest ↦ (inr (before rest).0, (before rest).1)
          ],
          λ (h, kept). elim h [ inl same ↦ inl same | inr rest ↦ inr (later (rest, kept)) ],
        )
        | inr miss ↦ rw miss (
          λ h. (inr (before h).0, (before h).1),
          λ (h, kept). elim h [
            | inl same ↦
                let dropped : p x ≡ false = subst (λ z. p z ≡ false) (sym same) miss in
                absurd (ground arith)
            | inr rest ↦ later (rest, kept)
          ],
        )
      ]

  pub All-Holds : (P : A → Type 0) (x : A) (xs : List A) → All P xs → Holds x xs → P x
  All-Holds P x [] h m = absurd m
  All-Holds P x (y ∷ ys) h m = elim m [
    | inl same ↦ subst P (sym same) h.0
    | inr rest ↦ All-Holds P x ys h.1 rest
  ]

  pub find-Holds : (p : A → Bool) (xs : List A) (x : A) → find p xs ≡ some x → Holds x xs
  find-Holds p [] x h = cc
  find-Holds p (y ∷ ys) x h = elim (Bool-cases (p y)) [
    | inl hit ↦ inl (ground arith)
    | inr miss ↦ inr (find-Holds p ys x (rw miss at h))
  ]
