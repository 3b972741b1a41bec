-- ===== src/Prelude/Results.antt =====
-- A chain of calls that may raise.
use mathlib.Core.Path.{◌≡◌, refl}
use ehf_applications.Prelude.Actions.{Result, ok, err}

module _ {E A B : Type 0} where
  infixl 5 ◌>>=◌
  -- The first exception ends the chain.
  abbrev pub ◌>>=◌ : Result E A → (A → Result E B) → Result E B
  err raised >>= next = err raised
  ok value >>= next = next value

  -- A chain that returns has a value between its two calls.
  pub >>=-eq-ok :
      (first : Result E A)
      → (next : A → Result E B) → {last : B} → (first >>= next) ≡ ok last
      → (value : A) × (first ≡ ok value) × (next value ≡ ok last)
  >>=-eq-ok (err raised) next returned = absurd (cc)
  >>=-eq-ok (ok value) next returned = (value, refl, returned)

module _ {E B : Type 0} where
  infixl 5 ◌>>◌
  abbrev pub ◌>>◌ : Result E Unit → Result E B → Result E B
  checked >> rest = checked >>= λ _. rest
