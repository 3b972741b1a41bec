-- ===== src/Prelude/Actions.antt =====
-- Methods that mutate an object and may raise. What was written before a raise stays written, so
-- the state comes back beside the error too.
use mathlib.Core.Path.{◌≡◌, refl}
use mathlib.Core.Logic.{◌⊎◌, inl, inr}
use mathlib.Core.Bool.{Bool, true, false}
use mathlib.Core.Option.{Option, none, some}

pub data Result (E A : Type 0) : Type 0 where
  ok : A → Result E A
  err : E → Result E A

abbrev pub Action : Type 0 → Type 0 → Type 0 → Type 0
Action S E A = S → Result E A × S

module _ {S E A : Type 0} where
  abbrev pub pure : A → Action S E A
  pure a s = (ok a, s)

  abbrev pub raise : E → Action S E A
  raise e s = (err e, s)

  abbrev pub gets : (S → A) → Action S E A
  gets f s = (ok (f s), s)

  -- the value of an optional result, or the exception where it is `None`
  abbrev pub or_raise : Option A → E → Action S E A
  or_raise none e s = (err e, s)
  or_raise (some a) e s = (ok a, s)

module _ {S E : Type 0} where
  abbrev pub modify : (S → S) → Action S E Unit
  modify f s = (ok tt, f s)

  -- `if test: raise e`
  abbrev pub raise_if : Bool → E → Action S E Unit
  raise_if true e s = (err e, s)
  raise_if false e s = (ok tt, s)

module _ {S E A B : Type 0} where
  abbrev resume : Result E A → (A → Action S E B) → Action S E B
  resume (ok a) f s = f a s
  resume (err e) f s = (err e, s)

  infixl 5 ◌>>=◌
  abbrev pub ◌>>=◌ : Action S E A → (A → Action S E B) → Action S E B
  ◌>>=◌ m f s = let (r, s') = m s in resume r f s'

module _ {S E B : Type 0} where
  infixl 5 ◌>>◌
  abbrev pub ◌>>◌ : Action S E Unit → Action S E B → Action S E B
  m >> k = m >>= λ _. k

pub Result-cases :
    {E A : Type 0} (r : Result E A) → ((a : A) × (r ≡ ok a)) ⊎ ((e : E) × (r ≡ err e))
Result-cases (ok a) = inl (a, refl)
Result-cases (err e) = inr (e, refl)
