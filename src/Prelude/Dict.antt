-- ===== src/Prelude/Dict.antt =====
-- Python's `dict`: a key keeps its place when it is written again, and iteration is in order of
-- insertion. Clients have `dict_laws`.
use ehf_applications.Prelude.Tests.{if◌then◌else◌, Bool-cases}
use ehf_applications.Prelude.Equality.{Eq, ◌==◌}
use ehf_applications.Prelude.Lists.{All}
use mathlib.Core.Path.{◌≡◌, refl, sym, ap₂, subst}
use mathlib.Core.Logic.{inl, inr}
use mathlib.Core.Option.{Option, none, some}
use mathlib.Core.List.{List, [], ◌∷◌}
use native.Mathlib.Omega.{arith}

abbrev pub Dict {ℓ κ} : Type ℓ → Type κ → Type (ℓ ⊔ κ)
Dict K V = List (K × V)

module _ {ℓ κ} {K : Type ℓ} {V : Type κ} ⦃e : Eq K⦄ where
  -- d.get(k)
  unfoldable pub get : Dict K V → K → Option V
  get [] k = none
  get ((j, v) ∷ d) k = if j == k then some v else get d k

  -- d[k] = v
  unfoldable pub put : Dict K V → K → V → Dict K V
  put [] k v = (k, v) ∷ []
  put ((j, w) ∷ d) k v = if j == k then (j, v) ∷ d else (j, w) ∷ put d k v

  -- d.pop(k, None)
  unfoldable pub remove : Dict K V → K → Dict K V
  remove [] k = []
  remove ((j, w) ∷ d) k = if j == k then remove d k else (j, w) ∷ remove d k

  pub get-put :
      (d : Dict K V) (k j : K) (v : V) → get (put d k v) j ≡ (if k == j then some v else get d j)
  unfolding get put
  get-put [] k j v = refl
  get-put ((i, w) ∷ d) k j v =
      ground (arith, get-put d k j v, e.agrees i k, e.agrees i j, e.agrees k j)

  pub get-put_self : (d : Dict K V) (k : K) (v : V) → get (put d k v) k ≡ some v
  get-put_self d k v = ground (arith, get-put d k k v, e.agrees k k)

  pub get-remove :
      (d : Dict K V) (k j : K) → get (remove d k) j ≡ (if k == j then none else get d j)
  unfolding get remove
  get-remove [] k j = ground arith
  get-remove ((i, w) ∷ d) k j =
      ground (arith, get-remove d k j, e.agrees i k, e.agrees i j, e.agrees k j)

module _ {ℓ κ} {K : Type ℓ} {V : Type κ} where
  -- d.values()
  unfoldable pub values : Dict K V → List V
  values [] = []
  values ((k, v) ∷ d) = v ∷ values d

pub get-empty {ℓ κ} : {K : Type ℓ} {V : Type κ} ⦃e : Eq K⦄ (k : K) → get {V = V} [] k ≡ none
unfolding get
get-empty k = refl

-- Every entry of the dictionary meets `P`.
module _ {ℓ κ μ} {K : Type ℓ} {V : Type κ} ⦃e : Eq K⦄ (P : K × V → Type μ) where
  pub All-put : (d : Dict K V) (k : K) (v : V) → P (k, v) → All P d → All P (put d k v)
  unfolding put
  All-put [] k v p h = (p, tt)
  All-put ((j, w) ∷ d) k v p h = elim (Bool-cases (j == k)) [
    | inl same ↦ rw same (subst (λ i. P (i, v)) (sym ((e.agrees j k).0 same)) p, h.1)
    | inr other ↦ rw other (h.0, All-put d k v p h.1)
  ]

  pub All-get : (d : Dict K V) (k : K) {v : V} → All P d → get d k ≡ some v → P (k, v)
  unfolding get
  All-get [] k h g = cc
  All-get ((j, w) ∷ d) k {v} h g = elim (Bool-cases (j == k)) [
    | inl same ↦
        let kv : w ≡ v = ground arith in
        subst P (ap₂ (λ a b. (a, b)) ((e.agrees j k).0 same) kv) h.0
    | inr other ↦ All-get d k h.1 (rw other at g)
  ]

pub All-map {ℓ κ μ} :
    {A : Type ℓ} (P : A → Type κ) (Q : A → Type μ) (xs : List A)
    → ((x : A) → P x → Q x)
    → All P xs
    → All Q xs
All-map P Q [] f h = tt
All-map P Q (x ∷ xs) f h = (f x h.0, All-map P Q xs f h.1)

pub ruleset dict_laws = (get-put, get-put_self, get-remove, get-empty)
