-- ===== src/Publications/Lookup/Bounds.antt =====
-- app/applicant/publications.py: the cache keeps its bound, and each entry is of its DOI.
use ehf_applications.Prelude.{
  ℕ, zero, suc, ◌+◌, ◌-◌, ◌≤◌, ◌<◌, String, false, none, some, [], ◌∷◌, ◌++◌, ◌≡◌, refl, sym, ap,
  ◌∙◌, inl, inr, ◌==◌, string_eq, ltb, length, length-append, drop, All, All-append, arith,
  Bool-cases, Option-cases,
}
use mathlib.Core.Path.{subst}
use ehf_applications.Prelude.Dict.{get, put, remove, All-put, All-get}
use ehf_applications.Publications.Metadata.{Metadata}
use ehf_applications.Publications.Lookup.{Cache, evict, move_to_end, store}

zero_of : (n size : ℕ) → n ≤ size → 0 ≡ n - size
zero_of n size h = omega arith

suc_of : (n size : ℕ) → size ≤ n → suc (n - size) ≡ suc n - size
suc_of n size h = omega arith

length-remove_le : (cache : Cache) (doi : String) → length (remove cache doi) ≤ length cache
unfolding remove
length-remove_le [] doi = omega arith
length-remove_le ((k, n) ∷ cache) doi = ground (arith, length-remove_le cache doi)

length-remove :
    (cache : Cache) (doi : String) {m : Metadata}
    → get cache doi ≡ some m
    → length (remove cache doi) < length cache
unfolding get remove
length-remove [] doi h = absurd (cc)
length-remove ((k, n) ∷ cache) doi {m} h = elim (Bool-cases (k == doi)) [
  | inl same ↦ ground (arith, length-remove_le cache doi)
  | inr other ↦
      let rest : length (remove cache doi) < length cache =
        length-remove cache doi {m = m} (rw other at h) in
      ground arith
]

move_to_end-missing :
    (doi : String) (cache : Cache) → get cache doi ≡ none → move_to_end doi cache ≡ cache
unfolding move_to_end
move_to_end-missing doi cache h = rw (move_to_end, h) refl

pub move_to_end-found :
    (doi : String) (cache : Cache) {m : Metadata}
    → get cache doi ≡ some m
    → move_to_end doi cache ≡ remove cache doi ++ (doi, m) ∷ []
unfolding move_to_end
move_to_end-found doi cache h = rw (move_to_end, h) refl

length-move_to_end : (doi : String) (cache : Cache) → length (move_to_end doi cache) ≤ length cache
length-move_to_end doi cache = elim (Option-cases (get cache doi)) [
  | inl missing ↦ rw (move_to_end-missing doi cache missing) (omega arith)
  | inr (m, found) ↦ rw (move_to_end-found doi cache found) (
      omega
        (arith, length-remove cache doi found, length-append (remove cache doi) ((doi, m) ∷ [])))
]

-- The loop that evicts ends by its test whenever it has as many rounds as there are entries too
-- many, and what is left is the cache without that many of its first entries.
pub evict_ends :
    (fuel size : ℕ) (cache : Cache)
    → length cache ≤ fuel + size
    → (ltb size (length (evict fuel size cache)) ≡ false)
      × (evict fuel size cache ≡ drop (length cache - size) cache)
unfolding evict
evict_ends zero size cache h =
    (ground arith, ap (λ n. drop n cache) (zero_of (length cache) size (omega arith)))
evict_ends (suc fuel) size [] h = (ground arith, ground arith)
evict_ends (suc fuel) size (x ∷ cache) h = elim (Bool-cases (ltb size (suc (length cache)))) [
  | inl over ↦
      let rest = evict_ends fuel size cache (omega arith) in
      rw over
        (rest.0, rest.1 ∙ ap (λ n. drop n (x ∷ cache)) (suc_of (length cache) size (ground arith)))
  | inr fits ↦
      rw fits
        (fits, ap (λ n. drop n (x ∷ cache)) (zero_of (suc (length cache)) size (ground arith)))
]

-- an entry is of its key
abbrev pub OfKey : String × Metadata → Type 0
OfKey (doi, m) = m.doi ≡ doi

All-drop :
    (P : String × Metadata → Type 0) (n : ℕ) (cache : Cache) → All P cache → All P (drop n cache)
All-drop P zero cache h = h
All-drop P (suc n) [] h = h
All-drop P (suc n) (x ∷ cache) h = All-drop P n cache h.1

All-remove :
    (P : String × Metadata → Type 0) (doi : String) (cache : Cache)
    → All P cache
    → All P (remove cache doi)
unfolding remove
All-remove P doi [] h = h
All-remove P doi ((k, m) ∷ cache) h = elim (Bool-cases (k == doi)) [
  | inl same ↦ rw same (All-remove P doi cache h.1)
  | inr other ↦ rw other (h.0, All-remove P doi cache h.1)
]

All-move_to_end :
    (P : String × Metadata → Type 0) (doi : String) (cache : Cache)
    → All P cache
    → All P (move_to_end doi cache)
All-move_to_end P doi cache h = elim (Option-cases (get cache doi)) [
  | inl missing ↦ subst (All P) (sym (move_to_end-missing doi cache missing)) h
  | inr (m, found) ↦ subst (All P) (sym (move_to_end-found doi cache found)) (
      All-append P (remove cache doi) ((doi, m) ∷ []) (All-remove P doi cache h)
        (All-get P cache doi h found, tt))
]

abbrev pub IsBounded : ℕ → Cache → Type 0
IsBounded size cache = (length cache ≤ size) × All OfKey cache

-- the sections that hold the lock, as the threads interleave them
pub data Step (size : ℕ) (cache : Cache) : Cache → Type 0 where
  touched : (doi : String) → Step size cache (move_to_end doi cache)
  stored : (doi : String) (m : Metadata) → m.doi ≡ doi → Step size cache (store size doi m cache)

pub data Reach (size : ℕ) (cache : Cache) : Cache → Type 0 where
  here : Reach size cache cache
  next :
      {middle final : Cache}
      → Reach size cache middle
      → Step size middle final
      → Reach size cache final

store-IsBounded :
    (size : ℕ) (doi : String) (m : Metadata) (cache : Cache)
    → m.doi ≡ doi
    → All OfKey cache
    → IsBounded size (store size doi m cache)
unfolding store
store-IsBounded size doi m cache h entries =
    let moved = move_to_end doi (put cache doi m) in
    let ends = evict_ends (length moved) size moved (omega arith) in
    (
      ground (arith, ends.0),
      subst (All OfKey) (sym ends.1) (
          All-drop OfKey (length moved - size) moved
            (All-move_to_end OfKey doi (put cache doi m) (All-put OfKey cache doi m h entries))),
    )

Step-IsBounded :
    (size : ℕ) {cache final : Cache}
    → Step size cache final
    → IsBounded size cache
    → IsBounded size final
Step-IsBounded size {cache} (touched doi) h =
    (omega (arith, length-move_to_end doi cache, h.0), All-move_to_end OfKey doi cache h.1)
Step-IsBounded size {cache} (stored doi m of_key) h = store-IsBounded size doi m cache of_key h.1

-- However threads interleave their lookups, the cache never holds more entries than its size, and
-- each entry has the metadata of its own DOI.
pub Reach-IsBounded :
    (size : ℕ) {cache final : Cache}
    → IsBounded size cache
    → Reach size cache final
    → IsBounded size final
Reach-IsBounded size h here = h
Reach-IsBounded size h (next r s) = Step-IsBounded size s (Reach-IsBounded size h r)
