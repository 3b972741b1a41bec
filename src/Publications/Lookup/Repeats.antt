-- ===== src/Publications/Lookup/Repeats.antt =====
-- app/applicant/publications.py: what a lookup does to the cache, and what the next one finds.
use ehf_applications.Prelude.{
  ℕ, zero, suc, ◌≤◌, String, false, Option, none, some, List, [], ◌∷◌, ◌++◌, ◌≡◌, refl, sym, ap,
  ◌∙◌, ◌⊎◌, inl, inr, ◌==◌, string_eq, ltb, length, All, Result, ok, err, arith, Bool-cases,
  Option-cases, Result-cases, beq_refl,
}
use mathlib.Core.Path.{subst}
use ehf_applications.Prelude.Dict.{get, put, remove, All-get, get-put_self, get-remove}
use ehf_applications.Publications.Doi.{normalize_doi}
use ehf_applications.Publications.Metadata.{Python, Metadata, LookupError, metadata_of, invalid}
use ehf_applications.Publications.Lookup.{
  Cache, Answer, failed, answered, Settings, evict, move_to_end, store, lookup, lookup_doi,
  read_answer, url_of,
}
use ehf_applications.Publications.Lookup.Bounds.{Step, touched, stored, OfKey, move_to_end-found}

get-snoc :
    (cache : Cache) (doi : String) (m : Metadata)
    → get cache doi ≡ none
    → get (cache ++ (doi, m) ∷ []) doi ≡ some m
unfolding get
get-snoc [] doi m h = rw (beq_refl doi) refl
get-snoc ((k, n) ∷ cache) doi m h = elim (Bool-cases (k == doi)) [
  | inl same ↦ absurd (ground arith)
  | inr other ↦ rw other (get-snoc cache doi m (rw other at h))
]

get-later :
    (i : String) (n : Metadata) (cache : Cache) (doi : String)
    → get ((i, n) ∷ cache) doi ≡ none
    → get cache doi ≡ none
unfolding get
get-later i n cache doi h = elim (Bool-cases (i == doi)) [
  | inl same ↦ absurd (ground arith)
  | inr other ↦ rw other at h
]

-- The last entry is evicted last.
get-evict :
    (fuel size : ℕ) (cache : Cache) (doi : String) (m : Metadata)
    → 1 ≤ size
    → get cache doi ≡ none
    → get (evict fuel size (cache ++ (doi, m) ∷ [])) doi ≡ some m
unfolding evict
get-evict zero size cache doi m h k = get-snoc cache doi m k
get-evict (suc fuel) size [] doi m h k =
    let fits : ltb size 1 ≡ false = ground arith in rw fits (get-snoc [] doi m k)
get-evict (suc fuel) size ((i, n) ∷ cache) doi m h k =
    elim (Bool-cases (ltb size (suc (length (cache ++ (doi, m) ∷ []))))) [
      | inl over ↦ rw over (get-evict fuel size cache doi m h (get-later i n cache doi k))
      | inr fits ↦ rw fits (get-snoc ((i, n) ∷ cache) doi m k)
    ]

removed : (cache : Cache) (doi : String) → get (remove cache doi) doi ≡ none
removed cache doi = get-remove cache doi doi ∙ rw (beq_refl doi) refl

get-store :
    (size : ℕ) (doi : String) (m : Metadata) (cache : Cache)
    → 1 ≤ size
    → get (store size doi m cache) doi ≡ some m
unfolding store
get-store size doi m cache h =
    let found = move_to_end-found doi (put cache doi m) (get-put_self cache doi m) in
    subst (λ moved. get (evict (length moved) size moved) doi ≡ some m) (sym found)
      (get-evict _ size (remove (put cache doi m) doi) doi m h (removed (put cache doi m) doi))

get-move_to_end :
    (doi : String) (cache : Cache) {m : Metadata}
    → get cache doi ≡ some m
    → get (move_to_end doi cache) doi ≡ some m
get-move_to_end doi cache {m} h =
    rw (move_to_end-found doi cache h) (get-snoc (remove cache doi) doi m (removed cache doi))

module _ {F : Type 0} (python : Python F) (settings : Settings) where
  metadata_of-doi :
      (payload : List ℕ) (doi : String) (m : Metadata)
      → metadata_of python payload doi ≡ ok m
      → m.doi ≡ doi
  unfolding metadata_of
  metadata_of-doi payload doi m h = ground arith

  read_answer-doi :
      (doi : String) (answer : Answer) (m : Metadata)
      → read_answer python settings doi answer ≡ ok m
      → m.doi ≡ doi
  unfolding read_answer
  read_answer-doi doi failed m h = absurd (cc)
  read_answer-doi doi (answered status payload) m h = metadata_of-doi payload doi m (ground arith)

  -- What a lookup of a DOI does: it raises and leaves the cache, or returns metadata of the DOI
  -- that the cache then holds, after a section that holds the lock.
  abbrev pub Outcome : String → Cache → Result LookupError Metadata × Cache → Type 0
  Outcome doi cache (err e, after) = after ≡ cache
  Outcome doi cache (ok m, after) =
      (m.doi ≡ doi) × (get after doi ≡ some m) × Step settings.cache_size cache after

  lookup_doi-Outcome :
      (transport : String → Answer) (doi : String) (cache : Cache)
      → 1 ≤ settings.cache_size
      → All OfKey cache
      → Outcome doi cache (lookup_doi python settings transport doi cache)
  unfolding lookup_doi
  lookup_doi-Outcome transport doi cache size entries = elim (Option-cases (get cache doi)) [
    | inr (m, found) ↦
        subst (Outcome doi cache) (hit m found)
          (All-get OfKey cache doi entries found, get-move_to_end doi cache found, touched doi)
    | inl missing ↦
        elim (Result-cases
          (read_answer python settings doi (transport (url_of python settings doi)))) [
            | inr (e, failure) ↦ subst (Outcome doi cache) (lost missing e failure) refl
            | inl (m, read) ↦
                let of_key = read_answer-doi doi (transport (url_of python settings doi)) m read in
                subst (Outcome doi cache) (fresh missing m read)
                  (of_key, get-store settings.cache_size doi m cache size, stored doi m of_key)
          ]
  ]
    where
      hit :
          (m : Metadata)
          → get cache doi ≡ some m
          → (ok m, move_to_end doi cache) ≡ lookup_doi python settings transport doi cache
      hit m found = ground arith

      lost :
          get cache doi ≡ none
          → (e : LookupError)
          → read_answer python settings doi (transport (url_of python settings doi)) ≡ err e
          → (err e, cache) ≡ lookup_doi python settings transport doi cache
      lost missing e failure = ground arith

      fresh :
          get cache doi ≡ none
          → (m : Metadata)
          → read_answer python settings doi (transport (url_of python settings doi)) ≡ ok m
          → (ok m, store settings.cache_size doi m cache)
            ≡ lookup_doi python settings transport doi cache
      fresh missing m read = ground arith

  lookup-ok :
      (transport : String → Answer) (raw_doi : Option String) (doi : String) (cache : Cache)
      → normalize_doi python.casefold python.decimal raw_doi ≡ ok doi
      → lookup python settings transport raw_doi cache
        ≡ lookup_doi python settings transport doi cache
  unfolding lookup
  lookup-ok transport raw_doi doi cache read = rw (lookup, read) refl

  -- A lookup whose DOI is invalid raises and touches nothing. Any other, from a cache of whole
  -- entries, raises and leaves the cache, or returns metadata of the canonical DOI, which the cache
  -- then holds after one section that holds the lock.
  pub lookup-Outcome :
      (transport : String → Answer) (raw_doi : Option String) (cache : Cache)
      → 1 ≤ settings.cache_size
      → All OfKey cache
      → (lookup python settings transport raw_doi cache ≡ (err invalid, cache))
        ⊎ ((doi : String) × (normalize_doi python.casefold python.decimal raw_doi ≡ ok doi)
            × Outcome doi cache (lookup python settings transport raw_doi cache))
  unfolding lookup
  lookup-Outcome transport raw_doi cache size entries =
      elim (Result-cases (normalize_doi python.casefold python.decimal raw_doi)) [
        | inr (e, refused) ↦ inl (ground arith)
        | inl (doi, read) ↦ inr (
          doi,
          read,
          subst (Outcome doi cache) (sym (lookup-ok transport raw_doi doi cache read))
              (lookup_doi-Outcome transport doi cache size entries),
        )
      ]

  second :
      (transport : String → Answer) (raw_doi : Option String) (doi : String) (m : Metadata)
      (cache : Cache)
      → normalize_doi python.casefold python.decimal raw_doi ≡ ok doi
      → get cache doi ≡ some m
      → (lookup python settings transport raw_doi cache).0 ≡ ok m
  unfolding lookup lookup_doi
  second transport raw_doi doi m cache read found = ground arith

  -- After a lookup that returns, a lookup of any text of the same canonical DOI returns the same
  -- metadata, whatever the transport would answer by then.
  pub lookup-lookup :
      (transport transport' : String → Answer) (raw_doi raw_doi' : Option String) (cache : Cache)
      (m : Metadata)
      → 1 ≤ settings.cache_size
      → All OfKey cache
      → (lookup python settings transport raw_doi cache).0 ≡ ok m
      → normalize_doi python.casefold python.decimal raw_doi'
        ≡ normalize_doi python.casefold python.decimal raw_doi
      → (lookup python settings transport' raw_doi'
          (lookup python settings transport raw_doi cache).1).0
        ≡ ok m
  lookup-lookup transport transport' raw_doi raw_doi' cache m size entries done same =
      elim (lookup-Outcome transport raw_doi cache size entries) [
        | inl raised ↦ absurd (cc)
        | inr (doi, read, outcome) ↦
            second transport' raw_doi' doi m (lookup python settings transport raw_doi cache).1
              (same ∙ read) (kept doi (lookup python settings transport raw_doi cache) outcome done)
      ]
    where
      kept :
          (doi : String) (r : Result LookupError Metadata × Cache)
          → Outcome doi cache r
          → r.0 ≡ ok m
          → get r.1 doi ≡ some m
      kept doi (err e, after) o h = absurd (cc)
      kept doi (ok n, after) o h = o.1 ∙ ap some (ground arith)
