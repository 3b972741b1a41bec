-- ===== src/Fields/Normalizing/Lists.antt =====
-- app/applicant/fields.py: the publications and degrees of a normalized value.
use ehf_applications.Prelude.{
  ◌≤◌, String, true, false, List, [], ◌∷◌, ◌≡◌, ◌⊎◌, inl, inr, string_eq, length, member, add, ok,
  arith, Result-cases,
}
use mathlib.Core.Path.{subst}
use ehf_applications.Prelude.Dict.{get}
use ehf_applications.Json.{Items, is_items, Json, array, list_of, or_null, null, is_true}
use ehf_applications.Publications.Doi.{normalize_doi}
use ehf_applications.Publications.Metadata.{text_or_none}
use ehf_applications.Fields.Normalizing.{
  Python, dois_from, normalize_publications, has_keys, row_of,
}

module _ {F : Type 0} (python : Python F) where
  -- row by row: confirmed, of no other keys, and with this DOI, which stood in no row before
  abbrev pub Confirmed : List String → List (Json F) → List String → Type 0
  Confirmed seen [] [] = Unit
  Confirmed seen [] (doi ∷ dois) = ⊥
  Confirmed seen (raw ∷ rest) [] = ⊥
  Confirmed seen (raw ∷ rest) (doi ∷ dois) =
      ((has_keys "doi" "confirmed" (row_of python raw) ≡ true)
        × (normalize_doi python.casefold python.is_decimal
              (text_or_none (or_null (get (row_of python raw) "doi")))
            ≡ ok doi)
        × (is_true (or_null (get (row_of python raw) "confirmed")) ≡ true)
        × (member doi seen ≡ false))
      × Confirmed (add doi seen) rest dois

  dois_from-Confirmed :
      (seen : List String) (rows : List (Json F)) (dois : List String)
      → dois_from python seen rows ≡ ok dois
      → Confirmed seen rows dois
  unfolding dois_from
  dois_from-Confirmed seen [] [] h = tt
  dois_from-Confirmed seen [] (doi ∷ dois) h = absurd (cc)
  dois_from-Confirmed seen (raw ∷ rest) dois h =
      let entered =
        normalize_doi python.casefold python.is_decimal
          (text_or_none (or_null (get (row_of python raw) "doi"))) in
      elim (Result-cases entered) [
        | inr (e, refused) ↦ absurd (ground arith)
        | inl (doi, read) ↦ elim (Result-cases (dois_from python (add doi seen) rest)) [
          | inr (e, failed) ↦ absurd (ground arith)
          | inl (others, done) ↦
              let whole : doi ∷ others ≡ dois = ground arith in
              subst (Confirmed seen (raw ∷ rest)) whole (
                (ground arith, read, ground arith, ground arith),
                dois_from-Confirmed (add doi seen) rest others done,
              )
        ]
      ]

  pub array-Confirmed :
      (items : Items F) (dois : List String)
      → normalize_publications python (array items) ≡ ok dois
      → Confirmed [] (list_of items) dois
  unfolding normalize_publications
  array-Confirmed items dois h = dois_from-Confirmed [] (list_of items) dois (ground arith)

  -- a value that is no list has no publications
  pub no_list-dois :
      (raw : Json F) (dois : List String)
      → is_items raw ≡ false
      → normalize_publications python raw ≡ ok dois
      → dois ≡ []
  unfolding normalize_publications
  no_list-dois (array items) dois n h = absurd (cc)
  no_list-dois raw dois n h = ground arith

  -- Publications that are accepted are none or a list of at most two hundred rows; each row has
  -- exactly a DOI and a confirmation, is confirmed, and gives the canonical form of its DOI, which
  -- no earlier row gave.
  pub normalize_publications-Confirmed :
      (raw : Json F) (dois : List String)
      → normalize_publications python raw ≡ ok dois
      → (dois ≡ []) ⊎ ((rows : List (Json F)) × (length rows ≤ 200) × Confirmed [] rows dois)
  unfolding normalize_publications
  normalize_publications-Confirmed (array items) dois h =
      inr (list_of items, ground arith, array-Confirmed items dois h)
  normalize_publications-Confirmed null dois h = inl (ground arith)
  normalize_publications-Confirmed raw dois h = inl (ground arith)
