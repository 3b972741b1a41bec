-- ===== src/Review/Verifying.antt =====
-- app/applicant/review.py with app/applicant/fields.py: which DOIs a save lets through.
use ehf_applications.Prelude.{
  ℕ, String, true, false, not, ◌&&◌, ◌||◌, some, List, [], ◌∷◌, ◌≡◌, ◌≢◌, refl, sym, ap, ◌∙◌, ◌⊎◌,
  inl, inr, string_eq, member, add, All, ok, arith, Bool-cases, Option-cases, Result-cases, Holds,
}
use mathlib.Core.Path.{subst}
use ehf_applications.Prelude.Dict.{Dict, get, put, get-put_self, All-map}
use ehf_applications.Json.{
  Json, null, boolean, integer, real, text, day, array, object, list_of, items_of, dict_of,
  fields_of, is_null, or_null, is_items,
}
use ehf_applications.Store.{Bytes}
use ehf_applications.Publications.Doi.{normalize_doi}
use ehf_applications.Publications.Canonical.{normalize_doi-normalize_doi}
use ehf_applications.Publications.Metadata.{text_or_none}
use ehf_applications.Publications.Receipts.{Codec, Receipts, valid}
use ehf_applications.Fields.Normalizing.{Python, normalize_publications, has_keys, only_keys}
use ehf_applications.Fields.Normalizing.Lists.{Confirmed, array-Confirmed, no_list-dois}
use ehf_applications.Fields.Sections.{Values}
use ehf_applications.Review.{
  rows_of, row_of, is_dict, only_entered, checked, codec_of, doi_of, existing_dois, is_verified,
  verify_row, verify_rows, verified_publications,
}

list_of-items_of : {F : Type 0} (xs : List (Json F)) → list_of (items_of xs) ≡ xs
unfolding list_of items_of
list_of-items_of [] = refl
list_of-items_of (x ∷ xs) = ap (λ l. x ∷ l) (list_of-items_of xs)

only_keys-entered :
    {F : Type 0} (row : Dict String (Json F))
    → only_keys "doi" "confirmed" row ≡ true
    → only_entered row ≡ true
unfolding only_entered
only_keys-entered [] h = refl
only_keys-entered ((k, v) ∷ row) h = ground (arith, only_keys-entered row)

no_dict-keys :
    {F : Type 0} (r : Json F) → is_dict r ≡ false → has_keys "doi" "confirmed" (row_of r) ≡ false
unfolding get
no_dict-keys (object fs) h = absurd (cc)
no_dict-keys r h = refl

-- A row of just a DOI and a confirmation is a dictionary of entered keys.
keys-entered :
    {F : Type 0} (r : Json F)
    → has_keys "doi" "confirmed" (row_of r) ≡ true
    → (not (is_dict r) || not (only_entered (row_of r))) ≡ false
keys-entered r h = elim (Bool-cases (is_dict r)) [
  | inr other ↦ absurd (ground (arith, no_dict-keys r other))
  | inl dict ↦ ground (arith, only_keys-entered (row_of r))
]

module _ {F : Type 0} (python : Python F) (hashes : Codec) (receipts : Receipts)
    (id_bytes : ℕ → Bytes) where
  -- A row that was entered for the DOI proves it: it names no receipt and the DOI is one of the
  -- current draft, or the receipt that it names is valid for the application.
  abbrev pub IsProof : ℕ → List String → String → Json F → Type 0
  IsProof application_id existing doi row =
      let receipt = or_null (get (row_of row) "lookupReceipt") in
      (doi_of python hashes receipts id_bytes (row_of row) ≡ ok doi)
      × (((is_null receipt ≡ true) × (member doi existing ≡ true))
          ⊎ (valid (codec_of python hashes) receipts (id_bytes application_id) (some doi)
                (text_or_none receipt)
              ≡ ok true))

  -- One of the rows proves the DOI.
  abbrev pub IsProved : ℕ → List String → List (Json F) → String → Type 0
  IsProved application_id existing rows doi =
      (row : Json F) × Holds row rows × IsProof application_id existing doi row

  is_verified-IsProof :
      (application_id : ℕ) (existing : List String) (doi : String) (row : Json F)
      → doi_of python hashes receipts id_bytes (row_of row) ≡ ok doi
      → is_verified python hashes receipts id_bytes application_id existing doi (row_of row)
        ≡ ok true
      → IsProof application_id existing doi row
  is_verified-IsProof application_id existing doi row read h =
      let receipt = or_null (get (row_of row) "lookupReceipt") in
      elim (Bool-cases (is_null receipt && member doi existing)) [
        | inl known ↦ (read, inl (ground arith, ground arith))
        | inr other ↦ (read, inr (rw other at h))
      ]

  doi_of-checked :
      (row : Dict String (Json F)) (doi : String)
      → doi_of python hashes receipts id_bytes (row_of (checked row doi))
        ≡ normalize_doi python.casefold python.is_decimal (some doi)
  unfolding dict_of fields_of get
  doi_of-checked row doi = refl

  verify_row-IsProof :
      (application_id : ℕ) (existing : List String) (r r' : Json F) (doi : String)
      → ((s : String) → python.casefold (python.casefold s) ≡ python.casefold s)
      → verify_row python hashes receipts id_bytes application_id existing r ≡ ok r'
      → has_keys "doi" "confirmed" (row_of r') ≡ true
      → doi_of python hashes receipts id_bytes (row_of r') ≡ ok doi
      → IsProof application_id existing doi r
  unfolding verify_row
  verify_row-IsProof application_id existing r r' doi twice done keys read =
      elim (Bool-cases (not (is_dict r) || not (only_entered (row_of r)))) [
        | inl kept ↦
            let same : r ≡ r' = ground arith in
            let entered =
              keys-entered r
                (subst (λ x. has_keys "doi" "confirmed" (row_of x) ≡ true) (sym same) keys) in
            absurd (ground arith)
        | inr entered ↦ elim (Result-cases (doi_of python hashes receipts id_bytes (row_of r))) [
          | inr (e, refused) ↦ absurd (ground arith)
          | inl (own, canonical) ↦
              elim (Result-cases (
                is_verified python hashes receipts id_bytes application_id existing own
                  (row_of r))) [
                    | inr (e, failed) ↦ absurd (ground arith)
                    | inl (false, unverified) ↦ absurd (ground arith)
                    | inl (true, verified) ↦
                        let same : checked (row_of r) own ≡ r' = ground arith in
                        let again : normalize_doi python.casefold python.is_decimal (some own)
                            ≡ ok own =
                          normalize_doi-normalize_doi python.casefold python.is_decimal _ own twice
                            canonical in
                        let of_row : doi_of python hashes receipts id_bytes (row_of r') ≡ ok own =
                          ap (λ x. doi_of python hashes receipts id_bytes (row_of x)) (sym same)
                          ∙ doi_of-checked (row_of r) own
                          ∙ again in
                        let equal : own ≡ doi = ground arith in
                        subst (λ d. IsProof application_id existing d r) equal
                          (is_verified-IsProof application_id existing own r canonical verified)
                  ]
        ]
      ]

  verify_rows-cons :
      (application_id : ℕ) (existing : List String) (r r' : Json F) (rows rows' : List (Json F))
      → verify_rows python hashes receipts id_bytes application_id existing (r ∷ rows)
        ≡ ok (r' ∷ rows')
      → (verify_row python hashes receipts id_bytes application_id existing r ≡ ok r')
        × (verify_rows python hashes receipts id_bytes application_id existing rows ≡ ok rows')
  unfolding verify_rows
  verify_rows-cons application_id existing r r' rows rows' h =
      elim (Result-cases (verify_row python hashes receipts id_bytes application_id existing r)) [
        | inr (e, failed) ↦ absurd (ground arith)
        | inl (first, one) ↦
            elim (Result-cases
              (verify_rows python hashes receipts id_bytes application_id existing rows)) [
                | inr (e, failed) ↦ absurd (ground arith)
                | inl (rest, others) ↦ (ground arith, ground arith)
              ]
      ]

  verify_rows-nil :
      (application_id : ℕ) (existing : List String) (rows' : List (Json F))
      → verify_rows python hashes receipts id_bytes application_id existing [] ≡ ok rows'
      → rows' ≡ []
  unfolding verify_rows
  verify_rows-nil application_id existing rows' h = ground arith

  verify_rows-some :
      (application_id : ℕ) (existing : List String) (r : Json F) (rows : List (Json F))
      → verify_rows python hashes receipts id_bytes application_id existing (r ∷ rows) ≢ ok []
  unfolding verify_rows
  verify_rows-some application_id existing r rows h =
      elim (Result-cases (verify_row python hashes receipts id_bytes application_id existing r)) [
        | inr (e, failed) ↦ absurd (ground arith)
        | inl (first, one) ↦
            elim (Result-cases
              (verify_rows python hashes receipts id_bytes application_id existing rows)) [
                | inr (e, failed) ↦ absurd (ground arith)
                | inl (rest, others) ↦ absurd (ground arith)
              ]
      ]

  verify_rows-IsProved :
      (application_id : ℕ) (existing seen : List String) (rows rows' : List (Json F))
      (dois : List String)
      → ((s : String) → python.casefold (python.casefold s) ≡ python.casefold s)
      → verify_rows python hashes receipts id_bytes application_id existing rows ≡ ok rows'
      → Confirmed python seen rows' dois
      → All (IsProved application_id existing rows) dois
  verify_rows-IsProved application_id existing seen rows [] [] twice done confirmed = tt
  verify_rows-IsProved application_id existing seen rows [] (d ∷ dois) twice done confirmed =
      elim confirmed [ ]
  verify_rows-IsProved application_id existing seen rows (r' ∷ rows') [] twice done confirmed =
      elim confirmed [ ]
  verify_rows-IsProved application_id existing seen [] (r' ∷ rows') (doi ∷ dois) twice done
        confirmed =
      absurd (cc (verify_rows-nil application_id existing (r' ∷ rows') done))
  verify_rows-IsProved application_id existing seen (r ∷ rows) (r' ∷ rows') (doi ∷ dois) twice done
        (row, confirmed) =
      let (one, others) = verify_rows-cons application_id existing r r' rows rows' done in
      (
        (r, inl refl, verify_row-IsProof application_id existing r r' doi twice one row.0 row.1),
        All-map (IsProved application_id existing rows)
            (IsProved application_id existing (r ∷ rows)) dois
            (λ d (row, there, proof). (row, inr there, proof))
            (verify_rows-IsProved application_id existing (add doi seen) rows rows' dois twice
              others confirmed),
      )

  -- the values are as they were entered, or have the rows that were verified
  abbrev Verified : ℕ → List String → Values F → Values F → Type 0
  Verified application_id existing v u =
      ((u ≡ v) × (is_items (or_null (get v "publications")) ≡ false))
      ⊎ ((rows' : List (Json F)) × (verify_rows python hashes receipts id_bytes application_id
              existing (rows_of (or_null (get v "publications")))
            ≡ ok rows')
          × (u ≡ put v "publications" (array (items_of rows'))))

  Verified-cases :
      (application_id : ℕ) (v u current : Values F)
      → verified_publications python hashes receipts id_bytes application_id "publications" v
          current
        ≡ ok u
      → Verified application_id
          (existing_dois python hashes receipts id_bytes
            (rows_of (or_null (get current "publications"))))
          v
          u
  unfolding verified_publications
  Verified-cases application_id v u current done = elim (Option-cases (get v "publications")) [
    | inl missing ↦ inl (ground arith, rw missing refl)
    | inr (array items, found) ↦
        elim (Result-cases (
          verify_rows python hashes receipts id_bytes application_id
            (existing_dois python hashes receipts id_bytes
              (rows_of (or_null (get current "publications"))))
            (list_of items))) [
              | inr (e, failed) ↦ absurd (ground arith)
              | inl (rows', verified) ↦ inr (rows', rw found verified, ground arith)
            ]
    | inr (null, found) ↦ inl (ground arith, rw found refl)
    | inr (boolean b, found) ↦ inl (ground arith, rw found refl)
    | inr (integer n, found) ↦ inl (ground arith, rw found refl)
    | inr (real f, found) ↦ inl (ground arith, rw found refl)
    | inr (text s, found) ↦ inl (ground arith, rw found refl)
    | inr (day d, found) ↦ inl (ground arith, rw found refl)
    | inr (object fs, found) ↦ inl (ground arith, rw found refl)
  ]

  -- Every publication that a save of the section lets through is proved by a row of the save: where
  -- casefolding twice is casefolding once, each DOI of the verified values is the one of an entered
  -- row, and that row has no receipt and the DOI is one of the current draft, or the row's own receipt
  -- is valid for it and the session's application.
  pub verified_publications-IsProved :
      (application_id : ℕ) (v u current : Values F) (dois : List String)
      → ((s : String) → python.casefold (python.casefold s) ≡ python.casefold s)
      → verified_publications python hashes receipts id_bytes application_id "publications" v
          current
        ≡ ok u
      → normalize_publications python (or_null (get u "publications")) ≡ ok dois
      → All
          (IsProved application_id
            (existing_dois python hashes receipts id_bytes
              (rows_of (or_null (get current "publications"))))
            (rows_of (or_null (get v "publications"))))
          dois
  verified_publications-IsProved application_id v u current dois twice done accepted =
      elim (Verified-cases application_id v u current done) [
        | inl (same, no_list) ↦
            let nothing : dois ≡ [] =
              no_list-dois python (or_null (get v "publications")) dois no_list (
                subst
                  (λ w. normalize_publications python (or_null (get w "publications")) ≡ ok dois)
                  same accepted) in
            subst
              (λ l.
                All
                  (IsProved application_id
                    (existing_dois python hashes receipts id_bytes
                      (rows_of (or_null (get current "publications"))))
                    (rows_of (or_null (get v "publications"))))
                  l)
              (sym nothing) tt
        | inr (rows', verified, set) ↦
            let stored : or_null (get u "publications") ≡ array (items_of rows') =
              ap (λ w. or_null (get w "publications")) set
              ∙ ap or_null (get-put_self v "publications" (array (items_of rows'))) in
            let confirmed =
              array-Confirmed python (items_of rows') dois
                (subst (λ x. normalize_publications python x ≡ ok dois) stored accepted) in
            verify_rows-IsProved application_id _ [] (rows_of (or_null (get v "publications")))
              rows' dois twice verified
              (subst (λ l. Confirmed python [] l dois) (list_of-items_of rows') confirmed)
      ]
