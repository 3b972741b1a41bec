-- ===== src/Review.antt =====
-- app/applicant/review.py: autosave and confirmation on top of drafts, confirmations, fields and
-- receipts. Python's None is `none` in a draft and `null` in a value.
pub mod Verifying
mod Tests
use ehf_applications.Prelude.{
  ℕ, String, Bool, true, false, not, ◌&&◌, ◌||◌, Option, none, some, List, [], ◌∷◌, ◌++◌, ◌==◌, Eq,
  nat_eq, string_eq, if◌then◌else◌, all, any, member, add, is_some, Result, ok, err, Action, pure,
  gets,
}
use ehf_applications.Prelude.Dict.{Dict, get, put}
use ehf_applications.Prelude.Results.{◌>>=◌}
use ehf_applications.Json.{
  Json, null, boolean, text, array, object, list_of, items_of, dict_of, fields_of, is_null, or_null,
  integer, real, day,
}
use ehf_applications.Store.{Bytes}
use ehf_applications.Publications.Doi.{InvalidDoi, normalize_doi}
use ehf_applications.Publications.Metadata.{text_or_none}
use ehf_applications.Publications.Receipts.{Codec, Receipts, ReceiptError, issue, valid}
use ehf_applications.Fields.Normalizing.{Python}
use ehf_applications.Fields.Sections.{Values, SectionError, invalid, validate_section}
use ehf_applications.Fields.Upgrading.{is_text, upgrade_legacy_section}
use ehf_applications.Drafts
use ehf_applications.Drafts.{Drafts, DraftError, DraftSnapshot}
use ehf_applications.Confirmations
use ehf_applications.Confirmations.{Confirmations, ConfirmationError, SectionConfirmation}

-- FieldValidationError, an error of the drafts or of the confirmations, and the TypeError of a
-- comparison of receipts
pub data ReviewError : Type 0 where
  fields : SectionError → ReviewError
  draft : DraftError → ReviewError
  confirmation : ConfirmationError → ReviewError
  conflict type_error : ReviewError

abbrev unknown_doi : ReviewError
unknown_doi =
    fields (invalid (("publications", "Look up and confirm every new DOI before saving it.") ∷ []))

module _ {F : Type 0} where
  abbrev pub to_value : Option (Json F) → Json F
  to_value none = null
  to_value (some v) = v

  abbrev pub of_value : Json F → Option (Json F)
  of_value null = none
  of_value v = some v

  -- the values of a draft, and back
  unfoldable pub to_values : Drafts.Values (Json F) → Values F
  to_values [] = []
  to_values ((k, v) ∷ d) = (k, to_value v) ∷ to_values d

  unfoldable pub of_values : Values F → Drafts.Values (Json F)
  of_values [] = []
  of_values ((k, v) ∷ d) = (k, of_value v) ∷ of_values d

  abbrev pub rows_of : Json F → List (Json F)
  rows_of (array xs) = list_of xs
  rows_of _ = []

  abbrev pub values_of : Option (DraftSnapshot (Json F)) → Values F
  values_of none = []
  values_of (some d) = to_values d.values

  abbrev pub is_dict : Json F → Bool
  is_dict (object fs) = true
  is_dict _ = false

  abbrev pub row_of : Json F → Dict String (Json F)
  row_of (object fs) = dict_of fs
  row_of _ = []

  -- set(row).issubset({"doi", "confirmed", "lookupReceipt"})
  unfoldable pub only_entered : Dict String (Json F) → Bool
  only_entered [] = true
  only_entered ((k, v) ∷ d) =
      (k == "doi" || k == "confirmed" || k == "lookupReceipt") && only_entered d

  abbrev pub checked : Dict String (Json F) → String → Json F
  checked row doi =
      object (fields_of (("doi", text doi) ∷ ("confirmed", or_null (get row "confirmed")) ∷ []))

  -- `_dual_format`: what older readers expect beside the values
  abbrev has_degree : String → List (Json F) → Bool
  has_degree degree rows =
      any (λ r. is_dict r && is_text degree (or_null (get (row_of r) "degreeType"))) rows

  abbrev degree_category : List (Json F) → Json F
  degree_category rows =
      if has_degree "MD" rows && has_degree "PhD" rows
      then text "MD_PHD"
      else if has_degree "PhD" rows
      then text "PHD"
      else if has_degree "MD" rows
      then text "MD"
      else null

  unfoldable pub phd_date : List (Json F) → Json F
  phd_date [] = null
  phd_date (r ∷ rows) =
      if is_dict r && is_text "PhD" (or_null (get (row_of r) "degreeType"))
      then or_null (get (row_of r) "conferralDate")
      else phd_date rows

  abbrev opposite : Json F → Json F
  opposite (boolean b) = boolean (not b)
  opposite _ = null

  -- what an earlier draft said, which is kept
  abbrev with_scholar_total : Values F → Values F → Values F
  with_scholar_total current v = elim (get current "googleScholarCitationTotal") [
    | none ↦ v
    | some total ↦ put v "googleScholarCitationTotal" total
  ]

  abbrev with_degrees : List (Json F) → Values F → Values F
  with_degrees rows v =
      put (put v "degreeCategory" (degree_category rows)) "phdDate" (phd_date rows)

  unfoldable pub dual_format : String → Values F → Values F → Values F
  unfolding phd_date
  dual_format section v current =
      if section == "identity"
      then put v "genderSelfDescription" null
      else if section == "qualifications"
      then with_degrees (rows_of (or_null (get v "degrees"))) v
      else if section == "publications"
      then with_scholar_total current
          (put v "noGoogleScholarProfile" (opposite (or_null (get v "hasGoogleScholarProfile"))))
      else v

-- ApplicantReviewService, with what its repositories hold
pub record Review (F : Type 0) : Type 0 where
  pub drafts : Drafts (Json F)
  pub confirmations : Confirmations

-- The DOIs of receipts are read by the same Python.
abbrev pub codec_of : {F : Type 0} → Python F → Codec → Codec
codec_of python hashes = record hashes { casefold = python.casefold; decimal = python.is_decimal }

module _ {F : Type 0} (python : Python F) (hashes : Codec) (receipts : Receipts)
    (id_bytes : ℕ → Bytes) where
  abbrev pub doi_of : Dict String (Json F) → Result InvalidDoi String
  doi_of row =
      normalize_doi python.casefold python.is_decimal (text_or_none (or_null (get row "doi")))

  -- the DOIs of the current draft
  unfoldable pub existing_dois : List (Json F) → List String
  existing_dois [] = []
  existing_dois (r ∷ rows) =
      let rest = existing_dois rows in
      if not (is_dict r)
      then rest
      else elim (doi_of (row_of r)) [ ok doi ↦ add doi rest | err e ↦ rest ]

  abbrev pub is_verified :
      ℕ → List String → String → Dict String (Json F) → Result ReceiptError Bool
  is_verified application_id existing doi row =
      let receipt = or_null (get row "lookupReceipt") in
      if is_null receipt && member doi existing
      then ok true
      else valid (codec_of python hashes) receipts (id_bytes application_id) (some doi)
          (text_or_none receipt)

  -- a row of the loop
  abbrev pub verified_row :
      ℕ → List String → Json F → Result InvalidDoi String → Result ReviewError (Json F)
  verified_row application_id existing r (err e) = ok r
  verified_row application_id existing r (ok doi) =
      elim (is_verified application_id existing doi (row_of r)) [
        | err e ↦ err type_error
        | ok verified ↦ if verified then ok (checked (row_of r) doi) else err unknown_doi
      ]

  unfoldable pub verify_row : ℕ → List String → Json F → Result ReviewError (Json F)
  verify_row application_id existing r =
      if not (is_dict r) || not (only_entered (row_of r))
      then ok r
      else verified_row application_id existing r (doi_of (row_of r))

  unfoldable pub verify_rows : ℕ → List String → List (Json F) → Result ReviewError (List (Json F))
  verify_rows application_id existing [] = ok []
  verify_rows application_id existing (r ∷ rows) = do
    stripped ← verify_row application_id existing r
    rest ← verify_rows application_id existing rows
    ok (stripped ∷ rest)

  abbrev with_publications :
      Values F → Result ReviewError (List (Json F)) → Result ReviewError (Values F)
  with_publications v (err e) = err e
  with_publications v (ok rows) = ok (put v "publications" (array (items_of rows)))

  -- `_verified_publications`
  unfoldable pub verified_publications :
      ℕ → String → Values F → Values F → Result ReviewError (Values F)
  verified_publications application_id section v current =
      if not (section == "publications") then ok v else elim (get v "publications") [
        | some (array rows) ↦ with_publications v (
            verify_rows application_id
              (existing_dois (rows_of (or_null (get current "publications")))) (list_of rows))
        | _ ↦ ok v
      ]

module _ {F : Type 0} ⦃e : Eq (Json F)⦄ (python : Python F) (hashes : Codec) (receipts : Receipts)
    (id_bytes : ℕ → Bytes) (year : ℕ) (canonical_hash : Drafts.Values (Json F) → String) where
  -- `_present`
  abbrev pub present : DraftSnapshot (Json F) → DraftSnapshot (Json F)
  present d = record d {
    values = of_values (upgrade_legacy_section python d.section (to_values d.values));
  }

  pub load : Review F → ℕ → String → Option (DraftSnapshot (Json F))
  load s application_id section = elim (Drafts.load s.drafts application_id section) [
    | none ↦ none
    | some d ↦ some (present d)
  ]

  abbrev store_draft :
      ℕ → String → Values F → Option ℕ → Action (Review F) ReviewError (DraftSnapshot (Json F))
  store_draft application_id section v expected s =
      let (saved, drafts) =
        Drafts.save application_id section (of_values v) expected "APPLICANT" s.drafts in
      elim saved [
        | ok d ↦ (ok (present d), record s { drafts = drafts })
        | err problem ↦ (err (draft problem), record s { drafts = drafts })
      ]

  abbrev validated : String → Values F → Bool → Result ReviewError (Values F)
  validated section v final = elim (validate_section python year section v final) [
    | ok normalized ↦ ok normalized
    | err problem ↦ err (fields problem)
  ]

  -- the values that a save stores
  unfoldable pub prepared : ℕ → String → Values F → Values F → Result ReviewError (Values F)
  prepared application_id section v current = do
    verified ←
        verified_publications python hashes receipts id_bytes application_id section v current
    normalized ← validated section verified false
    ok (dual_format section normalized current)

  pub save :
      ℕ → String → Values F → Option ℕ → Action (Review F) ReviewError (DraftSnapshot (Json F))
  unfolding prepared
  save application_id section v expected s =
      elim (prepared application_id section v
        (values_of (Drafts.load s.drafts application_id section))) [
          | err problem ↦ (err problem, s)
          | ok persistence ↦ store_draft application_id section persistence expected s
        ]

  abbrev confirm_draft :
      ℕ → String → DraftSnapshot (Json F) → Action (Review F) ReviewError SectionConfirmation
  confirm_draft application_id section d s =
      let (confirmed, confirmations) =
        Confirmations.confirm canonical_hash application_id section d s.confirmations in
      elim confirmed [
        | ok c ↦ (ok c, record s { confirmations = confirmations })
        | err problem ↦ (err (confirmation problem), record s { confirmations = confirmations })
      ]

  -- a draft that is there, at the version that is confirmed
  abbrev confirm_at :
      ℕ
      → String
      → ℕ
      → Option (DraftSnapshot (Json F))
      → Action (Review F) ReviewError SectionConfirmation
  confirm_at application_id section expected none s = (err conflict, s)
  confirm_at application_id section expected (some d) s =
      if not (d.row_version == expected)
      then (err conflict, s)
      else elim (validated section (upgrade_legacy_section python section (to_values d.values))
          true) [
            | err problem ↦ (err problem, s)
            | ok normalized ↦ confirm_draft application_id section d s
          ]

  pub confirm : ℕ → String → ℕ → Action (Review F) ReviewError SectionConfirmation
  confirm application_id section expected s =
      confirm_at application_id section expected (Drafts.load s.drafts application_id section) s

  pub is_current : Review F → ℕ → String → Bool
  is_current s application_id section = elim (Drafts.load s.drafts application_id section) [
    | none ↦ false
    | some d ↦ Confirmations.is_current canonical_hash s.confirmations application_id section d
  ]

-- A DOI that is no text is `none`.
pub publication_lookup_receipt :
    {F : Type 0}
    → Python F
    → Codec
    → Receipts
    → (ℕ → Bytes)
    → ℕ
    → Option String
    → Result ReceiptError String
publication_lookup_receipt python hashes receipts id_bytes application_id doi =
    issue (codec_of python hashes) receipts (id_bytes application_id) doi
