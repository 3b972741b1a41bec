-- ===== src/Review/Tests.antt =====
-- Runs of app/applicant/review.py.
use ehf_applications.Prelude.{
  ℕ, String, Bool, true, false, Option, none, some, List, [], ◌∷◌, ◌≡◌, refl, All, Result, ok, err,
  string_eq,
}
use ehf_applications.Prelude.Dict.{Dict, get}
use ehf_applications.Json.{Json, null, text, boolean, array, object, items_of, fields_of, or_null}
use ehf_applications.Publications.Receipts.{Codec, Receipts}
use ehf_applications.Fields.Normalizing.{normalize_publications}
use ehf_applications.Fields.Sections.{Values, invalid}
use ehf_applications.Fields.Tests.{python}
use ehf_applications.Review.{rows_of, existing_dois, verified_publications, fields}
use ehf_applications.Review.Verifying.{IsProved, verified_publications-IsProved}

abbrev hashes : Codec
hashes = record {
  digest = λ key message. [];
  urlsafe_b64encode = λ bytes. "";
  utf_8 = λ s. [];
  casefold = λ s. s;
  decimal = λ c. false;
}

abbrev receipts : Receipts
receipts = record { key = [] }

abbrev row : String → Json ℕ
row doi = object (fields_of (("doi", text doi) ∷ ("confirmed", boolean true) ∷ []))

abbrev list : String → Values ℕ
list doi = ("publications", array (items_of (row doi ∷ []))) ∷ []

-- a known DOI needs no receipt, and is stored in its canonical form
known :
    verified_publications python hashes receipts
      (λ id. [])
      1
      "publications"
      (list "doi:10.1000/a")
      (list "10.1000/a")
    ≡ ok (list "10.1000/a")
unfolding verified_publications get ehf_applications.Review.verify_rows
    ehf_applications.Json.list_of items_of ehf_applications.Review.verify_row
    ehf_applications.Review.only_entered ehf_applications.Json.dict_of fields_of
    ehf_applications.Publications.Doi.normalize_doi ehf_applications.Publications.Doi.canonical
    ehf_applications.Prelude.member existing_dois ehf_applications.Prelude.add
    ehf_applications.Prelude.Dict.put
known = refl

unknown :
    verified_publications python hashes receipts
      (λ id. [])
      1
      "publications"
      (list "10.1000/b")
      (list "10.1000/a")
    ≡ err (
        fields
          (invalid (("publications", "Look up and confirm every new DOI before saving it.") ∷ [])))
unfolding verified_publications get ehf_applications.Review.verify_rows
    ehf_applications.Json.list_of items_of ehf_applications.Review.verify_row
    ehf_applications.Review.only_entered ehf_applications.Json.dict_of fields_of
    ehf_applications.Publications.Doi.normalize_doi ehf_applications.Publications.Doi.canonical
    ehf_applications.Prelude.member existing_dois ehf_applications.Prelude.add
    ehf_applications.Publications.Receipts.valid
unknown = refl

read :
    normalize_publications python (or_null (get (list "10.1000/a") "publications"))
    ≡ ok ("10.1000/a" ∷ [])
unfolding normalize_publications get ehf_applications.Json.list_of items_of
    ehf_applications.Json.dict_of fields_of ehf_applications.Publications.Doi.normalize_doi
    ehf_applications.Publications.Doi.canonical ehf_applications.Prelude.member
read = refl

verified_publications-IsProved_example :
    All
      (IsProved python hashes receipts
        (λ id. [])
        1
        (existing_dois python hashes receipts
          (λ id. [])
          (rows_of (or_null (get (list "10.1000/a") "publications"))))
        (rows_of (or_null (get (list "doi:10.1000/a") "publications"))))
      ("10.1000/a" ∷ [])
verified_publications-IsProved_example =
    verified_publications-IsProved python hashes receipts (λ id. []) 1 (list "doi:10.1000/a")
      (list "10.1000/a") (list "10.1000/a") ("10.1000/a" ∷ []) (λ s. refl) known read
