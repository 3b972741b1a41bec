-- ===== src/Projection/Tests.antt =====
-- Runs of app/applicant/projection.py.
use ehf_applications.Prelude.{
  ℕ, String, Bool, true, false, Option, none, some, List, [], ◌∷◌, map, keep, ◌≡◌, refl, All,
  nat_eq,
}
use ehf_applications.Prelude.Dict.{Dict, get}
use ehf_applications.Json.{Json, text, boolean}
use ehf_applications.Fields.Sections.{Values}
use ehf_applications.Fields.Tests.{python}
use ehf_applications.Projection.{
  RawProjection, Records, Projection, applicant_fields, document_fields, add_application, allow,
  is_visible, load, visible_document,
}
use ehf_applications.Projection.AllowList.{OnlyKeys, IsApproved, load-IsApproved}

abbrev plan : Values ℕ
plan =
    ("documentId", text "d1")
    ∷ ("classification", text "APPLICANT_VISIBLE")
    ∷ ("score", text "9")
    ∷ []

abbrev letter : Values ℕ
letter =
    ("documentId", text "d2")
    ∷ ("classification", text "APPLICANT_VISIBLE")
    ∷ ("documentType", text "RECOMMENDATION_LETTER")
    ∷ []

abbrev raw : RawProjection ℕ
raw = record {
  applicant = ("fullName", text "Ada") ∷ ("rank", text "1") ∷ [];
  sections = ("identity", ("status", text "open") ∷ ("note", text "n") ∷ []) ∷ ("<b>", []) ∷ [];
  documents = letter ∷ plan ∷ [];
  internal = ("rank", text "1") ∷ [];
}

abbrev records : Records ℕ
records = (1, raw) ∷ []

abbrev shown : Projection ℕ
shown = record {
  applicant =
      ("fullName", text "Ada")
      ∷ ("degrees", ehf_applications.Json.array ehf_applications.Json.nil)
      ∷ ("hasGoogleScholarProfile", ehf_applications.Json.null)
      ∷ ("publications", ehf_applications.Json.array ehf_applications.Json.nil)
      ∷ [];
  sections = ("identity", ("status", text "open") ∷ []) ∷ [];
  documents = (("documentId", text "d1") ∷ []) ∷ [];
}

loaded : load python records 1 ≡ some shown
unfolding load ehf_applications.Projection.load_raw get allow
    ehf_applications.Projection.allowed_sections ehf_applications.Projection.visible_documents
    ehf_applications.Fields.Upgrading.upgrade_legacy_applicant
    ehf_applications.Fields.Upgrading.upgrade_publications ehf_applications.Prelude.Dict.remove
    ehf_applications.Fields.Upgrading.upgrade_qualifications
    ehf_applications.Fields.Upgrading.upgrade_employment
    ehf_applications.Fields.Upgrading.upgrade_identity ehf_applications.Prelude.Dict.put
    ehf_applications.Json.items_of ehf_applications.Projection.is_safe_code
    ehf_applications.Projection.visible_fields ehf_applications.Fields.Upgrading.degrees_of
    is_visible ehf_applications.Prelude.strip
loaded = refl

hidden : visible_document records 1 "d2" ≡ none
unfolding visible_document ehf_applications.Projection.load_raw get
    ehf_applications.Projection.visible_fields is_visible
hidden = refl

load-IsApproved_example :
    (r : RawProjection ℕ) × (get records 1 ≡ some r)
    × OnlyKeys applicant_fields shown.applicant
    × All IsApproved shown.sections
    × (shown.documents ≡ map (λ d. allow d document_fields) (keep is_visible r.documents))
load-IsApproved_example = load-IsApproved python records 1 shown loaded
