-- ===== src/Projection.antt =====
-- app/applicant/projection.py: what one session sees of its own application.
pub mod AllowList
mod Tests
use Prim.Native.Char.{code}
use ehf_applications.Prelude.{
  ℕ, String, Bool, true, false, not, ◌&&◌, ◌||◌, Option, none, some, List, [], ◌∷◌, ◌==◌, nat_eq,
  string_eq, if◌then◌else◌, leb, find, is_empty, text_length, all_chars,
}
use ehf_applications.Prelude.Dict.{Dict, get, put}
use ehf_applications.Json.{Json, text, is_true, or_null}
use ehf_applications.Fields.Normalizing.{Python}
use ehf_applications.Fields.Sections.{Values}
use ehf_applications.Fields.Upgrading.{is_text, upgrade_legacy_applicant}

abbrev pub applicant_fields : List String
applicant_fields =
    "fullName" ∷ "preferredName" ∷ "registeredEmail" ∷ "alternativeEmail" ∷ "telephone"
    ∷ "birthMonth" ∷ "birthYear" ∷ "gender" ∷ "institute" ∷ "principalInvestigator"
    ∷ "positionTitle" ∷ "postdoctoralEmploymentStatus" ∷ "employmentStartDate" ∷ "employmentEndDate"
    ∷ "futureStartDate" ∷ "researchArea" ∷ "clinicalWorkPercent" ∷ "firstAuthorDeclaration"
    ∷ "degrees" ∷ "firstAuthorPaperCount" ∷ "lastAuthorPaperCount" ∷ "totalPaperCount" ∷ "hIndex"
    ∷ "applicantReportedCitationTotal" ∷ "orcid" ∷ "googleScholarProfileUrl"
    ∷ "hasGoogleScholarProfile" ∷ "publications" ∷ "contributionStatement" ∷ "locked" ∷ []

abbrev pub section_fields : List String
section_fields = "confirmed" ∷ "missing" ∷ "status" ∷ "editable" ∷ []

abbrev pub document_fields : List String
document_fields =
    "documentId" ∷ "versionId" ∷ "slotCode" ∷ "displayName" ∷ "sha256" ∷ "byteSize" ∷ "mediaType"
    ∷ "status" ∷ "uploadOpen" ∷ "replacementOpen" ∷ "rowVersion" ∷ []

-- _RawProjection
pub record RawProjection (F : Type 0) : Type 0 where
  pub applicant : Values F
  pub sections : Dict String (Values F)
  pub documents : List (Values F)
  pub internal : Values F

-- InMemoryApplicantProjectionRepository
abbrev pub Records : Type 0 → Type 0
Records F = Dict ℕ (RawProjection F)

-- what the service serializes
pub record Projection (F : Type 0) : Type 0 where
  pub applicant : Values F
  pub sections : Dict String (Values F)
  pub documents : List (Values F)

abbrev is_code_char : ℕ → Bool
is_code_char c =
    leb b'0' c && leb c b'9'
    || leb b'A' c && leb c b'Z'
    || leb b'a' c && leb c b'z'
    || c == b'_'
    || c == b'-'

unfoldable pub is_safe_code : String → Bool
unfolding text_length all_chars
is_safe_code value =
    not (is_empty value) && leb (text_length value) 80 && all_chars is_code_char value

module _ {F : Type 0} where
  unfoldable pub add_application :
      ℕ → Values F → Dict String (Values F) → List (Values F) → Values F → Records F → Records F
  add_application application_id applicant sections documents internal records =
      put records application_id (record {
        applicant = applicant;
        sections = sections;
        documents = documents;
        internal = internal;
      })

  unfoldable pub load_raw : Records F → ℕ → Option (RawProjection F)
  load_raw records application_id = get records application_id

  -- `_allow`
  unfoldable pub allow : Values F → List String → Values F
  allow source [] = []
  allow source (key ∷ keys) = elim (get source key) [
    | none ↦ allow source keys
    | some value ↦ (key, value) ∷ allow source keys
  ]

  -- the tests of `_visible_document`
  unfoldable pub is_visible : Values F → Bool
  is_visible document =
      is_text "APPLICANT_VISIBLE" (or_null (get document "classification"))
      && not (is_text "RECOMMENDATION_LETTER" (or_null (get document "documentType")))
      && not (is_true (or_null (get document "recommendationLinked")))

  unfoldable pub visible_fields : Values F → Option (Values F)
  visible_fields document =
      if is_visible document then some (allow document document_fields) else none

  unfoldable pub visible_documents : List (Values F) → List (Values F)
  visible_documents [] = []
  visible_documents (document ∷ rest) = elim (visible_fields document) [
    | none ↦ visible_documents rest
    | some visible ↦ visible ∷ visible_documents rest
  ]

  unfoldable pub allowed_sections : Dict String (Values F) → Dict String (Values F)
  allowed_sections [] = []
  allowed_sections ((code, section) ∷ rest) =
      if is_safe_code code
      then (code, allow section section_fields) ∷ allowed_sections rest
      else allowed_sections rest

  -- `visible_document` of the service; a session enters by its application
  unfoldable pub visible_document : Records F → ℕ → String → Option (Values F)
  visible_document records application_id document_id = elim (load_raw records application_id) [
    | none ↦ none
    | some raw ↦
        elim (find (λ d. is_text document_id (or_null (get d "documentId"))) raw.documents) [
          | none ↦ none
          | some document ↦ visible_fields document
        ]
  ]

module _ {F : Type 0} (python : Python F) where
  abbrev pub project : RawProjection F → Projection F
  project raw = record {
    applicant = allow (upgrade_legacy_applicant python raw.applicant) applicant_fields;
    sections = allowed_sections raw.sections;
    documents = visible_documents raw.documents;
  }

  -- `load` of the service
  unfoldable pub load : Records F → ℕ → Option (Projection F)
  load records application_id = elim (load_raw records application_id) [
    | none ↦ none
    | some raw ↦ some (project raw)
  ]
