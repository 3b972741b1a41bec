-- ===== src/Documents/Serving.antt =====
-- app/applicant/documents.py: `ApplicantDocumentService` over the repository and the object store.
-- `build_pdf_package` is `build`, which answers `none` for a PdfPackageError; `lower` is `str.lower`.
use ehf_applications.Prelude.{
  ℕ, String, Bool, true, false, not, ◌&&◌, ◌||◌, Option, none, some, List, [], ◌∷◌, ◌++◌, map, ◌==◌,
  if◌then◌else◌, string_eq, nat_eq, is_blank, strip, find, length, Result, ok, err, Action,
  raise_if, gets, modify, pure, raise, ◌>>=◌, ◌>>◌,
}
use ehf_applications.Store.{Bytes, Keyring, Cipher, ObjectStore, decrypt_bytes}
use ehf_applications.Documents.Types.{
  ApplicantDocumentSlot, ApplicantDocumentVersion, DocumentError, missing_key, invalid, denied,
  unreadable, DocumentAccessEvent, InternalDocumentSummary, InternalReviewArtifactSummary,
}
use ehf_applications.Documents.Repository.{Slots, slots_for_application}
use ehf_applications.Documents.Reading.{versions, is_released, internal_documents, internal_version}

pub record Service : Type 0 where
  pub repository : Slots
  pub object_store : ObjectStore
  pub access_events : List DocumentAccessEvent

-- _authorize_internal_document_access
unfoldable pub is_authorized : String → String → Bool
is_authorized actor actor_group =
    (actor_group == "EHF-Administrators" || actor_group == "EHF-Trustees") && not (is_blank actor)

abbrev is_purpose : String → Bool
is_purpose purpose = purpose == "VIEW" || purpose == "DOWNLOAD" || purpose == "PACKAGE"

abbrev pub event : ℕ → Option ℕ → String → String → String → String → DocumentAccessEvent
event application_id version_id actor actor_group purpose outcome = record {
  application_id = application_id;
  version_id = version_id;
  actor = strip actor;
  actor_group = actor_group;
  purpose = purpose;
  outcome = outcome;
}

abbrev pub log : List DocumentAccessEvent → Action Service DocumentError Unit
log events = modify (λ s. record s { access_events = s.access_events ++ events })

-- a pure result that may be an exception
abbrev lift : {A : Type 0} → Result DocumentError A → Action Service DocumentError A
lift r s = (r, s)

abbrev summary : ApplicantDocumentSlot × ApplicantDocumentVersion → InternalDocumentSummary
summary (slot, version) = record {
  slot_id = slot.slot_id;
  version_id = version.version_id;
  code = slot.code;
  label = slot.label;
  version_number = version.version_number;
  status = version.status;
}

unfoldable pub internal_document_summaries :
    ℕ → String → String → Action Service DocumentError (List InternalDocumentSummary)
unfolding is_authorized
internal_document_summaries application_id actor actor_group = do
  raise_if (not (is_authorized actor actor_group)) denied
  gets (λ s. map summary (internal_documents s.repository application_id))

-- REVIEW_ARTIFACT_SLOT_CODES, read from the code to the category
abbrev category_of : String → Option String
category_of code =
    if code == "REVIEW-ARTIFACT-APPLICATION"
    then some "application"
    else if code == "REVIEW-ARTIFACT-CURRICULUM"
    then some "curriculum"
    else if code == "REVIEW-ARTIFACT-PUBLICATIONS"
    then some "publications"
    else none

abbrev artifact :
    ℕ → Option String → List InternalReviewArtifactSummary → List InternalReviewArtifactSummary
artifact version_id none rest = rest
artifact version_id (some category) rest =
    record { category = category; version_id = version_id } ∷ rest

abbrev artifacts :
    List (ApplicantDocumentSlot × ApplicantDocumentVersion) → List InternalReviewArtifactSummary
artifacts [] = []
artifacts ((slot, version) ∷ rest) =
    artifact version.version_id (category_of slot.code) (artifacts rest)

unfoldable pub internal_review_artifacts :
    ℕ → String → String → Action Service DocumentError (List InternalReviewArtifactSummary)
unfolding is_authorized
internal_review_artifacts application_id actor actor_group = do
  raise_if (not (is_authorized actor actor_group)) denied
  gets (λ s. artifacts (internal_documents s.repository application_id))

abbrev pub outcome_of : Option Bytes → String
outcome_of none = "FAILED"
outcome_of (some _) = "SUCCEEDED"

abbrev is_nil : List Bytes → Bool
is_nil [] = true
is_nil (_ ∷ _) = false

-- `_review_artifact_category`: `none` is the ValueError
abbrev category : (String → String) → String → Option String
category lower text =
    let normalized = lower (strip text) in
    if normalized == "application" || normalized == "curriculum" || normalized == "publications"
    then some normalized
    else none

-- _record_missing_review_artifact
abbrev log_missing : ℕ → String → String → Action Service DocumentError Unit
log_missing application_id actor actor_group =
    let made = event application_id none actor actor_group "VIEW" in
    log (made "REQUESTED" ∷ made "FAILED" ∷ [])

module _ (c : Cipher) (ring : Keyring) where
  -- the decryption of an optional version, in the state `s`
  abbrev pub payload_of : Service → ApplicantDocumentVersion → Option Bytes
  payload_of s version = decrypt_bytes c ring version.object_record version.binding s.object_store

  abbrev pub payload_if : Service → Option ApplicantDocumentVersion → Option Bytes
  payload_if s none = none
  payload_if s (some version) = payload_of s version

  unfoldable pub internal_download :
      ℕ → ℕ → String → String → String → Action Service DocumentError (Option Bytes)
  unfolding is_authorized
  internal_download application_id version_id actor actor_group purpose = do
    raise_if (not (is_authorized actor actor_group)) denied
    raise_if (not (is_purpose purpose)) invalid
    let made = event application_id (some version_id) actor actor_group purpose
    log (made "REQUESTED" ∷ [])
    found ← gets (λ s. internal_version s.repository application_id version_id)
    version ← lift found
    payload ← gets (λ s. payload_if s version)
    log (made (outcome_of payload) ∷ [])
    pure payload

  -- the generator of `internal_package`: one download for each summary
  unfoldable pub download_all :
      ℕ → String → String → List InternalDocumentSummary → Action Service DocumentError (List Bytes)
  unfolding internal_download
  download_all application_id actor actor_group [] = pure []
  download_all application_id actor actor_group (item ∷ items) = do
    payload ← internal_download application_id item.version_id actor actor_group "PACKAGE"
    rest ← download_all application_id actor actor_group items
    pure (elim payload [ none ↦ rest | some bytes ↦ bytes ∷ rest ])

  unfoldable pub internal_package :
      (List Bytes → Option Bytes)
      → ℕ
      → String
      → String
      → Action Service DocumentError (Option Bytes)
  unfolding internal_document_summaries download_all
  internal_package build application_id actor actor_group = do
    summaries ← internal_document_summaries application_id actor actor_group
    sources ← download_all application_id actor actor_group summaries
    pure
        (if not (length sources == length summaries) || is_nil sources then none else build sources)

  abbrev review_artifact_download :
      ℕ
      → String
      → String
      → Option InternalReviewArtifactSummary
      → Action Service DocumentError (Option Bytes)
  review_artifact_download application_id actor actor_group none =
      log_missing application_id actor actor_group >> pure none
  review_artifact_download application_id actor actor_group (some item) =
      internal_download application_id item.version_id actor actor_group "VIEW"

  abbrev review_artifact_in :
      ℕ → Option String → String → String → Action Service DocumentError (Option Bytes)
  review_artifact_in application_id none actor actor_group =
      log_missing application_id actor actor_group >> raise invalid
  review_artifact_in application_id (some wanted) actor actor_group = do
    items ← internal_review_artifacts application_id actor actor_group
    review_artifact_download application_id actor actor_group
        (find (λ item. item.category == wanted) items)

  unfoldable pub internal_review_artifact :
      (String → String) → ℕ → String → String → String → Action Service DocumentError (Option Bytes)
  unfolding is_authorized internal_review_artifacts internal_download
  internal_review_artifact lower application_id text actor actor_group = do
    raise_if (not (is_authorized actor actor_group)) denied
    review_artifact_in application_id (category lower text) actor actor_group

  -- `download` of one's own application; `none` is None, and a KeyError or a DocumentStoreError is raised
  abbrev pub download_version :
      Service → Option (List ApplicantDocumentVersion) → ℕ → Result DocumentError (Option Bytes)
  download_version s none v = err missing_key
  download_version s (some vs) v = elim (find (λ w. w.version_id == v) vs) [
    | none ↦ ok none
    | some w ↦
        if is_released w
        then elim (payload_of s w) [ none ↦ err unreadable | some bytes ↦ ok (some bytes) ]
        else ok none
  ]

  abbrev pub download_slot :
      Service → Option ApplicantDocumentSlot → Result DocumentError (Option Bytes)
  download_slot s none = ok none
  download_slot s (some slot) = elim slot.active_version_id [
    | none ↦ ok none
    | some v ↦ download_version s (versions s.repository slot.slot_id) v
  ]

  unfoldable pub download : ℕ → ℕ → Service → Result DocumentError (Option Bytes)
  download application_id slot_id s =
      download_slot s
        (find (λ slot. slot.slot_id == slot_id) (slots_for_application s.repository application_id))
