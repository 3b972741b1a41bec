-- ===== src/Documents/Uploads.antt =====
-- app/applicant/documents.py: `ApplicantDocumentService.upload`.
use ehf_applications.Prelude.{
  ℕ, String, Bool, true, false, Option, none, some, Result, ok, err, Action, gets, ◌>>=◌,
}
use ehf_applications.Store.{
  Bytes, ObjectBinding, StoredObjectRecord, Keyring, Cipher, StoreError, Draw, Verdict, Registered,
  ingest_file, malware_detected, malware_unavailable, duplicate_plaintext,
}
use ehf_applications.Documents.Types.{
  ApplicantDocumentSlot, ApplicantDocumentVersion, DocumentError, upload_rejected,
  scanner_unavailable, already_submitted,
}
use ehf_applications.Documents.Repository.{Slots, require_upload, register_pending}
use ehf_applications.Documents.Serving.{Service}

-- What an upload is given and meets: the identifiers and bytes that are drawn, whether the file can
-- be read, what the PDF validator and the scanner say, the file's bytes and `Path(filename).name`.
pub record Upload : Type 0 where
  pub new_document_id : ℕ
  pub version_id : ℕ
  pub object_id : ℕ
  pub draw : Draw
  pub readable : Bool
  pub valid : Bool
  pub verdict : Verdict
  pub source : Bytes
  pub display_name : String

-- the repository, and the version that `register` has left in the enclosing scope
abbrev pub Pending : Type 0
Pending = Slots × Option ApplicantDocumentVersion

abbrev pub keep_version : Result DocumentError ApplicantDocumentVersion × Slots → Bool × Pending
keep_version (ok version, s) = (true, (s, some version))
keep_version (err e, s) = (false, (s, none))

abbrev pub refusal : StoreError → DocumentError
refusal malware_detected = upload_rejected
refusal malware_unavailable = scanner_unavailable
refusal duplicate_plaintext = already_submitted
refusal e = upload_rejected

abbrev pub concluded :
    Service
    → Result StoreError StoredObjectRecord × Registered Pending
    → Result DocumentError ApplicantDocumentVersion × Service
concluded s (err e, (objects, (slots, _))) =
    (err (refusal e), record s { repository = slots; object_store = objects })
concluded s (ok _, (objects, (slots, none))) =
    (err upload_rejected, record s { repository = slots; object_store = objects })
concluded s (ok _, (objects, (slots, some version))) =
    (ok version, record s { repository = slots; object_store = objects })

-- slot.document_id or uuid4()
abbrev pub document_id_of : ApplicantDocumentSlot → Upload → ℕ
document_id_of slot u = elim slot.document_id [ none ↦ u.new_document_id | some i ↦ i ]

abbrev pub binding_of : ℕ → ApplicantDocumentSlot → Upload → ObjectBinding
binding_of application_id slot u = record {
  application_id = application_id;
  document_id = document_id_of slot u;
  version_id = u.version_id;
  object_id = u.object_id;
}

module _ (c : Cipher) (ring : Keyring) (application_id slot_id expected : ℕ) (u : Upload) where
  -- `register`
  abbrev pub registration : ApplicantDocumentSlot → StoredObjectRecord → Pending → Bool × Pending
  registration slot object_record (slots, _) = keep_version (
      register_pending slot expected u.version_id (document_id_of slot u)
        (binding_of application_id slot u) object_record u.display_name slots)

  abbrev pub ingestion :
      ApplicantDocumentSlot → Service → Result StoreError StoredObjectRecord × Registered Pending
  ingestion slot s =
      ingest_file c ring u.draw u.readable u.valid u.verdict u.source
        (binding_of application_id slot u) (registration slot)
        (s.object_store, (s.repository, none))

  unfoldable pub upload : Action Service DocumentError ApplicantDocumentVersion
  upload = do
    found ← gets (λ s. (require_upload application_id slot_id expected s.repository).0)
    slot ← (λ s. (found, s))
    (λ s. concluded s (ingestion slot s))
