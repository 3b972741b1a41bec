-- ===== src/Documents/Types.antt =====
-- The records of app/applicant/documents.py.
pub use ehf_applications.Store.{ObjectBinding, StoredObjectRecord}
use ehf_applications.Prelude.{ℕ, String, ◌≡◌, Bool, true, false, Option, Eq, arith, ◌↔◌}

-- the values that the code writes to `ApplicantDocumentVersion.status`
pub data VersionStatus : Type 0 where
  pending accepted rejected : VersionStatus

abbrev status_beq : VersionStatus → VersionStatus → Bool
status_beq pending pending = true
status_beq accepted accepted = true
status_beq rejected rejected = true
status_beq _ _ = false

pub status_beq_iff : (a b : VersionStatus) → (status_beq a b ≡ true) ↔ (a ≡ b)
status_beq_iff a b = (λ h. ground arith, λ h. ground arith)

instance abbrev pub status_eq : Eq VersionStatus
status_eq = record { test = status_beq; agrees = status_beq_iff }

pub record ApplicantDocumentSlot : Type 0 where
  pub slot_id : ℕ
  pub application_id : ℕ
  pub code : String
  pub label : String
  pub required : Bool
  pub applicant_visible : Bool
  pub classification : String
  pub document_type : String
  pub recommendation_linked : Bool
  pub upload_mode : String
  pub row_version : ℕ
  pub active_version_id : Option ℕ
  pub document_id : Option ℕ

pub record ApplicantDocumentVersion : Type 0 where
  pub version_id : ℕ
  pub slot_id : ℕ
  pub document_id : ℕ
  pub version_number : ℕ
  pub status : VersionStatus
  pub object_record : StoredObjectRecord
  pub binding : ObjectBinding
  pub display_name : String
  pub classification : String
  pub document_type : String
  pub recommendation_linked : Bool
  pub rejection_reason : Option String

-- DocumentUnavailable, ValueError, PermissionError, the KeyError of a `d[k]`, the three refusals of
-- an upload, and a DocumentStoreError that is not caught
pub data DocumentError : Type 0 where
  unavailable invalid denied missing_key : DocumentError
  upload_rejected scanner_unavailable already_submitted unreadable : DocumentError

pub record DocumentAccessEvent : Type 0 where
  pub application_id : ℕ
  pub version_id : Option ℕ
  pub actor : String
  pub actor_group : String
  pub purpose : String
  pub outcome : String

pub record InternalDocumentSummary : Type 0 where
  pub slot_id : ℕ
  pub version_id : ℕ
  pub code : String
  pub label : String
  pub version_number : ℕ
  pub status : VersionStatus

pub record InternalReviewArtifactSummary : Type 0 where
  pub category : String
  pub version_id : ℕ
