-- ===== src/Finalize/Types.antt =====
-- The records of app/applicant/finalize.py.
use ehf_applications.Prelude.{ℕ, String, Bool, Option, List}
use ehf_applications.Drafts.{Drafts}
use ehf_applications.Confirmations.{Confirmations}
use ehf_applications.Documents.{Slots}
use ehf_applications.Store.{Bytes}

pub record SectionEntry : Type 0 where
  pub section : String
  pub row_version : ℕ
  pub canonical_sha256 : String

pub record DocumentEntry : Type 0 where
  pub slot_code : String
  pub slot_row_version : ℕ
  pub document_version_id : ℕ
  pub document_version_number : ℕ
  pub plaintext_sha256 : Bytes

pub record Manifest : Type 0 where
  pub schema_version : ℕ
  pub sections : List SectionEntry
  pub documents : List DocumentEntry

-- f"section:{section}", f"document:{slot.code}" and "final-confirmation"
pub data Unresolved : Type 0 where
  section : String → Unresolved
  document : String → Unresolved
  final_confirmation : Unresolved

pub record FinalConfirmation : Type 0 where
  pub confirmation_id : ℕ
  pub application_id : ℕ
  pub manifest : Manifest
  pub manifest_sha256 : String
  pub confirmed_at_utc : ℕ
  pub superseded : Bool

pub record FinalizationAuditEvent : Type 0 where
  pub application_id : ℕ
  pub action : String
  pub actor : String
  pub scope : Option String
  pub reason : Option String
  pub occurred_at_utc : ℕ

-- FinalizationBlocked, PermissionError, ValueError, and what the parts raise: DraftLocked,
-- DocumentUnavailable and KeyError
pub data FinalizationError : Type 0 where
  blocked : List Unresolved → FinalizationError
  denied invalid draft_locked document_unavailable missing_key : FinalizationError

-- FinalizationService and the repositories that it works on
pub record Finalization (V : Type 0) : Type 0 where
  pub drafts : Drafts V
  pub section_confirmations : Confirmations
  pub document_slots : Slots
  pub confirmations : List FinalConfirmation
  pub audit_events : List FinalizationAuditEvent
