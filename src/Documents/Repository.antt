-- ===== src/Documents/Repository.antt =====
-- app/applicant/documents.py: the slots, and what opens and fills them.

use ehf_applications.Prelude.{
  ℕ, ◌+◌, String, Bool, not, ◌&&◌, ◌||◌, Option, none, some, List, [], ◌∷◌, ◌++◌, ◌==◌,
  if◌then◌else◌, string_eq, nat_eq, is_blank, is_empty, strip, contains, keep, length, Action,
  raise_if, or_raise, gets, modify, pure, ◌>>=◌, ◌>>◌,
}
use ehf_applications.Prelude.Dict.{Dict, get, put, values}
use ehf_applications.Documents.Types.{
  ApplicantDocumentSlot, ApplicantDocumentVersion, ObjectBinding, StoredObjectRecord, DocumentError,
  unavailable, invalid, missing_key, pending,
}

-- DocumentSlotRepository
pub record Slots : Type 0 where
  pub slots : Dict ℕ ApplicantDocumentSlot
  pub versions_by_id : Dict ℕ ApplicantDocumentVersion
  pub slot_versions : Dict ℕ (List ℕ)

abbrev pub no_slots : Slots
no_slots = record { slots = []; versions_by_id = []; slot_versions = [] }

abbrev pub letter : String
letter = "RECOMMENDATION_LETTER"

abbrev pub visible : String
visible = "APPLICANT_VISIBLE"

-- _safe_applicant_slot
unfoldable pub is_safe_slot : ApplicantDocumentSlot → Bool
is_safe_slot slot =
    slot.applicant_visible
    && slot.classification == visible
    && not (slot.document_type == letter)
    && not slot.recommendation_linked
    && not (contains "RECOMMEND" slot.code)

-- the test of `add_slot`, on the normalized code
unfoldable pub is_confidential : String → String → Bool → String → Bool
is_confidential classification document_type recommendation_linked normalized =
    not (classification == visible)
    || document_type == letter
    || recommendation_linked
    || contains "RECOMMEND" normalized

-- the fields of a slot that `add_slot` is given
pub record SlotRequest : Type 0 where
  pub application_id : ℕ
  pub code : String
  pub label : String
  pub required : Bool
  pub applicant_visible : Bool
  pub classification : String
  pub document_type : String
  pub recommendation_linked : Bool

abbrev pub new_slot : ℕ → SlotRequest → String → ApplicantDocumentSlot
new_slot fresh r normalized = record {
  slot_id = fresh;
  application_id = r.application_id;
  code = normalized;
  label = strip r.label;
  required = r.required;
  applicant_visible = r.applicant_visible;
  classification = r.classification;
  document_type = r.document_type;
  recommendation_linked = r.recommendation_linked;
  upload_mode = "CLOSED";
  row_version = 1;
  active_version_id = none;
  document_id = none;
}

-- `upper` is Python's `str.upper`, a table of Unicode; `fresh` is the `uuid4` that is drawn.
unfoldable pub add_slot :
    (String → String) → ℕ → SlotRequest → Action Slots DocumentError ApplicantDocumentSlot
unfolding is_confidential
add_slot upper fresh r = do
  let normalized = upper (strip r.code)
  raise_if
      (is_confidential r.classification r.document_type r.recommendation_linked normalized
        && r.applicant_visible)
      invalid
  raise_if (is_empty normalized || is_blank r.label) invalid
  let slot = new_slot fresh r normalized
  modify (λ s. record s {
    slots = put s.slots fresh slot;
    slot_versions = put s.slot_versions fresh [];
  })
  pure slot

unfoldable pub slots_for_application : Slots → ℕ → List ApplicantDocumentSlot
slots_for_application s application_id =
    keep (λ slot. slot.application_id == application_id && is_safe_slot slot) (values s.slots)

-- `active_version`
abbrev pub of_slot :
    ApplicantDocumentSlot → Option ApplicantDocumentVersion → Option ApplicantDocumentVersion
of_slot slot none = none
of_slot slot (some version) = if version.slot_id == slot.slot_id then some version else none

unfoldable pub active_version : Slots → ApplicantDocumentSlot → Option ApplicantDocumentVersion
active_version s slot = elim slot.active_version_id [
  | none ↦ none
  | some v ↦ of_slot slot (get s.versions_by_id v)
]

abbrev pub is_open : String → Bool
is_open mode = mode == "MISSING" || mode == "REPLACEMENT"

-- the guard of `open_slot`: the slot exists, is of this application and is safe
abbrev pub guard_slot : ℕ → ApplicantDocumentSlot → Bool
guard_slot application_id slot = slot.application_id == application_id && is_safe_slot slot

-- replace(slot, upload_mode=mode, row_version=slot.row_version + 1)
abbrev pub opened : ApplicantDocumentSlot → String → ApplicantDocumentSlot
opened slot mode = record slot { upload_mode = mode; row_version = slot.row_version + 1 }

unfoldable pub open_slot :
    ℕ → ℕ → String → String → String → Action Slots DocumentError ApplicantDocumentSlot
open_slot application_id slot_id mode actor reason = do
  raise_if (not (is_open mode) || is_blank actor || is_blank reason) invalid
  slot ← or_raise (← gets (λ s. get s.slots slot_id)) unavailable
  raise_if (not (guard_slot application_id slot)) unavailable
  let updated = opened slot mode
  modify (λ s. record s { slots = put s.slots slot_id updated })
  pure updated

unfoldable pub require_upload : ℕ → ℕ → ℕ → Action Slots DocumentError ApplicantDocumentSlot
require_upload application_id slot_id expected_row_version = do
  slot ← or_raise (← gets (λ s. get s.slots slot_id)) unavailable
  raise_if
      (not (
        guard_slot application_id slot
        && is_open slot.upload_mode
        && slot.row_version == expected_row_version))
      unavailable
  pure slot

abbrev pub new_version :
    ApplicantDocumentSlot
    → ℕ
    → ℕ
    → ℕ
    → ObjectBinding
    → StoredObjectRecord
    → String
    → ApplicantDocumentVersion
new_version current version_id document_id number binding object_record display_name = record {
  version_id = version_id;
  slot_id = current.slot_id;
  document_id = document_id;
  version_number = number;
  status = pending;
  object_record = object_record;
  binding = binding;
  display_name = display_name;
  classification = "UNREVIEWED";
  document_type = current.document_type;
  recommendation_linked = current.recommendation_linked;
  rejection_reason = none;
}

-- the slot after an upload
abbrev pub filled : ApplicantDocumentSlot → ℕ → ApplicantDocumentSlot
filled current document_id = record current {
  upload_mode = "CLOSED";
  row_version = current.row_version + 1;
  document_id = some document_id;
}

unfoldable pub register_pending :
    ApplicantDocumentSlot
    → ℕ
    → ℕ
    → ℕ
    → ObjectBinding
    → StoredObjectRecord
    → String
    → Action Slots DocumentError ApplicantDocumentVersion
unfolding require_upload
register_pending slot expected_row_version version_id document_id binding object_record
      display_name =
    do
      current ← require_upload slot.application_id slot.slot_id expected_row_version
      existing ← or_raise (← gets (λ s. get s.slot_versions current.slot_id)) missing_key
      let version =
          new_version current version_id document_id (length existing + 1) binding object_record
            display_name
      modify (λ s. record s {
        slots = put s.slots current.slot_id (filled current document_id);
        versions_by_id = put s.versions_by_id version_id version;
        slot_versions = put s.slot_versions current.slot_id (existing ++ version_id ∷ []);
      })
      pure version
