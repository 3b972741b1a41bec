-- ===== src/Documents/Review.antt =====
-- app/applicant/documents.py: the decisions on a version.

use ehf_applications.Prelude.{
  ℕ, ◌+◌, String, Bool, not, ◌||◌, some, ◌==◌, string_eq, nat_eq, is_blank, strip, Action, raise_if,
  or_raise, gets, modify, pure, ◌>>=◌, ◌>>◌,
}
use ehf_applications.Prelude.Dict.{get, put}
use ehf_applications.Documents.Types.{
  ApplicantDocumentSlot, ApplicantDocumentVersion, DocumentError, unavailable, invalid, missing_key,
  pending, accepted, rejected, status_eq,
}
use ehf_applications.Documents.Repository.{Slots, letter, visible}

-- what a confidential letter shows in the record of its version
abbrev pub is_letter : ApplicantDocumentVersion → Bool
is_letter version = version.document_type == letter || version.recommendation_linked

abbrev pub released_version : ApplicantDocumentVersion → ApplicantDocumentVersion
released_version version = record version { status = accepted; classification = visible }

abbrev pub refused_version : ApplicantDocumentVersion → String → ApplicantDocumentVersion
refused_version version reason = record version {
  status = rejected;
  rejection_reason = some (strip reason);
}

-- replace(slot, active_version_id=version_id, row_version=slot.row_version + 1)
abbrev pub activated : ApplicantDocumentSlot → ℕ → ApplicantDocumentSlot
activated slot version_id = record slot {
  active_version_id = some version_id;
  row_version = slot.row_version + 1;
}

unfoldable pub accept : ℕ → String → Action Slots DocumentError ApplicantDocumentVersion
accept version_id actor = do
  raise_if (is_blank actor) invalid
  version ← or_raise (← gets (λ s. get s.versions_by_id version_id)) unavailable
  raise_if (not (version.status == pending)) unavailable
  raise_if (is_letter version) unavailable
  let released = released_version version
  modify (λ s. record s { versions_by_id = put s.versions_by_id version_id released })
  slot ← or_raise (← gets (λ s. get s.slots version.slot_id)) missing_key
  modify (λ s. record s { slots = put s.slots version.slot_id (activated slot version_id) })
  pure released

unfoldable pub reject : ℕ → String → String → Action Slots DocumentError ApplicantDocumentVersion
reject version_id actor reason = do
  raise_if (is_blank actor || is_blank reason) invalid
  version ← or_raise (← gets (λ s. get s.versions_by_id version_id)) unavailable
  raise_if (not (version.status == pending)) unavailable
  let refused = refused_version version reason
  modify (λ s. record s { versions_by_id = put s.versions_by_id version_id refused })
  pure refused

unfoldable pub restore : ℕ → ℕ → String → Action Slots DocumentError ApplicantDocumentVersion
restore slot_id version_id actor = do
  raise_if (is_blank actor) invalid
  found ← gets (λ s. get s.versions_by_id version_id)
  slot_found ← gets (λ s. get s.slots slot_id)
  version ← or_raise found unavailable
  slot ← or_raise slot_found unavailable
  raise_if (not (version.slot_id == slot_id) || not (version.status == accepted)) unavailable
  modify (λ s. record s { slots = put s.slots slot_id (activated slot version_id) })
  pure version
