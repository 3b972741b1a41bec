-- ===== src/Documents/Tests.antt =====
-- Runs of app/applicant/documents.py, with the cipher of the store's runs.
use ehf_applications.Prelude.{
  Holds, ◌↔◌, arith, ℕ, String, nat_eq, string_eq, ◌≡◌, ◌≢◌, ◌⊎◌, refl, Bool, true, false, Option,
  none, some, List, [], ◌∷◌, ◌++◌, ok, err, Result, inl, inr,
}
use ehf_applications.Prelude.Dict.{values, get}
use ehf_applications.Store.{clean}
use ehf_applications.Store.Tests.{
  plain_cipher, one_key, first_draw, text, binding, no_objects, stored_text,
}
use ehf_applications.Documents.{
  Slots, no_slots, SlotRequest, ApplicantDocumentSlot, ApplicantDocumentVersion, VersionStatus,
  pending, accepted, rejected, Service, Upload, add_slot, open_slot, accept, upload, payload_of,
  internal_documents, internal_version, internal_download, slots_for_application, event, outcome_of,
  DocumentAccessEvent, denied, is_released, is_authorized,
}
use ehf_applications.Documents.Invariant.{IsValid}
use ehf_applications.Documents.History.{
  here, next, adds, accepts, opens, Reach-IsValid, Reach-decided,
}
use ehf_applications.Documents.Visibility.{
  IsOpenSlot, IsOpenVersion, IsActive, internal_documents-lem, MayShow, internal_version-MayShow,
}
use ehf_applications.Documents.Uploading.{upload-ok}

abbrev slot : ApplicantDocumentSlot
slot = record {
  slot_id = 5;
  application_id = 1;
  code = "CV";
  label = "CV";
  required = true;
  applicant_visible = true;
  classification = "APPLICANT_VISIBLE";
  document_type = "CV";
  recommendation_linked = false;
  upload_mode = "MISSING";
  row_version = 1;
  active_version_id = none;
  document_id = some 2;
}

abbrev opened_once : Slots
opened_once = record { slots = (5, slot) ∷ []; slot_versions = (5, []) ∷ []; versions_by_id = [] }

abbrev before : Service
before = record { repository = opened_once; object_store = no_objects; access_events = [] }

abbrev cv : Upload
cv = record {
  new_document_id = 2;
  version_id = 3;
  object_id = 4;
  draw = first_draw;
  readable = true;
  valid = true;
  verdict = clean;
  source = text;
  display_name = "cv.pdf";
}

abbrev pub waiting : ApplicantDocumentVersion
waiting = record {
  version_id = 3;
  slot_id = 5;
  document_id = 2;
  version_number = 1;
  status = pending;
  object_record = stored_text;
  binding = binding;
  display_name = "cv.pdf";
  classification = "UNREVIEWED";
  document_type = "CV";
  recommendation_linked = false;
  rejection_reason = none;
}

upload-ok_example :
    let t = (upload plain_cipher one_key 1 5 1 cv before).1 in
    (cv.valid ≡ true)
    × (cv.verdict ≡ clean)
    × (waiting.status ≡ pending)
    × (get t.repository.versions_by_id 3 ≡ some waiting)
    × (payload_of plain_cipher one_key t waiting ≡ some text)
unfolding upload ehf_applications.Documents.require_upload get
    ehf_applications.Documents.is_safe_slot ehf_applications.Prelude.contains
    ehf_applications.Store.ingest_file ehf_applications.Store.store_bytes
    ehf_applications.Prelude.member ehf_applications.Store.is_object_key
    ehf_applications.Documents.register_pending
upload-ok_example = upload-ok plain_cipher one_key 1 5 1 cv before waiting refl refl

abbrev upper : String → String
upper code = code

abbrev request : SlotRequest
request = record {
  application_id = 1;
  code = "CV";
  label = "CV";
  required = true;
  applicant_visible = true;
  classification = "APPLICANT_VISIBLE";
  document_type = "CV";
  recommendation_linked = false;
}

no_slots-IsValid : IsValid no_slots
no_slots-IsValid = record { slots_valid = tt; versions_valid = tt }

Reach-IsValid_example : IsValid (accept 3 "Ann" (add_slot upper 5 request no_slots).1).1
Reach-IsValid_example =
    Reach-IsValid upper no_slots-IsValid (next (next here (adds 5 request)) (accepts 3 "Ann"))

abbrev pub released : ApplicantDocumentVersion
released = record waiting { status = accepted; classification = "APPLICANT_VISIBLE" }

abbrev pub shown : Slots
shown = record {
  slots =
      (5, record slot { upload_mode = "CLOSED"; active_version_id = some 3; row_version = 3 }) ∷ [];
  slot_versions = (5, 3 ∷ []) ∷ [];
  versions_by_id = (3, released) ∷ [];
}

abbrev serving : Service
serving = record { repository = shown; object_store = no_objects; access_events = [] }

Reach-decided_example :
    get (open_slot 1 5 "REPLACEMENT" "Ann" "new" shown).1.versions_by_id 3 ≡ some released
unfolding get
Reach-decided_example =
    Reach-decided 3 released (λ h. cc) upper refl (next here (opens 1 5 "REPLACEMENT" "Ann" "new"))

abbrev closed : ApplicantDocumentSlot
closed = record slot { upload_mode = "CLOSED"; active_version_id = some 3; row_version = 3 }

internal_documents-lem_example : Holds (closed, released) (internal_documents shown 1) ↔ (
    Holds closed (values shown.slots)
    × IsOpenSlot 1 closed
    × IsActive shown closed released
    × IsOpenVersion released)
internal_documents-lem_example = internal_documents-lem shown 1 closed released

internal_version-MayShow_example :
    (s : ApplicantDocumentSlot) × Holds s (values shown.slots)
    × IsOpenSlot 1 s
    × MayShow shown 3 s released
unfolding internal_version slots_for_application values ehf_applications.Documents.is_safe_slot
    ehf_applications.Prelude.contains ehf_applications.Documents.versions get
internal_version-MayShow_example = internal_version-MayShow shown 1 3 released refl

abbrev admins : String
admins = "EHF-Administrators"
