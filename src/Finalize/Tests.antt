-- ===== src/Finalize/Tests.antt =====
-- Runs of app/applicant/finalize.py and app/applicant/confirmations.py, with a constant hash.
use ehf_applications.Prelude.{
  inr, ne_of_beq, ℕ, String, nat_eq, string_eq, ◌≡◌, ◌≢◌, ◌⊎◌, refl, Bool, true, false, not, ◌&&◌,
  Option, none, some, List, [], ◌∷◌, ◌++◌, ok, err, Result, inl, inr, All, map, ◌==◌, arith, strip,
  member,
}
use ehf_applications.Drafts.{
  load, Values, Drafts, DraftSnapshot, DraftError, locked, save, is_locked,
}
use ehf_applications.Confirmations.{
  Confirmations, SectionConfirmation, confirm, is_current, invalidate, new_confirmation,
  is_current-confirm,
}
use ehf_applications.Documents.{unavailable, open_slot, DocumentError, Slots}
use ehf_applications.Documents.Tests.{shown}
use ehf_applications.Store.Tests.{text}
use ehf_applications.Finalize.{
  SectionEntry, Finalization, FinalConfirmation, Manifest, submit, reopen_section,
  reopen_document_slot, new_final, manifest_of, active, mark, administrator_group,
  document_unavailable, required_sections,
}
use ehf_applications.Finalize.Readiness.{IsReady, submit-IsReady, IsReady-submit}
use ehf_applications.Finalize.Submitting.{submit-submit}
use ehf_applications.Finalize.Locking.{IsLocked, still, onward, submitting, reopening}
use ehf_applications.Finalize.Freezing.{submit-Reach}
use ehf_applications.Finalize.Reopening.{reopen_section-lem, reopen_document_slot_unavailable}

abbrev hash : Values ℕ → String
hash v = "h"

abbrev manifest_hash : Manifest → String
manifest_hash m = "m"

abbrev draft : String → DraftSnapshot ℕ
draft name = record {
  application_id = 1;
  section = name;
  values = ("name", some 5) ∷ [];
  row_version = 1;
  return_reason = none;
  returned_at_utc = none;
}

abbrev drafted : String → (ℕ × String) × DraftSnapshot ℕ
drafted name = ((1, name), draft name)

abbrev confirmed : String → (ℕ × String) × SectionConfirmation
confirmed name = ((1, name), new_confirmation hash 1 name (draft name))

abbrev ready : Finalization ℕ
ready = record {
  drafts = record {
    drafts = map drafted required_sections;
    locked_ids = [];
    reopened = [];
    corrections = [];
  };
  section_confirmations = map confirmed required_sections;
  document_slots = shown;
  confirmations = [];
  audit_events = [];
}

abbrev entry : String → SectionEntry
entry name = record { section = name; row_version = 1; canonical_sha256 = "h" }

abbrev manifest : Manifest
manifest = record {
  schema_version = 1;
  sections = map entry required_sections;
  documents =
      record {
        slot_code = "CV";
        slot_row_version = 3;
        document_version_id = 3;
        document_version_number = 1;
        plaintext_sha256 = text;
      }
      ∷ [];
}

abbrev final : FinalConfirmation
final = new_final 9 100 1 manifest "m"

submit-IsReady_example : IsReady hash ready 1
unfolding submit manifest_of ehf_applications.Documents.slots_for_application
    ehf_applications.Prelude.Dict.values ehf_applications.Documents.is_safe_slot
    ehf_applications.Prelude.contains ehf_applications.Documents.versions
    ehf_applications.Prelude.Dict.get ehf_applications.Drafts.load
    ehf_applications.Confirmations.current is_current ehf_applications.Documents.active_version
submit-IsReady_example = submit-IsReady hash manifest_hash 9 100 1 ready final refl

IsReady-submit_example :
    (c : FinalConfirmation) × ((submit hash manifest_hash 9 100 1 ready).0 ≡ ok c)
IsReady-submit_example = IsReady-submit hash manifest_hash 9 100 1 ready submit-IsReady_example

submit-submit_example :
    let t = (submit hash manifest_hash 9 100 1 ready).1 in
    submit hash manifest_hash 10 200 1 t ≡ (ok final, t)
unfolding submit manifest_of ehf_applications.Documents.slots_for_application
    ehf_applications.Prelude.Dict.values ehf_applications.Documents.is_safe_slot
    ehf_applications.Prelude.contains ehf_applications.Documents.versions
    ehf_applications.Prelude.Dict.get ehf_applications.Drafts.load
    ehf_applications.Confirmations.current is_current ehf_applications.Documents.active_version
submit-submit_example = submit-submit hash manifest_hash 1 9 100 10 200 ready final refl

abbrev submitted : Finalization ℕ
submitted = record ready {
  drafts = record {
    drafts = map drafted required_sections;
    locked_ids = 1 ∷ [];
    reopened = [];
    corrections = [];
  };
  confirmations = final ∷ [];
}

submitted-IsLocked : IsLocked submitted
unfolding member
submitted-IsLocked = (λ standing. refl, tt)

submit-Reach_example :
    let t = (submit hash manifest_hash 9 100 1 ready).1 in
    let u = (reopen_section 200 1 "identity" "typo" "Ann" "EHF-Administrators" t).1 in
    (is_locked u.drafts 1 "publications" ≡ true)
    × (load u.drafts 1 "publications" ≡ load ready.drafts 1 "publications")
unfolding submit manifest_of ehf_applications.Documents.slots_for_application
    ehf_applications.Prelude.Dict.values ehf_applications.Documents.is_safe_slot
    ehf_applications.Prelude.contains ehf_applications.Documents.versions
    ehf_applications.Prelude.Dict.get ehf_applications.Drafts.load
    ehf_applications.Confirmations.current is_current ehf_applications.Documents.active_version
    active ehf_applications.Drafts.lock
submit-Reach_example =
    submit-Reach hash manifest_hash 1 "publications" 9 100 ready _ final refl refl
      (onward (onward still (submitting 10 150 1))
        (reopening 200 1 "identity" "typo" "Ann" "EHF-Administrators"))
      ((tt, tt), inr (ne_of_beq "identity" "publications" refl))

reopen_section-lem_example :
    let t = (reopen_section 200 1 "identity" "typo" "Ann" "EHF-Administrators" submitted).1 in
    ((reopen_section 200 1 "identity" "typo" "Ann" "EHF-Administrators" submitted).0 ≡ ok tt)
    × ((other : String)
        → is_locked t.drafts 1 other
          ≡ (is_locked submitted.drafts 1 other && not ("identity" == other)))
    × ((fresh later : ℕ) (x : FinalConfirmation)
        → (submit hash manifest_hash fresh later 1 t).0 ≢ ok x)
unfolding active member ehf_applications.Prelude.is_blank
reopen_section-lem_example =
    reopen_section-lem hash manifest_hash 200 1 "identity" "typo" "Ann" "EHF-Administrators"
      submitted final submitted-IsLocked refl refl

reopen_document_slot_unavailable_example :
    let (r, t) = reopen_document_slot 200 1 77 "typo" "Ann" administrator_group submitted in
    (r ≡ err document_unavailable)
    × (t.confirmations ≡ map (mark final.confirmation_id) submitted.confirmations)
    × (t.audit_events ≡ submitted.audit_events)
unfolding active ehf_applications.Prelude.is_blank open_slot ehf_applications.Prelude.Dict.get
reopen_document_slot_unavailable_example =
    reopen_document_slot_unavailable 200 1 77 "typo" "Ann" submitted final refl refl refl
      unavailable refl

abbrev moved : DraftSnapshot ℕ
moved = record (draft "identity") { row_version = 8 }
