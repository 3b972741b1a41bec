-- ===== src/Finalize/Submission.antt =====
-- app/applicant/finalize.py: `preview`, `submit`, the two reopenings and `_supersede_active`.
-- The time and the identifier of a call are arguments, and so are the two hashes.
use mathlib.Core.Option
use ehf_applications.Prelude.{
  ℕ, String, Bool, true, false, not, ◌&&◌, ◌||◌, Option, none, some, List, [], ◌∷◌, ◌++◌, map, ◌==◌,
  if◌then◌else◌, string_eq, nat_eq, is_blank, strip, find_last, member, Result, ok, err, Action,
  raise_if, or_raise, gets, modify, pure, ◌>>=◌, ◌>>◌,
}
use ehf_applications.Drafts
use ehf_applications.Drafts.{Drafts, Values, DraftError, lock}
use ehf_applications.Confirmations.{invalidate}
use ehf_applications.Documents.{ApplicantDocumentSlot, DocumentError, open_slot, Slots}
use ehf_applications.Finalize.Types.{
  Manifest, Unresolved, final_confirmation, FinalConfirmation, FinalizationAuditEvent,
  FinalizationError, blocked, denied, invalid, draft_locked, document_unavailable, missing_key,
  Finalization,
}
use ehf_applications.Finalize.Manifests.{required_sections, manifest_of}

abbrev pub administrator_group : String
administrator_group = "EHF-Administrators"

-- the test of `_active`
abbrev pub is_active : ℕ → FinalConfirmation → Bool
is_active application_id item = item.application_id == application_id && not item.superseded

unfoldable pub active : List FinalConfirmation → ℕ → Option FinalConfirmation
active items application_id = find_last (is_active application_id) items

abbrev pub is_resolved : List Unresolved → Bool
is_resolved [] = true
is_resolved (_ ∷ _) = false

abbrev pub mark : ℕ → FinalConfirmation → FinalConfirmation
mark confirmation_id item =
    if item.confirmation_id == confirmation_id then record item { superseded = true } else item

-- section in REQUIRED_SECTIONS
abbrev pub is_named : String → Bool
is_named name = member name required_sections

module _ {V : Type 0} where
  abbrev audit : FinalizationAuditEvent → Action (Finalization V) FinalizationError Unit
  audit item = modify (λ s. record s { audit_events = s.audit_events ++ item ∷ [] })

  unfoldable pub supersede_active : ℕ → Action (Finalization V) FinalizationError Unit
  unfolding active
  supersede_active application_id = do
    found ← gets (λ s. active s.confirmations application_id)
    item ← or_raise found (blocked (final_confirmation ∷ []))
    modify (λ s. record s { confirmations = map (mark item.confirmation_id) s.confirmations })

  -- `self._drafts.reopen`
  abbrev drafts_result :
      Finalization V
      → Result DraftError (Unit {0}) × Drafts V
      → Result FinalizationError (Unit {0}) × Finalization V
  drafts_result s (ok _, d) = (ok tt, record s { drafts = d })
  drafts_result s (err _, d) = (err draft_locked, record s { drafts = d })

  abbrev reopen_draft : ℕ → String → Action (Finalization V) FinalizationError Unit
  reopen_draft application_id section s =
      drafts_result s (Drafts.reopen application_id section s.drafts)

  unfoldable pub reopen_section :
      ℕ → ℕ → String → String → String → String → Action (Finalization V) FinalizationError Unit
  unfolding supersede_active
  reopen_section now application_id section reason actor actor_group = do
    raise_if (not (actor_group == administrator_group)) denied
    raise_if (not (is_named section) || is_blank actor || is_blank reason) invalid
    supersede_active application_id
    modify (λ s. record s {
      section_confirmations = invalidate application_id section s.section_confirmations;
    })
    reopen_draft application_id section
    audit (record {
      application_id = application_id;
      action = "SECTION_REOPENED";
      actor = strip actor;
      scope = some section;
      reason = some (strip reason);
      occurred_at_utc = now;
    })

  abbrev slots_result :
      Finalization V
      → Result DocumentError ApplicantDocumentSlot × Slots
      → Result FinalizationError ApplicantDocumentSlot × Finalization V
  slots_result s (ok slot, t) = (ok slot, record s { document_slots = t })
  slots_result s (err _, t) = (err document_unavailable, record s { document_slots = t })

  abbrev open_document :
      ℕ → ℕ → String → String → Action (Finalization V) FinalizationError ApplicantDocumentSlot
  open_document application_id slot_id actor reason s =
      slots_result s (open_slot application_id slot_id "REPLACEMENT" actor reason s.document_slots)

  unfoldable pub reopen_document_slot :
      ℕ
      → ℕ
      → ℕ
      → String
      → String
      → String
      → Action (Finalization V) FinalizationError ApplicantDocumentSlot
  unfolding supersede_active
  reopen_document_slot now application_id slot_id reason actor actor_group = do
    raise_if (not (actor_group == administrator_group)) denied
    raise_if (is_blank actor || is_blank reason) invalid
    supersede_active application_id
    reopened ← open_document application_id slot_id (strip actor) (strip reason)
    audit (record {
      application_id = application_id;
      action = "DOCUMENT_SLOT_REOPENED";
      actor = strip actor;
      scope = some reopened.code;
      reason = some (strip reason);
      occurred_at_utc = now;
    })
    pure reopened

abbrev pub new_final : ℕ → ℕ → ℕ → Manifest → String → FinalConfirmation
new_final fresh now application_id manifest manifest_sha256 = record {
  confirmation_id = fresh;
  application_id = application_id;
  manifest = manifest;
  manifest_sha256 = manifest_sha256;
  confirmed_at_utc = now;
  superseded = false;
}

module _ {V : Type 0} where
  -- the writes of a submission
  abbrev pub record_submission : FinalConfirmation → Finalization V → Finalization V
  record_submission item s = record s {
    confirmations = s.confirmations ++ item ∷ [];
    drafts = lock item.application_id s.drafts;
    audit_events =
        s.audit_events
        ++ record {
          application_id = item.application_id;
          action = "FINAL_SUBMISSION";
          actor = "APPLICANT";
          scope = none;
          reason = none;
          occurred_at_utc = item.confirmed_at_utc;
        }
          ∷ [];
  }

  abbrev pub submit_new :
      FinalConfirmation → Action (Finalization V) FinalizationError FinalConfirmation
  submit_new item = do modify (record_submission item); pure item

  -- the answer where the active confirmation may be of the same manifest
  abbrev pub submit_or_keep :
      FinalConfirmation
      → Option FinalConfirmation
      → Action (Finalization V) FinalizationError FinalConfirmation
  submit_or_keep item none = submit_new item
  submit_or_keep item (some kept) =
      if kept.manifest_sha256 == item.manifest_sha256 then pure kept else submit_new item

module _ {V : Type 0} (canonical_hash : Values V → String) (manifest_hash : Manifest → String) where
  -- the manifest, what is unresolved, and whether the application is ready
  unfoldable pub preview : ℕ → Finalization V → Option (Manifest × List Unresolved × Bool)
  unfolding manifest_of
  preview application_id s =
      Option.map (λ m. (m.0, m.1, is_resolved m.1)) (manifest_of canonical_hash s application_id)

  unfoldable pub submit : ℕ → ℕ → ℕ → Action (Finalization V) FinalizationError FinalConfirmation
  unfolding active
  submit fresh now application_id = do
    found ← gets (λ s. manifest_of canonical_hash s application_id)
    (manifest, unresolved) ← or_raise found missing_key
    raise_if (not (is_resolved unresolved)) (blocked unresolved)
    kept ← gets (λ s. active s.confirmations application_id)
    submit_or_keep (new_final fresh now application_id manifest (manifest_hash manifest)) kept
