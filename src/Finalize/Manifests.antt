-- ===== src/Finalize/Manifests.antt =====
-- app/applicant/finalize.py: `_manifest`.
use ehf_applications.Prelude.{
  ℕ, String, Bool, true, false, not, ◌&&◌, ◌||◌, Option, none, some, List, [], ◌∷◌, ◌++◌, ◌==◌,
  string_eq, nat_eq, last, is_some,
}
use ehf_applications.Drafts.{DraftSnapshot, Values, load}
use ehf_applications.Confirmations.{Confirmations, SectionConfirmation, current, is_current}
use ehf_applications.Documents.{
  Slots, ApplicantDocumentSlot, ApplicantDocumentVersion, accepted, status_eq,
  slots_for_application, active_version, versions,
}
use ehf_applications.Finalize.Types.{
  SectionEntry, DocumentEntry, Manifest, Unresolved, section, document, Finalization,
}

abbrev pub required_sections : List String
required_sections =
    "identity" ∷ "employment" ∷ "qualifications" ∷ "publications" ∷ "contribution" ∷ []

module _ {V : Type 0} (canonical_hash : Values V → String) where
  -- the entry of a section; `none` where it is unresolved
  abbrev pub entry_of :
      String → Option (DraftSnapshot V) → Option SectionConfirmation → Bool → Option SectionEntry
  entry_of name (some snapshot) (some confirmation) true = some (record {
    section = name;
    row_version = snapshot.row_version;
    canonical_sha256 = confirmation.canonical_sha256;
  })
  entry_of name _ _ _ = none

  abbrev pub is_confirmed : Confirmations → ℕ → String → Option (DraftSnapshot V) → Bool
  is_confirmed s application_id name none = false
  is_confirmed s application_id name (some snapshot) =
      is_current canonical_hash s application_id name snapshot

  unfoldable pub section_entry : Finalization V → ℕ → String → Option SectionEntry
  section_entry s application_id name =
      let snapshot = load s.drafts application_id name in
      entry_of name snapshot (current s.section_confirmations application_id name)
        (is_confirmed s.section_confirmations application_id name snapshot)

  abbrev pub add_section :
      String
      → Option SectionEntry
      → List SectionEntry × List Unresolved
      → List SectionEntry × List Unresolved
  add_section name none (entries, unresolved) = (entries, section name ∷ unresolved)
  add_section name (some e) (entries, unresolved) = (e ∷ entries, unresolved)

  -- the first loop of `_manifest`
  unfoldable pub manifest_sections :
      Finalization V → ℕ → List String → List SectionEntry × List Unresolved
  unfolding section_entry
  manifest_sections s application_id [] = ([], [])
  manifest_sections s application_id (name ∷ names) =
      add_section name (section_entry s application_id name)
        (manifest_sections s application_id names)

abbrev pub is_unaccepted : Option ApplicantDocumentVersion → Bool
is_unaccepted none = false
is_unaccepted (some latest) = not (latest.status == accepted)

-- slot.upload_mode != "CLOSED" or the latest version is not accepted, or a required slot is empty
abbrev pub is_unresolved :
    ApplicantDocumentSlot → Option ApplicantDocumentVersion → List ApplicantDocumentVersion → Bool
is_unresolved slot version vs =
    not (slot.upload_mode == "CLOSED")
    || is_unaccepted (last vs)
    || slot.required && not (is_some version)

abbrev pub document_entry : ApplicantDocumentSlot → ApplicantDocumentVersion → DocumentEntry
document_entry slot version = record {
  slot_code = slot.code;
  slot_row_version = slot.row_version;
  document_version_id = version.version_id;
  document_version_number = version.version_number;
  plaintext_sha256 = version.object_record.plaintext_sha256;
}

abbrev pub add_document :
    ApplicantDocumentSlot
    → Option ApplicantDocumentVersion
    → Bool
    → List DocumentEntry × List Unresolved
    → List DocumentEntry × List Unresolved
add_document slot version true (entries, unresolved) = (entries, document slot.code ∷ unresolved)
add_document slot none false done = done
add_document slot (some version) false (entries, unresolved) =
    (document_entry slot version ∷ entries, unresolved)

-- one round of the second loop; `none` is a KeyError of `versions`
abbrev pub with_versions :
    Slots
    → ApplicantDocumentSlot
    → Option (List ApplicantDocumentVersion)
    → Option (List DocumentEntry × List Unresolved)
    → Option (List DocumentEntry × List Unresolved)
with_versions s slot (some vs) (some done) =
    let version = active_version s slot in
    some (add_document slot version (is_unresolved slot version vs) done)
with_versions s slot _ _ = none

-- the second loop of `_manifest`
unfoldable pub manifest_documents :
    Slots → List ApplicantDocumentSlot → Option (List DocumentEntry × List Unresolved)
manifest_documents s [] = some ([], [])
manifest_documents s (slot ∷ slots) =
    with_versions s slot (versions s slot.slot_id) (manifest_documents s slots)

abbrev pub assemble :
    List SectionEntry × List Unresolved
    → Option (List DocumentEntry × List Unresolved)
    → Option (Manifest × List Unresolved)
assemble (sections, unresolved) none = none
assemble (sections, unresolved) (some (documents, more)) =
    some (
      record { schema_version = 1; sections = sections; documents = documents },
      unresolved ++ more,
    )

unfoldable pub manifest_of :
    {V : Type 0} → (Values V → String) → Finalization V → ℕ → Option (Manifest × List Unresolved)
unfolding manifest_sections manifest_documents
manifest_of canonical_hash s application_id =
    assemble (manifest_sections canonical_hash s application_id required_sections)
      (manifest_documents s.document_slots (slots_for_application s.document_slots application_id))
