-- ===== src/Finalize/Parts.antt =====
-- When a section and a document slot are ready: a description without the loops of `_manifest`, in
-- app/applicant/finalize.py.
use ehf_applications.Prelude.{
  ℕ, String, nat_eq, string_eq, pair_eq, ◌≡◌, refl, true, false, some, List, [], ◌∷◌, All, last,
  is_some, arith, Option-cases, Bool-cases, inl, inr, eq_iff, beq_refl, eq_of_beq, ◌==◌,
}
use ehf_applications.Drafts.{DraftSnapshot, Values, load}
use ehf_applications.Confirmations.{SectionConfirmation, current, is_current}
use ehf_applications.Documents.{
  Slots, ApplicantDocumentSlot, ApplicantDocumentVersion, versions, active_version, accepted,
  status_eq, VersionStatus,
}
use ehf_applications.Finalize.{
  Finalization, SectionEntry, DocumentEntry, Unresolved, section_entry, manifest_sections,
  manifest_documents, is_unresolved, document_entry,
}

status_refl : (st : VersionStatus) → (st == st) ≡ true
status_refl st = beq_refl st

module _ {V : Type 0} (canonical_hash : Values V → String) (s : Finalization V) (a : ℕ) where
  -- The section has a draft and a confirmation of the draft's content.
  abbrev pub SectionIsReady : String → Type 0
  SectionIsReady name =
      (d : DraftSnapshot V) × (c : SectionConfirmation) × (load s.drafts a name ≡ some d)
      × (current s.section_confirmations a name ≡ some c)
      × (c.canonical_sha256 ≡ canonical_hash d.values)

  section_entry-ready :
      (name : String) (e : SectionEntry)
      → section_entry canonical_hash s a name ≡ some e
      → SectionIsReady name
  unfolding section_entry is_current
  section_entry-ready name e h = elim (Option-cases (load s.drafts a name)) [
    | inl no_draft ↦ absurd (ground arith)
    | inr (d, at) ↦ elim (Option-cases (current s.section_confirmations a name)) [
      | inl unconfirmed ↦ absurd (ground arith)
      | inr (c, there) ↦
          (d, c, at, there, ground (arith, eq_iff c.canonical_sha256 (canonical_hash d.values)))
    ]
  ]

  ready-section_entry :
      (name : String)
      → SectionIsReady name
      → (e : SectionEntry) × (section_entry canonical_hash s a name ≡ some e)
  unfolding section_entry is_current
  ready-section_entry name (d, c, at, there, same) = (
    record { section = name; row_version = d.row_version; canonical_sha256 = c.canonical_sha256 },
    ground (arith, eq_iff c.canonical_sha256 (canonical_hash d.values)),
  )

  pub sections-ready :
      (names : List String)
      → (manifest_sections canonical_hash s a names).1 ≡ []
      → All SectionIsReady names
  unfolding manifest_sections
  sections-ready [] h = tt
  sections-ready (name ∷ names) h = elim (Option-cases (section_entry canonical_hash s a name)) [
    | inl missing ↦ absurd (ground arith)
    | inr (e, at) ↦ (section_entry-ready name e at, sections-ready names (ground arith))
  ]

  pub ready-sections :
      (names : List String)
      → All SectionIsReady names
      → (manifest_sections canonical_hash s a names).1 ≡ []
  unfolding manifest_sections
  ready-sections [] h = refl
  ready-sections (name ∷ names) (h, hs) =
      let (e, at) = ready-section_entry name h in let rest = ready-sections names hs in ground arith

module _ (s : Slots) where
  -- The slot is closed, its latest version is accepted, and a required slot has a visible version.
  abbrev pub SlotIsReady : ApplicantDocumentSlot → Type 0
  SlotIsReady slot =
      (vs : List ApplicantDocumentVersion) × (versions s slot.slot_id ≡ some vs)
      × (slot.upload_mode ≡ "CLOSED")
      × ((v : ApplicantDocumentVersion) → last vs ≡ some v → v.status ≡ accepted)
      × (slot.required ≡ true → is_some (active_version s slot) ≡ true)

  resolved-SlotIsReady :
      (slot : ApplicantDocumentSlot) (vs : List ApplicantDocumentVersion)
      → versions s slot.slot_id ≡ some vs
      → is_unresolved slot (active_version s slot) vs ≡ false
      → SlotIsReady slot
  resolved-SlotIsReady slot vs at h = (
    vs,
    at,
    eq_of_beq slot.upload_mode "CLOSED" (ground arith),
    λ v found. eq_of_beq v.status accepted (ground arith),
    λ required. ground arith,
  )

  SlotIsReady-resolved :
      (slot : ApplicantDocumentSlot)
      → (ready : SlotIsReady slot) → is_unresolved slot (active_version s slot) ready.0 ≡ false
  SlotIsReady-resolved slot (vs, at, closed, latest, has) = elim (Option-cases (last vs)) [
    | inl none_yet ↦ ground (
      arith,
      beq_refl slot.upload_mode,
      eq_iff slot.upload_mode "CLOSED",
      Bool-cases slot.required,
    )
    | inr (v, found) ↦
        let same = latest v found in
        ground
          (arith, eq_iff slot.upload_mode "CLOSED", status_refl v.status, Bool-cases slot.required)
  ]

  pub documents-ready :
      (slots : List ApplicantDocumentSlot) (found : List DocumentEntry × List Unresolved)
      → manifest_documents s slots ≡ some found
      → found.1 ≡ []
      → All SlotIsReady slots
  unfolding manifest_documents
  documents-ready [] found h k = tt
  documents-ready (slot ∷ slots) found h k = elim (Option-cases (manifest_documents s slots)) [
    | inl failed ↦ absurd (ground arith)
    | inr (rest, done) ↦ elim (Option-cases (versions s slot.slot_id)) [
      | inl failed ↦ absurd (ground arith)
      | inr (vs, at) ↦ (
        resolved-SlotIsReady slot vs at (ground arith),
        documents-ready slots rest done (ground arith),
      )
    ]
  ]

  pub ready-documents :
      (slots : List ApplicantDocumentSlot)
      → All SlotIsReady slots
      → (entries : List DocumentEntry) × (manifest_documents s slots ≡ some (entries, []))
  unfolding manifest_documents
  ready-documents [] h = ([], refl)
  ready-documents (slot ∷ slots) (h, hs) =
      let (entries, done) = ready-documents slots hs in
      let resolved = SlotIsReady-resolved slot h in
      elim (Option-cases (active_version s slot)) [
        | inl nothing ↦ (entries, ground arith)
        | inr (v, at) ↦ (document_entry slot v ∷ entries, ground arith)
      ]
