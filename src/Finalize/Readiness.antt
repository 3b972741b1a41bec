-- ===== src/Finalize/Readiness.antt =====
-- When an application can be submitted, in app/applicant/finalize.py.
use ehf_applications.Prelude.{
  ℕ, String, nat_eq, string_eq, pair_eq, ◌≡◌, refl, Option, none, some, List, [], ◌∷◌, ◌++◌, All,
  arith, Option-cases, Bool-cases, inl, inr, ◌==◌, ok, ap, ◌≢◌,
}
use ehf_applications.Drafts.{Values}
use ehf_applications.Documents.{slots_for_application, status_eq}
use ehf_applications.Finalize.{
  Finalization, FinalConfirmation, Manifest, SectionEntry, DocumentEntry, Unresolved,
  manifest_sections, manifest_documents, manifest_of, required_sections, new_final, assemble,
  submit, active,
}
use ehf_applications.Finalize.Parts.{
  SectionIsReady, SlotIsReady, sections-ready, ready-sections, documents-ready, ready-documents,
}

append-empty : {A : Type 0} (xs ys : List A) → xs ++ ys ≡ [] → (xs ≡ []) × (ys ≡ [])
append-empty [] ys h = (refl, h)
append-empty (x ∷ xs) ys h = cc

assemble-resolved :
    (ss : List SectionEntry × List Unresolved) (ds : Option (List DocumentEntry × List Unresolved))
    (m : Manifest)
    → assemble ss ds ≡ some (m, [])
    → (ss.1 ≡ [])
      × (found : List DocumentEntry × List Unresolved) × (ds ≡ some found)
      × (found.1 ≡ [])
assemble-resolved (sections, unresolved) none m h = cc
assemble-resolved (sections, unresolved) (some (documents, more)) m h =
    let (first, second) = append-empty unresolved more (cc) in
    (first, (documents, more), refl, second)

resolved-assemble :
    (ss : List SectionEntry × List Unresolved) (ds : Option (List DocumentEntry × List Unresolved))
    (entries : List DocumentEntry)
    → ss.1 ≡ []
    → ds ≡ some (entries, [])
    → assemble ss ds
      ≡ some (record { schema_version = 1; sections = ss.0; documents = entries }, [])
resolved-assemble (sections, unresolved) ds entries h k = ground arith

module _ {V : Type 0} (canonical_hash : Values V → String) (s : Finalization V) (a : ℕ) where
  -- Every required section and every slot of the application is ready.
  abbrev pub IsReady : Type 0
  IsReady =
      All (SectionIsReady canonical_hash s a) required_sections
      × All (SlotIsReady s.document_slots) (slots_for_application s.document_slots a)

  resolved-IsReady : (m : Manifest) → manifest_of canonical_hash s a ≡ some (m, []) → IsReady
  unfolding manifest_of
  resolved-IsReady m h =
      let slots = slots_for_application s.document_slots a in
      let (first, found, at, second) =
        assemble-resolved (manifest_sections canonical_hash s a required_sections)
          (manifest_documents s.document_slots slots) m h in
      (
        sections-ready canonical_hash s a required_sections first,
        documents-ready s.document_slots slots found at second,
      )

  IsReady-resolved : IsReady → (m : Manifest) × (manifest_of canonical_hash s a ≡ some (m, []))
  unfolding manifest_of
  IsReady-resolved (sections, documents) =
      let slots = slots_for_application s.document_slots a in
      let (entries, found) = ready-documents s.document_slots slots documents in
      (
        record {
          schema_version = 1;
          sections = (manifest_sections canonical_hash s a required_sections).0;
          documents = entries;
        },
        resolved-assemble (manifest_sections canonical_hash s a required_sections)
            (manifest_documents s.document_slots slots) entries
            (ready-sections canonical_hash s a required_sections sections) found,
      )

module _ {V : Type 0} (canonical_hash : Values V → String) (manifest_hash : Manifest → String)
    (fresh now a : ℕ) (s : Finalization V) where
  submit_missing :
      manifest_of canonical_hash s a ≡ none
      → (c : FinalConfirmation) → (submit canonical_hash manifest_hash fresh now a s).0 ≢ ok c
  unfolding submit
  submit_missing failed c h = absurd (ground arith)

  submit-resolved :
      (m : Manifest) (u : List Unresolved) (c : FinalConfirmation)
      → manifest_of canonical_hash s a ≡ some (m, u)
      → (submit canonical_hash manifest_hash fresh now a s).0 ≡ ok c
      → u ≡ []
  unfolding submit
  submit-resolved m [] c at h = refl
  submit-resolved m (x ∷ u) c at h = absurd (ground arith)

  -- A submission that returns finds every required section drafted and confirmed at its content,
  -- and every document slot of the application closed, with its latest version accepted and, where
  -- the slot is required, a visible version.
  pub submit-IsReady :
      (c : FinalConfirmation)
      → (submit canonical_hash manifest_hash fresh now a s).0 ≡ ok c
      → IsReady canonical_hash s a
  submit-IsReady c h = elim (Option-cases (manifest_of canonical_hash s a)) [
    | inl failed ↦ absurd (submit_missing failed c h)
    | inr (m, at) ↦
        resolved-IsReady canonical_hash s a m.0
          (rw at (ap (λ u. some (m.0, u)) (submit-resolved m.0 m.1 c at h)))
  ]

  -- Where every required section and every document slot is ready, a submission returns.
  pub IsReady-submit :
      IsReady canonical_hash s a
      → (c : FinalConfirmation) × ((submit canonical_hash manifest_hash fresh now a s).0 ≡ ok c)
  unfolding submit
  IsReady-submit ready =
      let (m, at) = IsReady-resolved canonical_hash s a ready in
      let item = new_final fresh now a m (manifest_hash m) in
      elim (Option-cases (active s.confirmations a)) [
        | inl none_yet ↦ (item, ground arith)
        | inr (kept, found) ↦ elim (Bool-cases (kept.manifest_sha256 == manifest_hash m)) [
          | inl same ↦ (kept, ground arith)
          | inr other ↦ (item, ground arith)
        ]
      ]
