-- ===== src/Projection/AllowList.antt =====
-- app/applicant/projection.py: only approved fields of one's own application leave the service.
use ehf_applications.Prelude.{
  ℕ, String, Bool, true, false, Option, none, some, inl, inr, map, keep, List, [], ◌∷◌, ◌==◌, ◌≡◌,
  refl, sym, ap, ◌∙◌, string_eq, nat_eq, if◌then◌else◌, member, All, arith, Bool-cases,
  Option-cases, beq_refl, find,
}
use mathlib.Core.Path.{subst}
use ehf_applications.Prelude.Dict.{Dict, get, get-put, get-put_self}
use ehf_applications.Json.{Json, or_null}
use ehf_applications.Fields.Normalizing.{Python}
use ehf_applications.Fields.Sections.{Values}
use ehf_applications.Fields.Upgrading.{is_text, upgrade_legacy_applicant}
use ehf_applications.Projection.{
  RawProjection, Records, Projection, applicant_fields, section_fields, document_fields,
  is_safe_code, add_application, load_raw, allow, is_visible, visible_fields, visible_documents,
  allowed_sections, visible_document, project, load,
}

member-own : (key : String) (keys : List String) → member key (key ∷ keys) ≡ true
unfolding member
member-own key keys = rw (beq_refl key) refl

module _ {F : Type 0} where
  -- every key is one of the list's
  abbrev pub OnlyKeys : List String → Values F → Type 0
  OnlyKeys keys v = All (λ (k, x). member k keys ≡ true) v

  OnlyKeys-weaken :
      (key : String) (keys : List String) (v : Values F) → OnlyKeys keys v → OnlyKeys (key ∷ keys) v
  unfolding member
  OnlyKeys-weaken key keys [] h = tt
  OnlyKeys-weaken key keys ((k, x) ∷ v) h = (ground (arith, h.0), OnlyKeys-weaken key keys v h.1)

  allow-OnlyKeys : (source : Values F) (keys : List String) → OnlyKeys keys (allow source keys)
  unfolding allow
  allow-OnlyKeys source [] = tt
  allow-OnlyKeys source (key ∷ keys) =
      let rest = OnlyKeys-weaken key keys (allow source keys) (allow-OnlyKeys source keys) in
      allow_with (get source key) rest
    where
      allow_with :
          (o : Option (Json F))
          → OnlyKeys (key ∷ keys) (allow source keys)
          → OnlyKeys
              (key ∷ keys)
              (elim o [ none ↦ allow source keys | some value ↦ (key, value) ∷ allow source keys ])
      allow_with none rest = rest
      allow_with (some value) rest = (member-own key keys, rest)

  visible_fields-visible :
      (d : Values F)
      → visible_fields d ≡ (if is_visible d then some (allow d document_fields) else none)
  unfolding visible_fields
  visible_fields-visible d = refl

  visible_documents-step :
      (d : Values F) (documents : List (Values F))
      → visible_documents (d ∷ documents) ≡ (
          if is_visible d
          then allow d document_fields ∷ visible_documents documents
          else visible_documents documents)
  unfolding visible_documents
  visible_documents-step d documents =
      ap
        (λ o. elim o [
          | none ↦ visible_documents documents
          | some visible ↦ visible ∷ visible_documents documents
        ])
        (visible_fields-visible d)
      ∙ pushed (is_visible d)
    where
      pushed :
          (b : Bool)
          → (elim (if b then some (allow d document_fields) else none) [
            | none ↦ visible_documents documents
            | some visible ↦ visible ∷ visible_documents documents
          ])
            ≡ (if b
                then allow d document_fields ∷ visible_documents documents
                else visible_documents documents)
      pushed true = refl
      pushed false = refl

  visible_documents-nil : visible_documents {F = F} [] ≡ []
  unfolding visible_documents
  visible_documents-nil = refl

  visible_documents-filter :
      (documents : List (Values F))
      → visible_documents documents ≡ map (λ d. allow d document_fields) (keep is_visible documents)
  visible_documents-filter [] = visible_documents-nil
  visible_documents-filter (d ∷ documents) =
      visible_documents-step d documents
      ∙ ap (λ l. if is_visible d then allow d document_fields ∷ l else l)
          (visible_documents-filter documents)
      ∙ pushed (is_visible d)
    where
      pushed :
          (b : Bool)
          → (if b
              then allow d document_fields
                ∷ map (λ d. allow d document_fields) (keep is_visible documents)
              else map (λ d. allow d document_fields) (keep is_visible documents))
            ≡ map
                (λ d. allow d document_fields)
                (if b then d ∷ keep is_visible documents else keep is_visible documents)
      pushed true = refl
      pushed false = refl

  abbrev pub IsApproved : String × Values F → Type 0
  IsApproved (code, section) = (is_safe_code code ≡ true) × OnlyKeys section_fields section

  allowed_sections-IsApproved :
      (sections : Dict String (Values F)) → All IsApproved (allowed_sections sections)
  unfolding allowed_sections
  allowed_sections-IsApproved [] = tt
  allowed_sections-IsApproved ((code, section) ∷ rest) = elim (Bool-cases (is_safe_code code)) [
    | inl safe ↦
        rw safe ((safe, allow-OnlyKeys section section_fields), allowed_sections-IsApproved rest)
    | inr unsafe ↦ rw unsafe (allowed_sections-IsApproved rest)
  ]

  -- A document that is shown by its identifier is a visible one of the session's application, and
  -- only its approved fields are shown.
  pub visible_document-visible :
      (records : Records F) (application_id : ℕ) (document_id : String) (shown : Values F)
      → visible_document records application_id document_id ≡ some shown
      → (raw : RawProjection F) × (document : Values F) × (get records application_id ≡ some raw)
        × (find (λ d. is_text document_id (or_null (get d "documentId"))) raw.documents
            ≡ some document)
        × (is_visible document ≡ true)
        × (shown ≡ allow document document_fields)
  unfolding visible_document load_raw visible_fields
  visible_document-visible records application_id document_id shown h =
      elim (Option-cases (get records application_id)) [
        | inl missing ↦ absurd (ground arith)
        | inr (raw, found) ↦
            elim (Option-cases
              (find (λ d. is_text document_id (or_null (get d "documentId"))) raw.documents)) [
                | inl nothing ↦ absurd (ground arith)
                | inr (document, named) ↦ elim (Bool-cases (is_visible document)) [
                  | inr hidden ↦ absurd (ground arith)
                  | inl visible ↦ (raw, document, found, named, visible, ground arith)
                ]
              ]
      ]

module _ {F : Type 0} (python : Python F) where
  -- What a session is given of its application has only approved fields of the applicant, only
  -- sections with safe codes and approved fields, and exactly the visible documents, in their
  -- order and cut to their approved fields.
  pub load-IsApproved :
      (records : Records F) (application_id : ℕ) (p : Projection F)
      → load python records application_id ≡ some p
      → (raw : RawProjection F) × (get records application_id ≡ some raw)
        × OnlyKeys applicant_fields p.applicant
        × All IsApproved p.sections
        × (p.documents ≡ map (λ d. allow d document_fields) (keep is_visible raw.documents))
  unfolding load load_raw
  load-IsApproved records application_id p h = elim (Option-cases (get records application_id)) [
    | inl missing ↦ absurd (ground arith)
    | inr (raw, found) ↦
        let same : project python raw ≡ p = ground arith in
        (
          raw,
          found,
          subst (λ q. OnlyKeys applicant_fields q.applicant) same
              (allow-OnlyKeys (upgrade_legacy_applicant python raw.applicant) applicant_fields),
          subst (λ q. All IsApproved q.sections) same (allowed_sections-IsApproved raw.sections),
          sym (ap (λ q. q.documents) same) ∙ visible_documents-filter raw.documents,
        )
  ]

  load-found :
      (records : Records F) (application_id : ℕ) {raw : RawProjection F}
      → get records application_id ≡ some raw
      → load python records application_id ≡ some (project python raw)
  unfolding load load_raw
  load-found records application_id found = rw (load, found) refl

  -- Internal values and every other application are without influence on it.
  pub load-add_application :
      (records records' : Records F) (application_id other : ℕ) (applicant : Values F)
      (sections : Dict String (Values F)) (documents : List (Values F))
      (internal internal' : Values F) (a' : Values F) (s' : Dict String (Values F))
      (d' : List (Values F)) (i' : Values F)
      → (other == application_id) ≡ false
      → load python
          (add_application other a' s' d' i'
            (add_application application_id applicant sections documents internal records))
          application_id
        ≡ load python
            (add_application application_id applicant sections documents internal' records')
            application_id
  unfolding add_application
  load-add_application records records' application_id other applicant sections documents internal
        internal' a' s' d' i' h =
      let raw : RawProjection F = record {
        applicant = applicant;
        sections = sections;
        documents = documents;
        internal = internal;
      } in
      let raw' : RawProjection F = record {
        applicant = applicant;
        sections = sections;
        documents = documents;
        internal = internal';
      } in
      let theirs : RawProjection F = record {
        applicant = a';
        sections = s';
        documents = d';
        internal = i';
      } in
      let own = add_application application_id applicant sections documents internal records in
      let found : get (add_application other a' s' d' i' own) application_id ≡ some raw =
        get-put own other application_id theirs ∙ rw h (get-put_self records application_id raw) in
      load-found (add_application other a' s' d' i' own) application_id found
      ∙ sym (
          load-found
            (add_application application_id applicant sections documents internal' records')
            application_id (get-put_self records' application_id raw'))
