-- ===== src/Fields/Upgrading/Idempotence.antt =====
-- app/applicant/fields.py: a section that was upgraded is upgraded no further.
use ehf_applications.Prelude.{
  String, true, false, none, some, [], ◌∷◌, ◌==◌, ◌≡◌, refl, sym, ap, ◌∙◌, inl, inr, string_eq,
  if◌then◌else◌, is_some, strip, arith, Bool-cases, Option-cases, beq_refl,
}
use ehf_applications.Prelude.Dict.{get, put, remove, get-put, get-remove, get-put_self}
use ehf_applications.Json.{Json, null, boolean, array, nil, or_null}
use ehf_applications.Fields.Normalizing.{Python}
use ehf_applications.Fields.Sections.{Values}
use ehf_applications.Fields.Upgrading.{
  is_text, upgrade_identity, upgrade_employment, upgrade_qualifications, upgrade_publications,
  upgrade_legacy_section, set_default, profile_of, employment_status, is_settled, status_of,
}

module _ {F : Type 0} where
  remove-absent : (v : Values F) (k : String) → get v k ≡ none → remove v k ≡ v
  unfolding get remove
  remove-absent [] k h = refl
  remove-absent ((j, x) ∷ v) k h = elim (Bool-cases (j == k)) [
    | inl same ↦ absurd (ground arith)
    | inr other ↦ rw other (ap (λ l. (j, x) ∷ l) (remove-absent v k (rw other at h)))
  ]

  get-removed : (v : Values F) (k : String) → get (remove v k) k ≡ none
  get-removed v k = get-remove v k k ∙ rw (beq_refl k) refl

  get-removed_other :
      (v : Values F) (a k : String) → (a == k) ≡ false → get (remove v a) k ≡ get v k
  get-removed_other v a k h = get-remove v a k ∙ rw h refl

  -- what is removed stays away
  get-removed_still : (v : Values F) (a k : String) → get v k ≡ none → get (remove v a) k ≡ none
  get-removed_still v a k h = get-remove v a k ∙ ground (arith, Bool-cases (a == k))

  -- a second removal of two keys changes nothing
  removed_twice :
      (v : Values F) (a b : String)
      → remove (remove (remove (remove v a) b) a) b ≡ remove (remove v a) b
  removed_twice v a b =
      ap (λ u. remove u b)
        (remove-absent (remove (remove v a) b) a
          (get-removed_still (remove v a) b a (get-removed v a)))
      ∙ remove-absent (remove (remove v a) b) b (get-removed (remove v a) b)

  set_default-present :
      (k : String) (x : Json F) (v : Values F) {y : Json F}
      → get v k ≡ some y
      → set_default k x v ≡ v
  set_default-present k x v h = rw h refl

  get-set_default :
      (k : String) (x : Json F) (v : Values F) → (y : Json F) × (get (set_default k x v) k ≡ some y)
  get-set_default k x v = elim (Option-cases (get v k)) [
    | inl missing ↦ (x, rw missing (get-put_self v k x))
    | inr (y, found) ↦ (y, rw found found)
  ]

  get-set_default_other :
      (k j : String) (x : Json F) (v : Values F) {y : Json F}
      → (k == j) ≡ false
      → get v j ≡ some y
      → get (set_default k x v) j ≡ some y
  get-set_default_other k j x v h found = elim (Bool-cases (is_some (get v k))) [
    | inl has ↦ rw has found
    | inr lacks ↦ rw lacks (get-put v k j x ∙ rw h found)
  ]

  settle : Values F → Values F
  settle v = if is_text "Self-describe" (or_null (get v "gender")) then put v "gender" null else v

  get-settle : (v : Values F) → is_text "Self-describe" (or_null (get (settle v) "gender")) ≡ false
  unfolding settle
  get-settle v = elim (Bool-cases (is_text "Self-describe" (or_null (get v "gender")))) [
    | inl described ↦ rw (described, get-put_self v "gender" null) refl
    | inr other ↦ rw other other
  ]

  upgrade_identity-settle :
      (v : Values F) → upgrade_identity v ≡ remove (settle v) "genderSelfDescription"
  unfolding upgrade_identity settle
  upgrade_identity-settle v = refl

  settle_settled :
      (v : Values F) → is_text "Self-describe" (or_null (get v "gender")) ≡ false → settle v ≡ v
  unfolding settle
  settle_settled v h = rw h refl

  upgrade_identity_idem :
      (v : Values F) → upgrade_identity (upgrade_identity v) ≡ upgrade_identity v
  upgrade_identity_idem v =
      let u = remove (settle v) "genderSelfDescription" in
      let stays : is_text "Self-describe" (or_null (get u "gender")) ≡ false =
        ap (λ o. is_text "Self-describe" (or_null o))
          (get-removed_other (settle v) "genderSelfDescription" "gender" refl)
        ∙ get-settle v in
      ap upgrade_identity (upgrade_identity-settle v)
      ∙ upgrade_identity-settle u
      ∙ ap (λ w. remove w "genderSelfDescription") (settle_settled u stays)
      ∙ remove-absent u "genderSelfDescription" (get-removed (settle v) "genderSelfDescription")
      ∙ sym (upgrade_identity-settle v)

  -- One that sets a default and then removes two other keys does nothing the second time.
  default_idem :
      (k a b : String) (x x' : Json F) (v : Values F)
      → (a == k) ≡ false
      → (b == k) ≡ false
      → remove (remove (set_default k x' (remove (remove (set_default k x v) a) b)) a) b
        ≡ remove (remove (set_default k x v) a) b
  default_idem k a b x x' v ha hb =
      let w = set_default k x v in
      let (y, found) = get-set_default k x v in
      let stays = get-removed_other (remove w a) b k hb ∙ get-removed_other w a k ha ∙ found in
      ap (λ u. remove (remove u a) b) (set_default-present k x' (remove (remove w a) b) stays)
      ∙ removed_twice w a b

  with_profile : Values F → Json F → Values F
  with_profile v x = set_default "hasGoogleScholarProfile" x v

  upgraded_publications : Values F → Values F
  upgraded_publications w =
      remove (remove (set_default "publications" (array nil) w) "noGoogleScholarProfile")
        "googleScholarCitationTotal"

  upgrade_publications-parts :
      (v : Values F)
      → upgrade_publications v ≡ upgraded_publications (with_profile v (profile_of v))
  unfolding upgrade_publications upgraded_publications with_profile
  upgrade_publications-parts v = refl

  with_profile-upgraded :
      (v : Values F) (x x' : Json F)
      → with_profile (upgraded_publications (with_profile v x)) x'
        ≡ upgraded_publications (with_profile v x)
  unfolding upgraded_publications with_profile
  with_profile-upgraded v x x' =
      let w = set_default "hasGoogleScholarProfile" x v in
      let (y, found) = get-set_default "hasGoogleScholarProfile" x v in
      let z = set_default "publications" (array nil) w in
      let stays =
        get-removed_other (remove z "noGoogleScholarProfile") "googleScholarCitationTotal"
          "hasGoogleScholarProfile" refl
        ∙ get-removed_other z "noGoogleScholarProfile" "hasGoogleScholarProfile" refl
        ∙ get-set_default_other "publications" "hasGoogleScholarProfile" (array nil) w refl found in
      set_default-present "hasGoogleScholarProfile" x' _ stays

  upgraded_publications_idem :
      (w : Values F) → upgraded_publications (upgraded_publications w) ≡ upgraded_publications w
  unfolding upgraded_publications
  upgraded_publications_idem w =
      default_idem "publications" "noGoogleScholarProfile" "googleScholarCitationTotal" (array nil)
        (array nil) w refl refl

  upgrade_publications_idem :
      (v : Values F) → upgrade_publications (upgrade_publications v) ≡ upgrade_publications v
  upgrade_publications_idem v =
      let u = upgraded_publications (with_profile v (profile_of v)) in
      ap upgrade_publications (upgrade_publications-parts v)
      ∙ upgrade_publications-parts u
      ∙ ap upgraded_publications (with_profile-upgraded v (profile_of v) (profile_of u))
      ∙ upgraded_publications_idem (with_profile v (profile_of v))
      ∙ sym (upgrade_publications-parts v)

module _ {F : Type 0} (python : Python F) where
  upgrade_qualifications_idem :
      (v : Values F)
      → upgrade_qualifications python (upgrade_qualifications python v)
        ≡ upgrade_qualifications python v
  unfolding upgrade_qualifications
  upgrade_qualifications_idem v = default_idem "degrees" "degreeCategory" "phdDate" _ _ v refl refl

  settled_words : (w : String) → is_settled python (status_of python w) ≡ true
  settled_words w = ground arith

  settled_status : (x : Json F) → is_settled python (employment_status python x) ≡ true
  unfolding employment_status
  settled_status null = refl
  settled_status (boolean b) = refl
  settled_status x = settled_words (python.casefold (strip (python.str_of x)))

  kept_employment :
      (v : Values F)
      → is_settled python (or_null (get v "postdoctoralEmploymentStatus")) ≡ true
      → upgrade_employment python v ≡ v
  unfolding upgrade_employment
  kept_employment v settled = rw (upgrade_employment, settled) refl

  set_employment :
      (v : Values F)
      → is_settled python (or_null (get v "postdoctoralEmploymentStatus")) ≡ false
      → upgrade_employment python v
        ≡ put v "postdoctoralEmploymentStatus"
            (employment_status python (or_null (get v "postdoctoralEmploymentStatus")))
  unfolding upgrade_employment
  set_employment v unsettled = rw (upgrade_employment, unsettled) refl

  upgrade_employment_idem :
      (v : Values F)
      → upgrade_employment python (upgrade_employment python v) ≡ upgrade_employment python v
  upgrade_employment_idem v =
      elim (Bool-cases (is_settled python (or_null (get v "postdoctoralEmploymentStatus")))) [
        | inl settled ↦ ap (upgrade_employment python) (kept_employment v settled)
        | inr unsettled ↦
            let status =
              employment_status python (or_null (get v "postdoctoralEmploymentStatus")) in
            let u = put v "postdoctoralEmploymentStatus" status in
            let now : is_settled python (or_null (get u "postdoctoralEmploymentStatus")) ≡ true =
              ap (λ o. is_settled python (or_null o))
                (get-put_self v "postdoctoralEmploymentStatus" status)
              ∙ settled_status (or_null (get v "postdoctoralEmploymentStatus")) in
            ap (upgrade_employment python) (set_employment v unsettled)
            ∙ kept_employment u now
            ∙ sym (set_employment v unsettled)
      ]

  as_idem :
      (section : String) (f : Values F → Values F) (v : Values F)
      → ((u : Values F) → upgrade_legacy_section python section u ≡ f u)
      → f (f v) ≡ f v
      → upgrade_legacy_section python section (upgrade_legacy_section python section v)
        ≡ upgrade_legacy_section python section v
  as_idem section f v is_f idem =
      is_f (upgrade_legacy_section python section v) ∙ ap f (is_f v) ∙ idem ∙ sym (is_f v)

  -- A section that was upgraded is upgraded no further: upgrading it again changes nothing.
  pub upgrade_legacy_section_idem :
      (section : String) (v : Values F)
      → upgrade_legacy_section python section (upgrade_legacy_section python section v)
        ≡ upgrade_legacy_section python section v
  unfolding upgrade_legacy_section
  upgrade_legacy_section_idem section v = elim (Bool-cases (section == "identity")) [
    | inl i ↦
        as_idem section upgrade_identity v (λ u. rw (upgrade_legacy_section, i) refl)
          (upgrade_identity_idem v)
    | inr not_i ↦ elim (Bool-cases (section == "employment")) [
      | inl e ↦
          as_idem section (upgrade_employment python) v
            (λ u. rw (upgrade_legacy_section, not_i, e) refl) (upgrade_employment_idem v)
      | inr not_e ↦ elim (Bool-cases (section == "qualifications")) [
        | inl q ↦
            as_idem section (upgrade_qualifications python) v
              (λ u. rw (upgrade_legacy_section, not_i, not_e, q) refl)
              (upgrade_qualifications_idem v)
        | inr not_q ↦ elim (Bool-cases (section == "publications")) [
          | inl p ↦
              as_idem section upgrade_publications v
                (λ u. rw (upgrade_legacy_section, not_i, not_e, not_q, p) refl)
                (upgrade_publications_idem v)
          | inr not_p ↦
              as_idem section (λ u. u) v
                (λ u. rw (upgrade_legacy_section, not_i, not_e, not_q, not_p) refl) refl
        ]
      ]
    ]
  ]
