-- ===== src/Fields/Sections/Accepted.antt =====
-- app/applicant/fields.py: what a section holds that `validate_section` accepts.
use ehf_applications.Prelude.{
  ℕ, String, Bool, true, false, not, ◌&&◌, List, [], ◌∷◌, ◌==◌, ◌≡◌, ◌≢◌, refl, sym, ap, ◌∙◌, ◌⊎◌,
  inl, inr, string_eq, find, is_some, all, All, ok, arith, Bool-cases, Option-cases, Result-cases,
  eq_of_beq,
}
use mathlib.Core.Path.{subst}
use ehf_applications.Prelude.Dict.{Dict, get, put, get-put, All-put, All-map}
use ehf_applications.Json.{Json, null, or_null, is_true}
use ehf_applications.Fields.Inventory.{FieldDefinition, definitions_of}
use ehf_applications.Fields.Normalizing.{Python, bad, overflow, normalize}
use ehf_applications.Fields.Sections.{
  Values, Work, with_error, error_if, value_at, is_missing, identity_rules, count_rules,
  count_codes, publication_rules, required_rules, employment_rules, take_value, take_values,
  section_rules, validate_section, judged, when_final, is_nothing, without_profile, is_false,
}

put-ne_nil : {V : Type 0} (d : Dict String V) (k : String) (v : V) → put d k v ≢ []
unfolding put
put-ne_nil [] k v h = cc
put-ne_nil ((j, w) ∷ d) k v h = elim (Bool-cases (j == k)) [
  | inl same ↦ absurd (ground arith)
  | inr other ↦ absurd (ground arith)
]

module _ {F : Type 0} where
  abbrev Clean : Work F → Type 0
  Clean w = w.errors ≡ []

  error_if-Clean :
      (b : Bool) (code message : String) (w : Work F)
      → Clean (error_if b code message w)
      → (b ≡ false) × (error_if b code message w ≡ w)
  unfolding error_if
  error_if-Clean true code message w h = absurd (put-ne_nil w.errors code message h)
  error_if-Clean false code message w h = (refl, refl)

  identity_rules-Clean :
      (year : ℕ) (w : Work F) → Clean (identity_rules year w) → identity_rules year w ≡ w
  unfolding identity_rules
  identity_rules-Clean year w h =
      let outer = error_if-Clean _ _ _ _ h in
      outer.1 ∙ (error_if-Clean _ _ _ w (subst Clean outer.1 h)).1

  employment_rules-Clean :
      (python : Python F) (year : ℕ) (w : Work F)
      → Clean (employment_rules python year w)
      → employment_rules python year w ≡ w
  unfolding employment_rules
  employment_rules-Clean python year w h =
      let outer = error_if-Clean _ _ _ _ h in
      outer.1 ∙ (error_if-Clean _ _ _ w (subst Clean outer.1 h)).1

  count_rules-Clean :
      (codes : List String) (w : Work F) → Clean (count_rules codes w) → count_rules codes w ≡ w
  unfolding count_rules
  count_rules-Clean [] w h = refl
  count_rules-Clean (code ∷ codes) w h =
      let rest = count_rules-Clean codes _ h in
      rest ∙ (error_if-Clean _ _ _ w (subst Clean rest h)).1

  -- a field that is not required, or is there
  abbrev pub IsFilled : Values F → FieldDefinition → Type 0
  IsFilled v f = (f.required && is_missing (or_null (get v f.code))) ≡ false

  required_rules-Clean :
      (fs : List FieldDefinition) (w : Work F)
      → Clean (required_rules fs w)
      → (required_rules fs w ≡ w) × All (IsFilled w.normalized) fs
  unfolding required_rules
  required_rules-Clean [] w h = (refl, tt)
  required_rules-Clean (f ∷ fs) w h =
      let (rest, filled) = required_rules-Clean fs _ h in
      let (test, same) = error_if-Clean _ _ _ w (subst Clean rest h) in
      (rest ∙ same, (test, subst (λ u. All (IsFilled u.normalized) fs) same filled))

  -- What the rules of a section leave: the values, or those with the address cleared.
  abbrev IsKept : Work F → Work F → Type 0
  IsKept w w' =
      (w' ≡ w) ⊎ (w' ≡ record w { normalized = put w.normalized "googleScholarProfileUrl" null })

  without_profile-errors : (b : Bool) (w : Work F) → (without_profile b w).errors ≡ w.errors
  without_profile-errors true w = refl
  without_profile-errors false w = refl

  without_profile-IsKept : (b : Bool) (w : Work F) → IsKept w (without_profile b w)
  without_profile-IsKept true w = inr refl
  without_profile-IsKept false w = inl refl

  publication_rules-Clean :
      (w : Work F) → Clean (publication_rules w) → IsKept w (publication_rules w) × Clean w
  unfolding publication_rules
  publication_rules-Clean w h =
      let counted = count_rules count_codes w in
      let checked =
        error_if
          (is_true (value_at counted "hasGoogleScholarProfile")
            && is_missing (value_at counted "googleScholarProfileUrl"))
          "googleScholarProfileUrl" "Enter the public Google Scholar profile URL." counted in
      let gone = is_false (value_at counted "hasGoogleScholarProfile") in
      let clean : Clean checked = sym (without_profile-errors gone checked) ∙ h in
      let first = (error_if-Clean _ _ _ counted clean).1 in
      let clean_count = subst Clean first clean in
      let second = count_rules-Clean count_codes w clean_count in
      (
        subst (λ u. IsKept u (without_profile gone checked)) (first ∙ second)
            (without_profile-IsKept gone checked),
        subst Clean second clean_count,
      )

module _ {F : Type 0} (python : Python F) (year : ℕ) where
  abbrev IsCleared : String → Work F → Work F → Type 0
  IsCleared section w w' =
      (w' ≡ w)
      ⊎ ((section ≡ "publications")
          × (w' ≡ record w { normalized = put w.normalized "googleScholarProfileUrl" null }))

  section_rules-Clean :
      (section : String) (w : Work F)
      → Clean (section_rules python year section w)
      → IsCleared section w (section_rules python year section w) × Clean w
  unfolding section_rules
  section_rules-Clean section w h = elim (Bool-cases (section == "identity")) [
    | inl identity ↦
        let as_rules = in_identity section w identity in
        let same = identity_rules-Clean year w (subst Clean as_rules h) in
        (inl (as_rules ∙ same), subst Clean (as_rules ∙ same) h)
    | inr not_identity ↦ elim (Bool-cases (section == "employment")) [
      | inl employment ↦
          let as_rules = in_employment section w not_identity employment in
          let same = employment_rules-Clean python year w (subst Clean as_rules h) in
          (inl (as_rules ∙ same), subst Clean (as_rules ∙ same) h)
      | inr not_employment ↦ elim (Bool-cases (section == "publications")) [
        | inl publications ↦
            let as_rules = in_publications section w not_identity not_employment publications in
            let (kept, clean) = publication_rules-Clean w (subst Clean as_rules h) in
            (
              elim kept [
                | inl same ↦ inl (as_rules ∙ same)
                | inr cleared ↦
                    inr (eq_of_beq section "publications" publications, as_rules ∙ cleared)
              ],
              clean,
            )
        | inr other ↦
            let as_rules = elsewhere section w not_identity not_employment other in
            (inl as_rules, subst Clean as_rules h)
      ]
    ]
  ]
    where
      in_identity :
          (section : String) (w : Work F)
          → (section == "identity") ≡ true
          → section_rules python year section w ≡ identity_rules year w
      in_identity section w i = rw (section_rules, i) refl

      in_employment :
          (section : String) (w : Work F)
          → (section == "identity") ≡ false
          → (section == "employment") ≡ true
          → section_rules python year section w ≡ employment_rules python year w
      in_employment section w i e = rw (section_rules, i, e) refl

      in_publications :
          (section : String) (w : Work F)
          → (section == "identity") ≡ false
          → (section == "employment") ≡ false
          → (section == "publications") ≡ true
          → section_rules python year section w ≡ publication_rules w
      in_publications section w i e p = rw (section_rules, i, e, p) refl

      elsewhere :
          (section : String) (w : Work F)
          → (section == "identity") ≡ false
          → (section == "employment") ≡ false
          → (section == "publications") ≡ false
          → section_rules python year section w ≡ w
      elsewhere section w i e p = rw (section_rules, i, e, p) refl

  abbrev pub IsAllowed : String → String × Json F → Type 0
  IsAllowed section (code, value) =
      is_some (find (λ f. f.code == code) (definitions_of section)) ≡ true

  take_value-IsAllowed :
      (section : String) (final : Bool) (code : String) (raw : Json F) (w w' : Work F)
      → take_value python year (definitions_of section) final code raw w ≡ ok w'
      → All (IsAllowed section) w.normalized
      → All (IsAllowed section) w'.normalized
  unfolding take_value
  take_value-IsAllowed section final code raw w w' h k =
      elim (Option-cases (find (λ f. f.code == code) (definitions_of section))) [
        | inl missing ↦
            let same : with_error code "This field does not belong to the section." w ≡ w' =
              ground arith in
            subst {A = Work F} (λ u. All (IsAllowed section) u.normalized) same k
        | inr (definition, found) ↦ elim (Result-cases (normalize python definition final raw)) [
          | inl (value, normal) ↦
              let same : record w { normalized = put w.normalized code value } ≡ w' =
                ground arith in
              let allowed : is_some (find (λ f. f.code == code) (definitions_of section)) ≡ true =
                rw found refl in
              subst {A = Work F} (λ u. All (IsAllowed section) u.normalized) same
                (All-put (IsAllowed section) w.normalized code value allowed k)
          | inr (bad message, refused) ↦
              let same : with_error code message w ≡ w' = ground arith in
              subst {A = Work F} (λ u. All (IsAllowed section) u.normalized) same k
          | inr (overflow, refused) ↦ absurd (ground arith)
        ]
      ]

  take_values-IsAllowed :
      (section : String) (final : Bool) (values : Values F) (w w' : Work F)
      → take_values python year (definitions_of section) final values w ≡ ok w'
      → All (IsAllowed section) w.normalized
      → All (IsAllowed section) w'.normalized
  unfolding take_values
  take_values-IsAllowed section final [] w w' h k =
      let same : w ≡ w' = ground arith in
      subst {A = Work F} (λ u. All (IsAllowed section) u.normalized) same k
  take_values-IsAllowed section final ((code, raw) ∷ rest) w w' h k =
      elim (Result-cases (take_value python year (definitions_of section) final code raw w)) [
        | inr (e, failed) ↦ absurd (ground arith)
        | inl (middle, taken) ↦
            take_values-IsAllowed section final rest middle w' (ground arith)
              (take_value-IsAllowed section final code raw w middle taken k)
      ]

  -- the section's fields: each that is required is filled, where the section is final
  abbrev pub IsComplete : Bool → Values F → FieldDefinition → Type 0
  IsComplete final v f = (final && f.required && is_missing (or_null (get v f.code))) ≡ false

  judged-ok : (w : Work F) (v : Values F) → judged w ≡ ok v → Clean w × (w.normalized ≡ v)
  judged-ok w v h = elim (Errors-cases w.errors) [
    | inl none_left ↦ (none_left, ground arith)
    | inr (e, es, left) ↦ absurd (ground arith)
  ]
    where
      Errors-cases :
          (d : Dict String String)
          → (d ≡ []) ⊎ ((e : String × String) × (es : Dict String String) × (d ≡ e ∷ es))
      Errors-cases [] = inl refl
      Errors-cases (e ∷ es) = inr (e, es, refl)

  when_final-Clean :
      (final : Bool) (fs : List FieldDefinition) (w : Work F)
      → Clean (when_final python year final fs w)
      → (when_final python year final fs w ≡ w) × All (IsComplete final w.normalized) fs
  when_final-Clean true fs w h =
      let (same, filled) = required_rules-Clean fs w h in (same, All-map _ _ fs (λ f p. p) filled)
  when_final-Clean false fs w h = (refl, anything fs)
    where
      anything : (fs : List FieldDefinition) → All (IsComplete false w.normalized) fs
      anything [] = tt
      anything (f ∷ fs) = (refl, anything fs)

  cleared-IsComplete :
      (final : Bool) (w : Values F) (f : FieldDefinition)
      → not (f.required && "googleScholarProfileUrl" == f.code) ≡ true
      → IsComplete final w f
      → IsComplete final (put w "googleScholarProfileUrl" null) f
  cleared-IsComplete final w f free filled =
      elim (Bool-cases ("googleScholarProfileUrl" == f.code)) [
        | inl same ↦ ground arith
        | inr other ↦ rw (get-put w "googleScholarProfileUrl" f.code null, other) filled
      ]

  all_cleared :
      (final : Bool) (w : Values F) (fs : List FieldDefinition)
      → all (λ f. not (f.required && "googleScholarProfileUrl" == f.code)) fs ≡ true
      → All (IsComplete final w) fs
      → All (IsComplete final (put w "googleScholarProfileUrl" null)) fs
  all_cleared final w [] free filled = tt
  all_cleared final w (f ∷ fs) free filled = (
    cleared-IsComplete final w f (ground arith) filled.0,
    all_cleared final w fs (ground arith) filled.1,
  )

  abbrev IsAccepted : String → Bool → Values F → Type 0
  IsAccepted section final v =
      All (IsAllowed section) v × All (IsComplete final v) (definitions_of section)

  cleared-IsAccepted :
      (section : String) (final : Bool) (w : Values F)
      → section ≡ "publications"
      → IsAccepted section final w
      → IsAccepted section final (put w "googleScholarProfileUrl" null)
  unfolding definitions_of
  cleared-IsAccepted section final w here (allowed, filled) = (
    All-put (IsAllowed section) w "googleScholarProfileUrl" null
        (subst (λ s. IsAllowed s ("googleScholarProfileUrl", null)) (sym here) refl) allowed,
    all_cleared final w (definitions_of section)
        (subst
          (λ s.
            all (λ f. not (f.required && "googleScholarProfileUrl" == f.code)) (definitions_of s)
            ≡ true)
          (sym here) refl)
        filled,
  )

  -- A section that is accepted has only fields of the section, and if it is final each required
  -- field of the section is there and not empty.
  pub validate_section-accepted :
      (section : String) (values v : Values F) (final : Bool)
      → validate_section python year section values final ≡ ok v
      → All (IsAllowed section) v × All (IsComplete final v) (definitions_of section)
  unfolding validate_section
  validate_section-accepted section values v final h =
      let definitions = definitions_of section in
      let start : Work F = record { normalized = []; errors = [] } in
      elim (Bool-cases (is_nothing definitions)) [
        | inl no_section ↦ absurd (ground arith)
        | inr known ↦ elim (Result-cases (take_values python year definitions final values start)) [
          | inr (e, failed) ↦ absurd (ground arith)
          | inl (w, taken) ↦
              let u = when_final python year final definitions w in
              let (clean, left) =
                judged-ok (section_rules python year section u) v (ground arith) in
              let (cleared, clean_u) = section_rules-Clean section u clean in
              let (same, filled) = when_final-Clean final definitions w clean_u in
              let accepted : IsAccepted section final w.normalized =
                (take_values-IsAllowed section final values start w taken tt, filled) in
              elim cleared [
                | inl kept ↦
                    subst (IsAccepted section final)
                      (ap (λ x. x.normalized) (sym (kept ∙ same)) ∙ left) accepted
                | inr (here, changed) ↦
                    subst (IsAccepted section final)
                      (ap (λ x. put x.normalized "googleScholarProfileUrl" null) (sym same)
                        ∙ ap (λ x. x.normalized) (sym changed)
                        ∙ left)
                      (cleared-IsAccepted section final w.normalized here accepted)
              ]
        ]
      ]
