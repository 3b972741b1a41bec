-- ===== src/Fields/Sections.antt =====
-- app/applicant/fields.py: `validate_section`. This year enters as an argument.
pub mod Accepted
use ehf_applications.Prelude.{
  ℕ, String, Bool, true, false, not, ◌&&◌, ◌||◌, Option, none, some, List, [], ◌∷◌, ◌==◌, nat_eq,
  string_eq, if◌then◌else◌, leb, find, is_empty, Result, ok, err,
}
use ehf_applications.Prelude.Dict.{Dict, get, put}
use ehf_applications.Json.{
  ℤ, pos, negsuc, Date, is_later, Json, null, boolean, integer, real, text, day, array, object, nil,
  cons, is_true, or_null,
}
use ehf_applications.Fields.Inventory.{FieldDefinition, definitions_of}
use ehf_applications.Fields.Normalizing.{Python, FieldError, bad, overflow, normalize}

-- FieldValidationError with its messages by field, or an OverflowError
pub data SectionError : Type 0 where
  invalid : Dict String String → SectionError
  overflowing : SectionError

abbrev pub Values : Type 0 → Type 0
Values F = Dict String (Json F)

-- what the loops of the method write
pub record Work (F : Type 0) : Type 0 where
  pub normalized : Values F
  pub errors : Dict String String

abbrev in_range : ℕ → ℕ → ℤ → Bool
in_range low high (pos n) = leb low n && leb n high
in_range low high (negsuc n) = false

abbrev count_codes : List String
count_codes =
    "firstAuthorPaperCount" ∷ "lastAuthorPaperCount" ∷ "totalPaperCount" ∷ "hIndex"
    ∷ "applicantReportedCitationTotal" ∷ []

abbrev is_nothing : List FieldDefinition → Bool
is_nothing [] = true
is_nothing (f ∷ fs) = false

module _ {F : Type 0} where
  abbrev pub with_error : String → String → Work F → Work F
  with_error code message w = record w { errors = put w.errors code message }

  unfoldable pub error_if : Bool → String → String → Work F → Work F
  error_if true code message w = with_error code message w
  error_if false code message w = w

  -- normalized.get(code)
  abbrev pub value_at : Work F → String → Json F
  value_at w code = or_null (get w.normalized code)

  -- value in (None, "", [])
  abbrev pub is_missing : Json F → Bool
  is_missing null = true
  is_missing (text s) = is_empty s
  is_missing (array nil) = true
  is_missing _ = false

  -- value is not None and not low <= int(value) <= high, on the values of an integer field
  abbrev outside : ℕ → ℕ → Json F → Bool
  outside low high (integer n) = not (in_range low high n)
  outside low high _ = false

  abbrev is_negative : Json F → Bool
  is_negative (integer (negsuc n)) = true
  is_negative _ = false

  -- start and end and start > end, on the values of date fields
  abbrev ends_early : Json F → Json F → Bool
  ends_early (day first) (day last) = is_later first last
  ends_early _ _ = false

  abbrev is_false : Json F → Bool
  is_false (boolean false) = true
  is_false _ = false

  unfoldable pub identity_rules : ℕ → Work F → Work F
  identity_rules year w =
      let month = value_at w "birthMonth" in
      let birth_year = value_at w "birthYear" in
      error_if (outside 1900 year birth_year) "birthYear"
        "Birth year is outside the supported range."
        (error_if (outside 1 12 month) "birthMonth" "Birth month must be between 1 and 12." w)

  unfoldable pub count_rules : List String → Work F → Work F
  count_rules [] w = w
  count_rules (code ∷ codes) w =
      count_rules codes
        (error_if (is_negative (value_at w code)) code "The value cannot be negative." w)

  -- `hasGoogleScholarProfile` is False
  abbrev without_profile : Bool → Work F → Work F
  without_profile true w = record w { normalized = put w.normalized "googleScholarProfileUrl" null }
  without_profile false w = w

  unfoldable pub publication_rules : Work F → Work F
  publication_rules w =
      let counted = count_rules count_codes w in
      let has_profile = value_at counted "hasGoogleScholarProfile" in
      without_profile (is_false has_profile) (
        error_if (is_true has_profile && is_missing (value_at counted "googleScholarProfileUrl"))
          "googleScholarProfileUrl" "Enter the public Google Scholar profile URL." counted)

  unfoldable pub required_rules : List FieldDefinition → Work F → Work F
  required_rules [] w = w
  required_rules (f ∷ fs) w =
      required_rules fs
        (error_if (f.required && is_missing (value_at w f.code)) f.code "This field is required." w)

  abbrev pub judged : Work F → Result SectionError (Values F)
  judged w = elim w.errors [ [] ↦ ok w.normalized | e ∷ es ↦ err (invalid (e ∷ es)) ]

module _ {F : Type 0} (python : Python F) (year : ℕ) where
  abbrev is_outside_percent : Json F → Bool
  is_outside_percent (real f) = not (python.is_percentage f)
  is_outside_percent _ = false

  unfoldable pub employment_rules : Work F → Work F
  employment_rules w =
      error_if (ends_early (value_at w "employmentStartDate") (value_at w "employmentEndDate"))
        "employmentEndDate" "Employment end date must not precede the start date."
        (error_if (is_outside_percent (value_at w "clinicalWorkPercent")) "clinicalWorkPercent"
          "Clinical work must be between 0 and 100 percent." w)

  abbrev noted : String → Result FieldError (Json F) → Work F → Result SectionError (Work F)
  noted code (ok value) w = ok (record w { normalized = put w.normalized code value })
  noted code (err (bad message)) w = ok (with_error code message w)
  noted code (err overflow) w = err overflowing

  -- one round of the loop over the values
  unfoldable pub take_value :
      List FieldDefinition → Bool → String → Json F → Work F → Result SectionError (Work F)
  take_value definitions final code raw w = elim (find (λ f. f.code == code) definitions) [
    | none ↦ ok (with_error code "This field does not belong to the section." w)
    | some definition ↦ noted code (normalize python definition final raw) w
  ]

  unfoldable pub take_values :
      List FieldDefinition → Bool → Values F → Work F → Result SectionError (Work F)
  take_values definitions final [] w = ok w
  take_values definitions final ((code, raw) ∷ rest) w =
      elim (take_value definitions final code raw w) [
        | ok w' ↦ take_values definitions final rest w'
        | err e ↦ err e
      ]

  abbrev when_final : Bool → List FieldDefinition → Work F → Work F
  when_final true definitions w = required_rules definitions w
  when_final false definitions w = w

  unfoldable pub section_rules : String → Work F → Work F
  section_rules section w =
      if section == "identity"
      then identity_rules year w
      else if section == "employment"
      then employment_rules w
      else if section == "publications"
      then publication_rules w
      else w

  abbrev pub finished :
      String
      → Bool
      → List FieldDefinition
      → Result SectionError (Work F)
      → Result SectionError (Values F)
  finished section final definitions (err e) = err e
  finished section final definitions (ok w) =
      judged (section_rules section (when_final final definitions w))

  abbrev no_section : Result SectionError (Values F)
  no_section = err (invalid (("section", "The review section is invalid.") ∷ []))

  unfoldable pub validate_section : String → Values F → Bool → Result SectionError (Values F)
  validate_section section values final =
      let definitions = definitions_of section in
      if is_nothing definitions
      then no_section
      else finished section final definitions
          (take_values definitions final values (record { normalized = []; errors = [] }))
