-- ===== src/Fields/Tests.antt =====
-- Runs of app/applicant/fields.py.
use ehf_applications.Prelude.{
  ℕ, ◌-◌, ◌<◌, String, Bool, true, false, Option, none, some, List, [], ◌∷◌, ◌++◌, ◌≡◌, refl,
  nat_eq, string_eq, ◌==◌, Result, ok, err, leb, ◌&&◌, ◌||◌, if◌then◌else◌, arith, All,
}
use ehf_applications.Json.{
  null, boolean, integer, pos, text, object, array, items_of, fields_of, converted, refused,
}
use ehf_applications.Fields.Inventory.{definitions_of}
use ehf_applications.Fields.Normalizing.{
  Python, Url, codes, is_valid_orcid, is_email, normalize_publications,
}
use ehf_applications.Fields.Normalizing.CheckDigits.{is_valid_orcid-digit}
use ehf_applications.Fields.Sections.{Values, validate_section, invalid}
use ehf_applications.Fields.Sections.Accepted.{IsAllowed, IsComplete, validate_section-accepted}
use ehf_applications.Fields.Upgrading.{upgrade_legacy_section}
use ehf_applications.Fields.Upgrading.Idempotence.{upgrade_legacy_section_idem}

abbrev same : String → String
same s = s

abbrev pub digits : ℕ → Bool
digits c = leb b'0' c && leb c b'9'

abbrev pub python : Python ℕ
python = record {
  nfc = same;
  casefold = same;
  upper = same;
  is_decimal = digits;
  digit_value = λ c. c - b'0';
  int_of = λ v. elim v [ integer n ↦ converted n | _ ↦ refused ];
  float_of = λ v. elim v [ integer n ↦ converted 50 | _ ↦ refused ];
  str_of = λ v. elim v [ text s ↦ s | _ ↦ "" ];
  date_from = λ s. none;
  url_from = λ s. err "no address";
  is_zero = λ n. n == 0;
  is_integer = λ n. true;
  is_percentage = λ n. leb n 100;
}

-- the ORCID 0000-0002-1825-0097 without dashes
orcid_valid : is_valid_orcid digits (λ c. c - b'0') (codes "0000000218250097") ≡ true
unfolding is_valid_orcid codes
orcid_valid = refl

orcid_mistaken : is_valid_orcid digits (λ c. c - b'0') (codes "0000000318250097") ≡ false
unfolding is_valid_orcid codes
orcid_mistaken = refl

-- The same digit in two scripts
abbrev either_digit : ℕ → Bool
either_digit c = digits c || leb 0x660 c && leb c 0x669

abbrev either_value : ℕ → ℕ
either_value c = if leb c b'9' then c - b'0' else c - 0x660

is_valid_orcid-digit_example : either_value b'2' ≡ either_value 0x662
unfolding is_valid_orcid codes
is_valid_orcid-digit_example =
    is_valid_orcid-digit either_digit either_value (codes "0000000") b'2' 0x662 b'1'
      (codes "8250097") (omega arith) (omega arith) refl refl

an_email : is_email "ada@uzh.ch" ≡ true
unfolding is_email ehf_applications.Prelude.is_space
an_email = refl

no_email : is_email "ada@uzh" ≡ false
unfolding is_email ehf_applications.Prelude.is_space
no_email = refl

abbrev contribution : Values ℕ
contribution = ("contributionStatement", text "A result.") ∷ []

accepted : validate_section python 2026 "contribution" contribution true ≡ ok contribution
unfolding validate_section definitions_of ehf_applications.Fields.Sections.take_values
    ehf_applications.Fields.Sections.take_value ehf_applications.Fields.Normalizing.normalize
    ehf_applications.Prelude.strip ehf_applications.Prelude.text_length
    ehf_applications.Prelude.is_blank ehf_applications.Fields.Sections.section_rules
    ehf_applications.Fields.Sections.required_rules ehf_applications.Fields.Sections.error_if
    ehf_applications.Prelude.Dict.get ehf_applications.Prelude.Dict.put
accepted = refl

validate_section-accepted_example :
    All (IsAllowed python 2026 "contribution") contribution
    × All (IsComplete python 2026 true contribution) (definitions_of "contribution")
validate_section-accepted_example =
    validate_section-accepted python 2026 "contribution" contribution contribution true accepted

foreign :
    validate_section python 2026 "contribution" (("hIndex", integer (pos 3)) ∷ []) false
    ≡ err (invalid (("hIndex", "This field does not belong to the section.") ∷ []))
unfolding validate_section definitions_of ehf_applications.Fields.Sections.take_values
    ehf_applications.Fields.Sections.take_value ehf_applications.Fields.Sections.section_rules
    ehf_applications.Prelude.Dict.put
foreign = refl

late_month :
    validate_section python 2026 "identity" (("birthMonth", integer (pos 13)) ∷ []) false
    ≡ err (invalid (("birthMonth", "Birth month must be between 1 and 12.") ∷ []))
unfolding validate_section definitions_of ehf_applications.Fields.Sections.take_values
    ehf_applications.Fields.Sections.take_value ehf_applications.Fields.Normalizing.normalize
    ehf_applications.Fields.Sections.section_rules ehf_applications.Fields.Sections.identity_rules
    ehf_applications.Fields.Sections.error_if ehf_applications.Prelude.Dict.get
    ehf_applications.Prelude.Dict.put
late_month = refl

no_profile :
    validate_section python 2026 "publications"
      (("hasGoogleScholarProfile", boolean true) ∷ [])
      false
    ≡ err
        (invalid (("googleScholarProfileUrl", "Enter the public Google Scholar profile URL.") ∷ []))
unfolding validate_section definitions_of ehf_applications.Fields.Sections.take_values
    ehf_applications.Fields.Sections.take_value ehf_applications.Fields.Normalizing.normalize
    ehf_applications.Fields.Sections.section_rules
    ehf_applications.Fields.Sections.publication_rules ehf_applications.Prelude.Dict.get
    ehf_applications.Fields.Sections.count_rules ehf_applications.Fields.Sections.error_if
    ehf_applications.Prelude.Dict.put
no_profile = refl

abbrev old : Values ℕ
old = ("degreeCategory", text "MD_PHD") ∷ ("phdDate", text "2020-01-01") ∷ []

upgraded :
    upgrade_legacy_section python "qualifications" old
    ≡ (
      "degrees",
      array (
          items_of (
            object (fields_of (("degreeType", text "MD") ∷ ("conferralDate", null) ∷ []))
            ∷ object
                (fields_of (("degreeType", text "PhD") ∷ ("conferralDate", text "2020-01-01") ∷ []))
            ∷ [])),
    )
      ∷ []
unfolding upgrade_legacy_section ehf_applications.Fields.Upgrading.upgrade_qualifications
    ehf_applications.Prelude.Dict.remove ehf_applications.Prelude.Dict.get
    ehf_applications.Prelude.Dict.put ehf_applications.Fields.Upgrading.degrees_of
    ehf_applications.Prelude.strip
upgraded = refl

upgrade_legacy_section_idem_example :
    upgrade_legacy_section python "qualifications"
      (upgrade_legacy_section python "qualifications" old)
    ≡ upgrade_legacy_section python "qualifications" old
upgrade_legacy_section_idem_example = upgrade_legacy_section_idem python "qualifications" old
