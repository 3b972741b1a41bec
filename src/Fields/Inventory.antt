-- ===== src/Fields/Inventory.antt =====
-- app/applicant/fields.py: the canonical inventory of the applicant's fields.
use ehf_applications.Prelude.{String, Bool, true, false, List, [], ◌∷◌, ◌==◌, string_eq, keep}

pub data FieldKind : Type 0 where
  plain_text email whole choice yes_no calendar_date decimal degree_list orcid scholar_url
        publication_list textarea :
      FieldKind

pub record FieldDefinition : Type 0 where
  pub code : String
  pub section : String
  pub label : String
  pub kind : FieldKind
  pub required : Bool
  pub help : String
  pub options : List String

abbrev new_field :
    String → String → String → FieldKind → Bool → String → List String → FieldDefinition
new_field code section label kind required help options = record {
  code = code;
  section = section;
  label = label;
  kind = kind;
  required = required;
  help = help;
  options = options;
}

abbrev pub field_inventory : List FieldDefinition
field_inventory =
    new_field "fullName" "identity" "Full name" plain_text true "" ([])
    ∷ new_field "preferredName" "identity" "Preferred name" plain_text false "" ([])
    ∷ new_field "registeredEmail" "identity" "Registered email address" email true "" ([])
    ∷ new_field "alternativeEmail" "identity" "Alternative contact email" email false "" ([])
    ∷ new_field "telephone" "identity" "Telephone number" plain_text true "" ([])
    ∷ new_field "birthMonth" "identity" "Birth month" whole true "" ([])
    ∷ new_field "birthYear" "identity" "Birth year" whole true "" ([])
    ∷ new_field "gender" "identity" "Gender (optional)" choice false ""
        ("Female" ∷ "Male" ∷ "Non-binary" ∷ "Prefer not to say" ∷ [])
    ∷ new_field "institute" "employment" "Current UZH institute or department" plain_text true ""
        ([])
    ∷ new_field "principalInvestigator" "employment" "Current principal investigator" plain_text
        true "" ([])
    ∷ new_field "positionTitle" "employment" "Current position title" plain_text true "" ([])
    ∷ new_field "postdoctoralEmploymentStatus" "employment"
        "Are you currently employed in a postdoctoral position?" yes_no true
        "Select Yes only if your present UZH appointment is a postdoctoral position. If it will start later, select No and enter the future start date below."
        ([])
    ∷ new_field "employmentStartDate" "employment" "UZH employment start date" calendar_date true ""
        ([])
    ∷ new_field "employmentEndDate" "employment" "Expected UZH employment end date" calendar_date
        true "" ([])
    ∷ new_field "futureStartDate" "employment" "Future UZH start date" calendar_date false "" ([])
    ∷ new_field "researchArea" "employment" "Molecular-life-sciences research area" plain_text true
        "" ([])
    ∷ new_field "clinicalWorkPercent" "employment" "Percentage of clinical work" decimal true ""
        ([])
    ∷ new_field "firstAuthorDeclaration" "employment" "At least one first/co-first-author paper"
        yes_no true "" ([])
    ∷ new_field "degrees" "qualifications" "Degrees" degree_list true
        "Add each degree and its exact date of conferral." ("BSc" ∷ "MA" ∷ "MD" ∷ "PhD" ∷ [])
    ∷ new_field "firstAuthorPaperCount" "publications" "First/co-first-author papers" whole true ""
        ([])
    ∷ new_field "lastAuthorPaperCount" "publications" "Last/senior-author papers" whole true "" ([])
    ∷ new_field "totalPaperCount" "publications" "Total papers" whole true "" ([])
    ∷ new_field "hIndex" "publications" "h-index" whole true "" ([])
    ∷ new_field "applicantReportedCitationTotal" "publications" "Applicant-reported citations" whole
        true "" ([])
    ∷ new_field "orcid" "publications" "ORCID" orcid false "" ([])
    ∷ new_field "hasGoogleScholarProfile" "publications"
        "Do you have a public Google Scholar profile?" yes_no true "" ([])
    ∷ new_field "googleScholarProfileUrl" "publications" "Google Scholar profile URL" scholar_url
        false "" ([])
    ∷ new_field "publications" "publications" "Publications by DOI" publication_list false
        "Enter a DOI, check the publication found by the system, then confirm it." ([])
    ∷ new_field "contributionStatement" "contribution"
        "What do you consider your most important contribution to scientific advance to date?"
        textarea true "Maximum 1,000 characters, approximately 200 words." ([])
    ∷ []

-- tuple(field for field in FIELD_INVENTORY if field.section == section)
unfoldable pub definitions_of : String → List FieldDefinition
definitions_of section = keep (λ f. f.section == section) field_inventory
