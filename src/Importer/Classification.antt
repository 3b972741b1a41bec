-- ===== src/Importer/Classification.antt =====
-- app/importer/classify.py and app/documents/classification.py: the suggestion for a document by
-- its name and first page, and the accountable decision on it. `casefold` is an argument.
pub mod Decisions
use Prim.Native.Char.{code}
use Prim.Native.String.{String, [] as empty, ◌∷◌ as ◌then◌}
use ehf_applications.Prelude.{
  ℕ, Bool, true, false, not, ◌&&◌, ◌||◌, Option, none, some, List, [], ◌∷◌, ◌++◌, any, ◌==◌, nat_eq,
  string_eq, if◌then◌else◌, Result, ok, err, strip, is_blank, is_empty, is_prefix, contains, joined,
  is_space,
}
use ehf_applications.Importer.Keys.{is_alnum}

pub data DocumentClassification : Type 0 where
  unreviewed applicant_visible confidential_recommendation internal_administrative :
      DocumentClassification

pub data DocumentType : Type 0 where
  recommendation_letter cv publication_list research_plan cover_letter unknown : DocumentType

pub record ClassificationSuggestion : Type 0 where
  pub document_type : DocumentType
  pub suggested_confidentiality : Option DocumentClassification
  pub initial_classification : DocumentClassification
  pub recommendation_signal : Bool
  pub evidence_codes : List String

-- re.sub(r"[...]+", " ", value), for a class of code points; the flag says that the last one was
-- in a run
unfoldable pub squeeze : (ℕ → Bool) → Bool → String → String
squeeze test in_run empty = empty
squeeze test in_run (c then s) =
    let after_run = squeeze test true s in
    let after_other = squeeze test false s in
    if test (code c) then if in_run then after_run else joined " " after_run else c then after_other

-- In a normalized text a word starts at the start or after a space.
unfoldable pub after_space : (String → Bool) → String → Bool
after_space test empty = false
after_space test (c then s) = code c == 32 && test s || after_space test s

unfoldable pub at_word : (String → Bool) → String → Bool
unfolding after_space
at_word test s = test s || after_space test s

-- `word` and then a space or the end
abbrev pub is_word : String → String → Bool
is_word word s = s == word || is_prefix (joined word " ") s

-- \bi (?:strongly |highly |wholeheartedly |enthusiastically )?recommend\b
unfoldable pub recommends : String → Bool
unfolding at_word joined
recommends text =
    at_word
      (λ s.
        is_word "i recommend" s
        || is_word "i strongly recommend" s
        || is_word "i highly recommend" s
        || is_word "i wholeheartedly recommend" s
        || is_word "i enthusiastically recommend" s)
      text

unfoldable pub filename_evidence : String → List String
unfolding contains at_word joined
filename_evidence filename =
    if contains "recommendation" filename
    then "FILENAME_RECOMMENDATION" ∷ []
    else if contains "reference letter" filename || contains "reference" filename
    then "FILENAME_REFERENCE_LETTER" ∷ []
    else if contains "referee" filename
    then "FILENAME_REFEREE" ∷ []
    else if contains "support letter" filename
        || contains "letter of support" filename
        || contains "letter of recommend" filename
        || at_word (is_word "lor") filename
        || at_word (λ s. is_prefix "ref let" s || is_prefix "reflet" s) filename
    then "FILENAME_SUPPORT_OR_LOR" ∷ []
    else []

abbrev when : Bool → String → List String
when test evidence = if test then evidence ∷ [] else []

unfoldable pub recommendation_evidence : String → String → List String
unfolding filename_evidence recommends contains
recommendation_evidence filename text =
    filename_evidence filename
    ++ when
        (recommends text
          || contains "letter of recommendation" text
          || contains "recommendation for" text)
        "TEXT_RECOMMENDATION"
    ++ when
        (contains "referee report" text
          || contains "referee letter" text
          || contains "as a referee" text)
        "TEXT_REFEREE"
    ++ when (contains "forwarded" text) "TEXT_FORWARDED"

unfoldable pub applicant_document_signal : String → String → DocumentType × String
unfolding contains joined
applicant_document_signal filename text =
    if is_word "cv" filename || contains "curriculum vitae" text
    then (cv, "CV_SIGNAL")
    else if contains "publication" filename || contains "selected publications" text
    then (publication_list, "PUBLICATION_SIGNAL")
    else if contains "research plan" filename
        || contains "research plan" text
        || contains "research proposal" text
        || contains "proposal" filename
    then (research_plan, "RESEARCH_PLAN_SIGNAL")
    else if contains "cover letter" filename || contains "dear selection committee" text
    then (cover_letter, "COVER_LETTER_SIGNAL")
    else (unknown, "NO_CLASSIFICATION_SIGNAL")

abbrev pub visibility : DocumentType → Option DocumentClassification
visibility unknown = none
visibility _ = some applicant_visible

abbrev pub suggestion_of : List String → DocumentType × String → ClassificationSuggestion
suggestion_of [] (document_type, evidence) = record {
  document_type = document_type;
  suggested_confidentiality = visibility document_type;
  initial_classification = unreviewed;
  recommendation_signal = false;
  evidence_codes = evidence ∷ [];
}
suggestion_of (e ∷ es) signal = record {
  document_type = recommendation_letter;
  suggested_confidentiality = some confidential_recommendation;
  initial_classification = unreviewed;
  recommendation_signal = true;
  evidence_codes = e ∷ es;
}

-- first_page_text or ""
abbrev pub page_text : Option String → String
page_text none = ""
page_text (some text) = text

module _ (casefold : String → String) where
  unfoldable pub normalize : String → String
  normalize value =
      strip (squeeze is_space false (squeeze (λ c. not (is_alnum c)) false (casefold value)))

  unfoldable pub suggest_classification : String → Option String → ClassificationSuggestion
  suggest_classification filename first_page_text =
      let name = normalize filename in
      let text = normalize (page_text first_page_text) in
      suggestion_of (recommendation_evidence name text) (applicant_document_signal name text)

-- a datetime, and whether it knows its zone
pub record Timestamp : Type 0 where
  pub instant : ℕ
  pub aware : Bool

pub record ClassificationDecision : Type 0 where
  pub administrator_id : String
  pub classification : DocumentClassification
  pub occurred_at : Timestamp
  pub reason : Option String

-- ClassificationDecisionError by its message
pub data ClassificationDecisionError : Type 0 where
  no_administrator no_classification naive_timestamp exposes_recommendation no_reason :
      ClassificationDecisionError

abbrev pub is_applicant_visible : DocumentClassification → Bool
is_applicant_visible applicant_visible = true
is_applicant_visible _ = false

abbrev is_confidential : DocumentClassification → Bool
is_confidential confidential_recommendation = true
is_confidential _ = false

abbrev pub stripped : Option String → Option String
stripped none = none
stripped (some reason) = some (strip reason)

-- not normalized_reason
abbrev pub lacks_reason : Option String → Bool
lacks_reason none = true
lacks_reason (some reason) = is_empty reason

-- bool(getattr(suggestion, "recommendation_signal", False)) is `signal`; a classification that is
-- no DocumentClassification is `none`.
unfoldable pub record_classification_decision :
    Bool
    → String
    → Option DocumentClassification
    → Timestamp
    → Option String
    → Result ClassificationDecisionError ClassificationDecision
record_classification_decision signal administrator_id none occurred_at reason =
    if is_blank administrator_id then err no_administrator else err no_classification
record_classification_decision signal administrator_id (some classification) occurred_at reason =
    if is_blank administrator_id
    then err no_administrator
    else if not occurred_at.aware
    then err naive_timestamp
    else if signal && is_applicant_visible classification
    then err exposes_recommendation
    else if signal && not (is_confidential classification) && lacks_reason (stripped reason)
    then err no_reason
    else ok (record {
      administrator_id = strip administrator_id;
      classification = classification;
      occurred_at = occurred_at;
      reason = stripped reason;
    })
