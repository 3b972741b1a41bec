-- ===== src/Importer/Tests.antt =====
-- Runs of app/importer/match.py, register.py and classify.py, and of
-- app/documents/classification.py.
use ehf_applications.Prelude.{
  ℕ, ◌≤◌, String, Bool, true, false, Option, none, some, List, [], ◌∷◌, map, ◌≡◌, ◌≢◌, refl, ◌⊎◌,
  inl, inr, ok, err, length, find, is_blank, string_eq, nat_eq, ◌==◌,
}
use ehf_applications.Prelude.Dict.{Dict}
use ehf_applications.Importer.Keys.{Unicode, candidate_keys}
use ehf_applications.Importer.Matching.{
  ApplicantFolderMatch, ApplicantMatchResult, match_applicants_to_folders, require_exact_matches,
}
use ehf_applications.Importer.Matching.Exactness.{Matched, match_applicants_to_folders-Matched}
use ehf_applications.Importer.Register.{
  Python, RegisterApplicant, parse_register, has_header, body, columns,
}
use ehf_applications.Importer.Register.Parsing.{AreRead, parse_register-AreRead}
use ehf_applications.Importer.Classification.{
  DocumentClassification, applicant_visible, confidential_recommendation, exposes_recommendation,
  Timestamp, ClassificationDecision, lacks_reason, suggest_classification,
  record_classification_decision,
}
use ehf_applications.Importer.Classification.Decisions.{
  evidence_of, record_classification_decision-safe,
}

abbrev unicode : Unicode
unicode = record { casefold = λ s. s; normalize = λ s. s; combining = λ c. false }

umlaut :
    candidate_keys unicode "müller eva" ≡ "mllereva" ∷ "evallerm" ∷ "muellereva" ∷ "evamueller" ∷ []
unfolding candidate_keys ehf_applications.Prelude.add
umlaut = refl

abbrev names : List String
names = "ada byron" ∷ "eva meier" ∷ []

abbrev folders : List String
folders = "byron ada" ∷ "eva-meier" ∷ []

matched : match_applicants_to_folders unicode names folders [] ≡ record {
  matches =
      record { applicant_name = "ada byron"; folder_name = "byron ada" }
      ∷ record { applicant_name = "eva meier"; folder_name = "eva-meier" }
      ∷ [];
  exceptions = [];
}
unfolding match_applicants_to_folders ehf_applications.Importer.Matching.propose_all
    ehf_applications.Prelude.Dict.get candidate_keys ehf_applications.Prelude.add
    ehf_applications.Prelude.Dict.put ehf_applications.Importer.Matching.cross_rows
    ehf_applications.Prelude.Dict.values ehf_applications.Importer.Matching.rows_by_folder
    ehf_applications.Importer.Matching.unmatched
matched = refl

abandoned :
    (match_applicants_to_folders unicode names ("byron ada" ∷ "ada byron" ∷ []) []).matches ≡ []
unfolding match_applicants_to_folders ehf_applications.Importer.Matching.propose_all
    ehf_applications.Prelude.Dict.get candidate_keys ehf_applications.Prelude.add
    ehf_applications.Prelude.Dict.put
abandoned = refl

match_applicants_to_folders-Matched_example :
    ((match_applicants_to_folders unicode names folders []).exceptions ≡ []
      × Matched unicode folders [] names
          (match_applicants_to_folders unicode names folders []).matches)
    ⊎ ((match_applicants_to_folders unicode names folders []).exceptions ≢ []
        × ((match_applicants_to_folders unicode names folders []).matches ≡ []))
match_applicants_to_folders-Matched_example =
    match_applicants_to_folders-Matched unicode folders [] names

abbrev python : Python
python = record {
  casefold = λ s. s;
  upper = λ s. s;
  decimal = ehf_applications.Importer.Register.is_digit;
  same_letter = λ c d. c == d;
  Float = String;
  float = λ s. s;
}

abbrev row : List String
row =
    " Ada Byron " ∷ "PhD" ∷ "36" ∷ "7.5" ∷ "Female" ∷ "4" ∷ "nr" ∷ "12" ∷ "9" ∷ ">100"
    ∷ "https://orcid.org/0000-0002-1825-0097" ∷ "n/a" ∷ "" ∷ []

abbrev ada : RegisterApplicant String
ada = record {
  applicant_name = "Ada Byron";
  degree = some "PhD";
  age_observation = some 36;
  academic_age_observation = some "7.5";
  gender = some "Female";
  first_author_papers = some 4;
  last_author_papers = none;
  total_papers = some 12;
  h_index = some 9;
  total_citations = none;
  orcid = some "0000-0002-1825-0097";
  google_scholar_citations = none;
  identity_certainty = none;
  total_citations_qualifier = some ">100";
}

abbrev tables : List (List (List String))
tables = [] ∷ (columns ∷ row ∷ []) ∷ []

read : parse_register python (some tables) 1 ≡ ok (ada ∷ [])
unfolding parse_register ehf_applications.Importer.Keys.is_alnum ehf_applications.Prelude.strip
    ehf_applications.Prelude.member ehf_applications.Prelude.all_chars
    ehf_applications.Importer.Register.normalized_header
    ehf_applications.Importer.Register.alnum_only ehf_applications.Importer.Register.parse_rows
    ehf_applications.Importer.Register.parse_row
    ehf_applications.Importer.Register.citation_observation
    ehf_applications.Importer.Register.is_digits ehf_applications.Importer.Register.is_lower_bound
    ehf_applications.Importer.Register.parse_integer ehf_applications.Importer.Register.parse_number
    ehf_applications.Importer.Register.is_number ehf_applications.Importer.Register.parse_orcid
    ehf_applications.Importer.Register.is_orcid ehf_applications.Importer.Register.after_prefix
    ehf_applications.Importer.Register.four ehf_applications.Importer.Register.int
    ehf_applications.Importer.Register.optional_text
read = refl

parse_register-AreRead_example :
    (table : List (List String)) × (find (has_header python) tables ≡ some table)
    × AreRead python (body python table) (ada ∷ [])
    × (length (ada ∷ []) ≡ 1)
parse_register-AreRead_example = parse_register-AreRead python tables 1 (ada ∷ []) read

abbrev noon : Timestamp
noon = record { instant = 12; aware = true }

refused :
    record_classification_decision
      (suggest_classification
        (λ s. s)
        "letter.pdf"
        (some "i strongly recommend her")).recommendation_signal
      "admin"
      (some applicant_visible)
      noon
      none
    ≡ err exposes_recommendation
unfolding record_classification_decision is_blank suggest_classification
    ehf_applications.Importer.Classification.recommendation_evidence
    ehf_applications.Importer.Classification.normalize
    ehf_applications.Importer.Classification.squeeze ehf_applications.Importer.Keys.is_alnum
refused = refl

abbrev decision : ClassificationDecision
decision = record {
  administrator_id = "admin";
  classification = applicant_visible;
  occurred_at = noon;
  reason = none;
}

decided :
    record_classification_decision
      (suggest_classification (λ s. s) "cv smith.pdf" none).recommendation_signal
      " admin "
      (some applicant_visible)
      noon
      none
    ≡ ok decision
unfolding record_classification_decision is_blank suggest_classification
    ehf_applications.Importer.Classification.recommendation_evidence
    ehf_applications.Importer.Classification.normalize
    ehf_applications.Importer.Classification.squeeze ehf_applications.Importer.Keys.is_alnum
decided = refl

record_classification_decision-safe_example :
    (is_blank " admin " ≡ false)
    × (decision.occurred_at.aware ≡ true)
    × ((evidence_of (λ s. s) "cv smith.pdf" none ≡ [])
        ⊎ ((decision.classification ≡ confidential_recommendation)
            ⊎ ((decision.classification ≢ applicant_visible)
                × (lacks_reason decision.reason ≡ false))))
record_classification_decision-safe_example =
    record_classification_decision-safe (λ s. s) "cv smith.pdf" none " admin "
      (some applicant_visible) noon none decision decided
