-- ===== src/Importer/Classification/Decisions.antt =====
-- app/documents/classification.py on the suggestions of app/importer/classify.py: what a recorded
-- decision may be.
use ehf_applications.Prelude.{
  String, true, false, Option, none, some, List, [], ◌∷◌, ◌≡◌, ◌≢◌, refl, ◌⊎◌, inl, inr, ok,
  is_blank, arith,
}
use ehf_applications.Importer.Classification.{
  DocumentClassification, unreviewed, applicant_visible, confidential_recommendation,
  internal_administrative, DocumentType, recommendation_letter, cv, publication_list, research_plan,
  cover_letter, unknown, visibility, ClassificationDecision, Timestamp, recommendation_evidence,
  normalize, page_text, suggest_classification, suggestion_of, lacks_reason,
  record_classification_decision, applicant_document_signal,
}

abbrev pub evidence_of : (String → String) → String → Option String → List String
evidence_of casefold filename page =
    recommendation_evidence (normalize casefold filename) (normalize casefold (page_text page))

visibility_open : (t : DocumentType) → visibility t ≢ some confidential_recommendation
visibility_open recommendation_letter h = cc
visibility_open cv h = cc
visibility_open publication_list h = cc
visibility_open research_plan h = cc
visibility_open cover_letter h = cc
visibility_open unknown h = cc

suggestion_of-lem :
    (evidence : List String) (signal : DocumentType × String)
    → ((suggestion_of evidence signal).initial_classification ≡ unreviewed)
      × (((evidence ≢ [])
            × ((suggestion_of evidence signal).recommendation_signal ≡ true)
            × ((suggestion_of evidence signal).document_type ≡ recommendation_letter)
            × ((suggestion_of evidence signal).suggested_confidentiality
                ≡ some confidential_recommendation)
            × ((suggestion_of evidence signal).evidence_codes ≡ evidence))
          ⊎ ((evidence ≡ [])
              × ((suggestion_of evidence signal).recommendation_signal ≡ false)
              × ((suggestion_of evidence signal).suggested_confidentiality
                  ≢ some confidential_recommendation)))
suggestion_of-lem [] (t, code) = (refl, inr (refl, refl, visibility_open t))
suggestion_of-lem (e ∷ es) signal = (refl, inl (λ h. cc, refl, refl, refl, refl))

decision_safe :
    (evidence : List String) (signal : DocumentType × String) (administrator_id : String)
    (classification : Option DocumentClassification) (occurred_at : Timestamp)
    (reason : Option String) (decision : ClassificationDecision)
    → record_classification_decision
        (suggestion_of evidence signal).recommendation_signal
        administrator_id
        classification
        occurred_at
        reason
      ≡ ok decision
    → (is_blank administrator_id ≡ false)
      × (decision.occurred_at.aware ≡ true)
      × ((evidence ≡ [])
          ⊎ ((decision.classification ≡ confidential_recommendation)
              ⊎ ((decision.classification ≢ applicant_visible)
                  × (lacks_reason decision.reason ≡ false))))
unfolding record_classification_decision
decision_safe evidence signal administrator_id none occurred_at reason decision h =
    absurd (ground arith)
decision_safe [] signal administrator_id (some classification) occurred_at reason decision h =
    (ground arith, ground arith, inl refl)
decision_safe (e ∷ es) signal administrator_id (some applicant_visible) occurred_at reason decision
      h =
    absurd (ground arith)
decision_safe (e ∷ es) signal administrator_id (some confidential_recommendation) occurred_at reason
      decision h =
    (ground arith, ground arith, inr (inl (ground arith)))
decision_safe (e ∷ es) signal administrator_id (some unreviewed) occurred_at reason decision h =
    (ground arith, ground arith, inr (inr (ground arith, ground arith)))
decision_safe (e ∷ es) signal administrator_id (some internal_administrative) occurred_at reason
      decision h =
    (ground arith, ground arith, inr (inr (ground arith, ground arith)))

-- Every suggestion leaves a document unreviewed. One with evidence of a recommendation signals it,
-- suggests that it is confidential and gives the evidence; one without evidence signals none.
pub suggest_classification-lem :
    (casefold : String → String) (filename : String) (page : Option String)
    → ((suggest_classification casefold filename page).initial_classification ≡ unreviewed)
      × (((evidence_of casefold filename page ≢ [])
            × ((suggest_classification casefold filename page).recommendation_signal ≡ true)
            × ((suggest_classification casefold filename page).document_type
                ≡ recommendation_letter)
            × ((suggest_classification casefold filename page).suggested_confidentiality
                ≡ some confidential_recommendation)
            × ((suggest_classification casefold filename page).evidence_codes
                ≡ evidence_of casefold filename page))
          ⊎ ((evidence_of casefold filename page ≡ [])
              × ((suggest_classification casefold filename page).recommendation_signal ≡ false)
              × ((suggest_classification casefold filename page).suggested_confidentiality
                  ≢ some confidential_recommendation)))
unfolding suggest_classification
suggest_classification-lem casefold filename page =
    suggestion_of-lem (evidence_of casefold filename page) (
      applicant_document_signal (normalize casefold filename) (normalize casefold (page_text page)))

-- Whoever decides, no recorded decision makes a document visible to applicants whose name or first
-- page gives evidence of a recommendation, and one that does not keep such a document
-- confidential states a reason. A decision has an administrator and a time with its zone.
pub record_classification_decision-safe :
    (casefold : String → String) (filename : String) (page : Option String)
    (administrator_id : String) (classification : Option DocumentClassification)
    (occurred_at : Timestamp) (reason : Option String) (decision : ClassificationDecision)
    → record_classification_decision
        (suggest_classification casefold filename page).recommendation_signal
        administrator_id
        classification
        occurred_at
        reason
      ≡ ok decision
    → (is_blank administrator_id ≡ false)
      × (decision.occurred_at.aware ≡ true)
      × ((evidence_of casefold filename page ≡ [])
          ⊎ ((decision.classification ≡ confidential_recommendation)
              ⊎ ((decision.classification ≢ applicant_visible)
                  × (lacks_reason decision.reason ≡ false))))
unfolding suggest_classification
record_classification_decision-safe casefold filename page administrator_id classification
      occurred_at reason decision h =
    decision_safe (evidence_of casefold filename page)
      (applicant_document_signal (normalize casefold filename)
        (normalize casefold (page_text page)))
      administrator_id classification occurred_at reason decision h
