-- ===== src/Approval.antt =====
-- app/applicant/approval.py: `ApplicantApprovalService`, the reviews of submissions and documents.
-- The time of a call is an argument. The bundles and previews that it only builds are left out.
pub mod Decisions
mod Tests
use ehf_applications.Prelude.{
  ℕ, String, nat_eq, string_eq, Bool, true, false, not, ◌&&◌, ◌||◌, Option, none, some, List, [],
  ◌∷◌, Eq, ◌==◌, if◌then◌else◌, strip, is_blank, member, keep, Result, ok, err, Action, raise_if,
  or_raise, gets, modify, pure, ◌>>=◌, ◌>>◌,
}
use ehf_applications.Prelude.Dict.{Dict, get, put, values}
use ehf_applications.Finalize.{FinalConfirmation, required_sections}

pub record ApplicantSubmissionReview : Type 0 where
  pub confirmation_id : ℕ
  pub application_id : ℕ
  pub submitted_at_utc : ℕ
  pub status : String
  pub reviewed_by : Option String
  pub reviewed_at_utc : Option ℕ

pub record ApplicantDocumentReview : Type 0 where
  pub submission_id : ℕ
  pub application_id : ℕ
  pub slot_id : ℕ
  pub version_id : ℕ
  pub display_name : String
  pub submitted_at_utc : ℕ
  pub status : String
  pub reviewed_by : Option String
  pub reviewed_at_utc : Option ℕ
  pub reason : Option String

pub record Approvals : Type 0 where
  pub reviews : Dict ℕ ApplicantSubmissionReview
  pub document_reviews : Dict ℕ ApplicantDocumentReview

-- PermissionError, LookupError and ValueError
pub data ApprovalError : Type 0 where
  denied unavailable invalid : ApprovalError

-- REVIEWER_GROUPS, with the names of app/navigation.py
abbrev pub reviewer_groups : List String
reviewer_groups = "EHF-Administrators" ∷ "EHF-Trustees" ∷ []

abbrev pub new_review : FinalConfirmation → ApplicantSubmissionReview
new_review confirmation = record {
  confirmation_id = confirmation.confirmation_id;
  application_id = confirmation.application_id;
  submitted_at_utc = confirmation.confirmed_at_utc;
  status = "PENDING";
  reviewed_by = none;
  reviewed_at_utc = none;
}

abbrev queue_if_new :
    FinalConfirmation
    → Option ApplicantSubmissionReview
    → Action Approvals ApprovalError ApplicantSubmissionReview
queue_if_new confirmation (some review) = pure review
queue_if_new confirmation none = do
  modify (λ s. record s {
    reviews = put s.reviews confirmation.confirmation_id (new_review confirmation);
  })
  pure (new_review confirmation)

unfoldable pub queue : FinalConfirmation → Action Approvals ApprovalError ApplicantSubmissionReview
queue confirmation = do
  review ← gets (λ s. get s.reviews confirmation.confirmation_id)
  queue_if_new confirmation review

-- replace(review, status=…, reviewed_by=actor.strip(), reviewed_at_utc=now)
abbrev pub decided : String → String → ℕ → ApplicantSubmissionReview → ApplicantSubmissionReview
decided status actor now review = record review {
  status = status;
  reviewed_by = some (strip actor);
  reviewed_at_utc = some now;
}

abbrev decide :
    String
    → ℕ
    → String
    → ℕ
    → ApplicantSubmissionReview
    → Action Approvals ApprovalError ApplicantSubmissionReview
decide status confirmation_id actor now review = do
  modify
      (λ s. record s { reviews = put s.reviews confirmation_id (decided status actor now review) })
  pure (decided status actor now review)

unfoldable pub approve :
    ℕ → ℕ → String → String → Action Approvals ApprovalError ApplicantSubmissionReview
approve now confirmation_id actor actor_group = do
  raise_if (not (member actor_group reviewer_groups) || is_blank actor) denied
  review ← or_raise (← gets (λ s. get s.reviews confirmation_id)) unavailable
  if review.status == "APPROVED"
      then pure review
      else decide "APPROVED" confirmation_id actor now review

unfoldable pub return_for_correction :
    ℕ
    → ℕ
    → String
    → String
    → String
    → String
    → Action Approvals ApprovalError ApplicantSubmissionReview
return_for_correction now confirmation_id section reason actor actor_group = do
  raise_if (not (actor_group == "EHF-Administrators") || is_blank actor) denied
  raise_if (not (member section required_sections) || is_blank reason) invalid
  review ← or_raise (← gets (λ s. get s.reviews confirmation_id)) unavailable
  raise_if (not (review.status == "PENDING")) unavailable
  decide "REJECTED" confirmation_id actor now review

abbrev queue_document_if_new :
    ApplicantDocumentReview
    → Option ApplicantDocumentReview
    → Action Approvals ApprovalError ApplicantDocumentReview
queue_document_if_new review (some existing) = pure existing
queue_document_if_new review none = do
  modify (λ s. record s { document_reviews = put s.document_reviews review.submission_id review })
  pure review

unfoldable pub queue_document :
    ApplicantDocumentReview → Action Approvals ApprovalError ApplicantDocumentReview
queue_document review = do
  existing ← gets (λ s. get s.document_reviews review.submission_id)
  queue_document_if_new review existing

abbrev pub reviewed :
    String → String → ℕ → Option String → ApplicantDocumentReview → ApplicantDocumentReview
reviewed decision actor now reason review = record review {
  status = decision;
  reviewed_by = some (strip actor);
  reviewed_at_utc = some now;
  reason = reason;
}

-- `_review_document`
unfoldable pub review_document :
    ℕ
    → ℕ
    → String
    → String
    → String
    → Option String
    → Action Approvals ApprovalError ApplicantDocumentReview
review_document now submission_id decision actor actor_group reason = do
  raise_if (not (member actor_group reviewer_groups) || is_blank actor) denied
  review ← or_raise (← gets (λ s. get s.document_reviews submission_id)) unavailable
  if not (review.status == "PENDING") then pure review else (do
    modify (λ s. record s {
      document_reviews =
          put s.document_reviews submission_id (reviewed decision actor now reason review);
    })
    pure (reviewed decision actor now reason review))

unfoldable pub accept_document :
    ℕ → ℕ → String → String → Action Approvals ApprovalError ApplicantDocumentReview
unfolding review_document
accept_document now submission_id actor actor_group =
    review_document now submission_id "ACCEPTED" actor actor_group none

unfoldable pub reject_document :
    ℕ → ℕ → String → String → String → Action Approvals ApprovalError ApplicantDocumentReview
unfolding review_document
reject_document now submission_id actor actor_group reason = do
  raise_if (is_blank reason) invalid
  review_document now submission_id "REJECTED" actor actor_group (some (strip reason))
