-- ===== src/Approval/Tests.antt =====
-- Runs of app/applicant/approval.py.
use ehf_applications.Prelude.{
  String, nat_eq, string_eq, ◌≡◌, refl, none, [], ◌∷◌, ok, member, is_blank,
}
use ehf_applications.Prelude.Dict.{get, put}
use ehf_applications.Approval.{
  Approvals, ApplicantSubmissionReview, ApplicantDocumentReview, decided, approve,
  return_for_correction,
}
use ehf_applications.Approval.Decisions.{approve-return_for_correction}

abbrev waiting : ApplicantSubmissionReview
waiting = record {
  confirmation_id = 1;
  application_id = 2;
  submitted_at_utc = 10;
  status = "PENDING";
  reviewed_by = none;
  reviewed_at_utc = none;
}

abbrev waiting_document : ApplicantDocumentReview
waiting_document = record {
  submission_id = 5;
  application_id = 2;
  slot_id = 3;
  version_id = 4;
  display_name = "cv.pdf";
  submitted_at_utc = 10;
  status = "PENDING";
  reviewed_by = none;
  reviewed_at_utc = none;
  reason = none;
}

abbrev queued : Approvals
queued = record { reviews = (1, waiting) ∷ []; document_reviews = (5, waiting_document) ∷ [] }

abbrev admins : String
admins = "EHF-Administrators"

approve-return_for_correction_example :
    let t = (return_for_correction 11 1 "identity" "typo" "Ann" admins queued).1 in
    let r = decided "REJECTED" "Ann" 11 waiting in
    (r.status ≡ "REJECTED")
    × (approve 12 1 "Bob" admins t ≡ (
      ok (decided "APPROVED" "Bob" 12 r),
      record t { reviews = put t.reviews 1 (decided "APPROVED" "Bob" 12 r) },
    ))
unfolding return_for_correction is_blank member get
approve-return_for_correction_example =
    approve-return_for_correction 1 queued 11 12 "identity" "typo" "Ann" admins "Bob" admins
      (decided "REJECTED" "Ann" 11 waiting) refl refl
