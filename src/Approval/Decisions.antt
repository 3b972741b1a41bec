-- ===== src/Approval/Decisions.antt =====
-- The decisions of reviewers in app/applicant/approval.py.
use ehf_applications.Prelude.{
  ℕ, String, nat_eq, string_eq, ◌≡◌, ◌≢◌, refl, true, false, not, ◌&&◌, Option, some, arith,
  Option-cases, Bool-cases, inl, inr, ◌==◌, ok, is_blank, member, eq_iff,
}
use ehf_applications.Prelude.Dict.{get, put, get-put_self}
use ehf_applications.Approval.{
  Approvals, ApplicantSubmissionReview, ApplicantDocumentReview, reviewer_groups, approve, decided,
  return_for_correction, review_document, reviewed,
}

module _ (submission_id : ℕ) (s : Approvals) where
  -- The first decision on a document stands: once a decision is returned and is not PENDING, every
  -- later decision of an authorised reviewer returns the same review and changes nothing.
  pub review_document-final :
      (now later : ℕ) (decision actor actor_group decision' actor' actor_group' : String)
      (reason reason' : Option String) (r : ApplicantDocumentReview)
      → decision ≢ "PENDING"
      → (member actor_group' reviewer_groups && not (is_blank actor')) ≡ true
      → (review_document now submission_id decision actor actor_group reason s).0 ≡ ok r
      → let t = (review_document now submission_id decision actor actor_group reason s).1 in
        review_document later submission_id decision' actor' actor_group' reason' t ≡ (ok r, t)
  unfolding review_document
  review_document-final now later decision actor actor_group decision' actor' actor_group' reason
        reason' r final may h =
      elim (Option-cases (get s.document_reviews submission_id)) [
        | inl missing ↦ absurd (ground arith)
        | inr (x, at) ↦ ground (
          arith,
          get-put_self s.document_reviews submission_id (reviewed decision actor now reason x),
          eq_iff decision "PENDING",
        )
      ]

module _ (confirmation_id : ℕ) (s : Approvals) where
  approve_approved :
      (now : ℕ) (actor actor_group : String) (r : ApplicantSubmissionReview)
      → get s.reviews confirmation_id ≡ some r
      → r.status ≡ "APPROVED"
      → (member actor_group reviewer_groups && not (is_blank actor)) ≡ true
      → approve now confirmation_id actor actor_group s ≡ (ok r, s)
  unfolding approve
  approve_approved now actor actor_group r at approved may =
      ground (arith, eq_iff r.status "APPROVED")

  approve_open :
      (now : ℕ) (actor actor_group : String) (r : ApplicantSubmissionReview)
      → get s.reviews confirmation_id ≡ some r
      → (r.status == "APPROVED") ≡ false
      → (member actor_group reviewer_groups && not (is_blank actor)) ≡ true
      → approve now confirmation_id actor actor_group s ≡ (
        ok (decided "APPROVED" actor now r),
        record s { reviews = put s.reviews confirmation_id (decided "APPROVED" actor now r) },
      )
  unfolding approve
  approve_open now actor actor_group r at new may = ground arith

  approve-ok :
      (now : ℕ) (actor actor_group : String) (r : ApplicantSubmissionReview)
      → (approve now confirmation_id actor actor_group s).0 ≡ ok r
      → ((member actor_group reviewer_groups && not (is_blank actor)) ≡ true)
        × (r.status ≡ "APPROVED")
        × (get (approve now confirmation_id actor actor_group s).1.reviews confirmation_id ≡ some r)
  unfolding approve
  approve-ok now actor actor_group r h = elim (Option-cases (get s.reviews confirmation_id)) [
    | inl missing ↦ absurd (ground arith)
    | inr (x, at) ↦ elim (Bool-cases (x.status == "APPROVED")) [
      | inl already ↦ (ground arith, ground (arith, eq_iff x.status "APPROVED"), ground arith)
      | inr new ↦ (
        ground arith,
        ground arith,
        ground (arith, get-put_self s.reviews confirmation_id (decided "APPROVED" actor now x)),
      )
    ]
  ]

  return_for_correction-ok :
      (now : ℕ) (section reason actor actor_group : String) (r : ApplicantSubmissionReview)
      → (return_for_correction now confirmation_id section reason actor actor_group s).0 ≡ ok r
      → (r.status ≡ "REJECTED")
        × (get
              (return_for_correction now confirmation_id section reason actor actor_group
                s).1.reviews
              confirmation_id
            ≡ some r)
  unfolding return_for_correction
  return_for_correction-ok now section reason actor actor_group r h =
      elim (Option-cases (get s.reviews confirmation_id)) [
        | inl missing ↦ absurd (ground arith)
        | inr (x, at) ↦ (
          ground arith,
          ground (arith, get-put_self s.reviews confirmation_id (decided "REJECTED" actor now x)),
        )
      ]

module _ (confirmation_id : ℕ) (s : Approvals) where
  -- An approval needs a reviewer's group and an actor's name. One that returns gives an approved
  -- review, which is stored, and approving again returns the same review and changes nothing.
  pub approve-approve :
      (now later : ℕ) (actor actor_group actor' actor_group' : String)
      (r : ApplicantSubmissionReview)
      → (member actor_group' reviewer_groups && not (is_blank actor')) ≡ true
      → (approve now confirmation_id actor actor_group s).0 ≡ ok r
      → let t = (approve now confirmation_id actor actor_group s).1 in
        ((member actor_group reviewer_groups && not (is_blank actor)) ≡ true)
        × (r.status ≡ "APPROVED")
        × (get t.reviews confirmation_id ≡ some r)
        × (approve later confirmation_id actor' actor_group' t ≡ (ok r, t))
  approve-approve now later actor actor_group actor' actor_group' r may h =
      let t = (approve now confirmation_id actor actor_group s).1 in
      let (reviewer, approved, at) = approve-ok confirmation_id s now actor actor_group r h in
      (
        reviewer,
        approved,
        at,
        approve_approved confirmation_id t later actor' actor_group' r at approved may,
      )

  -- A submission that was returned for correction can still be approved: the approval of an
  -- authorised reviewer returns, and replaces the rejection.
  pub approve-return_for_correction :
      (now later : ℕ) (section reason actor actor_group actor' actor_group' : String)
      (r : ApplicantSubmissionReview)
      → (return_for_correction now confirmation_id section reason actor actor_group s).0 ≡ ok r
      → (member actor_group' reviewer_groups && not (is_blank actor')) ≡ true
      → let t = (return_for_correction now confirmation_id section reason actor actor_group s).1 in
        (r.status ≡ "REJECTED")
        × (approve later confirmation_id actor' actor_group' t ≡ (
          ok (decided "APPROVED" actor' later r),
          record t { reviews = put t.reviews confirmation_id (decided "APPROVED" actor' later r) },
        ))
  approve-return_for_correction now later section reason actor actor_group actor' actor_group' r h
        may =
      let t = (return_for_correction now confirmation_id section reason actor actor_group s).1 in
      let (rejected, at) =
        return_for_correction-ok confirmation_id s now section reason actor actor_group r h in
      (
        rejected,
        approve_open confirmation_id t later actor' actor_group' r at (rw rejected refl) may,
      )
