-- ===== src/Access/Provisioning.antt =====
-- An access request from its review to the link, in app/applicant/access.py.
use ehf_applications.Prelude.{
  ◌∙◌, sym, ap, ◌⊎◌, ℕ, String, nat_eq, string_eq, ◌≡◌, ◌≢◌, refl, true, false, some, arith,
  Option-cases, inl, inr, ◌==◌, ok, err, Result-cases, eq_iff,
}
use ehf_applications.Prelude.Dict.{get, put, get-put_self}
use ehf_applications.Auth.{is_other}
use ehf_applications.Auth.Identities.{IsInverse, put-IsInverse}
use ehf_applications.Access.{
  AccessRequests, ApplicantAccessRequest, AccessError, review, provision, may_review, reviewed,
  provisioned,
}

module _ (request_id application_id entra_object_id : ℕ) (actor actor_group : String)
    (s : AccessRequests) where
  abbrev after : AccessRequests
  after = (provision request_id application_id entra_object_id actor actor_group s).1

  provision-err :
      (x : AccessError)
      → (provision request_id application_id entra_object_id actor actor_group s).0 ≡ err x
      → after ≡ s
  unfolding provision
  provision-err x h = ground arith

  provision-ok :
      (r : ApplicantAccessRequest)
      → (provision request_id application_id entra_object_id actor actor_group s).0 ≡ ok r
      → (may_review actor actor_group ≡ true)
        × (is_other (get s.entra_applications entra_object_id) application_id ≡ false)
        × (is_other (get s.application_identities application_id) entra_object_id ≡ false)
        × (item : ApplicantAccessRequest) × (get s.requests request_id ≡ some item)
        × (item.status ≡ "APPROVED")
        × (after.requests ≡ put s.requests request_id (provisioned item))
        × (after.entra_applications ≡ put s.entra_applications entra_object_id application_id)
        × (after.application_identities
            ≡ put s.application_identities application_id entra_object_id)
  unfolding provision
  provision-ok r h = elim (Option-cases (get s.requests request_id)) [
    | inl missing ↦ absurd (ground arith)
    | inr (item, at) ↦ (
      ground arith,
      ground arith,
      ground arith,
      item,
      at,
      ground (arith, eq_iff item.status "APPROVED"),
      ground arith,
      ground arith,
      ground arith,
    )
  ]

  provision_item :
      (r item : ApplicantAccessRequest)
      → get s.requests request_id ≡ some item
      → (provision request_id application_id entra_object_id actor actor_group s).0 ≡ ok r
      → r ≡ provisioned item
  unfolding provision
  provision_item r item at h = ground arith

  -- A provision either raises and has changed nothing, or returns: then a reviewer called it on an
  -- approved request, which is now PROVISIONED, and the identity and the application are linked.
  pub provision-lem :
      ((x : AccessError) × ((provision request_id application_id entra_object_id actor actor_group
            s).0
          ≡ err x)
        × (after ≡ s))
      ⊎ ((item : ApplicantAccessRequest) × ((provision request_id application_id entra_object_id
              actor actor_group s).0
            ≡ ok (provisioned item))
          × (may_review actor actor_group ≡ true)
          × (get s.requests request_id ≡ some item)
          × (item.status ≡ "APPROVED")
          × (get after.requests request_id ≡ some (provisioned item))
          × (get after.entra_applications entra_object_id ≡ some application_id)
          × (get after.application_identities application_id ≡ some entra_object_id))
  provision-lem =
      elim (Result-cases
        (provision request_id application_id entra_object_id actor actor_group s).0) [
          | inr (x, failed) ↦ inl (x, failed, provision-err x failed)
          | inl (r, linking) ↦
              let (may, _, _, item, at, approved, requests, entra, identity) =
                provision-ok r linking in
              inr (
                item,
                linking ∙ ap ok (provision_item r item at linking),
                may,
                at,
                approved,
                rw requests (get-put_self s.requests request_id (provisioned item)),
                rw entra (get-put_self s.entra_applications entra_object_id application_id),
                rw identity (get-put_self s.application_identities application_id entra_object_id),
              )
        ]

  -- A provision keeps the identities and the applications linked one to one.
  pub provision-IsInverse :
      IsInverse s.entra_applications s.application_identities
      → IsInverse after.entra_applications after.application_identities
  provision-IsInverse h =
      elim (Result-cases
        (provision request_id application_id entra_object_id actor actor_group s).0) [
          | inr (x, failed) ↦ rw (provision-err x failed) h
          | inl (r, linking) ↦
              let (_, free, free', item, _, _, _, entra, identity) = provision-ok r linking in
              rw entra (
                rw identity (
                  put-IsInverse s.entra_applications s.application_identities entra_object_id
                    application_id free free' h))
        ]

  unapproved-provision :
      (item r : ApplicantAccessRequest)
      → get s.requests request_id ≡ some item
      → (item.status == "APPROVED") ≡ false
      → (provision request_id application_id entra_object_id actor actor_group s).0 ≢ ok r
  unfolding provision
  unapproved-provision item r at status h = ground arith

module _ (request_id : ℕ) (actor actor_group : String) (s : AccessRequests) where
  review-ok :
      (now : ℕ) (decision : String) (r : ApplicantAccessRequest)
      → (review now request_id decision actor actor_group s).0 ≡ ok r
      → (r.status ≡ decision)
        × (get (review now request_id decision actor actor_group s).1.requests request_id ≡ some r)
  unfolding review
  review-ok now decision r h = elim (Option-cases (get s.requests request_id)) [
    | inl missing ↦ absurd (ground arith)
    | inr (item, at) ↦ (
      ground arith,
      ground (
        arith,
        get-put_self s.requests request_id (reviewed decision actor actor_group now item),
      ),
    )
  ]

  -- No provision of a request returns after `review` rejected the request, or after an earlier
  -- provision of it returned.
  pub provision_once :
      (now application_id entra_object_id application_id' entra_object_id' : ℕ)
      (actor' actor_group' : String) (r r' : ApplicantAccessRequest) (t : AccessRequests)
      → (review now request_id "REJECTED" actor actor_group s ≡ (ok r, t))
        ⊎ (provision request_id application_id entra_object_id actor actor_group s ≡ (ok r, t))
      → (provision request_id application_id' entra_object_id' actor' actor_group' t).0 ≢ ok r'
  provision_once now application_id entra_object_id application_id' entra_object_id' actor'
        actor_group' r r' t (inl h) =
      let (rejected, at) = review-ok now "REJECTED" r (ap (λ p. p.0) h) in
      unapproved-provision request_id application_id' entra_object_id' actor' actor_group' t r r'
        (ap (λ p. get p.1.requests request_id) (sym h) ∙ at) (rw rejected refl)
  provision_once now application_id entra_object_id application_id' entra_object_id' actor'
        actor_group' r r' t (inr h) =
      let (_, _, _, item, _, _, requests, _, _) =
        provision-ok request_id application_id entra_object_id actor actor_group s r
          (ap (λ p. p.0) h) in
      unapproved-provision request_id application_id' entra_object_id' actor' actor_group' t
        (provisioned item) r'
        (ap (λ p. get p.1.requests request_id) (sym h)
          ∙ rw requests (get-put_self s.requests request_id (provisioned item)))
        refl
