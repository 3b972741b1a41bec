-- ===== src/Auth/Delivery.antt =====
-- What is sent by `request_code` of app/auth/applicant.py, `verify_code` accepts.
use ehf_applications.Prelude.{
  ℕ, String, nat_eq, list_eq, string_eq, ◌≡◌, ◌+◌, ◌<◌, refl, true, false, Option, none, some, [],
  ◌∷◌, ◌++◌, arith, Bool-cases, inl, inr, beq_refl, ok, is_some,
}
use ehf_applications.Prelude.Dict.{get, get-put_self}
use ehf_applications.Store.{Bytes}
use ehf_applications.Auth.{
  Primitives, AuthRepository, PreAuthRecord, ChallengeRecord, InvitationRecord, NewApplicantSession,
  context, challenge, invitation_by_id, live, context_hash_of, request_code, verify_code, is_code,
  put_challenge, retire, deliver, otp_lifetime, create_session, new_challenge,
  session_idle_lifetime, session_absolute_lifetime,
}

module _ (p : Primitives) (preauth_token : String) where
  abbrev hash : Bytes
  hash = context_hash_of p preauth_token

  retire-frame :
      (r : ChallengeRecord) (prior : Option ChallengeRecord) (s : AuthRepository)
      → ((retire r prior s).contexts ≡ s.contexts)
        × ((retire r prior s).invitations_by_id ≡ s.invitations_by_id)
        × ((retire r prior s).messages ≡ s.messages)
  retire-frame r none s = (refl, refl, refl)
  retire-frame r (some prior) s = elim (Bool-cases (is_some prior.consumed_at)) [
    | inl done ↦ rw done (refl, refl, refl)
    | inr pending ↦ rw pending (refl, refl, refl)
  ]

  put_challenge-holds :
      (r : ChallengeRecord) (s : AuthRepository)
      → (get (put_challenge r s).challenges r.context_hash ≡ some r)
        × ((put_challenge r s).contexts ≡ s.contexts)
        × ((put_challenge r s).invitations_by_id ≡ s.invitations_by_id)
        × ((put_challenge r s).messages ≡ s.messages)
  unfolding put_challenge
  put_challenge-holds r s =
      let prior = get s.challenges r.context_hash in
      let (contexts, invitations, messages) = retire-frame r prior s in
      (get-put_self (retire r prior s).challenges r.context_hash r, contexts, invitations, messages)

  -- A request on an unused pre-authentication of a live invitation sends the code to the registered
  -- address. Verifying with that code within ten minutes of the request, and before the
  -- pre-authentication and the invitation expire, gives a session of the invitation's application.
  pub verify_code-request_code :
      (raw_session raw_csrf code : String) (fresh now later : ℕ) (nonce : Bytes)
      (s : AuthRepository) (c : PreAuthRecord) (invitation : InvitationRecord)
      → get s.contexts hash ≡ some c
      → c.invitation_id ≡ some invitation.invitation_id
      → get s.invitations_by_id invitation.invitation_id ≡ some invitation
      → (is_some c.consumed_at ≡ false) × (now < c.expires_at) × (later < c.expires_at)
      → (is_some invitation.revoked_at ≡ false)
        × (now < invitation.expires_at)
        × (later < invitation.expires_at)
      → is_code code ≡ true
      → later < now + otp_lifetime
      → let t = (request_code p fresh code nonce preauth_token now s).1 in
        (t.messages
          ≡ s.messages ++ record { recipient = invitation.registered_email; code = code } ∷ [])
        × (n : NewApplicantSession) × ((verify_code p raw_session raw_csrf preauth_token code later
              t).0
            ≡ ok (some n))
        × (n.application_id ≡ invitation.application_id)
  unfolding request_code verify_code create_session deliver context challenge invitation_by_id
  verify_code-request_code raw_session raw_csrf code fresh now later nonce s c invitation at invited
        stored unconsumed live six soon =
      let ch = new_challenge p fresh hash invitation.invitation_id code nonce now in
      let (placed, contexts, invitations, messages) = put_challenge-holds ch s in
      (
        ground arith,
        record {
          application_id = invitation.application_id;
          session_token = raw_session;
          csrf_token = raw_csrf;
          idle_expires_at = later + session_idle_lifetime;
          absolute_expires_at = later + session_absolute_lifetime;
        },
        ground (
          arith,
          beq_refl invitation.invitation_id,
          beq_refl (p.otp_hash invitation.invitation_id nonce code),
        ),
        refl,
      )
