-- ===== src/Auth/Logins.antt =====
-- app/auth/applicant.py: the calls of `ApplicantAuthService` that start or use a session.
use ehf_applications.Prelude.{
  ℕ, String, ◌+◌, Bool, not, ◌&&◌, Option, none, some, ◌==◌, if◌then◌else◌, nat_eq, string_eq,
  list_eq, is_some, leb, min, Action, raise_if, gets, modify, pure, ◌>>=◌, ◌>>◌,
}
use ehf_applications.Prelude.Dict.{put}
use ehf_applications.Store.{Bytes}
use ehf_applications.Auth.Types.{
  Primitives, InvitationRecord, PreAuthRecord, ChallengeRecord, StoredSession, NewApplicantSession,
  ApplicantSessionContext, AuthRepository, AuthError, bad_source,
}
use ehf_applications.Auth.Repository.{
  live, context, invitation_by_id, challenge, put_session, session, application_for_entra,
}
use ehf_applications.Auth.Invitations.{canonical_token, context_hash_of, is_code, zeros}

abbrev pub session_idle_lifetime : ℕ
session_idle_lifetime = 1800

abbrev pub session_absolute_lifetime : ℕ
session_absolute_lifetime = 86400

abbrev pub count_of : {A : Type 0} → Option A → ℕ
count_of none = 0
count_of (some _) = 1

-- What `verify_code` can check: the context is open and has an invitation, and the challenge is of
-- this invitation, is not consumed, has not expired and has attempts left.
abbrev pub is_usable : ℕ → ℕ → ChallengeRecord → Bool
is_usable now invitation_id ch =
    ch.invitation_id == invitation_id
    && not (is_some ch.consumed_at)
    && not (leb ch.expires_at now)
    && not (leb ch.max_attempts ch.attempt_count)

abbrev pub usable :
    ℕ → Option PreAuthRecord → Option ChallengeRecord → Option (PreAuthRecord × ChallengeRecord)
usable now none _ = none
usable now (some c) none = none
usable now (some c) (some ch) = elim c.invitation_id [
  | none ↦ none
  | some id ↦ if is_usable now id ch then some (c, ch) else none
]

abbrev pub attempted : ChallengeRecord → ChallengeRecord
attempted ch = record ch { attempt_count = ch.attempt_count + 1 }

-- the two writes of a verification that succeeds
abbrev pub consume : Bytes → ℕ → PreAuthRecord → ChallengeRecord → AuthRepository → AuthRepository
consume context_hash now c ch s = record s {
  challenges = put s.challenges context_hash (record ch { consumed_at = some now });
  contexts = put s.contexts context_hash (record c { consumed_at = some now });
}

abbrev pub count_attempt : Bytes → ChallengeRecord → AuthRepository → AuthRepository
count_attempt context_hash ch s = record s {
  challenges = put s.challenges context_hash (attempted ch);
}

abbrev pub context_of : StoredSession → ApplicantSessionContext
context_of stored = record {
  application_id = stored.application_id;
  csrf_hash = stored.csrf_hash;
  idle_expires_at = stored.idle_expires_at;
  absolute_expires_at = stored.absolute_expires_at;
  entra_object_id = stored.entra_object_id;
  synthetic_actor_identity = stored.synthetic_actor_identity;
}

-- the new idle expiry of a session that is used
abbrev pub extended : ℕ → StoredSession → StoredSession
extended now stored = record stored {
  idle_expires_at = min (now + session_idle_lifetime) stored.absolute_expires_at;
}

module _ (p : Primitives) where
  -- `_create_session_for`, with the two fresh tokens; the test is `StoredSession.__post_init__`
  unfoldable pub create_session :
      String
      → String
      → ℕ
      → ℕ
      → Option ℕ
      → Option ℕ
      → Action AuthRepository AuthError NewApplicantSession
  create_session raw_session raw_csrf application_id now invitation_id entra_object_id = do
    raise_if (not (count_of invitation_id + count_of entra_object_id == 1)) bad_source
    modify (
        put_session (record {
          application_id = application_id;
          session_hash = p.session_hash raw_session;
          csrf_hash = p.session_hash raw_csrf;
          idle_expires_at = now + session_idle_lifetime;
          absolute_expires_at = now + session_absolute_lifetime;
          revoked_at = none;
          invitation_id = invitation_id;
          entra_object_id = entra_object_id;
          synthetic_actor_identity = none;
        }))
    pure (record {
      application_id = application_id;
      session_token = raw_session;
      csrf_token = raw_csrf;
      idle_expires_at = now + session_idle_lifetime;
      absolute_expires_at = now + session_absolute_lifetime;
    })

  -- the digest of the code that was supplied
  abbrev pub supplied : ChallengeRecord → String → Bytes
  supplied ch code = if is_code code then p.otp_hash ch.invitation_id ch.nonce code else zeros 32

  abbrev pub some_session :
      Action AuthRepository AuthError NewApplicantSession
      → Action AuthRepository AuthError (Option NewApplicantSession)
  some_session m = do r ← m; pure (some r)

  -- the end of `verify_code`, where the code is right
  abbrev pub conclude :
      String
      → String
      → Bytes
      → ℕ
      → PreAuthRecord
      → ChallengeRecord
      → Option InvitationRecord
      → Action AuthRepository AuthError (Option NewApplicantSession)
  conclude raw_session raw_csrf context_hash now c ch none = pure none
  conclude raw_session raw_csrf context_hash now c ch (some invitation) = do
    modify (consume context_hash now c ch)
    some_session (
        create_session raw_session raw_csrf invitation.application_id now
          (some invitation.invitation_id) none)

  abbrev pub check_code :
      String
      → String
      → Bytes
      → String
      → ℕ
      → Option (PreAuthRecord × ChallengeRecord)
      → Action AuthRepository AuthError (Option NewApplicantSession)
  check_code raw_session raw_csrf context_hash code now none = pure none
  check_code raw_session raw_csrf context_hash code now (some (c, ch)) =
      if supplied ch code == ch.code_digest
      then (do
        invitation ← gets (λ s. live now (invitation_by_id s ch.invitation_id))
        conclude raw_session raw_csrf context_hash now c ch invitation)
      else (do modify (count_attempt context_hash ch); pure none)

  unfoldable pub verify_code :
      String
      → String
      → String
      → String
      → ℕ
      → Action AuthRepository AuthError (Option NewApplicantSession)
  unfolding context_hash_of create_session
  verify_code raw_session raw_csrf preauth_token code now = do
    let context_hash = context_hash_of p preauth_token
    found ← gets (λ s. usable now (context s context_hash now) (challenge s context_hash))
    check_code raw_session raw_csrf context_hash code now found

  abbrev pub session_for :
      String
      → String
      → ℕ
      → ℕ
      → Option ℕ
      → Action AuthRepository AuthError (Option NewApplicantSession)
  session_for raw_session raw_csrf now entra_object_id none = pure none
  session_for raw_session raw_csrf now entra_object_id (some application_id) =
      some_session
        (create_session raw_session raw_csrf application_id now none (some entra_object_id))

  unfoldable pub establish_entra :
      String → String → ℕ → ℕ → Action AuthRepository AuthError (Option NewApplicantSession)
  unfolding create_session
  establish_entra raw_session raw_csrf entra_object_id now = do
    application_id ← gets (λ s. application_for_entra s entra_object_id)
    session_for raw_session raw_csrf now entra_object_id application_id

  abbrev pub extend :
      Bytes
      → ℕ
      → Option StoredSession
      → Action AuthRepository AuthError (Option ApplicantSessionContext)
  extend session_hash now none = pure none
  extend session_hash now (some stored) = do
    modify (λ s. record s { sessions = put s.sessions session_hash (extended now stored) })
    pure (some (context_of (extended now stored)))

  unfoldable pub authenticate :
      String → ℕ → Action AuthRepository AuthError (Option ApplicantSessionContext)
  unfolding canonical_token
  authenticate session_token now = do
    stored ← gets (λ s.
        if canonical_token p session_token
        then session s (p.session_hash session_token) now
        else none)
    extend (p.session_hash session_token) now stored

  unfoldable pub valid_csrf : ApplicantSessionContext → String → Bool
  unfolding canonical_token
  valid_csrf c csrf_token = canonical_token p csrf_token && c.csrf_hash == p.session_hash csrf_token
