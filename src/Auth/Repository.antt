-- ===== src/Auth/Repository.antt =====
-- app/auth/applicant.py: `InMemoryApplicantAuthRepository`. The record that a call changes in place
-- is written back under its key, since each is reached through one dictionary only.
use ehf_applications.Prelude.{
  ℕ, String, ◌-◌, Bool, false, not, ◌||◌, Option, none, some, [], ◌∷◌, ◌++◌, ◌==◌, if◌then◌else◌,
  nat_eq, list_eq, is_some, leb, Action, raise_if, gets, modify, pure, ◌>>=◌, ◌>>◌,
}
use ehf_applications.Prelude.Dict.{get, put}
use ehf_applications.Store.{Bytes}
use ehf_applications.Auth.Types.{
  InvitationRecord, PreAuthRecord, ChallengeRecord, StoredSession, AuthRepository, AuthError,
  not_one_to_one,
}

abbrev pub otp_lifetime : ℕ
otp_lifetime = 600

-- `existing not in {None, value}`
abbrev pub is_other : Option ℕ → ℕ → Bool
is_other none value = false
is_other (some x) value = not (x == value)

unfoldable pub link_entra_identity : ℕ → ℕ → Action AuthRepository AuthError Unit
link_entra_identity entra_object_id application_id = do
  s ← gets (λ s. s)
  raise_if
      (is_other (get s.entra_applications entra_object_id) application_id
        || is_other (get s.application_identities application_id) entra_object_id)
      not_one_to_one
  modify (λ s. record s {
    entra_applications = put s.entra_applications entra_object_id application_id;
    application_identities = put s.application_identities application_id entra_object_id;
  })

unfoldable pub application_for_entra : AuthRepository → ℕ → Option ℕ
application_for_entra s entra_object_id = get s.entra_applications entra_object_id

unfoldable pub add_invitation :
    ℕ → ℕ → Bytes → String → ℕ → Option ℕ → Action AuthRepository AuthError InvitationRecord
add_invitation fresh application_id token_hash registered_email expires_at revoked_at = do
  let invitation : InvitationRecord = record {
    invitation_id = fresh;
    application_id = application_id;
    token_hash = token_hash;
    registered_email = registered_email;
    expires_at = expires_at;
    revoked_at = revoked_at;
  }
  modify (λ s. record s {
    invitations = put s.invitations token_hash invitation;
    invitations_by_id = put s.invitations_by_id fresh invitation;
  })
  pure invitation

-- record, where it is not revoked and not expired
abbrev pub live : ℕ → Option InvitationRecord → Option InvitationRecord
live now none = none
live now (some r) = if is_some r.revoked_at || leb r.expires_at now then none else some r

unfoldable pub active_invitation : AuthRepository → Bytes → ℕ → Option InvitationRecord
active_invitation s token_hash now = live now (get s.invitations token_hash)

unfoldable pub put_context : PreAuthRecord → AuthRepository → AuthRepository
put_context r s = record s { contexts = put s.contexts r.context_hash r }

abbrev pub open_context : ℕ → Option PreAuthRecord → Option PreAuthRecord
open_context now none = none
open_context now (some r) = if is_some r.consumed_at || leb r.expires_at now then none else some r

unfoldable pub context : AuthRepository → Bytes → ℕ → Option PreAuthRecord
context s context_hash now = open_context now (get s.contexts context_hash)

unfoldable pub invitation_by_id : AuthRepository → ℕ → Option InvitationRecord
invitation_by_id s invitation_id = get s.invitations_by_id invitation_id

-- prior.consumed_at = record.expires_at - OTP_LIFETIME
abbrev pub retire : ChallengeRecord → Option ChallengeRecord → AuthRepository → AuthRepository
retire r none s = s
retire r (some prior) s = if is_some prior.consumed_at then s else record s {
  challenges =
      put s.challenges r.context_hash
        (record prior { consumed_at = some (r.expires_at - otp_lifetime) });
}

unfoldable pub put_challenge : ChallengeRecord → AuthRepository → AuthRepository
put_challenge r s =
    let retired = retire r (get s.challenges r.context_hash) s in
    record retired { challenges = put retired.challenges r.context_hash r }

unfoldable pub challenge : AuthRepository → Bytes → Option ChallengeRecord
challenge s context_hash = get s.challenges context_hash

unfoldable pub put_session : StoredSession → AuthRepository → AuthRepository
put_session r s = record s { sessions = put s.sessions r.session_hash r }

abbrev pub live_session : ℕ → Option StoredSession → Option StoredSession
live_session now none = none
live_session now (some r) =
    if is_some r.revoked_at || leb r.idle_expires_at now || leb r.absolute_expires_at now
    then none
    else some r

unfoldable pub session : AuthRepository → Bytes → ℕ → Option StoredSession
session s session_hash now = live_session now (get s.sessions session_hash)

-- CapturingVerificationDelivery.deliver
unfoldable pub deliver : String → String → AuthRepository → AuthRepository
deliver recipient code s = record s {
  messages = s.messages ++ record { recipient = recipient; code = code } ∷ [];
}
