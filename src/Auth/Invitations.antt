-- ===== src/Auth/Invitations.antt =====
-- app/auth/applicant.py: invitations and one-time codes of `ApplicantAuthService`. What a call draws at random, or from the code
-- factory, is an argument, and so is the time. The peppers' lengths are checked where the service
-- is built, before any call.
use ehf_applications.Prelude.{
  ℕ, zero, suc, String, ◌+◌, Bool, false, not, ◌&&◌, Option, none, some, [], ◌∷◌, ◌==◌,
  if◌then◌else◌, nat_eq, string_eq, list_eq, leb, length, text_length, all_chars, rstrip_char,
  joined, Action, raise_if, gets, modify, pure, ◌>>=◌, ◌>>◌,
}
use ehf_applications.Store.{Bytes}
use ehf_applications.Auth.Types.{
  Primitives, InvitationRecord, PreAuthRecord, ChallengeRecord, AuthRepository, AuthError, bad_code,
}
use ehf_applications.Auth.Repository.{
  otp_lifetime, live, active_invitation, put_context, context, invitation_by_id, put_challenge,
  deliver,
}

abbrev pub neutral_code_message : String
neutral_code_message = "If the invitation is valid, a code was sent to the registered address."

abbrev pub preauth_lifetime : ℕ
preauth_lifetime = 1200

-- bytes(32)
abbrev pub zeros : ℕ → Bytes
zeros zero = []
zeros (suc n) = 0 ∷ zeros n

-- six ASCII digits
unfoldable pub is_code : String → Bool
unfolding text_length all_chars
is_code code = text_length code == 6 && all_chars (λ c. leb 48 c && leb c 57) code

abbrev pub id_of : Option InvitationRecord → Option ℕ
id_of none = none
id_of (some r) = some r.invitation_id

-- the invitation of a context, where it can be sent a code
abbrev pub invitation_of : AuthRepository → Option PreAuthRecord → ℕ → Option InvitationRecord
invitation_of s none now = none
invitation_of s (some c) now = elim c.invitation_id [
  | none ↦ none
  | some id ↦ live now (invitation_by_id s id)
]

module _ (p : Primitives) where
  -- len(decoded) == 32 and new_token_text(decoded) == token
  abbrev pub decodes_to : String → Option Bytes → Bool
  decodes_to token none = false
  decodes_to token (some decoded) =
      length decoded == 32 && rstrip_char 61 (p.urlsafe_b64encode decoded) == token

  -- `_canonical_token`
  unfoldable pub canonical_token : String → Bool
  canonical_token token =
      text_length token == 43 && decodes_to token (p.urlsafe_b64decode (joined token "="))

  -- `_context_hash`
  unfoldable pub context_hash_of : String → Bytes
  unfolding canonical_token
  context_hash_of token = if canonical_token token then p.session_hash token else zeros 32

  abbrev pub found_invitation : AuthRepository → String → ℕ → Option InvitationRecord
  found_invitation s token now =
      if canonical_token token then active_invitation s (p.sha256 token) now else none

  -- `raw_context` is the fresh token
  unfoldable pub establish : String → String → ℕ → Action AuthRepository AuthError String
  unfolding canonical_token
  establish raw_context invitation_token now = do
    invitation ← gets (λ s. found_invitation s invitation_token now)
    modify (
        put_context (record {
          context_hash = p.session_hash raw_context;
          invitation_id = id_of invitation;
          expires_at = now + preauth_lifetime;
          consumed_at = none;
        }))
    pure raw_context

  abbrev pub new_challenge : ℕ → Bytes → ℕ → String → Bytes → ℕ → ChallengeRecord
  new_challenge fresh context_hash invitation_id code nonce now = record {
    challenge_id = fresh;
    context_hash = context_hash;
    invitation_id = invitation_id;
    code_digest = p.otp_hash invitation_id nonce code;
    nonce = nonce;
    expires_at = now + otp_lifetime;
    attempt_count = 0;
    max_attempts = 5;
    consumed_at = none;
  }

  abbrev pub send_code :
      ℕ
      → Bytes
      → String
      → Bytes
      → ℕ
      → Option InvitationRecord
      → Action AuthRepository AuthError String
  send_code fresh context_hash code nonce now none = pure neutral_code_message
  send_code fresh context_hash code nonce now (some invitation) = do
    raise_if (not (is_code code)) bad_code
    modify
        (put_challenge (new_challenge fresh context_hash invitation.invitation_id code nonce now))
    modify (deliver invitation.registered_email code)
    pure neutral_code_message

  unfoldable pub request_code :
      ℕ → String → Bytes → String → ℕ → Action AuthRepository AuthError String
  unfolding context_hash_of
  request_code fresh code nonce preauth_token now = do
    let context_hash = context_hash_of preauth_token
    invitation ← gets (λ s. invitation_of s (context s context_hash now) now)
    send_code fresh context_hash code nonce now invitation
