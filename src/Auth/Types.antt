-- ===== src/Auth/Types.antt =====
-- The records of app/auth/applicant.py. A time is a number of seconds, and identifiers are numbers.
use ehf_applications.Prelude.{ℕ, String, Option, List}
use ehf_applications.Prelude.Dict.{Dict}
use ehf_applications.Store.{Bytes}

-- The standard library's primitives that the service calls: the codec of `base64` and the two
-- hashes, under the pepper of each.
pub record Primitives : Type 0 where
  -- `None` is a ValueError or a UnicodeEncodeError
  pub urlsafe_b64decode : String → Option Bytes
  pub urlsafe_b64encode : Bytes → String
  -- `invitation_token_hash`
  pub sha256 : String → Bytes
  -- `_keyed_hash` under the session pepper
  pub session_hash : String → Bytes
  -- the HMAC of `_verification_digest`, of the invitation, the nonce and the code
  pub otp_hash : ℕ → Bytes → String → Bytes

pub record VerificationDelivery : Type 0 where
  pub recipient : String
  pub code : String

pub record InvitationRecord : Type 0 where
  pub invitation_id : ℕ
  pub application_id : ℕ
  pub token_hash : Bytes
  pub registered_email : String
  pub expires_at : ℕ
  pub revoked_at : Option ℕ

pub record PreAuthRecord : Type 0 where
  pub context_hash : Bytes
  pub invitation_id : Option ℕ
  pub expires_at : ℕ
  pub consumed_at : Option ℕ

pub record ChallengeRecord : Type 0 where
  pub challenge_id : ℕ
  pub context_hash : Bytes
  pub invitation_id : ℕ
  pub code_digest : Bytes
  pub nonce : Bytes
  pub expires_at : ℕ
  pub attempt_count : ℕ
  pub max_attempts : ℕ
  pub consumed_at : Option ℕ

pub record StoredSession : Type 0 where
  pub application_id : ℕ
  pub session_hash : Bytes
  pub csrf_hash : Bytes
  pub idle_expires_at : ℕ
  pub absolute_expires_at : ℕ
  pub revoked_at : Option ℕ
  pub invitation_id : Option ℕ
  pub entra_object_id : Option ℕ
  pub synthetic_actor_identity : Option String

pub record NewApplicantSession : Type 0 where
  pub application_id : ℕ
  pub session_token : String
  pub csrf_token : String
  pub idle_expires_at : ℕ
  pub absolute_expires_at : ℕ

pub record ApplicantSessionContext : Type 0 where
  pub application_id : ℕ
  pub csrf_hash : Bytes
  pub idle_expires_at : ℕ
  pub absolute_expires_at : ℕ
  pub entra_object_id : Option ℕ
  pub synthetic_actor_identity : Option String

-- InMemoryApplicantAuthRepository, with the messages of CapturingVerificationDelivery
pub record AuthRepository : Type 0 where
  pub invitations : Dict Bytes InvitationRecord
  pub invitations_by_id : Dict ℕ InvitationRecord
  pub contexts : Dict Bytes PreAuthRecord
  pub challenges : Dict Bytes ChallengeRecord
  pub sessions : Dict Bytes StoredSession
  pub entra_applications : Dict ℕ ℕ
  pub application_identities : Dict ℕ ℕ
  pub messages : List VerificationDelivery

-- ValueError
pub data AuthError : Type 0 where
  not_one_to_one bad_source bad_code : AuthError
