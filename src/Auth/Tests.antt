-- ===== src/Auth/Tests.antt =====
-- Runs of app/auth/applicant.py, with a codec and hashes that can be read.
use ehf_applications.Prelude.{
  ◌⊎◌, ℕ, String, nat_eq, list_eq, string_eq, ◌≡◌, ◌≢◌, ◌+◌, ◌<◌, ◌≤◌, refl, Bool, true, false,
  Option, none, some, List, [], ◌∷◌, ◌++◌, ok, err, Result, All, text_length, arith, ◌==◌,
  if◌then◌else◌,
}
use ehf_applications.Prelude.Dict.{get}
use ehf_applications.Store.{Bytes}
use ehf_applications.Auth.{
  Primitives, AuthRepository, AuthError, InvitationRecord, PreAuthRecord, ChallengeRecord,
  NewApplicantSession, ApplicantSessionContext, StoredSession, new_challenge, neutral_code_message,
  request_code, verify_code, establish_entra, authenticate, link_entra_identity,
}
use ehf_applications.Auth.Identities.{IsInverse}
use ehf_applications.Auth.Codes.{tries, verify_code_once, verify_code-exhausted}
use ehf_applications.Auth.Delivery.{verify_code-request_code}

-- 43 characters, which the codec below takes for canonical
abbrev token : String
token = "AAAAAAAAAAAAAAAAAAAAAAAAAAAAAAAAAAAAAAAAAAA"

abbrev thirty_two : Bytes
thirty_two =
    0 ∷ 0 ∷ 0 ∷ 0 ∷ 0 ∷ 0 ∷ 0 ∷ 0 ∷ 0 ∷ 0 ∷ 0 ∷ 0 ∷ 0 ∷ 0 ∷ 0 ∷ 0 ∷ 0 ∷ 0 ∷ 0 ∷ 0 ∷ 0 ∷ 0 ∷ 0 ∷ 0
    ∷ 0 ∷ 0 ∷ 0 ∷ 0 ∷ 0 ∷ 0 ∷ 0 ∷ 0 ∷ []

abbrev digits : String → Bytes
digits code = if code == "123456" then 1 ∷ [] else 2 ∷ []

abbrev plain : Primitives
plain = record {
  urlsafe_b64decode = λ t. some thirty_two;
  urlsafe_b64encode = λ b. token;
  sha256 = λ t. 3 ∷ [];
  session_hash = λ t. 4 ∷ [];
  otp_hash = λ invitation nonce code. digits code;
}

abbrev invitation : InvitationRecord
invitation = record {
  invitation_id = 1;
  application_id = 2;
  token_hash = 3 ∷ [];
  registered_email = "a@b.ch";
  expires_at = 10000;
  revoked_at = none;
}

abbrev preauth : PreAuthRecord
preauth = record {
  context_hash = 4 ∷ [];
  invitation_id = some 1;
  expires_at = 1300;
  consumed_at = none;
}

abbrev sent : ChallengeRecord
sent = new_challenge plain 9 (4 ∷ []) 1 "123456" [] 100

abbrev invited : AuthRepository
invited = record {
  invitations = (3 ∷ [], invitation) ∷ [];
  invitations_by_id = (1, invitation) ∷ [];
  contexts = (4 ∷ [], preauth) ∷ [];
  challenges = [];
  sessions = [];
  entra_applications = (7, 2) ∷ [];
  application_identities = (2, 7) ∷ [];
  messages = [];
}

abbrev challenged : AuthRepository
challenged = record invited { challenges = (4 ∷ [], sent) ∷ [] }

abbrev given : NewApplicantSession
given = record {
  application_id = 2;
  session_token = "s";
  csrf_token = "c";
  idle_expires_at = 2000;
  absolute_expires_at = 86600;
}

verify_code_once_example :
    let t = (verify_code plain "s" "c" token "123456" 200 challenged).1 in
    ((raw_session' raw_csrf' code' : String) (later : ℕ)
      → verify_code plain raw_session' raw_csrf' token code' later t ≡ (ok none, t))
    × ((fresh : ℕ) (code' : String) (nonce : Bytes) (later : ℕ)
        → request_code plain fresh code' nonce token later t ≡ (ok neutral_code_message, t))
unfolding verify_code ehf_applications.Auth.context get text_length
    ehf_applications.Prelude.rstrip_char ehf_applications.Auth.challenge
    ehf_applications.Auth.is_code ehf_applications.Auth.invitation_by_id
verify_code_once_example = verify_code_once plain token "s" "c" "123456" 200 challenged given refl

abbrev five_wrong : List (String × ℕ)
five_wrong =
    ("000000", 201) ∷ ("000001", 202) ∷ ("000002", 203) ∷ ("000003", 204) ∷ ("000004", 205) ∷ []

verify_code-exhausted_example :
    let t = tries plain token "s" "c" five_wrong challenged in
    verify_code plain "s" "c" token "123456" 206 t ≡ (ok none, t)
unfolding verify_code get text_length ehf_applications.Prelude.rstrip_char
    ehf_applications.Auth.is_code
verify_code-exhausted_example =
    verify_code-exhausted plain token "s" "c" "s" "c" "123456" 206 five_wrong challenged preauth
      sent (refl, refl, refl, refl, refl)
      (
        (refl, omega arith, omega arith),
        (
          (refl, omega arith, omega arith),
          (
            (refl, omega arith, omega arith),
            ((refl, omega arith, omega arith), ((refl, omega arith, omega arith), tt)),
          ),
        ),
      )
      (omega arith)

verify_code-request_code_example :
    let t = (request_code plain 9 "123456" [] token 100 invited).1 in
    (t.messages ≡ [] ++ record { recipient = "a@b.ch"; code = "123456" } ∷ [])
    × (n : NewApplicantSession) × ((verify_code plain "s" "c" token "123456" 200 t).0 ≡ ok (some n))
    × (n.application_id ≡ 2)
unfolding request_code get text_length ehf_applications.Prelude.rstrip_char
    ehf_applications.Auth.is_code
verify_code-request_code_example =
    verify_code-request_code plain token "s" "c" "123456" 9 100 200 [] invited preauth invitation
      refl refl refl (refl, omega arith, omega arith) (refl, omega arith, omega arith) refl
      (omega arith)

abbrev entra_session : NewApplicantSession
entra_session = record {
  application_id = 2;
  session_token = token;
  csrf_token = "c";
  idle_expires_at = 1900;
  absolute_expires_at = 86500;
}

abbrev live_session : StoredSession
live_session = record {
  application_id = 2;
  session_hash = 4 ∷ [];
  csrf_hash = 4 ∷ [];
  idle_expires_at = 1900;
  absolute_expires_at = 86500;
  revoked_at = none;
  invitation_id = none;
  entra_object_id = some 7;
  synthetic_actor_identity = none;
}

abbrev signed_in : AuthRepository
signed_in = record invited { sessions = (4 ∷ [], live_session) ∷ [] }

abbrev two_requests : List (String × ℕ)
two_requests = (token, 1000) ∷ (token, 2000) ∷ []

abbrev unlinked : AuthRepository
unlinked = record invited { entra_applications = []; application_identities = [] }

nothing_linked : IsInverse unlinked.entra_applications unlinked.application_identities
unfolding get
nothing_linked e a = (λ h. cc, λ h. cc)
