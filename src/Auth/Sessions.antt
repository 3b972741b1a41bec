-- ===== src/Auth/Sessions.antt =====
-- The lifetime of a session, in app/auth/applicant.py.
use ehf_applications.Prelude.{
  ℕ, String, nat_eq, list_eq, ◌≡◌, ◌+◌, ◌≤◌, ◌<◌, refl, true, none, some, List, [], ◌∷◌, arith,
  Option-cases, Bool-cases, inl, inr, ◌==◌, eq_of_beq, ok,
}
use ehf_applications.Prelude.Dict.{get, get-put, get-put_self}
use ehf_applications.Store.{Bytes}
use ehf_applications.Auth.{
  Primitives, AuthRepository, StoredSession, NewApplicantSession, ApplicantSessionContext,
  authenticate, establish_entra, create_session, put_session, session, live_session,
  canonical_token, session_idle_lifetime, session_absolute_lifetime, extended, context_of,
  application_for_entra,
}

module _ (p : Primitives) where
  -- The session that an Entra sign-in gives is of the application that the identity is linked to,
  -- and its token authenticates that application until 30 minutes later.
  pub authenticate-establish_entra :
      (raw_session raw_csrf : String) (entra_object_id now later : ℕ) (s : AuthRepository)
      (n : NewApplicantSession)
      → canonical_token p raw_session ≡ true
      → (establish_entra p raw_session raw_csrf entra_object_id now s).0 ≡ ok (some n)
      → later < now + session_idle_lifetime
      → let t = (establish_entra p raw_session raw_csrf entra_object_id now s).1 in
        (get s.entra_applications entra_object_id ≡ some n.application_id)
        × (n.session_token ≡ raw_session)
        × (c : ApplicantSessionContext) × ((authenticate p raw_session later t).0 ≡ ok (some c))
        × (c.application_id ≡ n.application_id)
        × (c.entra_object_id ≡ some entra_object_id)
  unfolding establish_entra create_session put_session authenticate session application_for_entra
  authenticate-establish_entra raw_session raw_csrf entra_object_id now later s n canonical h soon =
      elim (Option-cases (get s.entra_applications entra_object_id)) [
        | inl unlinked ↦ absurd (ground arith)
        | inr (application_id, linked) ↦
            let stored : StoredSession = record {
              application_id = application_id;
              session_hash = p.session_hash raw_session;
              csrf_hash = p.session_hash raw_csrf;
              idle_expires_at = now + session_idle_lifetime;
              absolute_expires_at = now + session_absolute_lifetime;
              revoked_at = none;
              invitation_id = none;
              entra_object_id = some entra_object_id;
              synthetic_actor_identity = none;
            } in
            (
              ground arith,
              ground arith,
              context_of (extended later stored),
              ground (arith, get-put_self s.sessions (p.session_hash raw_session) stored),
              ground arith,
              refl,
            )
      ]

  -- the state after a list of requests, each with its token and its time
  abbrev pub requests : List (String × ℕ) → AuthRepository → AuthRepository
  requests [] s = s
  requests (r ∷ rs) s = requests rs (authenticate p r.0 r.1 s).1

  -- The session is stored, and its idle expiry is not after its absolute one.
  abbrev pub IsCapped : Bytes → ℕ → AuthRepository → Type 0
  IsCapped h absolute s =
      (r : StoredSession) × (get s.sessions h ≡ some r)
      × (r.absolute_expires_at ≡ absolute)
      × (r.idle_expires_at ≤ absolute)

  authenticate-IsCapped :
      (h : Bytes) (absolute : ℕ) (token : String) (now : ℕ) (s : AuthRepository)
      → IsCapped h absolute s
      → IsCapped h absolute (authenticate p token now s).1
  unfolding authenticate session
  authenticate-IsCapped h absolute token now s (r, at, same, capped) =
      elim (Bool-cases (canonical_token p token)) [
        | inr bad ↦ (r, ground arith, same, capped)
        | inl canonical ↦
            elim (Option-cases (live_session now (get s.sessions (p.session_hash token)))) [
              | inl dead ↦ (r, ground arith, same, capped)
              | inr (stored, found) ↦ elim (Bool-cases (p.session_hash token == h)) [
                | inr other ↦ (
                  r,
                  ground (arith, get-put s.sessions (p.session_hash token) h (extended now stored)),
                  same,
                  capped,
                )
                | inl mine ↦
                    let key = eq_of_beq (p.session_hash token) h mine in
                    let this : stored ≡ r = ground (arith, key, at, found) in
                    (
                      extended now r,
                      ground (
                        arith,
                        this,
                        get-put s.sessions (p.session_hash token) h (extended now stored),
                      ),
                      same,
                      ground arith,
                    )
              ]
            ]
      ]

  requests-IsCapped :
      (h : Bytes) (absolute : ℕ) (rs : List (String × ℕ)) (s : AuthRepository)
      → IsCapped h absolute s
      → IsCapped h absolute (requests rs s)
  requests-IsCapped h absolute [] s capped = capped
  requests-IsCapped h absolute (r ∷ rs) s capped =
      requests-IsCapped h absolute rs (authenticate p r.0 r.1 s).1
        (authenticate-IsCapped h absolute r.0 r.1 s capped)

  -- Whatever requests are made, each sliding the idle expiry, a session's token authenticates
  -- nothing from its absolute expiry on.
  pub authenticate_expired :
      (token : String) (absolute later : ℕ) (rs : List (String × ℕ)) (s : AuthRepository)
      → IsCapped (p.session_hash token) absolute s
      → absolute ≤ later
      → authenticate p token later (requests rs s) ≡ (ok none, requests rs s)
  unfolding authenticate session
  authenticate_expired token absolute later rs s capped expired =
      let (r, at, same, _) = requests-IsCapped (p.session_hash token) absolute rs s capped in
      ground arith
