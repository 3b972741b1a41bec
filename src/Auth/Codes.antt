-- ===== src/Auth/Codes.antt =====
-- One-time codes of app/auth/applicant.py: a code that is sent is accepted, once, and wrong codes
-- use up its attempts.
use ehf_applications.Prelude.{
  ℕ, String, nat_eq, list_eq, string_eq, ◌≡◌, ◌+◌, ◌≤◌, ◌<◌, refl, sym, true, false, none, some,
  List, [], ◌∷◌, arith, Option-cases, Bool-cases, inl, inr, ◌==◌, beq_refl, ok, length, All,
  is_some, leb,
}
use mathlib.Core.Path.{subst}
use ehf_applications.Prelude.Dict.{get, put, get-put_self}
use ehf_applications.Store.{Bytes}
use ehf_applications.Auth.{
  Primitives, AuthRepository, PreAuthRecord, ChallengeRecord, NewApplicantSession, context,
  challenge, invitation_by_id, live, usable, supplied, context_hash_of, neutral_code_message,
  request_code, verify_code, attempted, put_session, create_session,
}

module _ (p : Primitives) (preauth_token : String) where
  abbrev hash : Bytes
  hash = context_hash_of p preauth_token

  closed-verify_code :
      (raw_session raw_csrf code : String) (now : ℕ) (s : AuthRepository)
      → context s hash now ≡ none
      → verify_code p raw_session raw_csrf preauth_token code now s ≡ (ok none, s)
  unfolding verify_code
  closed-verify_code raw_session raw_csrf code now s h = ground arith

  closed-request_code :
      (fresh : ℕ) (code : String) (nonce : Bytes) (now : ℕ) (s : AuthRepository)
      → context s hash now ≡ none
      → request_code p fresh code nonce preauth_token now s ≡ (ok neutral_code_message, s)
  unfolding request_code
  closed-request_code fresh code nonce now s h = ground arith

  consumed-context :
      (s : AuthRepository) (c : PreAuthRecord) (now : ℕ)
      → get s.contexts hash ≡ some c
      → is_some c.consumed_at ≡ true
      → context s hash now ≡ none
  unfolding context
  consumed-context s c now at consumed = ground arith

  verify_code-consumed :
      (raw_session raw_csrf code : String) (now : ℕ) (s : AuthRepository) (n : NewApplicantSession)
      → (verify_code p raw_session raw_csrf preauth_token code now s).0 ≡ ok (some n)
      → (c : PreAuthRecord) × (get
            (verify_code p raw_session raw_csrf preauth_token code now s).1.contexts
            hash
          ≡ some c)
        × (is_some c.consumed_at ≡ true)
  unfolding verify_code create_session put_session
  verify_code-consumed raw_session raw_csrf code now s n h =
      elim (Option-cases (usable now (context s hash now) (challenge s hash))) [
        | inl unusable ↦ absurd (ground arith)
        | inr (found, at) ↦
            let (c, ch) = found in
            elim (Bool-cases (supplied p ch code == ch.code_digest)) [
              | inr wrong ↦ absurd (ground arith)
              | inl right ↦ elim (Option-cases (live now (invitation_by_id s ch.invitation_id))) [
                | inl gone ↦ absurd (ground arith)
                | inr (invitation, valid) ↦ (
                  record c { consumed_at = some now },
                  ground
                      (arith, get-put_self s.contexts hash (record c { consumed_at = some now })),
                  refl,
                )
              ]
            ]
      ]

  -- A code is good for one session: after a verification that gives a session, every request of a
  -- code and every verification on the same pre-authentication gives nothing and changes nothing.
  pub verify_code_once :
      (raw_session raw_csrf code : String) (now : ℕ) (s : AuthRepository) (n : NewApplicantSession)
      → (verify_code p raw_session raw_csrf preauth_token code now s).0 ≡ ok (some n)
      → let t = (verify_code p raw_session raw_csrf preauth_token code now s).1 in
        ((raw_session' raw_csrf' code' : String) (later : ℕ)
          → verify_code p raw_session' raw_csrf' preauth_token code' later t ≡ (ok none, t))
        × ((fresh : ℕ) (code' : String) (nonce : Bytes) (later : ℕ)
            → request_code p fresh code' nonce preauth_token later t ≡ (ok neutral_code_message, t))
  verify_code_once raw_session raw_csrf code now s n h =
      let t = (verify_code p raw_session raw_csrf preauth_token code now s).1 in
      let (c, at, consumed) = verify_code-consumed raw_session raw_csrf code now s n h in
      (
        λ raw_session' raw_csrf' code' later.
            closed-verify_code raw_session' raw_csrf' code' later t
              (consumed-context t c later at consumed),
        λ fresh code' nonce later.
            closed-request_code fresh code' nonce later t (consumed-context t c later at consumed),
      )

  -- A wrong code that is compared: the context and the challenge are open at its time.
  abbrev pub Fails : PreAuthRecord → ChallengeRecord → String × ℕ → Type 0
  Fails c ch (code, now) =
      ((supplied p ch code == ch.code_digest) ≡ false)
      × (now < c.expires_at)
      × (now < ch.expires_at)

  -- The context and the challenge that a verification finds are not consumed.
  abbrev pub IsPending : AuthRepository → PreAuthRecord → ChallengeRecord → Type 0
  IsPending s c ch =
      (get s.contexts hash ≡ some c)
      × (get s.challenges hash ≡ some ch)
      × (c.invitation_id ≡ some ch.invitation_id)
      × (is_some c.consumed_at ≡ false)
      × (is_some ch.consumed_at ≡ false)

  exhausted-verify_code :
      (raw_session raw_csrf code : String) (now : ℕ) (s : AuthRepository) (ch : ChallengeRecord)
      → get s.challenges hash ≡ some ch
      → ch.max_attempts ≤ ch.attempt_count
      → verify_code p raw_session raw_csrf preauth_token code now s ≡ (ok none, s)
  unfolding verify_code challenge
  exhausted-verify_code raw_session raw_csrf code now s ch at h =
      elim (Option-cases (context s hash now)) [
        | inl closed ↦ ground arith
        | inr (c, unclosed) ↦ elim (Option-cases c.invitation_id) [
          | inl nothing ↦ ground arith
          | inr (id, invited) ↦ ground arith
        ]
      ]

  wrong-verify_code :
      (raw_session raw_csrf : String) (attempt : String × ℕ) (s : AuthRepository)
      (c : PreAuthRecord) (ch : ChallengeRecord)
      → IsPending s c ch
      → Fails c ch attempt
      → ch.attempt_count < ch.max_attempts
      → verify_code p raw_session raw_csrf preauth_token attempt.0 attempt.1 s
        ≡ (ok none, record s { challenges = put s.challenges hash (attempted ch) })
  unfolding verify_code challenge context
  wrong-verify_code raw_session raw_csrf (code, now) s c ch pending fails left =
      ground (arith, beq_refl ch.invitation_id)

  -- the state after a list of verifications
  abbrev pub tries : String → String → List (String × ℕ) → AuthRepository → AuthRepository
  tries raw_session raw_csrf [] s = s
  tries raw_session raw_csrf (attempt ∷ attempts) s =
      tries raw_session raw_csrf attempts
        (verify_code p raw_session raw_csrf preauth_token attempt.0 attempt.1 s).1

  abbrev Spent : AuthRepository → Type 0
  Spent s =
      (ch : ChallengeRecord) × (get s.challenges hash ≡ some ch)
      × (ch.max_attempts ≤ ch.attempt_count)

  tries-exhausted :
      (raw_session raw_csrf : String) (attempts : List (String × ℕ)) (s : AuthRepository)
      (c : PreAuthRecord) (ch : ChallengeRecord)
      → IsPending s c ch
      → All (Fails c ch) attempts
      → ch.max_attempts ≤ ch.attempt_count + length attempts
      → Spent (tries raw_session raw_csrf attempts s)
  tries-exhausted raw_session raw_csrf [] s c ch (_, at, _, _, _) fails enough =
      (ch, at, omega (arith, enough))
  tries-exhausted raw_session raw_csrf (attempt ∷ attempts) s c ch pending (fail, fails) enough =
      let (held, at, mine, unconsumed, fresh) = pending in
      let more = attempted ch in
      let next : AuthRepository = record s { challenges = put s.challenges hash more } in
      elim (Bool-cases (leb ch.max_attempts ch.attempt_count)) [
        | inl exhausted ↦
            subst (λ r. Spent (tries raw_session raw_csrf attempts r.1))
              (sym (
                exhausted-verify_code raw_session raw_csrf attempt.0 attempt.1 s ch at
                  (ground arith)))
              (tries-exhausted raw_session raw_csrf attempts s c ch pending fails (ground arith))
        | inr left ↦
            subst (λ r. Spent (tries raw_session raw_csrf attempts r.1))
              (sym
                (wrong-verify_code raw_session raw_csrf attempt s c ch pending fail (ground arith)))
              (tries-exhausted raw_session raw_csrf attempts next c more
                (held, get-put_self s.challenges hash more, mine, unconsumed, fresh) fails
                (ground arith))
      ]

  -- As many wrong codes as a challenge has attempts left lock it: afterwards no code gives a
  -- session, at any time, the right one included, and nothing changes any more.
  pub verify_code-exhausted :
      (raw_session raw_csrf raw_session' raw_csrf' code : String) (later : ℕ)
      (attempts : List (String × ℕ)) (s : AuthRepository) (c : PreAuthRecord) (ch : ChallengeRecord)
      → IsPending s c ch
      → All (Fails c ch) attempts
      → ch.max_attempts ≤ ch.attempt_count + length attempts
      → let t = tries raw_session raw_csrf attempts s in
        verify_code p raw_session' raw_csrf' preauth_token code later t ≡ (ok none, t)
  verify_code-exhausted raw_session raw_csrf raw_session' raw_csrf' code later attempts s c ch
        pending fails enough =
      let (ch', at, spent) =
        tries-exhausted raw_session raw_csrf attempts s c ch pending fails enough in
      exhausted-verify_code raw_session' raw_csrf' code later
        (tries raw_session raw_csrf attempts s) ch' at spent
