-- ===== src/Identity/Verified.antt =====
-- app/identity.py: who is let in, and with which groups.
use ehf_applications.Prelude.{
  ℕ, String, Bool, true, false, not, ◌&&◌, ◌||◌, Option, none, some, List, [], ◌∷◌, ◌==◌, string_eq,
  if◌then◌else◌, is_empty, is_blank, strip, joined, member, add, any, All, Result, ok, err, inl,
  inr, ◌≡◌, refl, sym, ap, ◌∙◌, arith, Bool-cases, beq_refl, eq_of_beq, leb, text_length,
}
use mathlib.Core.Path.{subst}
use ehf_applications.Prelude.Results.{◌>>=◌, ◌>>◌, >>=-eq-ok}
use ehf_applications.Prelude.Dict.{Dict, get, All-map}
use ehf_applications.Json.{Json, or_null}
use ehf_applications.Fields.Normalizing.{Python}
use ehf_applications.Fields.Upgrading.{is_text}
use ehf_applications.Preferences.{Identity, PreferenceError, checked_identity}
use ehf_applications.Identity.{
  AuthenticatedIdentity, Denial, Answer, answered, deny_if, or_denied, checked_or_denied, granted,
  payload_of, idp_of, answer_of, unreachable, unreadable, email_of, display_name_of,
  group_values_of, folded_email, is_nobody, oid_of, named_identity, resolved_identity,
  claimed_identity, authenticate,
}

guard-ok :
    {A : Type 0} (denies : Bool) (stage : String) (rest : Result Denial A) {a : A}
    → (deny_if denies stage >> rest) ≡ ok a
    → (denies ≡ false) × (rest ≡ ok a)
guard-ok true stage rest h = absurd (cc)
guard-ok false stage rest h = (refl, h)

or_denied-ok :
    {A : Type 0} (stage : String) (o : Option A) {a : A} → or_denied stage o ≡ ok a → o ≡ some a
or_denied-ok stage none h = absurd (cc)
or_denied-ok stage (some b) h = ground arith

checked_or_denied-ok :
    (r : Result PreferenceError Identity) (i : Identity) → checked_or_denied r ≡ ok i → r ≡ ok i
checked_or_denied-ok (ok j) i h = ground arith
checked_or_denied-ok (err e) i h = absurd (cc)

checked_identity-same : (i j : Identity) → checked_identity i ≡ ok j → i ≡ j
unfolding checked_identity
checked_identity-same i j h =
    elim (Bool-cases (is_blank i.key || is_blank i.email || is_blank i.display_name)) [
      | inl blank ↦ let refused = rw blank at h in absurd (cc)
      | inr named ↦
          elim (Bool-cases (
            not (leb (text_length i.key) 255)
            || not (leb (text_length i.email) 320)
            || not (leb (text_length i.display_name) 320))) [
              | inl long ↦ let refused = rw (named, long) at h in absurd (cc)
              | inr short ↦ let same = rw (named, short) at h in ground arith
            ]
    ]

ok_inj :
    {a b : AuthenticatedIdentity}
    → ◌≡◌ {A = Result Denial AuthenticatedIdentity} (ok a) (ok b)
    → a ≡ b
ok_inj h = ground arith

-- A group is given by the identifier of some entry that stands among the values.
abbrev pub is_granted : Dict String String → List String → String → Bool
is_granted groups group_values group =
    any (λ (identifier, canonical). canonical == group && member identifier group_values) groups

All-add : (p : String → Type 0) (x : String) (xs : List String) → p x → All p xs → All p (add x xs)
unfolding add
All-add p x [] px h = (px, tt)
All-add p x (y ∷ ys) px h = elim (Bool-cases (y == x)) [
  | inl same ↦ rw same h
  | inr other ↦ rw other (h.0, All-add p x ys px h.1)
]

granted-is_granted :
    (groups : Dict String String) (group_values : List String)
    → All (λ g. is_granted groups group_values g ≡ true) (granted groups group_values)
unfolding granted
granted-is_granted [] group_values = tt
granted-is_granted ((identifier, canonical) ∷ rest) group_values =
    let others =
      All-map (λ g. is_granted rest group_values g ≡ true)
        (λ g. is_granted ((identifier, canonical) ∷ rest) group_values g ≡ true)
        (granted rest group_values) (λ g h. ground arith) (granted-is_granted rest group_values) in
    let IsGiven : String → Type 0 =
      λ g. is_granted ((identifier, canonical) ∷ rest) group_values g ≡ true in
    let chosen : Bool → Type 0 = λ b.
      All IsGiven
        (if b then add canonical (granted rest group_values) else granted rest group_values) in
    elim (Bool-cases (member identifier group_values)) [
      | inr absent ↦ subst chosen (sym absent) others
      | inl present ↦ subst chosen (sym present) (
          All-add IsGiven canonical (granted rest group_values)
            (rw (beq_refl canonical, present) refl) others)
    ]

module _ {F : Type 0} (python : Python F) (uuid_of : String → Option ℕ)
    (groups : Dict String String) where
  -- What the payload of the identity endpoint says of an identity that is let in
  pub record IsNamed (email subject : String) (payload idp : Dict String (Json F))
      (a : AuthenticatedIdentity) : Type 0 where
    pub has_email : a.identity.email ≡ email
    pub has_key : a.identity.key ≡ joined "cloudflare:" subject
    pub is_checked : checked_identity a.identity ≡ ok a.identity
    pub has_groups : a.groups ≡ granted groups (group_values_of python idp payload)
    pub some_group : is_nobody a.groups ≡ false

  named_identity-IsNamed :
      (claims : Dict String (Json F)) (email subject : String) (payload idp : Dict String (Json F))
      (a : AuthenticatedIdentity)
      → named_identity python uuid_of groups claims email subject payload idp ≡ ok a
      → IsNamed email subject payload idp a
  unfolding named_identity
  named_identity-IsNamed claims email subject payload idp a h =
      let someone = granted groups (group_values_of python idp payload) in
      let i : Identity = record {
        key = joined "cloudflare:" subject;
        email = email;
        display_name =
            display_name_of python (or_null (get idp "name")) (or_null (get payload "name")) email;
      } in
      let made : Identity → AuthenticatedIdentity = λ j. record {
        identity = j;
        groups = someone;
        entra_object_id = uuid_of (python.str_of (oid_of python (or_null (get claims "custom"))));
      } in
      let rest : Result Denial AuthenticatedIdentity =
        checked_or_denied (checked_identity i) >>= λ j. ok (made j) in
      let (some_group, h1) = guard-ok (is_nobody someone) "authorized-group-missing" rest h in
      let (j, checked, h2) =
        >>=-eq-ok (checked_or_denied (checked_identity i)) (λ j. ok (made j)) h1 in
      let valid : checked_identity i ≡ ok j = checked_or_denied-ok (checked_identity i) j checked in
      let same : i ≡ j = checked_identity-same i j valid in
      let own : made i ≡ a = ap made same ∙ ok_inj h2 in
      subst (IsNamed email subject payload idp) own (record {
        has_email = refl;
        has_key = refl;
        is_checked = subst (λ k. checked_identity i ≡ ok k) (sym same) valid;
        has_groups = refl;
        some_group = some_group;
      })

  -- What lets a request in
  pub record IsVerified (decode : String → Option (Dict String (Json F)))
      (get_identity : String → Answer F) (assertion cookie : String) (a : AuthenticatedIdentity)
      : Type 0 where
    pub claims : Dict String (Json F)
    pub email_claim : Json F
    pub answer : Json F
    pub payload : Dict String (Json F)
    pub idp : Dict String (Json F)
    pub has_assertion : is_blank assertion ≡ false
    pub has_cookie : is_blank cookie ≡ false
    pub is_decoded : decode (strip assertion) ≡ some claims
    pub is_app : is_text "app" (or_null (get claims "type")) ≡ true
    pub has_email_claim : get claims "email" ≡ some email_claim
    pub is_answered : get_identity (strip cookie) ≡ answered answer
    pub is_payload : payload_of answer ≡ ok payload
    pub is_idp : idp_of (or_null (get payload "idp")) ≡ ok idp
    pub claimed_email : a.identity.email ≡ folded_email python (python.str_of email_claim)
    pub same_email : folded_email python (email_of python (get payload "email")) ≡ a.identity.email
    pub is_checked : checked_identity a.identity ≡ ok a.identity
    pub some_group : is_nobody a.groups ≡ false
    pub granted_groups :
        All (λ g. is_granted groups (group_values_of python idp payload) g ≡ true) a.groups

  holds_of_refused : (b : Bool) → not b ≡ false → b ≡ true
  holds_of_refused true h = refl
  holds_of_refused false h = absurd (cc)

  answer_of-ok : (r : Answer F) (v : Json F) → answer_of r ≡ ok v → r ≡ answered v
  answer_of-ok unreachable v h = absurd (cc)
  answer_of-ok unreadable v h = absurd (cc)
  answer_of-ok (answered w) v h = ground arith

  -- Whoever is let in has an application token that was decoded, an answer of the identity endpoint
  -- with the same e-mail address as the token, an identity that passes its own check, and at least
  -- one group; each of the groups is configured for an identifier that the answer names.
  pub authenticate-IsVerified :
      (decode : String → Option (Dict String (Json F))) (get_identity : String → Answer F)
      (assertion cookie : String) (a : AuthenticatedIdentity)
      → authenticate python uuid_of groups decode get_identity assertion cookie ≡ ok a
      → IsVerified decode get_identity assertion cookie a
  unfolding authenticate claimed_identity resolved_identity
  authenticate-IsVerified decode get_identity assertion cookie a h =
      let (has_assertion, h1) = guard-ok (is_blank assertion) "missing-assertion" _ h in
      let (has_cookie, h2) = guard-ok (is_blank cookie) "missing-cookie" _ h1 in
      let (claims, decoded, h3) =
        >>=-eq-ok (or_denied "invalid-access-jwt" (decode (strip assertion))) _ h2 in
      let (is_app, h4) =
        guard-ok (not (is_text "app" (or_null (get claims "type")))) "invalid-token-type" _ h3 in
      let (email_claim, has_email_claim, h5) =
        >>=-eq-ok (or_denied "invalid-identity-payload" (get claims "email")) _ h4 in
      let (sub_claim, has_sub_claim, h6) =
        >>=-eq-ok (or_denied "invalid-identity-payload" (get claims "sub")) _ h5 in
      let email = folded_email python (python.str_of email_claim) in
      let subject = strip (python.str_of sub_claim) in
      let (present, h7) =
        guard-ok (is_empty email || is_empty subject) "missing-identity-claims" _ h6 in
      let (answer, is_answered, h8) = >>=-eq-ok (answer_of (get_identity (strip cookie))) _ h7 in
      let (payload, is_payload, h9) = >>=-eq-ok (payload_of answer) _ h8 in
      let (same, h10) =
        guard-ok (not (folded_email python (email_of python (get payload "email")) == email))
          "identity-email-mismatch" _ h9 in
      let (idp, is_idp, h11) = >>=-eq-ok (idp_of (or_null (get payload "idp"))) _ h10 in
      let named = named_identity-IsNamed claims email subject payload idp a h11 in
      let same_email = eq_of_beq _ email (holds_of_refused _ same) in
      record {
        claims = claims;
        email_claim = email_claim;
        answer = answer;
        payload = payload;
        idp = idp;
        has_assertion = has_assertion;
        has_cookie = has_cookie;
        is_decoded = or_denied-ok "invalid-access-jwt" (decode (strip assertion)) decoded;
        is_app = holds_of_refused _ is_app;
        has_email_claim =
            or_denied-ok "invalid-identity-payload" (get claims "email") has_email_claim;
        is_answered = answer_of-ok (get_identity (strip cookie)) answer is_answered;
        is_payload = is_payload;
        is_idp = is_idp;
        claimed_email = named.has_email;
        same_email = same_email ∙ sym named.has_email;
        is_checked = named.is_checked;
        some_group = named.some_group;
        granted_groups =
            subst
              (λ gs. All (λ g. is_granted groups (group_values_of python idp payload) g ≡ true) gs)
              (sym named.has_groups)
              (granted-is_granted groups (group_values_of python idp payload));
      }
