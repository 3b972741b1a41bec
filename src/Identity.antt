-- ===== src/Identity.antt =====
-- app/identity.py, CloudflareAccessIdentityResolver. The validation of the token and the request to
-- the identity endpoint are calls of other packages: what they answer is an argument.
pub mod Verified
mod Tests
use ehf_applications.Prelude.{
  ℕ, String, Bool, true, false, not, ◌&&◌, ◌||◌, Option, none, some, List, [], ◌∷◌, ◌++◌, ◌==◌,
  nat_eq, string_eq, if◌then◌else◌, is_empty, is_blank, strip, joined, member, add, Result, ok, err,
}
use ehf_applications.Prelude.Results.{◌>>=◌, ◌>>◌}
use ehf_applications.Prelude.Dict.{Dict, get, put}
use ehf_applications.Json.{
  Json, null, text, array, object, Items, nil, cons, list_of, dict_of, or_null, is_truthy,
}
use ehf_applications.Fields.Normalizing.{Python}
use ehf_applications.Fields.Upgrading.{is_text}
use ehf_applications.Preferences.{Identity, PreferenceError, checked_identity}

pub record AuthenticatedIdentity : Type 0 where
  pub identity : Identity
  pub groups : List String
  pub entra_object_id : Option ℕ

-- A denial with its stage, or an AttributeError, which the resolver does not catch
pub data Denial : Type 0 where
  denied : String → Denial
  attribute_error : Denial

-- What the identity endpoint answers: an HTTPError, a body that is no JSON, or a value
pub data Answer (F : Type 0) : Type 0 where
  unreachable : Answer F
  unreadable : Answer F
  answered : Json F → Answer F

-- self._group_map
unfoldable pub group_map : (String → String) → String → String → Option String → Dict String String
group_map casefold administrator_group_id trustee_group_id applicant_group_id =
    let internal =
      put (put [] (casefold administrator_group_id) "EHF-Administrators")
        (casefold trustee_group_id) "EHF-Trustees" in
    elim applicant_group_id [
      | none ↦ internal
      | some applicants ↦
          if is_empty applicants
          then internal
          else put internal (casefold applicants) "EHF-Applicants"
    ]

abbrev pub deny_if : Bool → String → Result Denial Unit
deny_if true stage = err (denied stage)
deny_if false stage = ok tt

abbrev pub or_denied : {A : Type 0} → String → Option A → Result Denial A
or_denied stage none = err (denied stage)
or_denied stage (some a) = ok a

abbrev pub checked_or_denied : Result PreferenceError Identity → Result Denial Identity
checked_or_denied (ok i) = ok i
checked_or_denied (err e) = err (denied "invalid-resolved-identity")

-- not groups
abbrev pub is_nobody : List String → Bool
is_nobody [] = true
is_nobody (g ∷ gs) = false

-- the canonical groups whose identifiers are among the values
unfoldable pub granted : Dict String String → List String → List String
granted [] group_values = []
granted ((identifier, canonical) ∷ rest) group_values =
    let others = granted rest group_values in
    if member identifier group_values then add canonical others else others

module _ {F : Type 0} where
  -- value.get, for a payload that may be no dictionary
  abbrev pub payload_of : Json F → Result Denial (Dict String (Json F))
  payload_of (object fields) = ok (dict_of fields)
  payload_of _ = err attribute_error

  abbrev pub idp_of : Json F → Result Denial (Dict String (Json F))
  idp_of (object fields) = ok (dict_of fields)
  idp_of _ = err (denied "missing-idp-payload")

  abbrev pub answer_of : Answer F → Result Denial (Json F)
  answer_of unreachable = err (denied "identity-endpoint-unavailable")
  answer_of unreadable = err (denied "invalid-identity-payload")
  answer_of (answered v) = ok v

module _ {F : Type 0} (python : Python F) where
  abbrev text_value : Json F → List String
  text_value (text s) = python.casefold s ∷ []
  text_value _ = []

  unfoldable pub text_values : List (Json F) → List String
  text_values [] = []
  text_values (v ∷ vs) = text_value v ++ text_values vs

  -- `_string_values`
  unfoldable pub string_values : Json F → List String
  string_values (text s) = python.casefold s ∷ []
  string_values (array xs) = text_values (list_of xs)
  string_values _ = []

  abbrev named_group : Json F → List String
  named_group (text id) = if is_blank id then [] else python.casefold id ∷ []
  named_group _ = []

  abbrev group_id : Json F → List String
  group_id (object fields) = named_group (or_null (get (dict_of fields) "id"))
  group_id _ = []

  unfoldable pub group_ids_of : List (Json F) → List String
  group_ids_of [] = []
  group_ids_of (v ∷ vs) = group_id v ++ group_ids_of vs

  -- `_group_ids`
  unfoldable pub group_ids : Json F → List String
  group_ids (array xs) = group_ids_of (list_of xs)
  group_ids _ = []

  -- str(payload.get("email", ""))
  abbrev email_of : Option (Json F) → String
  email_of none = ""
  email_of (some v) = python.str_of v

  unfoldable pub display_name_of : Json F → Json F → String → String
  display_name_of idp_name payload_name email = strip (
      if is_truthy python.is_zero idp_name
      then python.str_of idp_name
      else if is_truthy python.is_zero payload_name
      then python.str_of payload_name
      else email)

  abbrev oid_of : Json F → Json F
  oid_of (object fields) = or_null (get (dict_of fields) "oid")
  oid_of _ = null

  unfoldable pub group_values_of : Dict String (Json F) → Dict String (Json F) → List String
  group_values_of idp payload =
      string_values (or_null (get idp "groups")) ++ group_ids (or_null (get payload "groups"))

  -- str(value).strip().casefold() of an e-mail address
  unfoldable pub folded_email : String → String
  folded_email value = python.casefold (strip value)

  module _ (uuid_of : String → Option ℕ) (groups : Dict String String) where
    -- the end of the call: the groups and the identity
    unfoldable pub named_identity :
        Dict String (Json F)
        → String
        → String
        → Dict String (Json F)
        → Dict String (Json F)
        → Result Denial AuthenticatedIdentity
    named_identity claims email subject payload idp =
        deny_if (is_nobody (granted groups (group_values_of idp payload)))
          "authorized-group-missing"
        >> (checked_or_denied (
              checked_identity (record {
                key = joined "cloudflare:" subject;
                email = email;
                display_name =
                    display_name_of (or_null (get idp "name")) (or_null (get payload "name")) email;
              }))
            >>= λ identity. ok (record {
              identity = identity;
              groups = granted groups (group_values_of idp payload);
              entra_object_id = uuid_of (python.str_of (oid_of (or_null (get claims "custom"))));
            }))

    -- the last part of the call: what the payload says of the identity
    unfoldable pub resolved_identity :
        Dict String (Json F) → String → String → Json F → Result Denial AuthenticatedIdentity
    resolved_identity claims email subject answer = payload_of answer >>= λ payload.
        deny_if (not (folded_email (email_of (get payload "email")) == email))
          "identity-email-mismatch"
        >> (idp_of (or_null (get payload "idp")) >>= named_identity claims email subject payload)

    -- the second part: the claims, and the identity endpoint where they suffice
    unfoldable pub claimed_identity :
        (String → Answer F) → String → Dict String (Json F) → Result Denial AuthenticatedIdentity
    claimed_identity get_identity cookie claims =
        deny_if (not (is_text "app" (or_null (get claims "type")))) "invalid-token-type"
        >> (or_denied "invalid-identity-payload" (get claims "email") >>= λ email_claim.
            or_denied "invalid-identity-payload" (get claims "sub") >>= λ sub_claim.
            let email = folded_email (python.str_of email_claim) in
            let subject = strip (python.str_of sub_claim) in
            deny_if (is_empty email || is_empty subject) "missing-identity-claims"
            >> (answer_of (get_identity cookie) >>= λ answer.
                resolved_identity claims email subject answer))

    -- `__call__`, where a header or a cookie that is missing is an empty text
    unfoldable pub authenticate :
        (String → Option (Dict String (Json F)))
        → (String → Answer F)
        → String
        → String
        → Result Denial AuthenticatedIdentity
    authenticate decode get_identity assertion cookie =
        deny_if (is_blank assertion) "missing-assertion"
        >> (deny_if (is_blank cookie) "missing-cookie"
            >> (or_denied "invalid-access-jwt" (decode (strip assertion)) >>= λ claims.
                claimed_identity get_identity (strip cookie) claims))
