-- ===== src/Identity/Tests.antt =====
-- Runs of app/identity.py.
use ehf_applications.Prelude.{
  ℕ, String, Option, none, some, List, [], ◌∷◌, ◌==◌, string_eq, if◌then◌else◌, ◌≡◌, refl, Result,
  ok, err,
}
use ehf_applications.Prelude.Dict.{Dict, get, put}
use ehf_applications.Json.{Json, text, array, object, Items, nil, cons, field, end}
use ehf_applications.Fields.Tests.{python}
use ehf_applications.Identity.{
  AuthenticatedIdentity, denied, attribute_error, Answer, answered, group_map, authenticate,
}
use ehf_applications.Identity.Verified.{IsVerified, authenticate-IsVerified}

abbrev same_text : String → String
same_text s = s

abbrev no_uuid : String → Option ℕ
no_uuid s = none

abbrev configured : Dict String String
configured = ("a1", "EHF-Administrators") ∷ ("t1", "EHF-Trustees") ∷ []

abbrev decode : String → Option (Dict String (Json ℕ))
decode token =
    if token == "jwt"
    then some (("type", text "app") ∷ ("email", text " ada@x ") ∷ ("sub", text "u1") ∷ [])
    else none

abbrev payload : Json ℕ
payload = object (
    field "email" (text "ada@x") (
      field "idp" (object (field "groups" (array (cons (text "t1") (cons (text "z9") nil))) end))
        end))

abbrev get_identity : String → Answer ℕ
get_identity cookie = answered (if cookie == "c" then payload else array nil)

abbrev trustee : AuthenticatedIdentity
trustee = record {
  identity = record { key = "cloudflare:u1"; email = "ada@x"; display_name = "ada@x" };
  groups = "EHF-Trustees" ∷ [];
  entra_object_id = none;
}

mapped : group_map same_text "a1" "t1" none ≡ configured
unfolding group_map put
mapped = refl

let_in : authenticate python no_uuid configured decode get_identity "jwt" " c " ≡ ok trustee
unfolding authenticate ehf_applications.Identity.claimed_identity
    ehf_applications.Identity.resolved_identity ehf_applications.Identity.named_identity
    ehf_applications.Identity.folded_email ehf_applications.Identity.display_name_of
    ehf_applications.Identity.group_values_of ehf_applications.Identity.granted
    ehf_applications.Identity.string_values ehf_applications.Identity.text_values
    ehf_applications.Identity.group_ids ehf_applications.Identity.group_ids_of
    ehf_applications.Json.dict_of ehf_applications.Json.list_of get
    ehf_applications.Prelude.is_blank ehf_applications.Prelude.strip ehf_applications.Prelude.member
    ehf_applications.Prelude.add ehf_applications.Prelude.joined
    ehf_applications.Preferences.checked_identity ehf_applications.Prelude.text_length
let_in = refl

-- A payload that is a list has no method `get`, which the resolver does not catch.
list_payload :
    authenticate python no_uuid configured decode get_identity "jwt" "d" ≡ err attribute_error
unfolding authenticate ehf_applications.Identity.claimed_identity
    ehf_applications.Identity.resolved_identity ehf_applications.Identity.folded_email get
    ehf_applications.Prelude.is_blank ehf_applications.Prelude.strip
list_payload = refl

forged :
    authenticate python no_uuid configured decode get_identity "x" "c"
    ≡ err (denied "invalid-access-jwt")
unfolding authenticate ehf_applications.Prelude.is_blank ehf_applications.Prelude.strip
forged = refl

authenticate-IsVerified_example :
    IsVerified python no_uuid configured decode get_identity "jwt" " c " trustee
authenticate-IsVerified_example =
    authenticate-IsVerified python no_uuid configured decode get_identity "jwt" " c " trustee let_in
