-- ===== src/Calls.antt =====
-- app/calls.py: the records of fellowship calls and the catalogue InMemoryCallCatalog. Times stand in
-- UTC already, as `_utc` leaves them.
pub mod Slugs
pub mod Authorized
pub mod Creating
mod Tests
use Prim.Native.Nat.{suc}
use Prim.Native.Char.{code}
use Prim.Native.String as S
use ehf_applications.Prelude.{
  ℕ, String, Bool, true, false, not, ◌&&◌, ◌||◌, Option, none, some, List, [], ◌∷◌, ◌==◌, nat_eq,
  string_eq, if◌then◌else◌, leb, is_blank, text_length, length, member,
}
use ehf_applications.Prelude.{Result, ok, err, Action, raise_if, modify, pure, ◌>>◌, ◌>>=◌}
use ehf_applications.Prelude.Dict.{Dict, get, put}

-- The class and the text of an exception.
pub data CallError : Type 0 where
  invalid_slug : CallError
  labels_required : CallError
  label_too_long : CallError
  invalid_role : CallError
  unavailable : CallError
  public_unavailable : CallError
  not_authorized : CallError
  already_exists : CallError

-- [a-z0-9]
abbrev pub is_slug_char : ℕ → Bool
is_slug_char c = leb b'a' c && leb c b'z' || leb b'0' c && leb c b'9'

-- (?:[a-z0-9]|-(?!-))* and a last [a-z0-9]
unfoldable pub is_slug_tail : String → Bool
is_slug_tail S.[] = false
is_slug_tail (S.◌∷◌ c S.[]) = is_slug_char (code c)
is_slug_tail (S.◌∷◌ c (S.◌∷◌ d s)) =
    (is_slug_char (code c) || code c == b'-' && not (code d == b'-')) && is_slug_tail (S.◌∷◌ d s)

-- _SLUG.fullmatch(slug) is not None
unfoldable pub is_slug : String → Bool
is_slug S.[] = false
is_slug (S.◌∷◌ c s) =
    is_slug_char (code c) && leb 2 (text_length s) && leb (text_length s) 79 && is_slug_tail s

pub record CallContext : Type 0 where
  pub fellowship_call_id : ℕ
  pub call_code : String
  pub public_slug : String
  pub display_name : String
  pub compact_title : String
  pub call_status : String
  pub applicant_review_status : String
  pub internal_selection_status : String
  pub invitations_enabled : Bool
  pub analysis_profile_code : String
  pub application_deadline_utc : ℕ
  pub applicant_review_deadline_utc : Option ℕ
  pub row_version : String

pub record PublicCallContext : Type 0 where
  pub public_slug : String
  pub call_code : String
  pub display_name : String
  pub application_deadline_utc : ℕ
  pub applicant_review_deadline_utc : Option ℕ
  pub applicant_review_status : String

pub record CallSummary : Type 0 where
  pub context : CallContext
  pub applicant_count : ℕ
  pub latest_import_completed_at_utc : Option ℕ
  pub activated_analysis_evidence_id : Option ℕ
  pub active_shortlister_count : ℕ
  pub roster_state : String

pub record NewCall : Type 0 where
  pub call_code : String
  pub public_slug : String
  pub display_name : String
  pub compact_title : String
  pub application_deadline_utc : ℕ

-- CallContext.__post_init__
unfoldable pub checked_context : CallContext → Result CallError CallContext
checked_context c =
    if not (is_slug c.public_slug)
    then err invalid_slug
    else if is_blank c.call_code
        || is_blank c.display_name
        || is_blank c.compact_title
        || is_blank c.analysis_profile_code
    then err labels_required
    else ok c

-- NewCall.__post_init__
unfoldable pub checked_request : NewCall → Result CallError NewCall
checked_request c =
    if not (is_slug c.public_slug)
    then err invalid_slug
    else if is_blank c.call_code || is_blank c.display_name || is_blank c.compact_title
    then err labels_required
    else if not (leb (text_length c.call_code) 50)
        || not (leb (text_length c.display_name) 200)
        || not (leb (text_length c.compact_title) 120)
    then err label_too_long
    else ok c

-- InMemoryCallCatalog
pub record Catalog : Type 0 where
  pub contexts : Dict String CallContext
  pub access : Dict String (List String)
  pub summaries : Dict String CallSummary

unfoldable pub contexts_by_slug :
    List CallContext → Dict String CallContext → Dict String CallContext
contexts_by_slug [] d = d
contexts_by_slug (c ∷ cs) d = contexts_by_slug cs (put d c.public_slug c)

unfoldable pub summaries_by_slug :
    List CallSummary → Dict String CallSummary → Dict String CallSummary
summaries_by_slug [] d = d
summaries_by_slug (s ∷ ss) d = summaries_by_slug ss (put d s.context.public_slug s)

-- InMemoryCallCatalog.__init__
unfoldable pub new_catalog :
    List CallContext → Dict String (List String) → List CallSummary → Catalog
new_catalog contexts access summaries = record {
  contexts = contexts_by_slug contexts [];
  access = access;
  summaries = summaries_by_slug summaries [];
}

abbrev groups_or_none : Option (List String) → List String
groups_or_none none = []
groups_or_none (some groups) = groups

-- actor_group in self._access.get(slug, frozenset())
unfoldable pub has_access : Catalog → String → String → Bool
has_access catalog slug actor_group = member actor_group (groups_or_none (get catalog.access slug))

unfoldable pub bare_summary : CallContext → CallSummary
bare_summary c = record {
  context = c;
  applicant_count = 0;
  latest_import_completed_at_utc = none;
  activated_analysis_evidence_id = none;
  active_shortlister_count = 0;
  roster_state = "UNAVAILABLE";
}

abbrev pub summary_or_bare : CallContext → Option CallSummary → CallSummary
summary_or_bare c none = bare_summary c
summary_or_bare c (some s) = s

-- the comprehension of `list_authorized`
unfoldable pub authorized : Catalog → String → Dict String CallContext → List CallSummary
authorized catalog actor_group [] = []
authorized catalog actor_group ((slug, c) ∷ rest) =
    let others = authorized catalog actor_group rest in
    if has_access catalog slug actor_group
    then summary_or_bare c (get catalog.summaries slug) ∷ others
    else others

unfoldable pub list_authorized : Catalog → String → List CallSummary
list_authorized catalog actor_group = authorized catalog actor_group catalog.contexts

abbrev pub found_context : Bool → Option CallContext → Result CallError CallContext
found_context allowed none = err unavailable
found_context allowed (some c) = if allowed then ok c else err unavailable

unfoldable pub resolve : Catalog → String → String → String → Result CallError CallContext
resolve catalog slug actor_group required_role =
    if not (is_slug slug)
    then err invalid_slug
    else if not (required_role == "READ" || required_role == "ADMINISTER")
    then err invalid_role
    else found_context (has_access catalog slug actor_group) (get catalog.contexts slug)

abbrev pub is_public : CallContext → Bool
is_public c = c.call_status == "OPEN" || c.call_status == "CLOSED"

abbrev pub public_context : CallContext → PublicCallContext
public_context c = record {
  public_slug = c.public_slug;
  call_code = c.call_code;
  display_name = c.display_name;
  application_deadline_utc = c.application_deadline_utc;
  applicant_review_deadline_utc = c.applicant_review_deadline_utc;
  applicant_review_status = c.applicant_review_status;
}

-- PublicCallContext.__post_init__ checks the slug of the context, not the one that was asked for.
abbrev pub found_public : Option CallContext → Result CallError PublicCallContext
found_public none = err public_unavailable
found_public (some c) =
    if not (is_public c)
    then err public_unavailable
    else if not (is_slug c.public_slug)
    then err invalid_slug
    else ok (public_context c)

unfoldable pub resolve_public : Catalog → String → Result CallError PublicCallContext
resolve_public catalog slug =
    if not (is_slug slug) then err invalid_slug else found_public (get catalog.contexts slug)

unfoldable pub created_context : NewCall → ℕ → CallContext
created_context request call_id = record {
  fellowship_call_id = call_id;
  call_code = request.call_code;
  public_slug = request.public_slug;
  display_name = request.display_name;
  compact_title = request.compact_title;
  call_status = "DRAFT";
  applicant_review_status = "DISABLED";
  internal_selection_status = "DISABLED";
  invitations_enabled = false;
  analysis_profile_code = "ehf-standard-v1";
  application_deadline_utc = request.application_deadline_utc;
  applicant_review_deadline_utc = none;
  row_version = "new-call";
}

abbrev pub is_there : Option CallContext → Bool
is_there none = false
is_there (some c) = true

unfoldable pub filed : CallContext → Catalog → Catalog
filed c catalog = record catalog {
  contexts = put catalog.contexts c.public_slug c;
  access = put catalog.access c.public_slug ("EHF-Administrators" ∷ "EHF-Trustees" ∷ []);
}

unfoldable pub create : NewCall → String → String → Action Catalog CallError CallContext
create request actor_identity actor_group catalog =
    (raise_if (not (actor_group == "EHF-Administrators") || is_blank actor_identity) not_authorized
        >> raise_if (is_there (get catalog.contexts request.public_slug)) already_exists
        >> (λ s. (checked_context (created_context request (suc (length catalog.contexts))), s))
        >>= λ c. modify (filed c) >> pure c)
      catalog
