-- ===== src/Calls/Tests.antt =====
-- Runs of app/calls.py.
use ehf_applications.Prelude.{
  ℕ, String, Bool, true, false, ◌||◌, Option, none, some, List, [], ◌∷◌, ◌==◌, nat_eq, string_eq,
  ◌↔◌, ◌≡◌, refl, All, Result, ok, err,
}
use ehf_applications.Prelude.Dict.{Dict, get, put}
use ehf_applications.Calls.{
  CallError, invalid_slug, unavailable, public_unavailable, is_slug, CallContext, CallSummary,
  Catalog, NewCall, checked_request, has_access, list_authorized, resolve, resolve_public,
  created_context, create, new_catalog,
}
use ehf_applications.Calls.Slugs.{is_clean, is_slug-lem}
use ehf_applications.Calls.Authorized.{IsWellFormed}
use ehf_applications.Calls.Creating.{create-IsWellFormed, create-resolve}

abbrev request : NewCall
request = record {
  call_code = "EHF26";
  public_slug = "ehf-2026";
  display_name = "EHF 2026";
  compact_title = "2026";
  application_deadline_utc = 10;
}

abbrev context : CallContext
context = record {
  fellowship_call_id = 1;
  call_code = "EHF25";
  public_slug = "ehf-2025";
  display_name = "EHF 2025";
  compact_title = "2025";
  call_status = "OPEN";
  applicant_review_status = "DISABLED";
  internal_selection_status = "DISABLED";
  invitations_enabled = false;
  analysis_profile_code = "ehf-standard-v1";
  application_deadline_utc = 5;
  applicant_review_deadline_utc = none;
  row_version = "r";
}

abbrev access : Dict String (List String)
access = ("ehf-2025", "EHF-Trustees" ∷ []) ∷ []

abbrev catalog : Catalog
catalog = record { contexts = ("ehf-2025", context) ∷ []; access = access; summaries = [] }

built : new_catalog (context ∷ []) access [] ≡ catalog
unfolding new_catalog ehf_applications.Calls.contexts_by_slug
    ehf_applications.Calls.summaries_by_slug put
built = refl

double_dash : is_slug "ehf--2026" ≡ false
unfolding is_slug ehf_applications.Calls.is_slug_tail ehf_applications.Prelude.text_length
double_dash = refl

short_slug : is_slug "e6" ≡ false
unfolding is_slug ehf_applications.Calls.is_slug_tail ehf_applications.Prelude.text_length
short_slug = refl

-- In memory the role is checked for its name only: a group that reads a call administers it.
read_is_administer : resolve catalog "ehf-2025" "EHF-Trustees" "ADMINISTER" ≡ ok context
unfolding resolve is_slug ehf_applications.Calls.is_slug_tail ehf_applications.Prelude.text_length
    has_access get ehf_applications.Prelude.member
read_is_administer = refl

catalog-IsWellFormed : IsWellFormed catalog
unfolding get is_slug ehf_applications.Calls.is_slug_tail ehf_applications.Prelude.text_length
catalog-IsWellFormed = record {
  filed_contexts = ((refl, refl, refl, refl), tt);
  filed_summaries = tt;
}

accepted : checked_request request ≡ ok request
unfolding checked_request is_slug ehf_applications.Calls.is_slug_tail
    ehf_applications.Prelude.text_length ehf_applications.Prelude.is_blank
    ehf_applications.Prelude.strip
accepted = refl

missing : get catalog.contexts "ehf-2026" ≡ none
unfolding get
missing = refl

named : ehf_applications.Prelude.is_blank "root" ≡ false
unfolding ehf_applications.Prelude.is_blank ehf_applications.Prelude.strip
named = refl

create-IsWellFormed_example : IsWellFormed (create request "root" "EHF-Administrators" catalog).1
create-IsWellFormed_example =
    create-IsWellFormed request "root" "EHF-Administrators" catalog catalog-IsWellFormed

create-resolve_example :
    (c : CallContext) × (later : Catalog) × (create request "root" "EHF-Administrators" catalog
      ≡ (ok c, later))
    × (resolve later "ehf-2026" "EHF-Trustees" "READ" ≡ ok c)
    × (resolve_public later "ehf-2026" ≡ err public_unavailable)
    × (resolve later "ehf-2025" "EHF-Trustees" "READ"
        ≡ resolve catalog "ehf-2025" "EHF-Trustees" "READ")
create-resolve_example =
    create-resolve request "root" catalog "ehf-2025" "EHF-Trustees" "READ" accepted named missing
      refl

is_slug-lem_example : is_slug "ehf-2026" ≡ is_clean "ehf-2026"
is_slug-lem_example = is_slug-lem "ehf-2026"
