-- ===== src/Access.antt =====
-- app/applicant/access.py: access requests, their review and the link to an Entra identity. The
-- e-mail pattern and `casefold` are arguments, and the time and the identifier of a call too.
pub mod Provisioning
mod Tests
use ehf_applications.Prelude.{
  ℕ, String, nat_eq, string_eq, Bool, true, false, not, ◌&&◌, ◌||◌, Option, none, some, List, [],
  ◌∷◌, Eq, ◌==◌, if◌then◌else◌, strip, is_blank, member, find, leb, text_length, is_empty, Result,
  ok, err, Action, raise_if, or_raise, gets, modify, pure, ◌>>=◌, ◌>>◌,
}
use ehf_applications.Prelude.Dict.{Dict, get, put, values}
use ehf_applications.Auth.{is_other}
use ehf_applications.Approval.{reviewer_groups}

pub record ApplicantAccessRequest : Type 0 where
  pub request_id : ℕ
  pub requested_email : String
  pub requested_display_name : String
  pub requested_at_utc : ℕ
  pub status : String
  pub reviewed_by : Option String
  pub reviewer_group : Option String
  pub reviewed_at_utc : Option ℕ

-- InMemoryApplicantAccessRepository
pub record AccessRequests : Type 0 where
  pub requests : Dict ℕ ApplicantAccessRequest
  pub entra_applications : Dict ℕ ℕ
  pub application_identities : Dict ℕ ℕ

-- PermissionError, LookupError and ValueError
pub data AccessError : Type 0 where
  denied unavailable invalid : AccessError

abbrev pub is_standing : String → ApplicantAccessRequest → Bool
is_standing email item =
    item.requested_email == email && (item.status == "PENDING" || item.status == "APPROVED")

abbrev pub new_request : ℕ → ℕ → String → String → ApplicantAccessRequest
new_request fresh now email display_name = record {
  request_id = fresh;
  requested_email = email;
  requested_display_name = display_name;
  requested_at_utc = now;
  status = "PENDING";
  reviewed_by = none;
  reviewer_group = none;
  reviewed_at_utc = none;
}

abbrev request_if_new :
    ℕ
    → ℕ
    → String
    → String
    → Option ApplicantAccessRequest
    → Action AccessRequests AccessError ApplicantAccessRequest
request_if_new fresh now email display_name (some existing) = pure existing
request_if_new fresh now email display_name none = do
  modify
      (λ s. record s { requests = put s.requests fresh (new_request fresh now email display_name) })
  pure (new_request fresh now email display_name)

-- `request` of the repository
unfoldable pub store_request :
    ℕ → ℕ → String → String → Action AccessRequests AccessError ApplicantAccessRequest
store_request fresh now email display_name = do
  existing ← gets (λ s. find (is_standing email) (values s.requests))
  request_if_new fresh now email display_name existing

module _ (casefold : String → String) (split_join : String → String)
    (is_email : String → Bool) where
  -- `request` of the service
  unfoldable pub request :
      ℕ → ℕ → String → String → Action AccessRequests AccessError ApplicantAccessRequest
  unfolding store_request
  request fresh now email display_name = do
    let normalized_email = casefold (strip email)
    let normalized_name = split_join display_name
    raise_if (not (leb (text_length normalized_email) 320) || not (is_email normalized_email))
        invalid
    raise_if (is_empty normalized_name || not (leb (text_length normalized_name) 300)) invalid
    store_request fresh now normalized_email normalized_name

abbrev pub may_review : String → String → Bool
may_review actor actor_group = member actor_group reviewer_groups && not (is_blank actor)

abbrev pub reviewed : String → String → String → ℕ → ApplicantAccessRequest → ApplicantAccessRequest
reviewed decision actor actor_group now item = record item {
  status = decision;
  reviewed_by = some (strip actor);
  reviewer_group = some actor_group;
  reviewed_at_utc = some now;
}

-- `review` of the service and of the repository
unfoldable pub review :
    ℕ → ℕ → String → String → String → Action AccessRequests AccessError ApplicantAccessRequest
review now request_id decision actor actor_group = do
  raise_if (not (may_review actor actor_group)) denied
  raise_if (not (decision == "APPROVED" || decision == "REJECTED")) invalid
  item ← or_raise (← gets (λ s. get s.requests request_id)) unavailable
  raise_if (not (item.status == "PENDING")) unavailable
  modify (λ s. record s {
    requests = put s.requests request_id (reviewed decision actor actor_group now item);
  })
  pure (reviewed decision actor actor_group now item)

abbrev pub provisioned : ApplicantAccessRequest → ApplicantAccessRequest
provisioned item = record item { status = "PROVISIONED" }

-- `provision` of the service and of the repository
unfoldable pub provision :
    ℕ → ℕ → ℕ → String → String → Action AccessRequests AccessError ApplicantAccessRequest
provision request_id application_id entra_object_id actor actor_group = do
  raise_if (not (may_review actor actor_group)) denied
  item ← or_raise (← gets (λ s. get s.requests request_id)) unavailable
  raise_if (not (item.status == "APPROVED")) unavailable
  s ← gets (λ s. s)
  raise_if (is_other (get s.entra_applications entra_object_id) application_id) invalid
  raise_if (is_other (get s.application_identities application_id) entra_object_id) invalid
  modify (λ s. record s {
    requests = put s.requests request_id (provisioned item);
    entra_applications = put s.entra_applications entra_object_id application_id;
    application_identities = put s.application_identities application_id entra_object_id;
  })
  pure (provisioned item)
