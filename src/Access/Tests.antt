-- ===== src/Access/Tests.antt =====
-- Runs of app/applicant/access.py.
use ehf_applications.Prelude.{
  refl, ◌⊎◌, inr, String, nat_eq, ◌≡◌, ◌≢◌, true, some, [], ◌∷◌, ok, err,
}
use ehf_applications.Prelude.Dict.{get}
use ehf_applications.Auth.Identities.{IsInverse}
use ehf_applications.Access.{AccessRequests, ApplicantAccessRequest, provision, provisioned}
use ehf_applications.Access.Provisioning.{provision_once}

abbrev admins : String
admins = "EHF-Administrators"

abbrev approved : ApplicantAccessRequest
approved = record {
  request_id = 1;
  requested_email = "a@b.ch";
  requested_display_name = "A";
  requested_at_utc = 10;
  status = "APPROVED";
  reviewed_by = some "Ann";
  reviewer_group = some admins;
  reviewed_at_utc = some 11;
}

abbrev one_request : AccessRequests
one_request = record {
  requests = (1, approved) ∷ [];
  entra_applications = [];
  application_identities = [];
}

nothing_linked : IsInverse one_request.entra_applications one_request.application_identities
unfolding get
nothing_linked e a = (λ h. cc, λ h. cc)

abbrev linked : AccessRequests
linked = (provision 1 2 3 "Ann" admins one_request).1

provision_once_example : (provision 1 5 6 "Bob" admins linked).0 ≢ ok approved
unfolding provision ehf_applications.Prelude.member ehf_applications.Prelude.is_blank get
provision_once_example =
    provision_once 1 "Ann" admins one_request 12 2 3 5 6 "Bob" admins (provisioned approved)
      approved linked (inr refl)
