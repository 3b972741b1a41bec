-- ===== src/Documents/Accounting.antt =====
-- Every internal access is on record: what the service logs of its downloads.
use ehf_applications.Prelude.{
  ℕ, String, ◌≡◌, false, Option, some, [], ◌∷◌, ◌++◌, Result, ok, err, arith, Result-cases, inl,
  inr,
}
use ehf_applications.Store.{Bytes, Keyring, Cipher}
use ehf_applications.Documents.{
  Service, DocumentError, denied, DocumentAccessEvent, event, outcome_of, is_authorized,
  internal_download, internal_version,
}

module _ (c : Cipher) (ring : Keyring) (application_id version_id : ℕ)
    (actor actor_group purpose : String) (s : Service) where
  abbrev download : Result DocumentError (Option Bytes) × Service
  download = internal_download c ring application_id version_id actor actor_group purpose s

  abbrev made : String → DocumentAccessEvent
  made = event application_id (some version_id) actor actor_group purpose

  -- A download that returns has logged a request and then its outcome, which is SUCCEEDED exactly
  -- when it returns the document; it has written nothing else.
  pub internal_download-events :
      (payload : Option Bytes)
      → download.0 ≡ ok payload
      → download.1 ≡ record s {
        access_events =
            (s.access_events ++ made "REQUESTED" ∷ []) ++ made (outcome_of payload) ∷ [];
      }
  unfolding internal_download
  internal_download-events payload h =
      elim (Result-cases (internal_version s.repository application_id version_id)) [
        | inl (v, found) ↦ ground arith
        | inr (e, missing) ↦ absurd (ground arith)
      ]

  -- Without a reviewer's group or a name, nothing is returned, nothing is read and nothing is logged.
  pub internal_download-denied :
      is_authorized actor actor_group ≡ false → download ≡ (err denied, s)
  unfolding internal_download
  internal_download-denied h = ground arith
