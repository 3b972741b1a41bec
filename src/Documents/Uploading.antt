-- ===== src/Documents/Uploading.antt =====
-- What an upload that returns has done, in the repository and in the object store together.
use ehf_applications.Prelude.{
  ℕ, String, nat_eq, ◌≡◌, refl, ap, ◌∙◌, true, none, some, Result, ok, err, arith, length,
  Option-cases, Result-cases, inl, inr, ◌+◌,
}
use ehf_applications.Prelude.Dict.{get, get-put_self}
use ehf_applications.Store.{
  ObjectBinding, StoredObjectRecord, Keyring, Cipher, StoreError, clean, Registered,
}
use ehf_applications.Store.RoundTrip.{decrypt_bytes-store_bytes, store_bytes-registered}
use ehf_applications.Store.Ingestion.{ingest_file-ok}
use ehf_applications.Documents.{
  Slots, ApplicantDocumentSlot, ApplicantDocumentVersion, DocumentError, pending, register_pending,
  require_upload, Service, Upload, Pending, keep_version, concluded, binding_of, document_id_of,
  registration, ingestion, upload, new_version, payload_of,
}

-- What a registration that returns has stored.
register_pending-ok :
    (slot : ApplicantDocumentSlot) (expected version_id document_id : ℕ) (binding : ObjectBinding)
    (object_record : StoredObjectRecord) (display_name : String) (s t : Slots)
    (w : ApplicantDocumentVersion)
    → register_pending slot expected version_id document_id binding object_record display_name s
      ≡ (ok w, t)
    → (w.status ≡ pending)
      × (w.version_id ≡ version_id)
      × (w.object_record ≡ object_record)
      × (w.binding ≡ binding)
      × (get t.versions_by_id version_id ≡ some w)
unfolding register_pending
register_pending-ok slot expected version_id document_id binding object_record display_name s t w
      h =
    elim (Option-cases (get s.slots slot.slot_id)) [
      | inl absent ↦ absurd (ground arith)
      | inr (current, at) ↦ elim (Option-cases (get s.slot_versions current.slot_id)) [
        | inl missing ↦ absurd (ground arith)
        | inr (existing, there) ↦ ground (
          arith,
          get-put_self s.versions_by_id version_id (
              new_version current version_id document_id (length existing + 1) binding object_record
                display_name),
        )
      ]
    ]

concluded-ok :
    (s : Service) (w : ApplicantDocumentVersion)
    (x : Result StoreError StoredObjectRecord × Registered Pending)
    → (concluded s x).0 ≡ ok w
    → (rec : StoredObjectRecord) × (x.0 ≡ ok rec)
      × (x.1.1.1 ≡ some w)
      × ((concluded s x).1 ≡ record s { repository = x.1.1.0; object_store = x.1.0 })
concluded-ok s w (ok rec, (objects, (slots, none))) h = cc
concluded-ok s w (ok rec, (objects, (slots, some v))) h = (rec, refl, ground arith, refl)
concluded-ok s w (err e, rest) h = cc

keep_version-true :
    (x : Result DocumentError ApplicantDocumentVersion × Slots) (t : Slots)
    (w : ApplicantDocumentVersion)
    → keep_version x ≡ (true, (t, some w))
    → x ≡ (ok w, t)
keep_version-true (ok v, s) t w h = ground arith
keep_version-true (err e, s) t w h = cc

module _ (c : Cipher) (ring : Keyring) (application_id slot_id expected : ℕ) (u : Upload)
    (s : Service) where
  abbrev uploaded : Result DocumentError ApplicantDocumentVersion × Service
  uploaded = upload c ring application_id slot_id expected u s

  -- what an upload into `slot` that ends with the version `w` has stored
  abbrev Stored : ApplicantDocumentVersion → Service → Type 0
  Stored w t =
      (u.valid ≡ true)
      × (u.verdict ≡ clean)
      × (w.status ≡ pending)
      × (get t.repository.versions_by_id u.version_id ≡ some w)
      × (payload_of c ring t w ≡ some u.source)

  module _ (w : ApplicantDocumentVersion) (slot : ApplicantDocumentSlot)
      (twelve : length u.draw.nonce ≡ 12) where
    abbrev x : Result StoreError StoredObjectRecord × Registered Pending
    x = ingestion c ring application_id slot_id expected u slot s

    ingestion-Stored :
        (rec : StoredObjectRecord)
        → x.0 ≡ ok rec
        → x.1.1.1 ≡ some w
        → Stored w (record s { repository = x.1.1.0; object_store = x.1.0 })
    ingestion-Stored rec returned version =
        let binding = binding_of application_id slot u in
        let register = registration c ring application_id slot_id expected u slot in
        let (_, valid, clean_, same) =
          ingest_file-ok c ring u.draw u.readable u.valid u.verdict u.source binding register
            (s.object_store, (s.repository, none)) rec returned in
        let stored = ap (λ p. p.0) same ∙ returned in
        let registered =
          store_bytes-registered c ring u.draw u.source binding register s.object_store
            (s.repository, none) rec stored
          ∙ ap (λ p. (true, p.1.1)) same
          ∙ ap (λ v. (true, (x.1.1.0, v))) version in
        let (waits, _, its_record, its_binding, there) =
          register_pending-ok slot expected u.version_id (document_id_of slot u) binding rec
            u.display_name s.repository x.1.1.0 w (keep_version-true _ x.1.1.0 w registered) in
        let read =
          decrypt_bytes-store_bytes c ring u.draw u.source binding register s.object_store
            (s.repository, none) rec stored twelve in
        (valid, clean_, waits, there, cc (read, its_record, its_binding))

  -- An upload that returns was valid and clean; its version is stored and waits for review, and its
  -- object is decrypted to the bytes that were uploaded.
  pub upload-ok :
      (w : ApplicantDocumentVersion)
      → uploaded.0 ≡ ok w
      → length u.draw.nonce ≡ 12
      → Stored w uploaded.1
  unfolding upload
  upload-ok w done twelve =
      elim (Result-cases (require_upload application_id slot_id expected s.repository).0) [
        | inr (e, refused) ↦ cc (rw refused at done)
        | inl (slot, found) ↦
            let (rec, returned, version, final) =
              concluded-ok s w (x w slot twelve) (rw found at done) in
            rw (found, final) (ingestion-Stored w slot twelve rec returned version)
      ]
