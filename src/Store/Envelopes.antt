-- ===== src/Store/Envelopes.antt =====
-- app/documents/store.py: `store_bytes`, `ingest_file` and `decrypt_bytes`.
use ehf_applications.Prelude.{
  ℕ, ◌+◌, ◌*◌, String, Bool, true, false, not, ◌&&◌, Option, none, some, [], ◌∷◌, ◌++◌, ◌==◌,
  if◌then◌else◌, ltb, string_eq, nat_eq, pair_eq, list_eq, length, take, drop, member, add, ok, err,
  Action, raise_if, or_raise, gets, pure, raise, ◌>>=◌, ◌>>◌,
}
use ehf_applications.Prelude.Dict.{get, put, remove}
use ehf_applications.Store.Types.{
  Bytes, ObjectBinding, StoredObjectRecord, Keyring, Cipher, StoreError, invalid_identifier,
  empty_document, storage_failed, registration_failed, ingestion_failed, duplicate_plaintext,
  malware_detected, malware_unavailable, keyring_error, struct_error, Verdict, clean, detected,
  unavailable,
}
use ehf_applications.Store.Objects.{
  ObjectStore, is_object_key, aad, header, magic, format_version, key_for, Draw,
}

-- The caller's `register` works on a state `R` of its own, and answers whether it returned.
abbrev pub Registered : Type 0 → Type 0
Registered R = ObjectStore × R

-- replace(temporary, destination), and `destination.unlink(missing_ok=True)`
abbrev pub promote : String → Bytes → ObjectStore → ObjectStore
promote key envelope s = record s { objects = put s.objects key envelope }

abbrev pub unlink : String → ObjectStore → ObjectStore
unlink key s = record s { objects = remove s.objects key }

abbrev pub noted : ℕ → Bytes → ObjectStore → ObjectStore
noted application_id digest s = record s {
  plaintext_hashes = add (application_id, digest) s.plaintext_hashes;
}

abbrev pub is_nil : Bytes → Bool
is_nil [] = true
is_nil (_ ∷ _) = false

abbrev pub envelope : Cipher → ℕ → Bytes → Bytes → Bytes → ObjectBinding → Bytes
envelope c key_version key nonce plaintext binding =
    header key_version nonce ++ c.encrypt key nonce plaintext (aad binding)

abbrev pub stored_record : Cipher → Keyring → Draw → Bytes → Bytes → Bytes → StoredObjectRecord
stored_record c ring draw plaintext digest payload = record {
  object_key = draw.object_key;
  key_version = ring.active_key_version;
  envelope_version = format_version;
  nonce = draw.nonce;
  plaintext_sha256 = digest;
  ciphertext_sha256 = c.sha256 payload;
  byte_size = length plaintext;
}

-- `except (DocumentStoreError, MalwareError): raise`, and all else is a failed ingestion
abbrev pub as_ingestion : StoreError → StoreError
as_ingestion keyring_error = ingestion_failed
as_ingestion struct_error = ingestion_failed
as_ingestion e = e

module _ {R : Type 0} where
  -- a statement on the store alone
  abbrev pub on_objects : (ObjectStore → ObjectStore) → Action (Registered R) StoreError Unit
  on_objects f (s, r) = (ok tt, (f s, r))

  abbrev pub call_register : (R → Bool × R) → Action (Registered R) StoreError Bool
  call_register register (s, r) = let (done, r') = register r in (ok done, (s, r'))

  abbrev pub handled :
      Action (Registered R) StoreError StoredObjectRecord
      → Action (Registered R) StoreError StoredObjectRecord
  handled m s = let (r, s') = m s in (elim r [ ok a ↦ ok a | err e ↦ err (as_ingestion e) ], s')

  abbrev pub scan : Verdict → Action (Registered R) StoreError Unit
  scan clean = pure tt
  scan detected = raise malware_detected
  scan unavailable = raise malware_unavailable

module _ (c : Cipher) (ring : Keyring) {R : Type 0} where
  unfoldable pub encrypt_and_promote :
      Draw → Bytes → Bytes → ObjectBinding → Action (Registered R) StoreError StoredObjectRecord
  unfolding key_for
  encrypt_and_promote draw plaintext digest binding = do
    key ← or_raise (key_for ring ring.active_key_version) keyring_error
    raise_if (not (ltb ring.active_key_version 65536)) struct_error
    let payload = envelope c ring.active_key_version key draw.nonce plaintext binding
    raise_if (not (is_object_key draw.object_key)) invalid_identifier
    if draw.writable
        then on_objects (promote draw.object_key payload)
        else on_objects (unlink draw.object_key) >> raise storage_failed
    pure (stored_record c ring draw plaintext digest payload)

  unfoldable pub store_bytes :
      Draw
      → Bytes
      → ObjectBinding
      → (StoredObjectRecord → R → Bool × R)
      → Action (Registered R) StoreError StoredObjectRecord
  unfolding encrypt_and_promote
  store_bytes draw plaintext binding register = do
    raise_if (is_nil plaintext) empty_document
    let digest = c.sha256 plaintext
    known ← gets (λ s. member (binding.application_id, digest) s.0.plaintext_hashes)
    raise_if known duplicate_plaintext
    object_record ← encrypt_and_promote draw plaintext digest binding
    done ← call_register (register object_record)
    if done
        then on_objects (noted binding.application_id digest)
        else on_objects (unlink object_record.object_key) >> raise registration_failed
    pure object_record

  -- `readable`: the quarantine file could be written and read; `valid`: the validator returned
  unfoldable pub ingest_file :
      Draw
      → Bool
      → Bool
      → Verdict
      → Bytes
      → ObjectBinding
      → (StoredObjectRecord → R → Bool × R)
      → Action (Registered R) StoreError StoredObjectRecord
  ingest_file draw readable valid verdict source binding register = handled do
    raise_if (not readable) ingestion_failed
    raise_if (not valid) ingestion_failed
    scan verdict
    store_bytes draw source binding register

-- The checks of `decrypt_bytes`, in their order; `none` is the DocumentStoreError.
module _ (c : Cipher) (ring : Keyring) (object_record : StoredObjectRecord) where
  abbrev check : {A : Type 0} → Bool → Option A → Option A
  check true o = o
  check false o = none

  abbrev pub intact : Option Bytes → Option Bytes
  intact none = none
  intact (some plaintext) =
      check
        (length plaintext == object_record.byte_size
          && c.sha256 plaintext == object_record.plaintext_sha256)
        (some plaintext)

  abbrev pub opened : ObjectBinding → ℕ → Bytes → Bytes → Option Bytes → Option Bytes
  opened binding key_version nonce ciphertext none = none
  opened binding key_version nonce ciphertext (some key) =
      intact (c.decrypt key nonce ciphertext (aad binding))

  -- _HEADER.unpack(payload[:20]) and the rest; a shorter payload is a struct.error
  abbrev pub unpacked : ObjectBinding → Bytes → Option Bytes
  unpacked binding (m0 ∷ m1 ∷ m2 ∷ m3 ∷ m4 ∷ version ∷ high ∷ low ∷ rest) =
      let key_version = high * 256 + low in
      let nonce = take 12 rest in
      check
        (length nonce == 12
          && (m0 ∷ m1 ∷ m2 ∷ m3 ∷ m4 ∷ []) == magic
          && version == object_record.envelope_version
          && key_version == object_record.key_version
          && nonce == object_record.nonce)
        (opened binding key_version nonce (drop 12 rest) (key_for ring key_version))
  unpacked binding _ = none

  abbrev pub loaded : ObjectBinding → Option Bytes → Option Bytes
  loaded binding none = none
  loaded binding (some payload) =
      check (c.sha256 payload == object_record.ciphertext_sha256) (unpacked binding payload)

  unfoldable pub decrypt_bytes : ObjectBinding → ObjectStore → Option Bytes
  unfolding key_for
  decrypt_bytes binding s =
      check (is_object_key object_record.object_key)
        (loaded binding (get s.objects object_record.object_key))
