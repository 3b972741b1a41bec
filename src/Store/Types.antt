-- ===== src/Store/Types.antt =====
-- The records of app/documents/store.py and app/documents/keys.py, and the cipher that they use.
use ehf_applications.Prelude.{ℕ, String, ◌≡◌, Option, some, List}
use ehf_applications.Prelude.Dict.{Dict}

abbrev pub Bytes : Type 0
Bytes = List ℕ

pub record ObjectBinding : Type 0 where
  pub application_id : ℕ
  pub document_id : ℕ
  pub version_id : ℕ
  pub object_id : ℕ

pub record StoredObjectRecord : Type 0 where
  pub object_key : String
  pub key_version : ℕ
  pub envelope_version : ℕ
  pub nonce : Bytes
  pub plaintext_sha256 : Bytes
  pub ciphertext_sha256 : Bytes
  pub byte_size : ℕ

-- keys.py: `keys` maps a version to its key.
pub record Keyring : Type 0 where
  pub active_key_version : ℕ
  pub keys : Dict ℕ Bytes

-- AES-256-GCM of the package `cryptography` and SHA-256 of `hashlib`. `decrypt` answers `none` where
-- it raises InvalidTag; what it undoes is the documented behaviour of the cipher.
pub record Cipher : Type 0 where
  pub sha256 : Bytes → Bytes
  pub encrypt : Bytes → Bytes → Bytes → Bytes → Bytes
  pub decrypt : Bytes → Bytes → Bytes → Bytes → Option Bytes
  pub decrypt-encrypt :
      (key nonce plaintext aad : Bytes)
      → decrypt key nonce (encrypt key nonce plaintext aad) aad ≡ some plaintext

-- DocumentStoreError by its cause, DuplicatePlaintextError, the errors of the scanner, KeyringError,
-- and the struct.error of a key version that does not fit its two bytes
pub data StoreError : Type 0 where
  invalid_identifier empty_document storage_failed registration_failed ingestion_failed : StoreError
  integrity duplicate_plaintext malware_detected malware_unavailable keyring_error : StoreError
  struct_error : StoreError

-- what the scanner reports of a file: a clean exit, a detection, or no verdict
pub data Verdict : Type 0 where
  clean detected unavailable : Verdict
