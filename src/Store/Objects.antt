-- ===== src/Store/Objects.antt =====
-- app/documents/store.py: the encrypted objects. A file is its bytes under its object key.

use Prim.Native.Char.{code}
use Prim.Native.String.{String}
use ehf_applications.Prelude.{
  ℕ, zero, suc, ◌/◌, ◌%◌, Bool, false, ◌&&◌, ◌||◌, Option, List, [], ◌∷◌, ◌++◌, ◌==◌, leb,
  string_eq, nat_eq, pair_eq, list_eq,
}
use ehf_applications.Prelude.Dict.{Dict, get}
use ehf_applications.Store.Types.{Bytes, ObjectBinding, Keyring}

-- EncryptedObjectStore: the object files and the digests of what is registered
pub record ObjectStore : Type 0 where
  pub objects : Dict String Bytes
  pub plaintext_hashes : List (ℕ × Bytes)

abbrev hex_digits : String → ℕ → Bool
hex_digits String.[] n = n == 0
hex_digits (String.◌∷◌ c s) zero = false
hex_digits (String.◌∷◌ c s) (suc n) =
    (leb b'0' (code c) && leb (code c) b'9' || leb b'a' (code c) && leb (code c) b'f')
    && hex_digits s n

-- _OBJECT_KEY.fullmatch: 32 digits of [0-9a-f]
unfoldable pub is_object_key : String → Bool
is_object_key key = hex_digits key 32

-- identifier.bytes: big-endian, `n` bytes
abbrev pub big_endian : ℕ → ℕ → Bytes
big_endian zero x = []
big_endian (suc n) x = big_endian n (x / 256) ++ (x % 256) ∷ []

abbrev pub format_version : ℕ
format_version = 1

-- b"EHF-DOCUMENT\x00"
abbrev aad_prefix : Bytes
aad_prefix =
    b'E' ∷ b'H' ∷ b'F' ∷ b'-' ∷ b'D' ∷ b'O' ∷ b'C' ∷ b'U' ∷ b'M' ∷ b'E' ∷ b'N' ∷ b'T' ∷ 0 ∷ []

unfoldable pub aad : ObjectBinding → Bytes
aad b =
    aad_prefix
    ++ format_version ∷ big_endian 16 b.application_id
    ++ big_endian 16 b.document_id
    ++ big_endian 16 b.version_id
    ++ big_endian 16 b.object_id

-- _HEADER.pack(_MAGIC, _FORMAT_VERSION, key_version, nonce), with struct ">5sBH12s"
abbrev pub magic : Bytes
magic = b'E' ∷ b'H' ∷ b'F' ∷ b'O' ∷ b'D' ∷ []

abbrev pub header : ℕ → Bytes → Bytes
header key_version nonce =
    b'E'
    ∷ b'H'
    ∷ b'F'
    ∷ b'O'
    ∷ b'D'
    ∷ format_version
    ∷ (key_version / 256)
    ∷ (key_version % 256)
    ∷ nonce

-- Keyring.key_for
unfoldable pub key_for : Keyring → ℕ → Option Bytes
key_for ring version = get ring.keys version

-- what one call draws and meets: `secrets` and whether the file system accepts the writes
pub record Draw : Type 0 where
  pub nonce : Bytes
  pub object_key : String
  pub writable : Bool
