-- ===== src/Store/Tests.antt =====
-- Runs of app/documents/store.py, with a cipher that leaves the text as it is.
use ehf_applications.Prelude.{
  ℕ, String, nat_eq, string_eq, ◌≡◌, ◌≢◌, refl, Bool, true, false, Option, none, some, List, [],
  ◌∷◌, ok, err, ne_of_beq, Result,
}
use ehf_applications.Prelude.Dict.{get}
use ehf_applications.Store.{
  Bytes, ObjectBinding, StoredObjectRecord, Keyring, Cipher, StoreError, Verdict, clean,
  duplicate_plaintext, storage_failed, registration_failed, ObjectStore, Draw, Registered, envelope,
  stored_record, store_bytes, ingest_file, decrypt_bytes, noted, promote,
}
use ehf_applications.Store.RoundTrip.{decrypt_bytes-store_bytes}

abbrev pub plain_cipher : Cipher
plain_cipher = record {
  sha256 = λ b. b;
  encrypt = λ key nonce text aad. text;
  decrypt = λ key nonce text aad. some text;
  decrypt-encrypt = λ key nonce text aad. refl;
}

abbrev pub one_key : Keyring
one_key = record { active_key_version = 1; keys = (1, 7 ∷ []) ∷ [] }

abbrev pub twelve : Bytes
twelve = 1 ∷ 2 ∷ 3 ∷ 4 ∷ 5 ∷ 6 ∷ 7 ∷ 8 ∷ 9 ∷ 10 ∷ 11 ∷ 12 ∷ []

abbrev pub first_draw : Draw
first_draw = record {
  nonce = twelve;
  object_key = "0123456789abcdef0123456789abcdef";
  writable = true;
}

abbrev pub second_draw : Draw
second_draw = record {
  nonce = twelve;
  object_key = "1123456789abcdef0123456789abcdef";
  writable = true;
}

abbrev pub text : Bytes
text = 37 ∷ 80 ∷ 68 ∷ 70 ∷ []

abbrev pub binding : ObjectBinding
binding = record { application_id = 1; document_id = 2; version_id = 3; object_id = 4 }

abbrev pub no_objects : ObjectStore
no_objects = record { objects = []; plaintext_hashes = [] }

abbrev always : StoredObjectRecord → ℕ → Bool × ℕ
always rec n = (true, 1)

abbrev never : StoredObjectRecord → ℕ → Bool × ℕ
never rec n = (false, n)

abbrev pub stored_text : StoredObjectRecord
stored_text =
    stored_record plain_cipher one_key first_draw text text
      (envelope plain_cipher 1 (7 ∷ []) twelve text binding)

abbrev after_one : Registered ℕ
after_one = (store_bytes plain_cipher one_key first_draw text binding always (no_objects, 0)).1

decrypt_bytes-store_bytes_example :
    decrypt_bytes plain_cipher one_key stored_text binding after_one.0 ≡ some text
unfolding store_bytes ehf_applications.Prelude.member get ehf_applications.Store.is_object_key
decrypt_bytes-store_bytes_example =
    decrypt_bytes-store_bytes plain_cipher one_key first_draw text binding always no_objects 0
      stored_text refl refl
