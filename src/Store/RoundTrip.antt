-- ===== src/Store/RoundTrip.antt =====
-- What is stored can be read back with its binding, and a call that raises leaves no object behind.
use ehf_applications.Prelude.{
  ℕ, ◌<◌, ◌+◌, ◌*◌, ◌/◌, ◌%◌, String, ◌≡◌, ◌≢◌, refl, Bool, true, false, none, some, ◌++◌,
  string_eq, nat_eq, pair_eq, list_eq, length, take_first, drop_first, member, member-add, beq_refl,
  Result, ok, err, arith, Option-cases, inl, inr, eq_iff,
}
use ehf_applications.Prelude.Dict.{get, put, get-put, get-put_self, get-remove}
use ehf_applications.Store.{
  Bytes, ObjectBinding, StoredObjectRecord, Keyring, Cipher, StoreError, duplicate_plaintext,
  ObjectStore, is_object_key, aad, header, key_for, Draw, Registered, promote, noted, envelope,
  stored_record, store_bytes, decrypt_bytes, unpacked, opened, is_nil,
}

-- The header's fields are read back, and what follows them is the ciphertext.
unpacked-header :
    (c : Cipher) (ring : Keyring) (rec : StoredObjectRecord) (binding : ObjectBinding) (version : ℕ)
    (nonce ciphertext : Bytes)
    → length nonce ≡ 12
    → rec.key_version ≡ version
    → rec.envelope_version ≡ 1
    → rec.nonce ≡ nonce
    → unpacked c ring rec binding (header version nonce ++ ciphertext)
      ≡ opened c ring rec binding version nonce ciphertext (key_for ring version)
unpacked-header c ring rec binding version nonce ciphertext twelve v e n =
    let first = take_first 12 nonce ciphertext twelve in
    let rest = drop_first 12 nonce ciphertext twelve in
    let whole : version / 256 * 256 + version % 256 ≡ version = omega arith in
    rw (n, v, e) (simp (first, rest, whole, twelve, beq_refl) (ground (arith, beq_refl nonce)))

module _ (c : Cipher) (ring : Keyring) {R : Type 0} (draw : Draw) (plaintext : Bytes)
    (binding : ObjectBinding) (register : StoredObjectRecord → R → Bool × R) (s : ObjectStore)
    (r : R) where
  abbrev stored : Result StoreError StoredObjectRecord × Registered R
  stored = store_bytes c ring draw plaintext binding register (s, r)

  -- the envelope that is written under the key `key`
  abbrev payload : Bytes → Bytes
  payload key = envelope c ring.active_key_version key draw.nonce plaintext binding

  -- What a call that returns has found and done.
  store_bytes-ok :
      (rec : StoredObjectRecord)
      → stored.0 ≡ ok rec
      → (key : Bytes) × (key_for ring ring.active_key_version ≡ some key)
        × (ring.active_key_version < 65536)
        × (is_object_key draw.object_key ≡ true)
        × (rec ≡ stored_record c ring draw plaintext (c.sha256 plaintext) (payload key))
        × (stored.1.0
            ≡ noted binding.application_id
                (c.sha256 plaintext)
                (promote draw.object_key (payload key) s))
  unfolding store_bytes
  store_bytes-ok rec h = elim (Option-cases (get ring.keys ring.active_key_version)) [
    | inl absent ↦ absurd (ground arith)
    | inr (key, e) ↦ (key, e, ground arith, ground arith, ground arith, ground arith)
  ]

  -- A call that raises changes neither the objects nor the digests, if the drawn key is new.
  pub store_bytes-err :
      (x : StoreError) (k : String)
      → stored.0 ≡ err x
      → get s.objects draw.object_key ≡ none
      → (get stored.1.0.objects k ≡ get s.objects k)
        × (stored.1.0.plaintext_hashes ≡ s.plaintext_hashes)
  unfolding store_bytes
  store_bytes-err x k h fresh = elim (Option-cases (get ring.keys ring.active_key_version)) [
    | inl absent ↦ (ground arith, ground arith)
    | inr (key, e) ↦ (
      ground (
        arith,
        get-remove s.objects draw.object_key k,
        get-remove (put s.objects draw.object_key (payload key)) draw.object_key k,
        get-put s.objects draw.object_key k (payload key),
        eq_iff draw.object_key k,
      ),
      ground arith,
    )
  ]

  -- A stored document is decrypted to its plaintext, with the record and the binding of the call.
  pub decrypt_bytes-store_bytes :
      (rec : StoredObjectRecord)
      → stored.0 ≡ ok rec
      → length draw.nonce ≡ 12
      → decrypt_bytes c ring rec binding stored.1.0 ≡ some plaintext
  unfolding decrypt_bytes
  decrypt_bytes-store_bytes rec h twelve =
      let (key, at, small, valid, built, after) = store_bytes-ok rec h in
      let rec' = stored_record c ring draw plaintext (c.sha256 plaintext) (payload key) in
      let text = c.encrypt key draw.nonce plaintext (aad binding) in
      rw (built, after, valid, get-put_self)
        (simp (
          beq_refl,
          unpacked-header c ring rec' binding ring.active_key_version draw.nonce text twelve refl
              refl refl,
          at,
          c.decrypt-encrypt,
        ))

  -- a call that returns has called `register`, which has returned
  pub store_bytes-registered :
      (rec : StoredObjectRecord) → stored.0 ≡ ok rec → register rec r ≡ (true, stored.1.1)
  unfolding store_bytes
  store_bytes-registered rec h = ground arith

  store_bytes-nonempty : (rec : StoredObjectRecord) → stored.0 ≡ ok rec → is_nil plaintext ≡ false
  unfolding store_bytes
  store_bytes-nonempty rec h = ground arith

  store_bytes_known :
      (again : Draw) (b : ObjectBinding) (t : Registered R)
      → is_nil plaintext ≡ false
      → member (b.application_id, c.sha256 plaintext) t.0.plaintext_hashes ≡ true
      → store_bytes c ring again plaintext b register t ≡ (err duplicate_plaintext, t)
  unfolding store_bytes
  store_bytes_known again b t filled known = ground arith

  -- A document that is registered for an application is refused for it the next time.
  pub store_bytes_twice :
      (rec : StoredObjectRecord) (again : Draw) (b : ObjectBinding)
      → stored.0 ≡ ok rec
      → b.application_id ≡ binding.application_id
      → store_bytes c ring again plaintext b register stored.1 ≡ (err duplicate_plaintext, stored.1)
  store_bytes_twice rec again b h same =
      let (key, at, small, valid, built, after) = store_bytes-ok rec h in
      store_bytes_known again b stored.1 (store_bytes-nonempty rec h)
        (rw (after, same) (simp (member-add, beq_refl)))

  store_bytes_objects :
      (k : String) → k ≢ draw.object_key → get stored.1.0.objects k ≡ get s.objects k
  unfolding store_bytes
  store_bytes_objects k ne = elim (Option-cases (get ring.keys ring.active_key_version)) [
    | inl absent ↦ ground arith
    | inr (key, e) ↦ ground (
      arith,
      get-remove s.objects draw.object_key k,
      get-remove (put s.objects draw.object_key (payload key)) draw.object_key k,
      get-put s.objects draw.object_key k (payload key),
      eq_iff draw.object_key k,
    )
  ]

  -- An object under another key is read as before, however the call ends.
  pub decrypt_bytes_others :
      (old : StoredObjectRecord) (b : ObjectBinding)
      → old.object_key ≢ draw.object_key
      → decrypt_bytes c ring old b stored.1.0 ≡ decrypt_bytes c ring old b s
  decrypt_bytes_others old b other =
      unfold decrypt_bytes in rw (store_bytes_objects old.object_key other) refl
