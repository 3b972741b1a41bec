-- ===== src/Store/Ingestion.antt =====
-- `ingest_file` stores what passes the validator and the scanner, and nothing else.
use ehf_applications.Prelude.{◌≡◌, Bool, true, Result, ok, arith}
use ehf_applications.Store.{
  Bytes, ObjectBinding, StoredObjectRecord, Keyring, Cipher, StoreError, Verdict, clean, Draw,
  Registered, store_bytes, ingest_file,
}

module _ (c : Cipher) (ring : Keyring) {R : Type 0} (draw : Draw) (readable valid : Bool)
    (verdict : Verdict) (source : Bytes) (binding : ObjectBinding)
    (register : StoredObjectRecord → R → Bool × R) (s : Registered R) where
  abbrev ingested : Result StoreError StoredObjectRecord × Registered R
  ingested = ingest_file c ring draw readable valid verdict source binding register s

  -- A file is stored only when it could be read, was valid and was found clean; and then the call
  -- ends as `store_bytes` does.
  pub ingest_file-ok :
      (rec : StoredObjectRecord)
      → ingested.0 ≡ ok rec
      → (readable ≡ true)
        × (valid ≡ true)
        × (verdict ≡ clean)
        × (store_bytes c ring draw source binding register s ≡ ingested)
  unfolding ingest_file
  ingest_file-ok rec h = (ground arith, ground arith, ground arith, ground arith)
