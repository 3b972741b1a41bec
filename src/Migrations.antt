-- ===== src/Migrations.antt =====
-- app/migrations.py: the check of the applied history and the run of what is pending, in one
-- transaction. `D` is a database's content; the server's answers to the statements are a parameter.
pub mod Keeping
pub mod Transaction
mod Tests
use ehf_applications.Prelude.{
  ℕ, String, Bool, true, false, not, ◌&&◌, Option, none, some, List, [], ◌∷◌, map, Eq, ◌==◌,
  if◌then◌else◌, nat_eq, string_eq, list_eq, pair_eq, is_some, leb, ltb, length, take, keep, Result,
  ok, err, Action, raise_if, pure, ◌>>=◌, ◌>>◌,
}
use ehf_applications.Prelude.Dict.{Dict, get, put}
use ehf_applications.Store.{Bytes}

-- `path` only names the migration in a message.
pub record Migration : Type 0 where
  pub version : ℕ
  pub name : String
  pub checksum : Bytes
  pub sql : String

-- MigrationError by its cause
pub data MigrationError : Type 0 where
  not_ordered not_prefix missing_locally drift unreadable failed : MigrationError

abbrev pub Applied : Type 0
Applied = Dict ℕ (String × Bytes)

-- What the driver and the server answer. A read that is `none` raised. A statement answers whether it
-- went through, and leaves the content of the open transaction also where it did not: statements
-- before the one that failed, and the part of it that ran, stand until the connection is rolled back.
-- No statement of a migration ends the transaction itself.
pub record Server (D : Type 0) : Type 0 where
  -- whether the table of applied migrations exists, and its rows
  pub table_exists : D → Option Bool
  pub rows : D → Option (List (ℕ × (String × Bytes)))
  pub set_xact_abort : D → Bool × D
  pub execute : String → D → Bool × D
  pub insert : Migration → D → Bool × D
  pub commits : D → Bool

-- the content that others see, and that of the open transaction
pub record Connection (D : Type 0) : Type 0 where
  pub committed : D
  pub working : D

abbrev add_rows : List (ℕ × (String × Bytes)) → Applied → Applied
add_rows [] d = d
add_rows ((version, recorded) ∷ rows) d = add_rows rows (put d version recorded)

abbrev read_rows : Option (List (ℕ × (String × Bytes))) → Option Applied
read_rows none = none
read_rows (some rows) = some (add_rows rows [])

-- `_applied_migrations`
abbrev pub applied_migrations : {D : Type 0} → Server D → D → Option Applied
applied_migrations server d = elim (server.table_exists d) [
  | none ↦ none
  | some there ↦ if there then read_rows (server.rows d) else some []
]

abbrev pub version_of : Migration → ℕ
version_of m = m.version

abbrev insert_sorted : ℕ → List ℕ → List ℕ
insert_sorted v [] = v ∷ []
insert_sorted v (w ∷ vs) = if leb v w then v ∷ w ∷ vs else w ∷ insert_sorted v vs

-- sorted(applied)
abbrev pub sorted_versions : Applied → List ℕ
sorted_versions [] = []
sorted_versions ((version, recorded) ∷ d) = insert_sorted version (sorted_versions d)

-- {migration.version: migration for migration in migrations}
abbrev pub discovered_from : List Migration → Dict ℕ Migration → Dict ℕ Migration
discovered_from [] d = d
discovered_from (m ∷ ms) d = discovered_from ms (put d m.version m)

abbrev pub check_recorded :
    String × Bytes → Option Migration → Result MigrationError Unit → Result MigrationError Unit
check_recorded recorded none rest = err missing_locally
check_recorded (name, checksum) (some m) rest =
    if name == m.name && checksum == m.checksum then rest else err drift

-- the loop of `_verify_history`
abbrev pub check_history : Dict ℕ Migration → Applied → Result MigrationError Unit
check_history discovered [] = ok tt
check_history discovered ((version, recorded) ∷ d) =
    check_recorded recorded (get discovered version) (check_history discovered d)

unfoldable pub verify_history : Applied → List Migration → Result MigrationError Unit
verify_history applied migrations =
    if sorted_versions applied == map version_of (take (length applied) migrations)
    then check_history (discovered_from migrations []) applied
    else err not_prefix

-- not any(earlier.version >= later.version for …)
abbrev pub is_strict : List Migration → Bool
is_strict [] = true
is_strict (m ∷ []) = true
is_strict (m ∷ n ∷ ms) = ltb m.version n.version && is_strict (n ∷ ms)

abbrev pub is_pending : Applied → Migration → Bool
is_pending applied m = not (is_some (get applied m.version))

module _ {D : Type 0} where
  -- cursor.execute of a statement that writes
  abbrev pub perform : (D → Bool × D) → Action (Connection D) MigrationError Unit
  perform statement c =
      let (done, content) = statement c.working in
      (if done then ok tt else err failed, record c { working = content })

  -- `except Exception: connection.rollback()` and the raise
  abbrev pub rolling_back :
      {A : Type 0} → Action (Connection D) MigrationError A → Action (Connection D) MigrationError A
  rolling_back action c =
      let (result, t) = action c in
      elim result [ ok a ↦ (ok a, t) | err e ↦ (err e, record t { working = t.committed }) ]

module _ {D : Type 0} (server : Server D) where
  -- the loop over the pending migrations
  abbrev pub run_pending : List Migration → Action (Connection D) MigrationError Unit
  run_pending [] c = (ok tt, c)
  run_pending (m ∷ ms) c =
      (perform (server.execute m.sql) >> (perform (server.insert m) >> run_pending ms)) c

  -- connection.commit()
  abbrev pub commit : Action (Connection D) MigrationError Unit
  commit c =
      if server.commits c.working
      then (ok tt, record c { committed = c.working })
      else (err failed, c)

  abbrev pub run : List Migration → Action (Connection D) MigrationError ℕ
  run [] c = (ok 0, c)
  run (m ∷ ms) c =
      rolling_back
        (perform server.set_xact_abort >> run_pending (m ∷ ms) >> commit >> pure (length (m ∷ ms)))
        c

  -- the history, or the exception of a read
  abbrev pub read_applied : Action (Connection D) MigrationError Applied
  read_applied c = elim (applied_migrations server c.working) [
    | none ↦ (err unreadable, c)
    | some applied ↦ (ok applied, c)
  ]

  abbrev pub verified : List Migration → Applied → Action (Connection D) MigrationError Applied
  verified migrations applied c = elim (verify_history applied migrations) [
    | ok u ↦ (ok applied, c)
    | err e ↦ (err e, c)
  ]

  unfoldable pub apply_migrations : List Migration → Action (Connection D) MigrationError ℕ
  unfolding verify_history
  apply_migrations migrations = do
    raise_if (not (is_strict migrations)) not_ordered
    applied ← rolling_back (read_applied >>= verified migrations)
    run (keep (is_pending applied) migrations)
