-- ===== src/Migrations/Tests.antt =====
-- Runs of app/migrations.py on a server whose database is its table of applied migrations.
use ehf_applications.Prelude.{
  String, refl, ◌≡◌, not, ◌==◌, string_eq, err, true, some, List, [], ◌∷◌, ◌++◌, nat_eq,
}
use ehf_applications.Store.{Bytes}
use ehf_applications.Migrations.{Migration, Applied, Server, Connection, failed, apply_migrations}
use ehf_applications.Migrations.Transaction.{Outcome, apply_migrations-Outcome}

abbrev table : Server Applied
table = record {
  table_exists = λ d. some true;
  rows = λ d. some d;
  set_xact_abort = λ d. (true, d);
  execute = λ sql d. (not (sql == "BROKEN"), d);
  insert = λ m d. (true, d ++ (m.version, (m.name, m.checksum)) ∷ []);
  commits = λ d. true;
}

abbrev first : Migration
first = record { version = 1; name = "base"; checksum = 1 ∷ []; sql = "CREATE" }

abbrev second : Migration
second = record { version = 2; name = "more"; checksum = 2 ∷ []; sql = "ALTER" }

abbrev both : List Migration
both = first ∷ second ∷ []

abbrev base : String × Bytes
base = ("base", 1 ∷ [])

abbrev recorded : Applied
recorded = (1, base) ∷ []

abbrev connected : Connection Applied
connected = record { committed = recorded; working = recorded }

abbrev broken : Migration
broken = record { version = 3; name = "last"; checksum = 3 ∷ []; sql = "BROKEN" }

-- The second migration was already recorded in the transaction when the third one failed.
rolled_back : apply_migrations table (both ++ broken ∷ []) connected ≡ (err failed, connected)
unfolding apply_migrations ehf_applications.Migrations.verify_history
    ehf_applications.Prelude.Dict.get ehf_applications.Prelude.Dict.put
rolled_back = refl

apply_migrations-Outcome_example :
    Outcome table both connected (apply_migrations table both connected)
apply_migrations-Outcome_example = apply_migrations-Outcome table both connected refl
