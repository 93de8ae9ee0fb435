-- ===== src/Tests/Storage.antt =====
-- internal/storage/postgres on a directory of two migrations.
use feeds_server.Base.{
  ℕ, Option, ◌≡◌, ◌≢◌, inl, refl, String, eq_iff, arith, true, false, none, some, List, [], ◌∷◌,
  ◌++◌,
}
use feeds_server.Base.Seq.{All}
use feeds_server.Storage.Attempt.{done, failed}
use feeds_server.Storage.Migrations.{Migration, Entry, is_migration, migrations, migrations_run}
use feeds_server.Storage.Migrations.Listed.{Reads}
use feeds_server.Storage.Apply.{
  Digest, Row, Tables, Session, ran, Database, migration_body, recorded, apply_all, migrate,
  apply_run,
}
use feeds_server.Storage.Apply.Steps.{IsRecorded, Extends}
use feeds_server.Storage.Apply.Ledger.{migrate-IsRecorded, migrate_again, migrate_mismatch}
use feeds_server.Storage.Store.{Store}
use feeds_server.Storage.Upgrade.{store_migrate}
use feeds_server.Storage.Upgrade.Complete.{store_migrate_complete, store_migrate_rollback}
use feeds_server.Tests.Samples.{sample_unicode}

abbrev first_entry : Entry
first_entry = record {
  name = "0001_initial.sql";
  is_dir = false;
  content = some " BEGIN; A COMMIT; ";
}

abbrev second_entry : Entry
second_entry = record { name = "0002_more.sql"; is_dir = false; content = some "BEGIN; B COMMIT;" }

abbrev readme : Entry
readme = record { name = "README"; is_dir = false; content = none }

abbrev directory : List Entry
directory = second_entry ∷ readme ∷ first_entry ∷ []

abbrev first_migration : Migration
first_migration = record { version = 1; name = "0001_initial.sql"; sql = "BEGIN; A COMMIT;" }

abbrev second_migration : Migration
second_migration = record { version = 2; name = "0002_more.sql"; sql = "BEGIN; B COMMIT;" }

abbrev both : List Migration
both = first_migration ∷ second_migration ∷ []

migrations_test : migrations (some directory) ≡ done both
unfolding migrations_run
migrations_test = refl

gap_test : migrations (some (second_entry ∷ [])) ≡ failed "migration sequence must be contiguous"
unfolding migrations_run
gap_test = refl

second_is_migration : is_migration second_entry ≡ true
unfolding migrations_run
second_is_migration = refl

instance abbrev sample_digest : Digest
sample_digest = record { sha256_hex = λ s. s }

-- The rest of the database is the list of the bodies that were executed.
abbrev sample_database : Database (List String)
sample_database = record {
  begin = λ t. none;
  lock = λ t. none;
  schema = λ d. done d;
  ledger_table = λ d. done d;
  read = λ v t. none;
  exec = λ body d. done (d ++ body ∷ []);
  record_row = λ r t. none;
  commit = λ t. none;
}

abbrev no_tables : Tables (List String)
no_tables = record { ledger = []; rest = [] }

abbrev empty : Session (List String)
empty = record { committed = no_tables; pending = none }

body_tests :
    (migration_body " BEGIN; A COMMIT; " ≡ done "A")
    × (migration_body "A COMMIT;" ≡ failed "migration must begin with BEGIN;")
    × (migration_body "BEGIN; COMMIT;" ≡ failed "migration body is empty")
unfolding apply_run
body_tests = (refl, refl, refl)

migrate_tests :
    ((migrate sample_database (done both) empty).0 ≡ none)
    × ((migrate sample_database (done both) empty).1.committed.rest ≡ "A" ∷ "B" ∷ [])
unfolding apply_run
migrate_tests = (refl, refl)

migrate-IsRecorded_example :
    All (IsRecorded (migrate sample_database (done both) empty).1.committed.ledger) both
    × Extends [] (migrate sample_database (done both) empty).1.committed.ledger
migrate-IsRecorded_example = migrate-IsRecorded sample_database both empty migrate_tests.0

migrate_again_example :
    apply_all sample_database both (migrate sample_database (done both) empty).1.committed
    ≡ ran (migrate sample_database (done both) empty).1.committed
migrate_again_example = migrate_again sample_database both empty migrate_tests.0 (λ v. refl)

-- A ledger that has another second migration: the first one has run when this is found.
abbrev changed_row : Row
changed_row = record { version = 2; name = "0002_other.sql"; checksum = "x" }

abbrev changed : Session (List String)
changed = record { committed = record { ledger = changed_row ∷ []; rest = [] }; pending = none }

changed_found : recorded 2 changed.committed.ledger ≡ some changed_row
unfolding apply_run
changed_found = refl

changed_name : ◌≢◌ {A = String} "0002_other.sql" "0002_more.sql"
changed_name = ground (arith, eq_iff "0002_other.sql" "0002_more.sql")

mismatch_fails : (migrate sample_database (done both) changed).0 ≢ none
mismatch_fails =
    migrate_mismatch sample_database both changed 1 second_migration changed_row refl changed_found
      (inl changed_name)

-- The one pool is open on the sample database.
abbrev opened_store : Option (Store ℕ)
opened_store = some (record { pool = some 7 })

abbrev sample_pools : ℕ → Database (List String)
sample_pools p = sample_database

store_tests :
    ((store_migrate sample_pools opened_store (some directory) empty).0 ≡ none)
    × ((store_migrate sample_pools none (some directory) empty).0 ≢ none)
unfolding apply_run migrations_run store_migrate
store_tests = (refl, λ e. cc)

store_migrate_complete_example :
    (m : Migration) × Reads second_entry m
    × IsRecorded
        (store_migrate sample_pools opened_store (some directory) empty).1.committed.ledger
        m
store_migrate_complete_example =
    store_migrate_complete sample_pools opened_store directory empty 0 second_entry store_tests.0
      refl second_is_migration

store_mismatch_fails : (store_migrate sample_pools opened_store (some directory) changed).0 ≢ none
unfolding store_migrate
store_mismatch_fails = rw (store_migrate, migrations_test) mismatch_fails

store_migrate_rollback_example :
    (store_migrate sample_pools opened_store (some directory) changed).1 ≡ changed
store_migrate_rollback_example =
    store_migrate_rollback sample_pools opened_store (some directory) changed refl
      store_mismatch_fails
