-- ===== src/Tests/Migrations.antt =====
-- Two migrations in one directory, with a schema that counts the files applied.
use maxbridge.Prelude.{ℕ, suc, ◌≡◌, refl, ap, false, List, [], ◌∷◌, ◌++◌}
use maxbridge.Text.{Text, utf8, ◌==ᵗ◌}
use maxbridge.Storage.Database.{Result, ok}
use maxbridge.Storage.Migrate.{
  MigrationDb, DirEntry, up, down, run_migrations, collect_migration_files, migrate_one,
  migrate_each, apply_file, record_version,
}
use maxbridge.Storage.Migrate.Again.{run_migrations_again}

abbrev file : Text → DirEntry
file name = record { name = name; path = utf8 "migrations/" ++ name; is_dir = false }

abbrev directory : Result (List DirEntry)
directory = ok (
    file (utf8 "0002_b.down.sql")
    ∷ file (utf8 "0002_b.up.sql")
    ∷ file (utf8 "0001_a.down.sql")
    ∷ file (utf8 "0001_a.up.sql")
    ∷ file (utf8 "README.md")
    ∷ [])

abbrev read_file : Text → Result Text
read_file path = ok path

abbrev run_sql : Text → ℕ → Result ℕ
run_sql raw n = ok (suc n)

abbrev fresh : MigrationDb ℕ
fresh = record { schema = 0; versions = []; faults = [] }

abbrev migrated : MigrationDb ℕ
migrated = (run_migrations read_file run_sql directory up fresh).1

both_applied :
    run_migrations read_file run_sql directory up fresh
    ≡ (ok tt, record { schema = 2; versions = utf8 "0002" ∷ utf8 "0001" ∷ []; faults = [] })
unfolding run_migrations collect_migration_files migrate_each migrate_one apply_file record_version
    ◌==ᵗ◌
both_applied = refl

both_undone :
    run_migrations read_file run_sql directory down migrated
    ≡ (ok tt, record { schema = 4; versions = []; faults = [] })
unfolding run_migrations collect_migration_files migrate_each migrate_one apply_file record_version
    ◌==ᵗ◌
both_undone = refl

run_migrations_again_example :
    run_migrations read_file run_sql directory up migrated ≡ (ok tt, migrated)
run_migrations_again_example =
    run_migrations_again read_file run_sql directory fresh (ap (λ r. r.0) both_applied)
      (ap (λ r. r.1.faults) both_applied)
