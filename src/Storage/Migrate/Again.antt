-- ===== src/Storage/Migrate/Again.antt =====
-- A run of the migrations that follows a successful one (RunMigrations in internal/storage/migrate.go).
use maxbridge.Text.{◌==ᵗ◌, Text, ==ᵗ_refl}
use maxbridge.Prelude.{
  ◌≡◌, refl, sym, ap, ◌∙◌, subst, inl, inr, true, false, ◌||◌, List, [], ◌∷◌, arith, if◌then◌else◌,
  Bool-cases, All,
}
use maxbridge.Storage.Database.{Result, ok, err}
use maxbridge.Storage.Migrate.{
  MigrationDb, MigrationFile, DirEntry, up, is_applied, Run, round_trip, done, and_then,
  record_version, apply_file, migrate_one, migrate_each, run_migrations, collect_migration_files,
  close, migrate_files,
}

module _ {S : Type 0} where
  and_then-ok :
      (r : Result (Unit {0}) × MigrationDb S) (k : Run S)
      → (and_then r k).0 ≡ ok tt
      → (r.0 ≡ ok tt) × (and_then r k ≡ k r.1)
  and_then-ok (ok tt, db) k h = (refl, refl)
  and_then-ok (err e, db) k h = cc

  versions-done : (db : MigrationDb S) → (round_trip done db).1.versions ≡ db.versions
  versions-done db = ground arith

  round_trip-served :
      (run : Run S) (db : MigrationDb S) → db.faults ≡ [] → round_trip run db ≡ run db
  round_trip-served run db clean = rw clean refl

  close-ok :
      (before : MigrationDb S) (r : Result (Unit {0}) × MigrationDb S)
      → (close before r).0 ≡ ok tt
      → (r.0 ≡ ok tt) × ((close before r).1.versions ≡ r.1.versions)
  close-ok before (ok tt, db) h = ground (arith, h)
  close-ok before (err e, db) h = cc

module _ {S : Type 0} (read_file : Text → Result Text) (run_sql : Text → S → Result S) where
  is_applied-apply_file :
      (f : MigrationFile) (raw : Result Text) (db : MigrationDb S) (v : Text)
      → (apply_file read_file run_sql up f raw db).0 ≡ ok tt
      → (is_applied v (apply_file read_file run_sql up f raw db).1.versions
          ≡ (f.version ==ᵗ v || is_applied v db.versions))
  unfolding apply_file record_version
  is_applied-apply_file f raw db v h = ground (arith, h)

  Records : MigrationFile → List Text → Result (Unit {0}) × MigrationDb S → Type 0
  Records f versions r =
      (is_applied f.version r.1.versions ≡ true)
      × ((v : Text) → is_applied v versions ≡ true → is_applied v r.1.versions ≡ true)

  not_applied :
      (f : MigrationFile) (db : MigrationDb S)
      → is_applied f.version db.versions ≡ false
      → (if is_applied f.version db.versions
          then (ok tt, db)
          else apply_file read_file run_sql up f (read_file f.path) db).0
        ≡ ok tt
      → (apply_file read_file run_sql up f (read_file f.path) db).0 ≡ ok tt
  not_applied f db t h = ground (arith, h, t)

  skip_or_apply :
      (f : MigrationFile) (db : MigrationDb S)
      → (if is_applied f.version db.versions
          then (ok tt, db)
          else apply_file read_file run_sql up f (read_file f.path) db).0
        ≡ ok tt
      → Records f db.versions (
          if is_applied f.version db.versions
          then (ok tt, db)
          else apply_file read_file run_sql up f (read_file f.path) db)
  unfolding Records
  skip_or_apply f db h = elim (Bool-cases (is_applied f.version db.versions)) [
    | inl t ↦ rw t (t, λ v a. a)
    | inr t ↦
        (let a = not_applied f db t h in
          let one = λ (v : Text). is_applied-apply_file f (read_file f.path) db v a in
          rw t (one f.version ∙ (rw (==ᵗ_refl f.version) refl), λ v i. one v ∙ ground (arith, i)))
  ]

  is_applied-migrate_one :
      (f : MigrationFile) (db : MigrationDb S)
      → (migrate_one read_file run_sql up f db).0 ≡ ok tt
      → (is_applied f.version (migrate_one read_file run_sql up f db).1.versions ≡ true)
        × ((v : Text)
            → is_applied v db.versions ≡ true
            → is_applied v (migrate_one read_file run_sql up f db).1.versions ≡ true)
  unfolding migrate_one Records
  is_applied-migrate_one f db h =
      let reached = (round_trip done db).1 in
      let (a, e) =
        and_then-ok (round_trip done db)
          (λ db'.
            if is_applied f.version db'.versions
            then (ok tt, db')
            else apply_file read_file run_sql up f (read_file f.path) db')
          h in
      let (own, kept) = skip_or_apply f reached (sym (ap (λ r. r.0) e) ∙ h) in
      subst (λ (r : Result (Unit {0}) × MigrationDb S). Records f db.versions r) (sym e)
        (own, λ v i. kept v (ap (λ vs. is_applied v vs) (versions-done db) ∙ i))

  is_applied-migrate_each :
      (fs : List MigrationFile) (db : MigrationDb S)
      → (migrate_each read_file run_sql up fs db).0 ≡ ok tt
      → All
          (λ (f : MigrationFile).
            is_applied f.version (migrate_each read_file run_sql up fs db).1.versions ≡ true)
          fs
        × ((v : Text)
            → is_applied v db.versions ≡ true
            → is_applied v (migrate_each read_file run_sql up fs db).1.versions ≡ true)
  unfolding migrate_each
  is_applied-migrate_each [] db h = (tt, λ v a. a)
  is_applied-migrate_each (f ∷ fs) db h =
      let (a, e) =
        and_then-ok (migrate_one read_file run_sql up f db) (migrate_each read_file run_sql up fs)
          h in
      let (own, kept) = is_applied-migrate_one f db a in
      let (all, kept') =
        is_applied-migrate_each fs (migrate_one read_file run_sql up f db).1
          (sym (ap (λ r. r.0) e) ∙ h) in
      subst
        (λ (r : Result (Unit {0}) × MigrationDb S).
          (is_applied f.version r.1.versions ≡ true
            × All (λ (g : MigrationFile). is_applied g.version r.1.versions ≡ true) fs)
          × ((v : Text) → is_applied v db.versions ≡ true → is_applied v r.1.versions ≡ true))
        (sym e) ((kept' f.version own, all), λ v i. kept' v (kept v i))

  migrate_each-applied :
      (fs : List MigrationFile) (db : MigrationDb S)
      → db.faults ≡ []
      → All (λ (f : MigrationFile). is_applied f.version db.versions ≡ true) fs
      → migrate_each read_file run_sql up fs db ≡ (ok tt, db)
  unfolding migrate_each migrate_one
  migrate_each-applied [] db clean h = refl
  migrate_each-applied (f ∷ fs) db clean h =
      let s = round_trip-served done db clean in
      let rest = migrate_each-applied fs db clean h.1 in rw (s, h.0) rest

  migrate_files-ok :
      (files : Result (List MigrationFile)) (db : MigrationDb S)
      → (migrate_files read_file run_sql up files db).0 ≡ ok tt
      → (fs : List MigrationFile) × (files ≡ ok fs)
        × All
            (λ (f : MigrationFile).
              is_applied f.version (migrate_files read_file run_sql up files db).1.versions ≡ true)
            fs
  migrate_files-ok (ok fs) db h = (fs, refl, (is_applied-migrate_each fs db h).0)
  migrate_files-ok (err e) db h = cc

  run_migrations-ok :
      (entries : Result (List DirEntry)) (db : MigrationDb S)
      → (run_migrations read_file run_sql entries up db).0 ≡ ok tt
      → (fs : List MigrationFile) × (collect_migration_files up entries ≡ ok fs)
        × All
            (λ (f : MigrationFile).
              is_applied f.version (run_migrations read_file run_sql entries up db).1.versions
              ≡ true)
            fs
  unfolding run_migrations
  run_migrations-ok entries db h =
      let files = collect_migration_files up entries in
      let begun = (round_trip done db).1 in
      let body = and_then (round_trip done begun) (migrate_files read_file run_sql up files) in
      let (a, e) =
        and_then-ok (round_trip done db)
          (λ b. close b (and_then (round_trip done b) (migrate_files read_file run_sql up files)))
          h in
      let (b, closed) = close-ok begun body (sym (ap (λ r. r.0) e) ∙ h) in
      let (c, ran) =
        and_then-ok (round_trip done begun) (migrate_files read_file run_sql up files) b in
      let (fs, is_ok, applied) =
        migrate_files-ok files (round_trip done begun).1 (sym (ap (λ r. r.0) ran) ∙ b) in
      let same = ap (λ r. r.1.versions) e ∙ closed ∙ ap (λ r. r.1.versions) ran in
      (
        fs,
        is_ok,
        subst (λ vs. All (λ (f : MigrationFile). is_applied f.version vs ≡ true) fs) (sym same)
            applied,
      )

  run_migrations-applied :
      (entries : Result (List DirEntry)) (fs : List MigrationFile) (db : MigrationDb S)
      → collect_migration_files up entries ≡ ok fs
      → db.faults ≡ []
      → All (λ (f : MigrationFile). is_applied f.version db.versions ≡ true) fs
      → run_migrations read_file run_sql entries up db ≡ (ok tt, db)
  unfolding run_migrations
  run_migrations-applied entries fs db files clean applied =
      let s = round_trip-served done db clean in
      let rest = migrate_each-applied fs db clean applied in
      rw (s, s, files, rest, s) (ap (λ r. (ok tt, r.1)) s)

  -- A run of the migrations upwards that follows a successful one over the same directory, where the
  -- server answers every statement, succeeds and changes neither the schema nor the record of what
  -- has been applied.
  pub run_migrations_again :
      (entries : Result (List DirEntry)) (db : MigrationDb S)
      → (run_migrations read_file run_sql entries up db).0 ≡ ok tt
      → (run_migrations read_file run_sql entries up db).1.faults ≡ []
      → run_migrations read_file run_sql entries up
          (run_migrations read_file run_sql entries up db).1
        ≡ (ok tt, (run_migrations read_file run_sql entries up db).1)
  run_migrations_again entries db h clean =
      let (fs, files, applied) = run_migrations-ok entries db h in
      run_migrations-applied entries fs (run_migrations read_file run_sql entries up db).1 files
        clean applied
