-- ===== src/Storage/Migrate.antt =====
-- internal/storage/migrate.go: the files a run of the migrations applies, and the run in its
-- transaction. The directory, the files and the effect of a file's SQL on the schema are parameters.
pub mod Again
use maxbridge.Prelude.{
  ℕ, Bool, true, false, not, ◌&&◌, ◌||◌, Option, none, some, List, [], ◌∷◌, ltb, ◌==◌,
  if◌then◌else◌, filter, any,
}
use maxbridge.Text.{less, Text, utf8, ◌==ᵗ◌}
use maxbridge.Storage.Database.{
  Result, ok, err, DbError, failed, unique_violation, next_fault, later_faults,
}

pub data MigrationDirection : Type 0 where
  up down : MigrationDirection

pub record MigrationFile : Type 0 where
  pub version : Text
  pub path : Text

-- What filepath.WalkDir visits.
pub record DirEntry : Type 0 where
  pub name : Text
  pub path : Text
  pub is_dir : Bool

-- The schema with the rows of schema_migrations; a table that is not there yet has no rows. `faults`
-- is as in Storage.Database.
pub record MigrationDb (S : Type 0) : Type 0 where
  pub schema : S
  pub versions : List Text
  pub faults : List (Option Text)

has_suffix : Text → Text → Bool
has_suffix [] suffix = [] ==ᵗ suffix
has_suffix (c ∷ s) suffix = (c ∷ s) ==ᵗ suffix || has_suffix s suffix

cons_to : ℕ → Option Text → Option Text
cons_to c none = none
cons_to c (some s) = some (c ∷ s)

-- What stands before the first underscore, where there is one.
before_underscore : Text → Option Text
before_underscore [] = none
before_underscore (c ∷ s) =
    let rest = before_underscore s in if c == 95 then some [] else cons_to c rest

comes_before : MigrationDirection → MigrationFile → MigrationFile → Bool
comes_before up f g = less f.version g.version
comes_before down f g = less g.version f.version

insert_file : MigrationDirection → MigrationFile → List MigrationFile → List MigrationFile
insert_file d f [] = f ∷ []
insert_file d f (g ∷ gs) =
    let rest = insert_file d f gs in if comes_before d g f then g ∷ rest else f ∷ g ∷ gs

suffix_of : MigrationDirection → Text
suffix_of up = utf8 ".up.sql"
suffix_of down = utf8 ".down.sql"

add_file : MigrationDirection → DirEntry → Option Text → List MigrationFile → List MigrationFile
add_file d e none fs = fs
add_file d e (some version) fs = insert_file d (record { version = version; path = e.path }) fs

-- sort.Slice leaves open how files of one version are ordered; here they keep their order.
sort_entries : MigrationDirection → List DirEntry → List MigrationFile
sort_entries d [] = []
sort_entries d (e ∷ es) =
    let rest = sort_entries d es in
    if not e.is_dir && has_suffix e.name (suffix_of d)
    then add_file d e (before_underscore e.name) rest
    else rest

unfoldable pub collect_migration_files :
    MigrationDirection → Result (List DirEntry) → Result (List MigrationFile)
unfolding sort_entries has_suffix suffix_of add_file before_underscore insert_file comes_before less
    cons_to
collect_migration_files d (err e) = err e
collect_migration_files d (ok es) = ok (sort_entries d es)

abbrev pub is_applied : Text → List Text → Bool
is_applied v versions = any (λ (w : Text). w ==ᵗ v) versions

abbrev pub Run : Type 0 → Type 0
Run S = MigrationDb S → Result (Unit {0}) × MigrationDb S

module _ {S : Type 0} where
  abbrev pub reply : Option Text → Run S → Run S
  reply none run db = run db
  reply (some e) run db = (err (failed e), db)

  abbrev pub round_trip : Run S → Run S
  round_trip run db =
      reply (next_fault db.faults) run (record db { faults = later_faults db.faults })

  abbrev pub done : Run S
  done db = (ok tt, db)

  abbrev pub and_then :
      Result (Unit {0}) × MigrationDb S → Run S → Result (Unit {0}) × MigrationDb S
  and_then (ok u, db) k = k db
  and_then (err e, db) k = (err e, db)

  unfoldable pub record_version : MigrationDirection → Text → Run S
  record_version up v db =
      if is_applied v db.versions
      then (err unique_violation, db)
      else (ok tt, record db { versions = v ∷ db.versions })
  record_version down v db =
      (ok tt, record db { versions = filter (λ (w : Text). not (w ==ᵗ v)) db.versions })

  abbrev pub set_schema : Result S → Run S
  set_schema (ok s) db = (ok tt, record db { schema = s })
  set_schema (err e) db = (err e, db)

  -- `Commit`, or the deferred `Rollback`.
  abbrev pub close :
      MigrationDb S → Result (Unit {0}) × MigrationDb S → Result (Unit {0}) × MigrationDb S
  close before (ok u, db) =
      let (r, db') = round_trip done db in
      elim r [ ok _ ↦ (ok tt, db') | err e ↦ (err e, record before { faults = db'.faults }) ]
  close before (err e, db) = (err e, record before { faults = db.faults })

module _ {S : Type 0} (read_file : Text → Result Text) (run_sql : Text → S → Result S) where
  unfoldable pub apply_file : MigrationDirection → MigrationFile → Result Text → Run S
  apply_file d f (err e) db = (err e, db)
  apply_file d f (ok raw) db =
      and_then (round_trip (λ db'. set_schema (run_sql raw db'.schema) db') db)
        (round_trip (record_version d f.version))

  unfoldable pub migrate_one : MigrationDirection → MigrationFile → Run S
  migrate_one up f db = and_then (round_trip done db) λ db'.
      if is_applied f.version db'.versions
      then (ok tt, db')
      else apply_file up f (read_file f.path) db'
  migrate_one down f db = apply_file down f (read_file f.path) db

  unfoldable pub migrate_each : MigrationDirection → List MigrationFile → Run S
  migrate_each d [] db = (ok tt, db)
  migrate_each d (f ∷ fs) db = and_then (migrate_one d f db) λ db'. migrate_each d fs db'

  abbrev pub migrate_files : MigrationDirection → Result (List MigrationFile) → Run S
  migrate_files d (ok fs) db = migrate_each d fs db
  migrate_files d (err e) db = (err e, db)

  unfoldable pub run_migrations : Result (List DirEntry) → MigrationDirection → Run S
  run_migrations entries d db = and_then (round_trip done db) λ begun. close begun (
      and_then (round_trip done begun)
        λ db'. migrate_files d (collect_migration_files d entries) db')
