-- ===== src/Storage/Database/Keeps.antt =====
-- What a sequence of statements keeps, whichever of them fails.
use maxbridge.Storage.Database.{next_fault}
use maxbridge.Prelude.{inl, inr, Option-cases}
use maxbridge.Storage.Tables.{Time, Tables}
use maxbridge.Storage.Database.{Db, Exec, Result, ok, err, exec, statement, continue, ◌>>=◌, ◌>>◌}

-- `m` keeps `P` of the tables, whether it succeeds or fails.
pub record Keeps {ℓ} {A : Type ℓ} (P : Tables → Type 0) (m : Exec A) : Type 0 where
  pub at : (db : Db) → P db.tables → P (m db).1.tables

module _ (P : Tables → Type 0) where
  pub Keeps-exec :
      (change : Time → Tables → Tables)
      → ((now : Time) (t : Tables) → P t → P (change now t))
      → Keeps P (exec change)
  Keeps-exec change keep = record {
    at = λ db h. elim (Option-cases (next_fault db.faults)) [
      | inl e ↦ rw e (keep db.now db.tables h)
      | inr (f, e) ↦ rw e h
    ];
  }

  -- A statement that replies itself.
  pub Keeps-statement {ℓ} :
      {A : Type ℓ} (run : Exec A)
      → ((db : Db) → P db.tables → P (run db).1.tables)
      → Keeps P (statement run)
  Keeps-statement run keep = record {
    at = λ db h. elim (Option-cases (next_fault db.faults)) [
      | inl e ↦ rw e (keep _ h)
      | inr (f, e) ↦ rw e h
    ];
  }

  Keeps-continue {ℓ κ} :
      {A : Type ℓ} {B : Type κ} (r : Result A) (f : A → Exec B)
      → ((a : A) → Keeps P (f a))
      → Keeps P (continue r f)
  Keeps-continue (ok a) f keep = keep a
  Keeps-continue (err e) f keep = record { at = λ db h. h }

  pub Keeps-bind {ℓ κ} :
      {A : Type ℓ} {B : Type κ} (m : Exec A) (f : A → Exec B)
      → Keeps P m
      → ((a : A) → Keeps P (f a))
      → Keeps P (m >>= f)
  Keeps-bind m f km kf = record {
    at = λ db h. let (r, db') = m db in (Keeps-continue r f kf).at db' (km.at db h);
  }

  pub Keeps-then {ℓ} :
      {B : Type ℓ} (m : Exec (Unit {0})) (k : Exec B) → Keeps P m → Keeps P k → Keeps P (m >> k)
  Keeps-then m k km kk = Keeps-bind m (λ _. k) km (λ _. kk)
