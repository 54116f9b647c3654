-- ===== src/Storage/Database.antt =====
-- The database as the store sees it: the pool's `Exec`, `Query`, `QueryRow` and `BeginTx`. What the
-- server does not control, whether a statement reaches it, is a list of faults.
pub mod Keeps
use maxbridge.Prelude.{inr, inl, ◌⊎◌, refl, ◌≡◌, Option, none, some, List, [], ◌∷◌, arith}
use maxbridge.Text.{Text}
use maxbridge.Storage.Tables.{Time, Tables, Sequences}

pub data DbError : Type 0 where
  -- The connection or the statement failed, with the driver's text.
  failed : Text → DbError
  unique_violation foreign_key_violation check_violation : DbError
  no_rows : DbError  -- pgx.ErrNoRows
  invite_not_found : DbError  -- ErrInviteNotFound

pub data Result {ℓ} (A : Type ℓ) : Type ℓ where
  ok : A → Result A
  err : DbError → Result A

-- `faults` says of the statements to come, one by one, whether they fail before they have an
-- effect; where the list ends, every statement is served. `now` is the server's clock.
pub record Db : Type 0 where
  pub tables : Tables
  pub sequences : Sequences
  pub now : Time
  pub faults : List (Option Text)

abbrev pub Exec {ℓ} : Type ℓ → Type ℓ
Exec A = Db → Result A × Db

abbrev pub next_fault : List (Option Text) → Option Text
next_fault [] = none
next_fault (f ∷ fs) = f

abbrev pub later_faults : List (Option Text) → List (Option Text)
later_faults [] = []
later_faults (f ∷ fs) = fs

abbrev pub served : Db → Db
served db = record db { faults = later_faults db.faults }

module _ {ℓ} {A : Type ℓ} where
  abbrev pub pure : A → Exec A
  pure a db = (ok a, db)

  abbrev pub raise : DbError → Exec A
  raise e db = (err e, db)

  abbrev pub answer : Option Text → Exec A → Exec A
  answer none run db = run db
  answer (some e) run db = (err (failed e), db)

  -- One round trip to the server.
  abbrev pub statement : Exec A → Exec A
  statement run db = answer (next_fault db.faults) run (served db)

module _ {ℓ κ} {A : Type ℓ} {B : Type κ} where
  abbrev pub continue : Result A → (A → Exec B) → Exec B
  continue (ok a) f db = f a db
  continue (err e) f db = (err e, db)

  infixl 5 ◌>>=◌
  abbrev pub ◌>>=◌ : Exec A → (A → Exec B) → Exec B
  ◌>>=◌ m f db = let (r, db') = m db in continue r f db'

infixl 5 ◌>>◌
abbrev pub ◌>>◌ {ℓ} : {B : Type ℓ} → Exec (Unit {0}) → Exec B → Exec B
m >> k = m >>= λ _. k

-- An `UPDATE`, a `DELETE` or a plain `INSERT`: `change` is given the server's time.
abbrev pub exec : (Time → Tables → Tables) → Exec (Unit {0})
exec change = statement λ db. (ok tt, record db { tables = change db.now db.tables })

abbrev pub query {ℓ} : {A : Type ℓ} → (Time → Tables → A) → Exec A
query read = statement λ db. (ok (read db.now db.tables), db)

module _ {ℓ} {A : Type ℓ} where
  -- `tx.Commit`; a transaction whose commit fails has no effect.
  abbrev pub commit : Tables → A → Exec A
  commit before a db =
      let reply = answer {A = Unit {0}} (next_fault db.faults) (pure tt) (served db) in
      elim reply.0 [ ok _ ↦ (ok a, reply.1) | err e ↦ (err e, record reply.1 { tables = before }) ]

  abbrev pub finish : Tables → Result A → Exec A
  finish before (ok a) db = commit before a db
  finish before (err e) db = (err e, record db { tables = before })

  -- `BeginTx`, the statements of `body`, and `Commit`; any error on the way runs the deferred
  -- `Rollback`, which restores the tables and not the sequences.
  unfoldable pub transaction : Exec A → Exec A
  transaction body db =
      let begun = answer {A = Unit {0}} (next_fault db.faults) (pure tt) (served db) in
      elim begun.0 [
        | ok _ ↦ (let (r, db') = body begun.1 in finish db.tables r db')
        | err e ↦ (err e, begun.1)
      ]

  -- A transaction that returns an error has changed no table.
  pub transaction_atomic :
      (body : Exec A) (db : Db) {e : DbError}
      → (transaction body db).0 ≡ err e
      → (transaction body db).1.tables ≡ db.tables
  unfolding transaction
  transaction_atomic body db h = ground arith

module _ {ℓ κ} {A : Type ℓ} {B : Type κ} where
  -- What a successful sequence of two actions went through.
  pub >>=-ok :
      (m : Exec A) (f : A → Exec B) (db : Db) {b : B}
      → ((m >>= f) db).0 ≡ ok b
      → (a : A) × ((m db).0 ≡ ok a) × ((m >>= f) db ≡ f a (m db).1)
  >>=-ok m f db h = go (m db) h
    where
      go :
          (r : Result A × Db) {b : B}
          → (continue r.0 f r.1).0 ≡ ok b
          → (a : A) × (r.0 ≡ ok a) × (continue r.0 f r.1 ≡ f a r.1)
      go (ok a, db') e = (a, refl, refl)
      go (err e', db') e = cc

module _ {ℓ} {A : Type ℓ} where
  -- What a successful transaction went through: a body that succeeded, and whose tables stand.
  pub transaction-ok :
      (body : Exec A) (db : Db) {a : A}
      → (transaction body db).0 ≡ ok a
      → ((body (served db)).0 ≡ ok a)
        × ((transaction body db).1.tables ≡ (body (served db)).1.tables)
  unfolding transaction
  transaction-ok body db h = ground arith

  -- Where every statement is served, a body that succeeds is committed.
  pub transaction-served :
      (body : Exec A) (db : Db) {a : A}
      → db.faults ≡ []
      → (body (served db)).0 ≡ ok a
      → (body (served db)).1.faults ≡ []
      → (transaction body db).0 ≡ ok a
  unfolding transaction
  transaction-served body db none_left h clean = ground (arith, none_left)

pub Result-cases {ℓ} :
    {A : Type ℓ} (r : Result A) → ((a : A) × (r ≡ ok a)) ⊎ ((e : DbError) × (r ≡ err e))
Result-cases (ok a) = inl (a, refl)
Result-cases (err e) = inr (e, refl)
