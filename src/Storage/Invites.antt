-- ===== src/Storage/Invites.antt =====
-- internal/storage/store.go: CreateInvite, RevokeInvite and ConsumeInvite.
pub mod Consume
use maxbridge.Prelude.{
  [], ◌∷◌, ◌++◌, ◌&&◌, any, suc, ltb, ◌||◌, none, not, pos, ◌==ℤ◌, some, Option, find, Bool,
  if◌then◌else◌, filter, ℤ,
}
use maxbridge.Text.{Text, ◌==ᵗ◌}
use maxbridge.Storage.Tables.{Time, Metadata, Invite, Tables}
use maxbridge.Storage.Database.{
  Db, Exec, Result, ok, err, no_rows, invite_not_found, unique_violation, statement, exec, pure,
  raise, transaction, ◌>>=◌, ◌>>◌,
}
use maxbridge.Storage.Queue.{is_null}

abbrev pub has_hash : Text → Invite → Bool
has_hash hash i = i.code_hash ==ᵗ hash

abbrev pub has_invite_id : ℤ → Invite → Bool
has_invite_id id i = i.id ==ℤ id

abbrev pub new_invite : ℤ → Time → Text → Text → Text → Time → Bool → Metadata → Invite
new_invite id now scope_type scope_id code_hash expires_at single_use metadata = record {
  id = id;
  scope_type = scope_type;
  scope_id = scope_id;
  code_hash = code_hash;
  expires_at = expires_at;
  used_at = none;
  revoked_at = none;
  single_use = single_use;
  metadata = metadata;
  created_at = now;
}

-- `code_hash` is UNIQUE; the sequence moves also where the row is refused.
unfoldable pub create_invite : Text → Text → Text → Time → Bool → Metadata → Exec ℤ
create_invite scope_type scope_id code_hash expires_at single_use metadata = statement λ db.
    let id = pos db.sequences.invites in
    let row = new_invite id db.now scope_type scope_id code_hash expires_at single_use metadata in
    let next = record db.sequences { invites = suc db.sequences.invites } in
    if any (has_hash code_hash) db.tables.invites
    then (err unique_violation, record db { sequences = next })
    else (
      ok id,
      record db {
        tables = record db.tables { invites = db.tables.invites ++ row ∷ [] };
        sequences = next;
      },
    )

abbrev pub delete_invite : ℤ → Exec (Unit {0})
delete_invite id =
    exec λ now tables. record tables {
      invites = filter (λ i. not (has_invite_id id i)) tables.invites;
    }

unfoldable pub revoke_invite : ℤ → Exec (Unit {0})
revoke_invite invite_id = delete_invite invite_id

abbrev or_no_rows : Option Invite → Exec Invite
or_no_rows none = raise no_rows
or_no_rows (some i) = pure i

-- SELECT … WHERE code_hash = $1 FOR UPDATE
abbrev pub select_invite : Text → Exec Invite
select_invite hash = statement λ db. or_no_rows (find (has_hash hash) db.tables.invites) db

-- `now` is the clock of the caller, not of the database.
unfoldable pub is_spent : Time → Invite → Bool
is_spent now i =
    not (is_null i.revoked_at) || ltb i.expires_at now || (i.single_use && not (is_null i.used_at))

abbrev pub not_found : Result Invite → Result Invite
not_found (err no_rows) = err invite_not_found
not_found r = r

unfoldable pub consume_invite : Time → Text → Exec Invite
unfolding is_spent
consume_invite now hash = transaction (
    (λ db. let (r, db') = select_invite hash db in (not_found r, db')) >>= λ i.
    if is_spent now i then raise invite_not_found else (delete_invite i.id >>= λ _. pure i))
