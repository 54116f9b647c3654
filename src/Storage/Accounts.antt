-- ===== src/Storage/Accounts.antt =====
-- internal/storage/store.go: Telegram groups and MAX users.
pub mod Revocation
pub mod Linking
use maxbridge.Prelude.{
  ◌++◌, ◌&&◌, ◌∷◌, if◌then◌else◌, none, length, any, update, [], true, not, ◌==ℤ◌, suc, ◌||◌, false,
  ℕ, some, find, Option, Bool, pos, filter, ℤ,
}
use maxbridge.Text.{Text, utf8, is_empty, trim_space, ◌==ᵗ◌}
use maxbridge.Domain.{GroupReadiness, limited}
use maxbridge.Storage.Tables.{Time, GroupRow, UserRow, RouteRow, Tables}
use maxbridge.Storage.Database.{
  Db, Exec, Result, ok, err, unique_violation, check_violation, foreign_key_violation, statement,
  exec, query, pure, raise, transaction, ◌>>=◌, ◌>>◌,
}

abbrev pub has_user_id : ℤ → UserRow → Bool
has_user_id id u = u.max_user_id ==ℤ id

abbrev pub has_chat_id : ℤ → GroupRow → Bool
has_chat_id id g = g.telegram_chat_id ==ℤ id

abbrev pub has_route_id : ℤ → RouteRow → Bool
has_route_id id r = r.id ==ℤ id

abbrev pub is_route_of : ℤ → RouteRow → Bool
is_route_of max_user_id r = r.max_user_id ==ℤ max_user_id

abbrev pub update_users : (UserRow → Bool) → (Time → UserRow → UserRow) → Exec (Unit {0})
update_users test change =
    exec λ now tables. record tables { users = update test (change now) tables.users }

abbrev pub update_groups : (GroupRow → Bool) → (Time → GroupRow → GroupRow) → Exec (Unit {0})
update_groups test change =
    exec λ now tables. record tables { groups = update test (change now) tables.groups }

abbrev pub update_routes : (RouteRow → Bool) → (Time → RouteRow → RouteRow) → Exec (Unit {0})
update_routes test change =
    exec λ now tables. record tables { routes = update test (change now) tables.routes }

-- NULLIF(s, '')
abbrev pub null_if_empty : Text → Option Text
null_if_empty [] = none
null_if_empty (c ∷ s) = some (c ∷ s)

abbrev or_else : Option Text → Option Text → Option Text
or_else none old = old
or_else (some name) old = some name

abbrev id_of : Option UserRow → ℤ → ℤ
id_of none id = id
id_of (some u) id = u.id

-- INSERT … ON CONFLICT (max_user_id) DO UPDATE … RETURNING id. A user who is linked again is active
-- again, and stays blocked.
unfoldable pub upsert_linked_user : ℤ → Text → Exec ℤ
upsert_linked_user max_user_id full_name = statement λ db.
    let id = pos db.sequences.users in
    let name = null_if_empty (trim_space full_name) in
    let row : UserRow = record {
      id = id;
      max_user_id = max_user_id;
      full_name = name;
      is_active = true;
      is_blocked = false;
      linked_at = db.now;
      last_delivery_status = utf8 "never";
      last_delivery_error = [];
      last_delivery_at = none;
      created_at = db.now;
      updated_at = db.now;
    } in
    let relink = λ (u : UserRow). record u {
      is_active = true;
      full_name = or_else name u.full_name;
      updated_at = db.now;
    } in
    let users =
      if any (has_user_id max_user_id) db.tables.users
      then update (has_user_id max_user_id) relink db.tables.users
      else db.tables.users ++ row ∷ [] in
    (
      ok (id_of (find (has_user_id max_user_id) db.tables.users) id),
      record db {
        tables = record db.tables { users = users };
        sequences = record db.sequences { users = suc db.sequences.users };
      },
    )

unfoldable pub update_max_user_delivery_status : ℤ → Text → Text → Exec (Unit {0})
update_max_user_delivery_status max_user_id status detail =
    update_users (has_user_id max_user_id) λ now u. record u {
      last_delivery_status = status;
      last_delivery_error = detail;
      last_delivery_at = some now;
      updated_at = now;
    }

unfoldable pub set_user_blocked : ℤ → Bool → Exec (Unit {0})
set_user_blocked max_user_id blocked =
    update_users (has_user_id max_user_id)
      λ now u. record u { is_blocked = blocked; updated_at = now }

unfoldable pub update_max_user_name : ℤ → Text → Exec (Unit {0})
update_max_user_name max_user_id full_name =
    update_users (has_user_id max_user_id)
      λ now u. record u { full_name = null_if_empty (trim_space full_name); updated_at = now }

abbrev pub deactivate : Time → UserRow → UserRow
deactivate now u = record u { is_active = false; updated_at = now }

abbrev pub disable : Time → RouteRow → RouteRow
disable now r = record r { enabled = false; updated_at = now }

unfoldable pub remove_user : ℤ → Exec (Unit {0})
remove_user max_user_id = transaction (do
  update_users (has_user_id max_user_id) deactivate
  update_routes (is_route_of max_user_id) disable)

-- INSERT … ON CONFLICT (telegram_chat_id) DO UPDATE SET title = EXCLUDED.title
unfoldable pub add_telegram_group : ℤ → Text → Exec (Unit {0})
add_telegram_group chat_id title = statement λ db.
    let row : GroupRow = record {
      id = pos db.sequences.groups;
      telegram_chat_id = chat_id;
      title = title;
      readiness = limited;
      readiness_reason = [];
      is_enabled = true;
      created_at = db.now;
      updated_at = db.now;
    } in
    let groups =
      if any (has_chat_id chat_id) db.tables.groups
      then update (has_chat_id chat_id) (λ g. record g { title = title; updated_at = db.now })
          db.tables.groups
      else db.tables.groups ++ row ∷ [] in
    (
      ok tt,
      record db {
        tables = record db.tables { groups = groups };
        sequences = record db.sequences { groups = suc db.sequences.groups };
      },
    )

unfoldable pub update_group_readiness : ℤ → GroupReadiness → Text → Exec (Unit {0})
update_group_readiness chat_id readiness reason =
    update_groups (has_chat_id chat_id)
      λ now g. record g { readiness = readiness; readiness_reason = reason; updated_at = now }

unfoldable pub remove_group : ℤ → Exec (Unit {0})
remove_group chat_id =
    update_groups (has_chat_id chat_id) λ now g. record g { is_enabled = false; updated_at = now }
