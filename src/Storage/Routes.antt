-- ===== src/Storage/Routes.antt =====
-- internal/storage/store.go: the routes, and CountCore.
use maxbridge.Storage.Accounts.{has_user_id, update_routes, has_chat_id, has_route_id}
use maxbridge.Prelude.{
  ◌++◌, ◌&&◌, ◌∷◌, if◌then◌else◌, none, length, any, update, [], true, not, ◌==ℤ◌, suc, ◌||◌, ℕ,
  some, find, Option, Bool, pos, filter, ℤ,
}
use maxbridge.Text.{Text, utf8, ◌==ᵗ◌}
use maxbridge.Storage.Tables.{Time, RouteRow, Tables}
use maxbridge.Storage.Database.{
  Exec, ok, err, unique_violation, check_violation, foreign_key_violation, statement, exec, query,
}

abbrev pub is_filter_mode : Text → Bool
is_filter_mode mode =
    mode ==ᵗ utf8 "all" || mode ==ᵗ utf8 "text_only" || mode ==ᵗ utf8 "mentions_only"

abbrev pub is_route_between : ℤ → ℤ → RouteRow → Bool
is_route_between chat_id max_user_id r =
    r.telegram_chat_id ==ℤ chat_id && r.max_user_id ==ℤ max_user_id

abbrev pub new_route : ℤ → Time → ℤ → ℤ → Text → Bool → RouteRow
new_route id now chat_id max_user_id filter_mode ignore_bots = record {
  id = id;
  telegram_chat_id = chat_id;
  max_user_id = max_user_id;
  enabled = true;
  filter_mode = filter_mode;
  ignore_bot_messages = ignore_bots;
  last_delivery_status = utf8 "never";
  last_delivery_error = [];
  created_at = now;
  updated_at = now;
}

-- The references of a route to a group and a user (REFERENCES in the schema).
abbrev pub refers : ℤ → ℤ → Tables → Bool
refers chat_id max_user_id t =
    any (has_chat_id chat_id) t.groups && any (has_user_id max_user_id) t.users

-- The schema's constraints: the CHECK of the filter mode, UNIQUE (chat, user), the two references.
unfoldable pub create_route : ℤ → ℤ → Text → Bool → Exec ℤ
create_route telegram_chat_id max_user_id filter_mode ignore_bots = statement λ db.
    let id = pos db.sequences.routes in
    let row = new_route id db.now telegram_chat_id max_user_id filter_mode ignore_bots in
    let refused = record db {
      sequences = record db.sequences { routes = suc db.sequences.routes };
    } in
    if not (is_filter_mode filter_mode)
    then (err check_violation, refused)
    else if any (is_route_between telegram_chat_id max_user_id) db.tables.routes
    then (err unique_violation, refused)
    else if not (refers telegram_chat_id max_user_id db.tables)
    then (err foreign_key_violation, refused)
    else (
      ok id,
      record refused { tables = record db.tables { routes = db.tables.routes ++ row ∷ [] } },
    )

unfoldable pub update_route_state : ℤ → Bool → Exec (Unit {0})
update_route_state route_id enabled =
    update_routes (has_route_id route_id) λ now r. record r { enabled = enabled; updated_at = now }

unfoldable pub update_route_delivery_status : ℤ → Text → Text → Exec (Unit {0})
update_route_delivery_status route_id status detail = update_routes (has_route_id route_id) λ now r.
    record r { last_delivery_status = status; last_delivery_error = detail; updated_at = now }

-- INSERT … SELECT … WHERE id = $1 ON CONFLICT DO UPDATE, for the row that the SELECT finds.
unfoldable pub clone_route : Option RouteRow → ℤ → Exec (Unit {0})
clone_route none max_user_id db = (ok tt, db)
clone_route (some source) max_user_id db =
    let row =
      new_route (pos db.sequences.routes) db.now source.telegram_chat_id max_user_id
        source.filter_mode source.ignore_bot_messages in
    let between = is_route_between source.telegram_chat_id max_user_id in
    let moved = record db {
      sequences = record db.sequences { routes = suc db.sequences.routes };
    } in
    if any between db.tables.routes
    then (
      ok tt,
      record moved {
        tables = record db.tables {
          routes = update between (λ r. record r { updated_at = db.now }) db.tables.routes;
        };
      },
    )
    else if not (refers source.telegram_chat_id max_user_id db.tables)
    then (err foreign_key_violation, moved)
    else (
      ok tt,
      record moved { tables = record db.tables { routes = db.tables.routes ++ row ∷ [] } },
    )

unfoldable pub clone_route_to_user : ℤ → ℤ → Exec (Unit {0})
unfolding clone_route
clone_route_to_user source_route_id max_user_id =
    statement
      λ db. clone_route (find (has_route_id source_route_id) db.tables.routes) max_user_id db

-- The dedupe records and the jobs of the route go with it, and the attempts of those jobs.
unfoldable pub delete_route : ℤ → Exec (Unit {0})
delete_route route_id = exec λ now tables.
    let jobs = filter (λ j. not (j.route_id ==ℤ route_id)) tables.jobs in
    record tables {
      routes = filter (λ r. not (has_route_id route_id r)) tables.routes;
      dedupe = filter (λ d. not (d.route_id ==ℤ route_id)) tables.dedupe;
      jobs = jobs;
      attempts = filter (λ a. any (λ j. j.id ==ℤ a.job_id) jobs) tables.attempts;
    }

-- Groups, active users and routes.
unfoldable pub count_core : Exec (ℕ × ℕ × ℕ)
count_core = query λ now tables.
    (length tables.groups, length (filter (λ u. u.is_active) tables.users), length tables.routes)
