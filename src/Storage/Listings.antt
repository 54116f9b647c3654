-- ===== src/Storage/Listings.antt =====
-- internal/storage/store.go: the listings for the terminal interface (ListTelegramGroups to
-- ListRecentEvents) and LogEvent. A listing's rows are Go maps with values of any type.
use maxbridge.Prelude.{
  ℕ, suc, Bool, true, false, ◌&&◌, ◌||◌, Option, none, some, List, [], ◌∷◌, ◌++◌, map, ltb,
  if◌then◌else◌, take, filter, any, find, ℤ, pos, negsuc,
}
use maxbridge.Text.{Text, utf8, ◌==ᵗ◌}
use maxbridge.Domain.{
  GroupReadiness, ready, limited, blocked, JobStatus, pending, processing, retry, completed,
  dead_letter,
}
use maxbridge.Storage.Tables.{
  Time, GroupRow, UserRow, Invite, RouteRow, DeliveryJob, EventRow, Tables, Metadata,
}
use maxbridge.Storage.Database.{Exec, ok, query, statement}
use maxbridge.Storage.Accounts.{has_user_id, has_chat_id}

-- A value of type `any`: an int64 or an int, a string, a bool, a time.Time, a *time.Time.
pub data Value : Type 0 where
  int : ℤ → Value
  text : Text → Value
  bool : Bool → Value
  time : Time → Value
  time_pointer : Option Time → Value

abbrev pub Row : Type 0
Row = List (Text × Value)

-- `v, ok := row[key]`
unfoldable pub lookup : Text → Row → Option Value
lookup key [] = none
lookup key (entry ∷ rest) =
    let later = lookup key rest in if entry.0 ==ᵗ key then some entry.1 else later

module _ {ℓ} {A : Type ℓ} (before : A → A → Bool) where
  insert_by : A → List A → List A
  insert_by x [] = x ∷ []
  insert_by x (y ∷ ys) = let rest = insert_by x ys in if before y x then y ∷ rest else x ∷ y ∷ ys

  -- ORDER BY; rows that are equal in its order keep theirs.
  unfoldable pub order_by : List A → List A
  unfolding insert_by
  order_by [] = []
  order_by (x ∷ xs) = insert_by x (order_by xs)

-- a < b
unfoldable pub less_int : ℤ → ℤ → Bool
less_int (pos a) (pos b) = ltb a b
less_int (pos a) (negsuc b) = false
less_int (negsuc a) (pos b) = true
less_int (negsuc a) (negsuc b) = ltb b a

-- COALESCE(s, '')
abbrev pub or_empty : Option Text → Text
or_empty none = []
or_empty (some s) = s

abbrev pub readiness_text : GroupReadiness → Text
readiness_text ready = utf8 "READY"
readiness_text limited = utf8 "LIMITED"
readiness_text blocked = utf8 "BLOCKED"

abbrev status_text : JobStatus → Text
status_text pending = utf8 "pending"
status_text processing = utf8 "processing"
status_text retry = utf8 "retry"
status_text completed = utf8 "completed"
status_text dead_letter = utf8 "dead_letter"

unfoldable pub group_row : GroupRow → Row
group_row g =
    (utf8 "id", int g.id)
    ∷ (utf8 "chat_id", int g.telegram_chat_id)
    ∷ (utf8 "title", text g.title)
    ∷ (utf8 "readiness", text (readiness_text g.readiness))
    ∷ (utf8 "reason", text g.readiness_reason)
    ∷ (utf8 "enabled", bool g.is_enabled)
    ∷ (utf8 "updated_at", time g.updated_at)
    ∷ []

unfoldable pub list_telegram_groups : Exec (List Row)
list_telegram_groups =
    query λ now tables. map group_row (order_by (λ a b. less_int a.id b.id) tables.groups)

unfoldable pub user_row : UserRow → Row
user_row u =
    (utf8 "id", int u.id)
    ∷ (utf8 "max_user_id", int u.max_user_id)
    ∷ (utf8 "full_name", text (or_empty u.full_name))
    ∷ (utf8 "active", bool u.is_active)
    ∷ (utf8 "blocked", bool u.is_blocked)
    ∷ (utf8 "linked_at", time u.linked_at)
    ∷ (utf8 "last", text u.last_delivery_status)
    ∷ (utf8 "updated_at", time u.updated_at)
    ∷ []

unfoldable pub list_max_users : Exec (List Row)
list_max_users = query λ now tables.
    map user_row (order_by (λ a b. less_int a.id b.id) (filter (λ u. u.is_active) tables.users))

-- metadata->>key, or the empty text
metadata_text : Text → Metadata → Text
metadata_text key [] = []
metadata_text key (entry ∷ rest) =
    let later = metadata_text key rest in if entry.0 ==ᵗ key then entry.1 else later

unfoldable pub invite_row : Invite → Row
unfolding metadata_text
invite_row i =
    (utf8 "id", int i.id)
    ∷ (utf8 "scope", text (i.scope_type ++ utf8 ":" ++ i.scope_id))
    ∷ (utf8 "expires_at", time i.expires_at)
    ∷ (utf8 "used_at", time_pointer i.used_at)
    ∷ (utf8 "revoked_at", time_pointer i.revoked_at)
    ∷ (utf8 "single_use", bool i.single_use)
    ∷ (utf8 "created_at", time i.created_at)
    ∷ (utf8 "raw_code", text (metadata_text (utf8 "raw_code") i.metadata))
    ∷ (utf8 "max_full_name", text (metadata_text (utf8 "max_full_name") i.metadata))
    ∷ []

unfoldable pub list_invites : Exec (List Row)
list_invites =
    query
      λ now tables. map invite_row (take 200 (order_by (λ a b. less_int b.id a.id) tables.invites))

title_of : Option GroupRow → Text
title_of none = []
title_of (some g) = g.title

name_of : Option UserRow → Text
name_of none = []
name_of (some u) = or_empty u.full_name

-- A route's group is there (REFERENCES in the schema), so `tg.title` is never NULL.
unfoldable pub route_row : Tables → RouteRow → Row
unfolding title_of name_of
route_row tables r =
    (utf8 "id", int r.id)
    ∷ (utf8 "chat_id", int r.telegram_chat_id)
    ∷ (utf8 "max_user_id", int r.max_user_id)
    ∷ (utf8 "full_name", text (name_of (find (has_user_id r.max_user_id) tables.users)))
    ∷ (utf8 "enabled", bool r.enabled)
    ∷ (utf8 "filter", text r.filter_mode)
    ∷ (utf8 "ignore_bots", bool r.ignore_bot_messages)
    ∷ (utf8 "status", text r.last_delivery_status)
    ∷ (utf8 "updated_at", time r.updated_at)
    ∷ (utf8 "group_title", text (title_of (find (has_chat_id r.telegram_chat_id) tables.groups)))
    ∷ []

abbrev has_active_user : Tables → RouteRow → Bool
has_active_user tables r = any (λ u. has_user_id r.max_user_id u && u.is_active) tables.users

unfoldable pub list_routes : Exec (List Row)
list_routes = query λ now tables.
    map (route_row tables)
      (order_by (λ a b. less_int a.id b.id) (filter (has_active_user tables) tables.routes))

unfoldable pub queue_row : Tables → DeliveryJob → Row
unfolding name_of
queue_row tables j =
    (utf8 "id", int j.id)
    ∷ (utf8 "route_id", int j.route_id)
    ∷ (utf8 "chat_id", int j.telegram_chat_id)
    ∷ (utf8 "message_id", int j.telegram_message_id)
    ∷ (utf8 "max_user_id", int j.max_user_id)
    ∷ (utf8 "full_name", text (name_of (find (has_user_id j.max_user_id) tables.users)))
    ∷ (utf8 "status", text (status_text j.status))
    ∷ (utf8 "attempts", int (pos j.attempts))
    ∷ (utf8 "max_attempts", int (pos j.max_attempts))
    ∷ (utf8 "available_at", time j.available_at)
    ∷ (utf8 "last_error", text j.last_error)
    ∷ (utf8 "updated_at", time j.updated_at)
    ∷ []

unfoldable pub list_queue : Text → ℕ → Exec (List Row)
list_queue status limit = query λ now tables.
    let wanted = λ (j : DeliveryJob). status ==ᵗ [] || status_text j.status ==ᵗ status in
    map (queue_row tables)
      (take limit (order_by (λ a b. ltb a.available_at b.available_at) (filter wanted tables.jobs)))

event_row : EventRow → Row
event_row e =
    (utf8 "id", int e.id)
    ∷ (utf8 "level", text e.level)
    ∷ (utf8 "source", text e.source)
    ∷ (utf8 "message", text e.message)
    ∷ (utf8 "created_at", time e.created_at)
    ∷ []

unfoldable pub list_recent_events : ℕ → Exec (List Row)
unfolding event_row
list_recent_events limit =
    query
      λ now tables. map event_row (take limit (order_by (λ a b. less_int b.id a.id) tables.events))

-- The error is dropped.
unfoldable pub log_event : Text → Text → Text → Exec (Unit {0})
log_event level source message = statement λ db.
    let row : EventRow = record {
      id = pos db.sequences.events;
      level = level;
      source = source;
      message = message;
      created_at = db.now;
    } in
    (
      ok tt,
      record db {
        tables = record db.tables { events = db.tables.events ++ row ∷ [] };
        sequences = record db.sequences { events = suc db.sequences.events };
      },
    )
