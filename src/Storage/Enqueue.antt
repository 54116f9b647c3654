-- ===== src/Storage/Enqueue.antt =====
-- internal/storage/store.go: EnqueueTelegramUpdate and routePassesFilter.
use maxbridge.Prelude.{
  ℕ, suc, ◌+◌, ◌*◌, Bool, true, false, not, ◌&&◌, Option, none, some, List, [], ◌∷◌, ◌++◌, map,
  if◌then◌else◌, filter, any, ℤ, pos, ◌==ℤ◌,
}
pub mod Known
pub mod Effects
pub mod Idempotence
pub mod Recipients
pub mod Complete
pub mod Failure
pub mod Filters
use maxbridge.Text.{Text, ◌==ᵗ◌}
use maxbridge.Domain.{TelegramMessage, TelegramUpdate, pending}
use maxbridge.Domain.Rules.{dedupe_key, is_text_message, is_mention_message}
use maxbridge.Routing.{route_filter_text_only, route_filter_mentions, is_from_bot}
use maxbridge.Storage.Tables.{Time, day, encoded, RouteRow, UserRow, DedupeRow, DeliveryJob, Tables}
use maxbridge.Storage.Database.{
  Db, Exec, Result, ok, err, no_rows, statement, query, pure, raise, transaction, ◌>>=◌,
}

unfoldable pub route_passes_filter : Text → Bool → Option TelegramMessage → Bool
route_passes_filter route_filter ignore_bot none = false
route_passes_filter route_filter ignore_bot (some msg) =
    if ignore_bot && is_from_bot msg.from
    then false
    else if route_filter ==ᵗ route_filter_text_only
    then is_text_message (some msg)
    else if route_filter ==ᵗ route_filter_mentions
    then is_mention_message (some msg)
    else true

pub record RouteCandidate : Type 0 where
  pub route_id : ℤ
  pub max_user_id : ℤ
  pub filter_mode : Text
  pub ignore_bots : Bool

-- `u.is_active = true AND u.is_blocked = false` for the user of the join.
abbrev pub is_recipient : ℤ → UserRow → Bool
is_recipient max_user_id u = u.max_user_id ==ℤ max_user_id && u.is_active && not u.is_blocked

-- The join of `routes` and `max_users`; `max_user_id` is unique, so a route joins one user at most.
unfoldable pub is_open_route : ℤ → List UserRow → RouteRow → Bool
is_open_route chat_id users r =
    r.telegram_chat_id ==ℤ chat_id && r.enabled && any (is_recipient r.max_user_id) users

abbrev pub candidate : RouteRow → RouteCandidate
candidate r = record {
  route_id = r.id;
  max_user_id = r.max_user_id;
  filter_mode = r.filter_mode;
  ignore_bots = r.ignore_bot_messages;
}

unfoldable pub select_candidates : ℤ → Tables → List RouteCandidate
unfolding is_open_route
select_candidates chat_id tables =
    map candidate (filter (is_open_route chat_id tables.users) tables.routes)

abbrev pub has_key : Text → DedupeRow → Bool
has_key key d = d.dedupe_key ==ᵗ key

abbrev pub new_dedupe : ℤ → Time → Text → ℤ → ℤ → ℤ → DedupeRow
new_dedupe id now key route_id chat_id message_id = record {
  id = id;
  dedupe_key = key;
  route_id = route_id;
  telegram_chat_id = chat_id;
  telegram_message_id = message_id;
  expires_at = now + 14 * day;
  created_at = now;
}

-- ON CONFLICT (dedupe_key) DO NOTHING RETURNING id: no row comes back where the key is there.
unfoldable pub insert_dedupe : Text → ℤ → ℤ → ℤ → Exec ℤ
insert_dedupe key route_id chat_id message_id = statement λ db.
    let id = pos db.sequences.dedupe in
    let row = new_dedupe id db.now key route_id chat_id message_id in
    let next = record db.sequences { dedupe = suc db.sequences.dedupe } in
    if any (has_key key) db.tables.dedupe then (err no_rows, record db { sequences = next }) else (
      ok id,
      record db {
        tables = record db.tables { dedupe = db.tables.dedupe ++ row ∷ [] };
        sequences = next;
      },
    )

-- The row that is inserted for a candidate, with the payload that `json.Marshal(msg)` gives.
abbrev pub new_job : ℤ → Time → TelegramMessage → RouteCandidate → ℕ → DeliveryJob
new_job id now msg c max_attempts = record {
  id = id;
  route_id = c.route_id;
  telegram_chat_id = msg.chat.id;
  telegram_message_id = msg.message_id;
  max_user_id = c.max_user_id;
  payload = encoded msg;
  status = pending;
  attempts = 0;
  max_attempts = max_attempts;
  available_at = now;
  leased_until = none;
  last_error = [];
  created_at = now;
  updated_at = now;
}

unfoldable pub insert_job : TelegramMessage → RouteCandidate → ℕ → Exec (Unit {0})
insert_job msg c max_attempts = statement λ db. (
  ok tt,
  record db {
    tables = record db.tables {
      jobs = db.tables.jobs ++ new_job (pos db.sequences.jobs) db.now msg c max_attempts ∷ [];
    };
    sequences = record db.sequences { jobs = suc db.sequences.jobs };
  },
)

abbrev pub candidate_key : TelegramMessage → RouteCandidate → Text
candidate_key msg c = dedupe_key c.route_id msg.chat.id msg.message_id

abbrev pub candidate_passes : TelegramMessage → RouteCandidate → Bool
candidate_passes msg c = route_passes_filter c.filter_mode c.ignore_bots (some msg)

-- `errors.Is(err, pgx.ErrNoRows)` continues with the next candidate; any other error returns.
abbrev after_dedupe : TelegramMessage → RouteCandidate → ℕ → Result ℤ → Exec ℕ
after_dedupe msg c max_attempts (ok id) = insert_job msg c max_attempts >>= λ _. pure 1
after_dedupe msg c max_attempts (err no_rows) = pure 0
after_dedupe msg c max_attempts (err e) = raise e

-- One round of the loop: how many jobs it enqueued.
unfoldable pub enqueue_candidate : TelegramMessage → ℕ → RouteCandidate → Exec ℕ
enqueue_candidate msg max_attempts c db =
    if candidate_passes msg c
    then (let (r, db') =
          insert_dedupe (candidate_key msg c) c.route_id msg.chat.id msg.message_id db in
        after_dedupe msg c max_attempts r db')
    else (ok 0, db)

unfoldable pub enqueue_candidates : TelegramMessage → ℕ → List RouteCandidate → ℕ → Exec ℕ
unfolding enqueue_candidate
enqueue_candidates msg max_attempts [] enqueued = pure enqueued
enqueue_candidates msg max_attempts (c ∷ cs) enqueued =
    enqueue_candidate msg max_attempts c >>= λ n.
    enqueue_candidates msg max_attempts cs (enqueued + n)

unfoldable pub enqueue_message : TelegramMessage → ℕ → Exec ℕ
unfolding select_candidates enqueue_candidates
enqueue_message msg max_attempts = transaction (
    query (λ now tables. select_candidates msg.chat.id tables) >>= λ cs.
    enqueue_candidates msg max_attempts cs 0)

enqueue_update : Option TelegramMessage → ℕ → Exec ℕ
unfolding enqueue_message
enqueue_update none max_attempts = pure 0
enqueue_update (some msg) max_attempts = enqueue_message msg max_attempts

unfoldable pub enqueue_telegram_update : TelegramUpdate → ℕ → Exec ℕ
unfolding enqueue_update
enqueue_telegram_update upd max_attempts = enqueue_update upd.message max_attempts
