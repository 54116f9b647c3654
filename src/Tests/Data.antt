-- ===== src/Tests/Data.antt =====
-- A chat with two linked users, of whom one is blocked, and the jobs of a small queue.
use maxbridge.Prelude.{
  ℕ, ◌+◌, ◌*◌, Bool, true, false, Option, none, some, List, [], ◌∷◌, ℤ, pos, negsuc,
}
use maxbridge.Text.{utf8}
use maxbridge.Domain.{
  limited, pending, processing, completed, JobStatus, TelegramMessage, TelegramUpdate, TelegramUser,
  TelegramChat,
}
use maxbridge.Storage.Tables.{
  second, day, Tables, Sequences, GroupRow, UserRow, RouteRow, DeliveryJob, encoded, Invite,
}
use maxbridge.Storage.Database.{Db}

abbrev pub now : ℕ
now = 1000 * day

abbrev pub chat_id : ℤ
chat_id = negsuc 99

abbrev pub chat : TelegramChat
chat = record { id = chat_id; title = utf8 "News"; username = []; kind = utf8 "group" }

abbrev pub author : TelegramUser
author = record {
  id = pos 5;
  is_bot = false;
  username = utf8 "ann";
  first_name = utf8 "Ann";
  last_name = [];
}

abbrev pub message : TelegramMessage
message = record {
  message_id = pos 10;
  date = pos 1700000000;
  text = utf8 "Hello";
  caption = [];
  from = some author;
  chat = chat;
  entities = [];
  photo = [];
  document = none;
  video = none;
  audio = none;
  voice = none;
  animation = none;
}

abbrev pub update_of : TelegramMessage → TelegramUpdate
update_of msg = record {
  update_id = pos 1;
  message = some msg;
  my_chat_member = none;
  chat_member = none;
  channel_post = none;
  edited_message = none;
}

abbrev pub group : GroupRow
group = record {
  id = pos 1;
  telegram_chat_id = chat_id;
  title = utf8 "News";
  readiness = limited;
  readiness_reason = [];
  is_enabled = true;
  created_at = 0;
  updated_at = 0;
}

abbrev pub user : ℤ → Bool → UserRow
user id blocked = record {
  id = id;
  max_user_id = id;
  full_name = none;
  is_active = true;
  is_blocked = blocked;
  linked_at = 0;
  last_delivery_status = utf8 "never";
  last_delivery_error = [];
  last_delivery_at = none;
  created_at = 0;
  updated_at = 0;
}

abbrev pub route : ℤ → ℤ → RouteRow
route id max_user_id = record {
  id = id;
  telegram_chat_id = chat_id;
  max_user_id = max_user_id;
  enabled = true;
  filter_mode = utf8 "all";
  ignore_bot_messages = true;
  last_delivery_status = utf8 "never";
  last_delivery_error = [];
  created_at = 0;
  updated_at = 0;
}

abbrev pub job : ℤ → JobStatus → ℕ → Option ℕ → DeliveryJob
job id status available_at leased_until = record {
  id = id;
  route_id = pos 1;
  telegram_chat_id = chat_id;
  telegram_message_id = pos 9;
  max_user_id = pos 7;
  payload = encoded message;
  status = status;
  attempts = 0;
  max_attempts = 8;
  available_at = available_at;
  leased_until = leased_until;
  last_error = [];
  created_at = 0;
  updated_at = 0;
}

abbrev pub early : DeliveryJob
early = job (pos 1) pending 1 none

abbrev pub late : DeliveryJob
late = job (pos 2) pending 2 none

abbrev pub stale : DeliveryJob
stale = job (pos 3) processing 1 (some 5)

abbrev pub finished : DeliveryJob
finished = job (pos 4) completed 1 none

abbrev pub tables : List DeliveryJob → List Invite → Tables
tables jobs invites = record {
  groups = group ∷ [];
  users = user (pos 7) false ∷ user (pos 8) true ∷ [];
  invites = invites;
  routes = route (pos 1) (pos 7) ∷ route (pos 2) (pos 8) ∷ [];
  dedupe = [];
  jobs = jobs;
  attempts = [];
  events = [];
}

abbrev pub sequences : Sequences
sequences = record {
  groups = 2;
  users = 9;
  invites = 2;
  routes = 3;
  dedupe = 1;
  jobs = 5;
  attempts = 1;
  events = 1;
}

abbrev pub database : List DeliveryJob → List Invite → Db
database jobs invites = record {
  tables = tables jobs invites;
  sequences = sequences;
  now = now;
  faults = [];
}

-- Later, with all tables as the given database has left them.
abbrev pub an_hour_later : Db → Db
an_hour_later db = record db { now = db.now + 3600 * second }
