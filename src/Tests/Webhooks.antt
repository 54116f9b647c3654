-- ===== src/Tests/Webhooks.antt =====
-- The theorems on invite codes and on the webhooks, with a hash that is the text itself.
use maxbridge.Prelude.{
  ◌≢◌, ◌==ℤ◌, ℕ, ◌+◌, ◌≡◌, refl, ◌⊎◌, inr, true, none, some, List, [], ◌∷◌, ◌++◌, arith, pos,
  is_positive,
}
use maxbridge.Storage.Enqueue.{
  insert_job, insert_dedupe, route_passes_filter, enqueue_telegram_update,
}
use maxbridge.Storage.Accounts.{add_telegram_group}
use maxbridge.HttpApi.Telegram.{
  is_telegram_group_chat, chat_for_auto_registration, register, accept_update,
  handle_telegram_webhook,
}
use maxbridge.HttpApi.{guarded, Request, decoded, ServerState, Peers}
use maxbridge.HttpApi.Telegram.Redelivery.{handle_telegram_webhook_again}
use maxbridge.Text.Fields.Plain.{is_word-IsPrintable}
use maxbridge.Text.Fields.{is_ascii, fields, to_upper}
use maxbridge.Storage.Database.{transaction, Db, failed, ok, err}
use maxbridge.InviteService.{
  new_code, CreateInviteInput, CreateInviteOutput, RandomBytes, service_create_invite,
  parse_link_command, hash_code,
}
use maxbridge.Storage.Invites.{create_invite, consume_invite, new_invite}
use maxbridge.Text.{Text, utf8, ◌==ᵗ◌, trim_space}
use maxbridge.Domain.{TelegramUpdate, MaxWebhookUpdate, MaxWebhookMessage}
use maxbridge.Storage.Tables.{Invite}
use maxbridge.Storage.Enqueue.Failure.{enqueue_telegram_update_atomic}
use maxbridge.InviteService.Link.{Spells, linkable-service_create_invite}
use maxbridge.HttpApi.Guards.{IsAuthentic, IsRefusal}
use maxbridge.HttpApi.Telegram.Answers.{Handled, handle_telegram_webhook_lem}
use maxbridge.HttpApi.Max.{handle_max_webhook, extract_max_link_input}
use maxbridge.HttpApi.Max.Links.{IsLink, Unchanged, handle_max_webhook_guarded}
use maxbridge.Storage.Accounts.Linking.{IsLinked}
use maxbridge.HttpApi.Max.Linked.{handle_max_webhook_links}
use maxbridge.Tests.Data.{now, message, update_of, database}

abbrev pub same : Text → Text
same s = s

abbrev pub sha256 : Text → List ℕ
sha256 s = s

abbrev pepper : Text
pepper = utf8 "p"

abbrev zeros : RandomBytes
zeros = record { b0 = 0; b1 = 0; b2 = 0; b3 = 0; b4 = 0; b5 = 0; b6 = 0; b7 = 0; b8 = 0; b9 = 0 }

abbrev input : CreateInviteInput
input = record {
  scope_type = utf8 "group";
  scope_id = utf8 "-100";
  ttl = pos 50;
  single_use = true;
  metadata = [];
}

abbrev raw_code : Text
raw_code = utf8 "MB-AAAAAAAAAAAA"

abbrev created : CreateInviteOutput
created = record { invite_id = pos 2; raw_code = raw_code; expires = now + 50 }

create_with_zeros :
    (service_create_invite same sha256 pepper now (inr zeros) input (database [] [])).0
    ≡ inr created
unfolding service_create_invite create_invite new_code
create_with_zeros = refl

spelled : Spells (utf8 "mb-aaaaAAAAAAAA") raw_code
spelled = (is_word-IsPrintable (utf8 "mb-aaaaAAAAAAAA") refl, refl)

linkable-service_create_invite_example :
    let db' = (service_create_invite same sha256 pepper now (inr zeros) input (database [] [])).1 in
    (code : Text) × (i : Invite) × (parse_link_command same
        (utf8 "/link " ++ utf8 "mb-aaaaAAAAAAAA")
      ≡ some code)
    × ((consume_invite (now + 50) (hash_code same sha256 pepper code) db').0 ≡ ok i)
    × (i.id ≡ pos 2)
    × (i.scope_type ≡ utf8 "group")
    × (i.scope_id ≡ utf8 "-100")
linkable-service_create_invite_example =
    linkable-service_create_invite same sha256 pepper now (now + 50) zeros input (database [] [])
      created (utf8 "mb-aaaaAAAAAAAA") create_with_zeros refl spelled (omega arith)

abbrev cut_off : Db
cut_off = record (database [] []) { faults = none ∷ some (utf8 "reset") ∷ [] }

enqueue_cut_off :
    (enqueue_telegram_update (update_of message) 8 cut_off).0 ≡ err (failed (utf8 "reset"))
unfolding enqueue_telegram_update transaction
enqueue_cut_off = refl

enqueue_telegram_update_atomic_example :
    (enqueue_telegram_update (update_of message) 8 cut_off).1.tables ≡ cut_off.tables
enqueue_telegram_update_atomic_example =
    enqueue_telegram_update_atomic (update_of message) 8 cut_off (failed (utf8 "reset"))
      enqueue_cut_off

abbrev pub peers : Peers ℕ
peers = record { clock = λ w. w; database_clock = λ w. w; send_message = λ user text w. (none, w) }

abbrev invite : Invite
invite =
    new_invite (pos 1) 0 (utf8 "group") (utf8 "-100") (hash_code same sha256 pepper raw_code)
      (now + 50) true []

abbrev pub server : ServerState ℕ
server = record {
  store = database [] (invite ∷ []);
  metrics = record {
    invalid_webhooks = 0;
    telegram_updates = 0;
    telegram_events_enqueued = 0;
    db_errors = 0;
    invalid_links_ignored = 0;
    successful_links = 0;
  };
  world = now;
}

abbrev post : {A : Type 0} → A → Request A
post a = record { method = utf8 "POST"; secret = utf8 "s"; body = decoded a }

handle_telegram_webhook_example :
    let (status, s') =
      handle_telegram_webhook peers (utf8 "s") 8 (post (update_of message)) server in
    IsRefusal status × (s'.store ≡ server.store)
    ⊎ (upd : TelegramUpdate) × IsAuthentic (utf8 "s") (post (update_of message)) upd
      × Handled peers 8 upd server (status, s')
handle_telegram_webhook_example =
    handle_telegram_webhook_lem peers 8 (utf8 "s") (post (update_of message)) server

abbrev link_message : MaxWebhookMessage
link_message = record {
  text = utf8 "/link MB-AAAAAAAAAAAA";
  body = none;
  sender = record { user_id = pos 7 };
}

abbrev link_update : MaxWebhookUpdate
link_update = record { message = some link_message }

handle_max_webhook_guarded_example :
    IsLink peers same sha256 pepper server (utf8 "s") (post link_update)
    ⊎ Unchanged peers same sha256 pepper server
        (handle_max_webhook peers same sha256 pepper (utf8 "s") (post link_update) server).1
handle_max_webhook_guarded_example =
    handle_max_webhook_guarded peers same sha256 pepper server (utf8 "s") (post link_update)

extracted : extract_max_link_input link_message ≡ some (pos 7, utf8 "/link MB-AAAAAAAAAAAA")
unfolding extract_max_link_input is_positive trim_space
extracted = refl

parsed : parse_link_command same (utf8 "/link MB-AAAAAAAAAAAA") ≡ some raw_code
unfolding parse_link_command fields trim_space ◌==ᵗ◌ to_upper is_ascii
parsed = refl

accepted :
    (consume_invite now (hash_code same sha256 pepper raw_code) (database [] (invite ∷ []))).0
    ≡ ok invite
unfolding consume_invite transaction ◌==ᵗ◌ hash_code trim_space to_upper is_ascii
accepted = refl

handle_max_webhook_links_example :
    let (status, s') =
      handle_max_webhook peers same sha256 pepper (utf8 "s") (post link_update) server in
    (status ≡ 204) × IsLinked (pos 7) s'.store.tables ⊎ (status ≡ 500) × (server.store.faults ≢ [])
handle_max_webhook_links_example =
    handle_max_webhook_links peers (pos 7) same sha256 pepper (utf8 "s")
      (utf8 "/link MB-AAAAAAAAAAAA") raw_code (post link_update) server link_update link_message
      invite (refl, refl, refl) refl extracted parsed accepted

abbrev telegram_post : Request TelegramUpdate
telegram_post = post (update_of message)

first_answer : (handle_telegram_webhook peers (utf8 "s") 8 telegram_post server).0 ≡ 200
unfolding handle_telegram_webhook guarded ◌==ᵗ◌ accept_update enqueue_telegram_update transaction
    register chat_for_auto_registration is_telegram_group_chat add_telegram_group ◌==ℤ◌
    route_passes_filter insert_dedupe insert_job
first_answer = refl

handle_telegram_webhook_again_example :
    let (status, s') = handle_telegram_webhook peers (utf8 "s") 8 telegram_post server in
    (handle_telegram_webhook peers
      (utf8 "s")
      8
      telegram_post
      (record s' { world = now + 60 })).1.store.tables.jobs
    ≡ s'.store.tables.jobs
handle_telegram_webhook_again_example =
    handle_telegram_webhook_again peers 8 (utf8 "s") telegram_post server
      (record (handle_telegram_webhook peers (utf8 "s") 8 telegram_post server).1 {
        world = now + 60;
      })
      first_answer (refl, refl, refl)
