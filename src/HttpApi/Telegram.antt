-- ===== src/HttpApi/Telegram.antt =====
-- internal/httpapi/server.go: handleTelegramWebhook.
pub mod Answers
pub mod Redelivery
use maxbridge.Prelude.{
  ◌⊎◌, ℕ, suc, ◌+◌, inl, inr, Bool, ◌||◌, Option, none, some, ◌++◌, if◌then◌else◌,
}
use maxbridge.Text.{Text, utf8, ◌==ᵗ◌, is_empty, trim_space}
use maxbridge.Text.Decimal.{format_int}
use maxbridge.Domain.{TelegramUpdate, TelegramMessage, TelegramChat, TelegramChatMemberUpdated}
use maxbridge.Storage.Database.{Result, ok, err}
use maxbridge.Storage.Accounts.{add_telegram_group}
use maxbridge.Storage.Enqueue.{enqueue_telegram_update}
use maxbridge.HttpApi.{
  Request, ServerState, Peers, guarded, count_invalid_webhook, count_db_error, call,
}

unfoldable pub is_telegram_group_chat : Text → Bool
is_telegram_group_chat chat_type = chat_type ==ᵗ utf8 "group" || chat_type ==ᵗ utf8 "supergroup"

abbrev group_chat : TelegramChat → Option TelegramChat
group_chat chat = if is_telegram_group_chat chat.kind then some chat else none

abbrev message_chat : Option TelegramMessage → Option TelegramChat
message_chat none = none
message_chat (some msg) = group_chat msg.chat

abbrev member_chat : Option TelegramChatMemberUpdated → Option TelegramChat
member_chat none = none
member_chat (some member) = group_chat member.chat

abbrev first : Option TelegramChat → Option TelegramChat → Option TelegramChat
first none rest = rest
first (some chat) rest = some chat

unfoldable pub chat_for_auto_registration : TelegramUpdate → Option TelegramChat
chat_for_auto_registration upd = first (message_chat upd.message) (
    first (message_chat upd.channel_post) (
      first (message_chat upd.edited_message)
        (first (member_chat upd.my_chat_member) (member_chat upd.chat_member))))

abbrev pub group_title : TelegramChat → Text
group_title chat =
    let title = trim_space chat.title in
    if is_empty title then utf8 "Чат " ++ format_int chat.id else title

module _ {W : Type 0} (peers : Peers W) where
  abbrev pub after_register : Result (Unit {0}) → ServerState W → ServerState W
  after_register (ok _) s = s
  after_register (err e) s = count_db_error s

  unfoldable pub register : Option TelegramChat → ServerState W → ServerState W
  register none s = s
  register (some chat) s =
      let (r, s') = call peers (add_telegram_group chat.id (group_title chat)) s in
      after_register r s'

  abbrev pub after_enqueue : Result ℕ → ServerState W → ℕ × ServerState W
  after_enqueue (err e) s = (500, count_db_error s)
  after_enqueue (ok enqueued) s = (
    200,
    record s {
      metrics = record s.metrics {
        telegram_events_enqueued = s.metrics.telegram_events_enqueued + enqueued;
      };
    },
  )

  -- The branch of an authentic update.
  unfoldable pub accept_update : ℕ → TelegramUpdate → ServerState W → ℕ × ServerState W
  accept_update max_retry upd s =
      let counted = record s {
        metrics = record s.metrics { telegram_updates = suc s.metrics.telegram_updates };
      } in
      let s1 = register (chat_for_auto_registration upd) counted in
      let (r, s2) = call peers (enqueue_telegram_update upd max_retry) s1 in after_enqueue r s2

  abbrev pub after_guard : ℕ → ℕ ⊎ TelegramUpdate → ServerState W → ℕ × ServerState W
  after_guard max_retry (inl status) s = (status, count_invalid_webhook s)
  after_guard max_retry (inr upd) s = accept_update max_retry upd s

  unfoldable pub handle_telegram_webhook :
      Text → ℕ → Request TelegramUpdate → ServerState W → ℕ × ServerState W
  handle_telegram_webhook secret max_retry request s =
      after_guard max_retry (guarded secret request) s
