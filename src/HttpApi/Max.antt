-- ===== src/HttpApi/Max.antt =====
-- internal/httpapi/server.go: handleMaxWebhook, which links a user who sends an invite code.
pub mod Links
pub mod Linked
use maxbridge.Prelude.{
  ◌⊎◌, ℕ, suc, inl, inr, true, not, Option, none, some, List, [], ◌∷◌, if◌then◌else◌, take, ℤ,
  is_positive,
}
use maxbridge.Text.{Text, utf8, ◌==ᵗ◌, is_empty, trim_space}
use maxbridge.Text.Decimal.{parse_int}
use maxbridge.Domain.{MaxWebhookUpdate, MaxWebhookMessage, MaxWebhookBody}
use maxbridge.Routing.{route_filter_all}
use maxbridge.Storage.Tables.{Metadata, Invite}
use maxbridge.Storage.Database.{Result, ok, err, Exec}
use maxbridge.Storage.Invites.{consume_invite}
use maxbridge.Storage.Accounts.{upsert_linked_user, update_max_user_delivery_status}
use maxbridge.Storage.Routes.{create_route, clone_route_to_user}
use maxbridge.MaxApi.{SendError, error_text}
use maxbridge.InviteService.{parse_link_command, hash_code}
use maxbridge.HttpApi.{
  Request, ServerState, Peers, guarded, count_invalid_webhook, count_db_error, call,
}

abbrev body_text : Option MaxWebhookBody → Text
body_text none = []
body_text (some body) = trim_space body.text

-- The sender and the text of a message, where there are both.
unfoldable pub extract_max_link_input : MaxWebhookMessage → Option (ℤ × Text)
extract_max_link_input message =
    let text = trim_space message.text in
    let other = body_text message.body in
    if not (is_positive message.sender.user_id)
    then none
    else if not (is_empty text)
    then some (message.sender.user_id, text)
    else if not (is_empty other)
    then some (message.sender.user_id, other)
    else none

-- The first 500 bytes of the trimmed text.
abbrev pub cut_text : SendError → Text
cut_text e = take 500 (trim_space (error_text e))

-- fmt.Sprintf("%v", metadata[key])
lookup : Text → Metadata → Text
lookup key [] = utf8 "<nil>"
lookup key (entry ∷ rest) =
    let later = lookup key rest in if entry.0 ==ᵗ key then entry.1 else later

unfoldable pub invite_name : Metadata → Text
unfolding lookup
invite_name metadata =
    let name = trim_space (lookup (utf8 "max_full_name") metadata) in
    if name ==ᵗ utf8 "<nil>" then [] else name

abbrev pub test_text : Text
test_text = utf8 "Bridge link success. Тестовая доставка активирована."

module _ {W : Type 0} (peers : Peers W) where
  abbrev ignore {ℓ} : {A : Type ℓ} → Exec A → ServerState W → ServerState W
  ignore action s = (call peers action s).1

  abbrev count_ignored : ServerState W → ServerState W
  count_ignored s = record s {
    metrics = record s.metrics { invalid_links_ignored = suc s.metrics.invalid_links_ignored };
  }

  abbrev open_route : Option ℤ → ℤ → ServerState W → ServerState W
  open_route none user_id s = s
  open_route (some chat_id) user_id s =
      ignore (create_route chat_id user_id route_filter_all true) s

  abbrev copy_route : Option ℤ → ℤ → ServerState W → ServerState W
  copy_route none user_id s = s
  copy_route (some route_id) user_id s = ignore (clone_route_to_user route_id user_id) s

  -- The routes that the scope of the invite asks for.
  unfoldable pub apply_scope : Invite → ℤ → ServerState W → ServerState W
  apply_scope inv user_id s =
      let s' =
        if inv.scope_type ==ᵗ utf8 "group"
        then open_route (parse_int inv.scope_id) user_id s
        else s in
      if inv.scope_type ==ᵗ utf8 "route" then copy_route (parse_int inv.scope_id) user_id s' else s'

  abbrev report_test : Option SendError → ℤ → ServerState W → ServerState W
  report_test none user_id s =
      ignore (update_max_user_delivery_status user_id (utf8 "success") []) s
  report_test (some e) user_id s =
      ignore (update_max_user_delivery_status user_id (utf8 "temporary_error") (cut_text e)) s

  -- The test message to the new user.
  unfoldable pub send_test : ℤ → ServerState W → ServerState W
  send_test user_id s =
      let (reply, w) = peers.send_message user_id test_text s.world in
      let s' = report_test reply user_id (record s { world = w }) in
      record s' {
        metrics = record s'.metrics { successful_links = suc s'.metrics.successful_links };
      }

  -- After UpsertLinkedUser.
  abbrev pub finish_link : Invite → ℤ → Result ℤ → ServerState W → ℕ × ServerState W
  finish_link inv user_id (err e) s = (500, count_db_error s)
  finish_link inv user_id (ok id) s = (204, send_test user_id (apply_scope inv user_id s))

  -- After ConsumeInvite.
  unfoldable pub link_user : ℤ → Result Invite → ServerState W → ℕ × ServerState W
  link_user user_id (err e) s = (204, count_ignored s)
  link_user user_id (ok inv) s =
      let (r, s') = call peers (upsert_linked_user user_id (invite_name inv.metadata)) s in
      finish_link inv user_id r s'

  module _ (unicode_upper : Text → Text) (sha256 : Text → List ℕ) (pepper : Text) where
    abbrev pub after_parse : ℤ → Option Text → ServerState W → ℕ × ServerState W
    after_parse user_id none s = (204, count_ignored s)
    after_parse user_id (some code) s =
        let hash = hash_code unicode_upper sha256 pepper code in
        let (r, s') = call peers (consume_invite (peers.clock s.world) hash) s in
        link_user user_id r s'

    -- The branch of a text from a user.
    unfoldable pub try_link : ℤ → Text → ServerState W → ℕ × ServerState W
    try_link user_id text s = after_parse user_id (parse_link_command unicode_upper text) s

    abbrev pub accept_input : Option (ℤ × Text) → ServerState W → ℕ × ServerState W
    accept_input none s = (204, count_ignored s)
    accept_input (some (user_id, text)) s = try_link user_id text s

    unfoldable pub accept_message : Option MaxWebhookMessage → ServerState W → ℕ × ServerState W
    accept_message none s = (204, s)
    accept_message (some message) s = accept_input (extract_max_link_input message) s

    abbrev pub after_guard : ℕ ⊎ MaxWebhookUpdate → ServerState W → ℕ × ServerState W
    after_guard (inl status) s = (status, count_invalid_webhook s)
    after_guard (inr upd) s = accept_message upd.message s

    unfoldable pub handle_max_webhook :
        Text → Request MaxWebhookUpdate → ServerState W → ℕ × ServerState W
    handle_max_webhook secret request s = after_guard (guarded secret request) s
