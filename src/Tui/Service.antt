-- ===== src/Tui/Service.antt =====
-- internal/tui/service.go: the operations of AdminService. A result is the status and, where there is
-- one, the text of the error. Contexts and their timeouts show in the errors of the calls.
pub mod Routes
pub mod Users
pub mod Sections
pub mod Actions
pub mod Commands
use maxbridge.Prelude.{
  ℕ, suc, ◌⊎◌, inl, inr, Bool, true, ◌||◌, Option, none, some, List, [], ◌∷◌, ◌++◌, if◌then◌else◌,
  ℤ,
}
use maxbridge.Text.{Text, utf8, ◌==ᵗ◌, is_empty, trim_space}
use maxbridge.Text.Decimal.{format_int, format_nat}
use maxbridge.Domain.{GroupReadiness, ready, limited, blocked}
use maxbridge.Storage.Tables.{Time}
use maxbridge.Storage.Database.{Db, Exec, Result, ok, err, DbError}
use maxbridge.Storage.Listings.{Value, int, Row, lookup, list_telegram_groups, readiness_text}
use maxbridge.Storage.Accounts.{
  add_telegram_group, update_group_readiness, remove_group, set_user_blocked, remove_user,
  update_max_user_name,
}
use maxbridge.Storage.Routes.{create_route, update_route_state, delete_route}
use maxbridge.Storage.Invites.{revoke_invite}
use maxbridge.Storage.Queue.{retry_job_now}
use maxbridge.Storage.Retention.{clear_old_completed, clear_completed_now}
use maxbridge.Routing.{route_filter_all, route_filter_text_only, route_filter_mentions}
use maxbridge.MaxApi.{SendError, error_text}
use maxbridge.TelegramApi.{TelegramCalls, ProbeResult, probe_group}
use maxbridge.InviteService.{
  CreateInviteInput, CreateInviteOutput, ServiceError, RandomBytes, service_create_invite,
}

-- What the service calls and does not contain.
pub record Outer (W : Type 0) : Type 0 where
  pub database_clock : W → Time
  pub clock : W → Time
  pub random : W → (Text ⊎ RandomBytes) × W
  pub telegram : TelegramCalls W
  pub max_ping : W → Option SendError × W
  pub send_message : ℤ → Text → W → Option SendError × W
  pub unicode_upper : Text → Text
  pub sha256 : Text → List ℕ
  pub pepper : Text
  -- time.ParseDuration, and a time in the format RFC 3339
  pub parse_duration : Text → Option ℤ
  pub rfc3339 : Time → Text
  -- err.Error() of the errors of the database, and of the invite service
  pub db_error_text : DbError → Text
  pub service_error_text : ServiceError → Text
  -- url.URL with the host t.me, the path of a user name and the query startgroup
  pub deep_link : Text → Text → Text

pub record AdminState (W : Type 0) : Type 0 where
  pub store : Db
  pub world : W

abbrev pub Reply : Type 0
Reply = Text × Option Text

abbrev pub done : Text → Reply
done status = (status, none)

abbrev pub refused : Text → Reply
refused e = ([], some e)

abbrev choose : Bool → Text → Text ⊎ Text
choose valid mode = if valid then inr mode else inl (utf8 "некорректный filter_mode")

unfoldable pub normalize_filter_mode : Text → Text ⊎ Text
normalize_filter_mode mode =
    let m = trim_space mode in
    choose (m ==ᵗ route_filter_all || m ==ᵗ route_filter_text_only || m ==ᵗ route_filter_mentions) m

module _ {W : Type 0} (outer : Outer W) where
  abbrev pub Operation : Type 0
  Operation = AdminState W → Reply × AdminState W

  abbrev pub answer : Reply → Operation
  answer reply s = (reply, s)

  -- A call of the store, at the time of the database.
  abbrev pub call {ℓ} : {A : Type ℓ} → Exec A → AdminState W → Result A × AdminState W
  call action s =
      let (r, db) = action (record s.store { now = outer.database_clock s.world }) in
      (r, record s { store = db })

  abbrev pub reply_of {ℓ} : {A : Type ℓ} → (A → Text) → Result A → Reply
  reply_of status (ok a) = done (status a)
  reply_of status (err e) = refused (outer.db_error_text e)

  -- A call, and the status of its success.
  abbrev pub calling {ℓ} : {A : Type ℓ} → Exec A → (A → Text) → Operation
  calling action status s = let (r, s') = call action s in (reply_of status r, s')

  unfoldable pub group_add : ℤ → Text → Operation
  group_add chat_id title =
      let name = trim_space title in
      if is_empty name
      then answer (refused (utf8 "название обязательно"))
      else calling (add_telegram_group chat_id name) (λ _. utf8 "Группа добавлена.")

  abbrev probe : ℤ → AdminState W → (Option Text × ProbeResult) × AdminState W
  probe chat_id s =
      let (r, w) = probe_group outer.telegram chat_id s.world in (r, record s { world = w })

  -- What the probe came to is stored; an error of the store is dropped.
  abbrev pub store_probe : ℤ → Option Text → ProbeResult → AdminState W → AdminState W
  store_probe chat_id (some e) res s = (call (update_group_readiness chat_id blocked e) s).1
  store_probe chat_id none res s =
      (call (update_group_readiness chat_id res.readiness res.reason) s).1

  abbrev probe_text : Option Text → ProbeResult → Text
  probe_text (some e) res = utf8 "Проверка неуспешна: " ++ e
  probe_text none res =
      utf8 "Проверка: " ++ readiness_text res.readiness ++ utf8 ", причина: " ++ res.reason

  unfoldable pub group_probe : ℤ → Operation
  group_probe chat_id s =
      let (r, s') = probe chat_id s in (done (probe_text r.0 r.1), store_probe chat_id r.0 r.1 s')

  abbrev count_probe : Option Text → ℕ → ℕ
  count_probe none n = suc n
  count_probe (some e) n = n

  abbrev pub probe_row : Option Value → ℕ × AdminState W → ℕ × AdminState W
  probe_row (some (int chat_id)) (n, s) =
      let (r, s') = probe chat_id s in (count_probe r.0 n, store_probe chat_id r.0 r.1 s')
  probe_row _ acc = acc

  -- The loop over the groups, with the count of the probes that succeeded.
  unfoldable pub probe_rows : List Row → ℕ × AdminState W → ℕ × AdminState W
  probe_rows [] acc = acc
  probe_rows (row ∷ rows) acc = probe_rows rows (probe_row (lookup (utf8 "chat_id") row) acc)

  abbrev pub probe_listed : Result (List Row) → Operation
  probe_listed (err e) s = (refused (outer.db_error_text e), s)
  probe_listed (ok rows) s =
      let (n, s') = probe_rows rows (0, s) in
      (done (utf8 "Проверка всех групп завершена, успешных проверок: " ++ format_nat n), s')

  unfoldable pub group_probe_all : Operation
  group_probe_all s = let (r, s') = call list_telegram_groups s in probe_listed r s'

  unfoldable pub group_disable : ℤ → Operation
  group_disable chat_id = calling (remove_group chat_id) (λ _. utf8 "Группа отключена.")

  unfoldable pub group_deep_link : Text → Text → Operation
  group_deep_link bot_username payload =
      let bot = trim_space bot_username in
      let start = trim_space payload in
      if is_empty bot || is_empty start
      then answer (refused (utf8 "bot_username и payload обязательны"))
      else answer (done (outer.deep_link bot start))

  abbrev created : Text → ServiceError ⊎ CreateInviteOutput → Reply
  created name (inl e) = refused (outer.service_error_text e)
  created name (inr out) = done (
      utf8 "Инвайт создан: id="
      ++ format_int out.invite_id
      ++ utf8 ", имя="
      ++ name
      ++ utf8 ", истекает="
      ++ outer.rfc3339 out.expires
      ++ utf8 ", raw="
      ++ out.raw_code
      ++ utf8 " (показать один раз)")

  abbrev create_named : Text → Text → ℤ → Text → Operation
  create_named scope_type scope_id ttl name s =
      let (random, w) = outer.random s.world in
      let input : CreateInviteInput = record {
        scope_type = trim_space scope_type;
        scope_id = trim_space scope_id;
        ttl = ttl;
        single_use = true;
        metadata = (utf8 "created_by", utf8 "tui") ∷ (utf8 "max_full_name", name) ∷ [];
      } in
      let db = record s.store { now = outer.database_clock s.world } in
      let (r, db') =
        service_create_invite outer.unicode_upper outer.sha256 outer.pepper (outer.clock s.world)
          random input db in
      (created name r, record { store = db'; world = w })

  abbrev create_lasting : Option ℤ → Text → Text → Text → Operation
  create_lasting none scope_type scope_id name =
      answer (refused (utf8 "некорректный ttl (пример: 24h)"))
  create_lasting (some ttl) scope_type scope_id name =
      if is_empty name
      then answer (refused (utf8 "имя пользователя MAX обязательно"))
      else create_named scope_type scope_id ttl name

  unfoldable pub invite_create : Text → Text → Text → Text → Operation
  invite_create scope_type scope_id ttl_raw max_full_name =
      create_lasting (outer.parse_duration (trim_space ttl_raw)) scope_type scope_id
        (trim_space max_full_name)

  unfoldable pub invite_revoke : ℤ → Operation
  invite_revoke invite_id = calling (revoke_invite invite_id) (λ _. utf8 "Инвайт отозван.")
