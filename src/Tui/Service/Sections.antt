-- ===== src/Tui/Service/Sections.antt =====
-- internal/tui/service.go: LoadSection and RenderSection.
use maxbridge.Prelude.{
  ℕ, ◌⊎◌, inl, inr, Bool, true, false, not, List, [], ◌∷◌, ◌++◌, if◌then◌else◌, is_some,
}
use maxbridge.Text.{Text, utf8, ◌==ᵗ◌}
use maxbridge.Text.Decimal.{format_int, format_nat}
use maxbridge.Storage.Tables.{Time}
use maxbridge.Storage.Database.{Exec, Result, ok, err}
use maxbridge.Storage.Stats.{QueueStats, get_queue_stats}
use maxbridge.Storage.Routes.{count_core}
use maxbridge.Storage.Listings.{
  Row, lookup, list_telegram_groups, list_max_users, list_invites, list_routes, list_queue,
  list_recent_events,
}
use maxbridge.Tui.Rows.{show}
use maxbridge.Tui.Model.{SectionData}
use maxbridge.Tui.Service.{Outer, AdminState, call}

abbrev pub of_rows : List Row → SectionData
of_rows rows = record { rows = rows; content = [] }

abbrev pub of_content : Text → SectionData
of_content content = record { rows = []; content = content }

unfoldable pub dashboard_text : ℕ × ℕ × ℕ → QueueStats → Text
dashboard_text (groups, users, routes) queue =
    utf8 "Группы: "
    ++ format_nat groups
    ++ utf8 "\nПользователи MAX: "
    ++ format_nat users
    ++ utf8 "\nМаршруты: "
    ++ format_nat routes
    ++ utf8 "\nГлубина очереди: "
    ++ format_nat queue.pending_depth
    ++ utf8 "\nВ повторе: "
    ++ format_nat queue.retry_depth
    ++ utf8 "\nВ DLQ (dead-letter): "
    ++ format_nat queue.dead_letter_depth
    ++ utf8 "\nВозраст старейшего ожидающего задания: "
    ++ format_int queue.oldest_pending_age
    ++ utf8 "s\n\nПоследние события:\n"

abbrev status_line : Text → Bool → Text → Text
status_line name healthy failure =
    name ++ utf8 ": " ++ (if healthy then utf8 "ОК" else failure) ++ utf8 "\n"

module _ {W : Type 0} (outer : Outer W) (format_time : Time → Text) where
  abbrev pub Load : Type 0
  Load = AdminState W → (Text ⊎ SectionData) × AdminState W

  abbrev loaded {ℓ} : {A : Type ℓ} → (A → SectionData) → Result A → Text ⊎ SectionData
  loaded section (ok a) = inr (section a)
  loaded section (err e) = inl (outer.db_error_text e)

  abbrev pub load_rows : Exec (List Row) → Load
  load_rows action s = let (r, s') = call outer action s in (loaded of_rows r, s')

  pub event_lines : List Row → Text
  event_lines [] = []
  event_lines (e ∷ es) =
      utf8 "- ["
      ++ show format_time (lookup (utf8 "level") e)
      ++ utf8 "] "
      ++ show format_time (lookup (utf8 "source") e)
      ++ utf8 ": "
      ++ show format_time (lookup (utf8 "message") e)
      ++ utf8 "\n"
      ++ event_lines es

  abbrev events_of : Result (List Row) → List Row
  events_of (ok rows) = rows
  events_of (err e) = []

  abbrev pub with_stats : ℕ × ℕ × ℕ → Result QueueStats → Load
  with_stats counts (err e) s = (inl (outer.db_error_text e), s)
  with_stats counts (ok queue) s =
      let (events, s') = call outer (list_recent_events 8) s in
      (inr (of_content (dashboard_text counts queue ++ event_lines (events_of events))), s')

  abbrev pub with_counts : Result (ℕ × ℕ × ℕ) → Load
  with_counts (err e) s = (inl (outer.db_error_text e), s)
  with_counts (ok counts) s =
      let (queue, s') = call outer get_queue_stats s in with_stats counts queue s'

  unfoldable pub load_dashboard : Load
  unfolding event_lines
  load_dashboard s = let (counts, s') = call outer count_core s in with_counts counts s'

  abbrev is_reached {ℓ κ} : {A : Type ℓ} {B : Type κ} → A ⊎ B → Bool
  is_reached (inl e) = false
  is_reached (inr b) = true

  -- `db_ping` is the answer of the pool's Ping.
  unfoldable pub load_health : Bool → Load
  load_health db_ping s =
      let (me, w) = outer.telegram.get_me s.world in
      let (e, w') = outer.max_ping w in
      let content =
        status_line (utf8 "БД") db_ping (utf8 "ОШИБКА")
        ++ status_line (utf8 "Telegram API") (is_reached me) (utf8 "ДЕГРАДИРОВАНО")
        ++ status_line (utf8 "MAX API") (not (is_some e)) (utf8 "ДЕГРАДИРОВАНО") in
      (inr (of_content content), record s { world = w' })

  abbrev pub settings_text : Text
  settings_text =
      utf8
        "Настройки управляются env/secrets файлами и Ansible.\nПараметры см. в docs/operations.md."

  unfoldable pub load_section : (AdminState W → Bool) → Text → Load
  load_section ping section s =
      if section ==ᵗ utf8 "Dashboard"
      then load_dashboard s
      else if section ==ᵗ utf8 "Telegram Groups"
      then load_rows list_telegram_groups s
      else if section ==ᵗ utf8 "MAX Users"
      then load_rows list_max_users s
      else if section ==ᵗ utf8 "Invites"
      then load_rows list_invites s
      else if section ==ᵗ utf8 "Routes"
      then load_rows list_routes s
      else if section ==ᵗ utf8 "Delivery Queue"
      then load_rows (list_queue [] 200) s
      else if section ==ᵗ utf8 "Health Checks"
      then load_health (ping s) s
      else if section ==ᵗ utf8 "Logs"
      then load_rows (list_recent_events 100) s
      else if section ==ᵗ utf8 "Settings"
      then (inr (of_content settings_text), s)
      else (inr (of_content []), s)
