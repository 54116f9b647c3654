-- ===== src/Tui/Menu.antt =====
-- internal/tui/model.go: the entries and the actions of the menus.
use maxbridge.Prelude.{
  Bool, true, false, Option, none, some, List, [], ◌∷◌, ◌++◌, map, if◌then◌else◌,
}
use maxbridge.Text.{Text, utf8, ◌==ᵗ◌}
use maxbridge.Storage.Tables.{Time}
use maxbridge.Storage.Listings.{Row}
use maxbridge.Tui.Rows.{format_row_title, format_row_detail}

pub record FormField : Type 0 where
  pub key : Text
  pub label : Text
  pub placeholder : Text
  pub default_val : Text

pub record MenuAction : Type 0 where
  pub id : Text
  pub label : Text
  pub dangerous : Bool
  pub fields : List FormField

pub data RowKind : Type 0 where
  row_record row_section_action row_back : RowKind

-- A row is `none` where the map is nil.
pub record ListEntry : Type 0 where
  pub kind : RowKind
  pub title : Text
  pub detail : Text
  pub row : Option Row
  pub action : MenuAction

abbrev pub back_action_id : Text
back_action_id = utf8 "__back"

-- An action that runs at once, one that is confirmed first, and one that asks for a value.
abbrev pub plain : Text → Text → MenuAction
plain id label = record { id = id; label = label; dangerous = false; fields = [] }

abbrev pub danger : Text → Text → MenuAction
danger id label = record { id = id; label = label; dangerous = true; fields = [] }

abbrev pub asking : Text → Text → FormField → MenuAction
asking id label field = record { id = id; label = label; dangerous = false; fields = field ∷ [] }

-- The zero value of the type.
abbrev pub no_action : MenuAction
no_action = plain [] []

abbrev pub no_entry : ListEntry
no_entry = record { kind = row_record; title = []; detail = []; row = none; action = no_action }

abbrev name_field : Text → FormField
name_field key = record {
  key = key;
  label = utf8 "Имя пользователя MAX";
  placeholder = utf8 "Например: Иван Петров";
  default_val = [];
}

abbrev pub group_actions : List MenuAction
group_actions =
    plain (utf8 "group_probe") (utf8 "Проверить группу")
    ∷ danger (utf8 "group_disable") (utf8 "Отключить группу")
    ∷ []

abbrev pub user_actions : List MenuAction
user_actions =
    plain (utf8 "user_block") (utf8 "Заблокировать пользователя")
    ∷ plain (utf8 "user_unblock") (utf8 "Разблокировать пользователя")
    ∷ asking (utf8 "user_rename") (utf8 "Переименовать") (name_field (utf8 "full_name"))
    ∷ plain (utf8 "user_test") (utf8 "Отправить тест")
    ∷ danger (utf8 "user_remove") (utf8 "Удалить пользователя")
    ∷ []

abbrev pub invite_actions : List MenuAction
invite_actions = danger (utf8 "invite_revoke") (utf8 "Отозвать инвайт") ∷ []

abbrev pub route_actions : List MenuAction
route_actions =
    plain (utf8 "route_pause") (utf8 "Поставить на паузу")
    ∷ plain (utf8 "route_resume") (utf8 "Возобновить")
    ∷ danger (utf8 "route_delete") (utf8 "Удалить маршрут")
    ∷ []

abbrev pub queue_actions : List MenuAction
queue_actions = plain (utf8 "queue_retry") (utf8 "Повторить доставку") ∷ []

unfoldable pub build_row_actions : Text → List MenuAction
build_row_actions section =
    if section ==ᵗ utf8 "Telegram Groups"
    then group_actions
    else if section ==ᵗ utf8 "MAX Users"
    then user_actions
    else if section ==ᵗ utf8 "Invites"
    then invite_actions
    else if section ==ᵗ utf8 "Routes"
    then route_actions
    else if section ==ᵗ utf8 "Delivery Queue"
    then queue_actions
    else []

abbrev pub groups_actions : List MenuAction
groups_actions = plain (utf8 "group_probe_all") (utf8 "Проверить все группы") ∷ []

abbrev pub invites_actions : List MenuAction
invites_actions =
    asking (utf8 "invite_create") (utf8 "Создать инвайт (24ч)") (name_field (utf8 "max_full_name"))
    ∷ []

abbrev pub routes_actions : List MenuAction
routes_actions = plain (utf8 "route_add") (utf8 "Добавить маршрут") ∷ []

abbrev pub jobs_actions : List MenuAction
jobs_actions = danger (utf8 "queue_clear_completed") (utf8 "Очистить завершённые задания") ∷ []

unfoldable pub build_section_actions : Text → List MenuAction
build_section_actions section =
    if section ==ᵗ utf8 "Telegram Groups"
    then groups_actions
    else if section ==ᵗ utf8 "Invites"
    then invites_actions
    else if section ==ᵗ utf8 "Routes"
    then routes_actions
    else if section ==ᵗ utf8 "Delivery Queue"
    then jobs_actions
    else []

unfoldable pub with_back_action : List MenuAction → List MenuAction
with_back_action actions = actions ++ plain back_action_id (utf8 "Назад") ∷ []

abbrev pub action_entry : MenuAction → ListEntry
action_entry act = record {
  kind = row_section_action;
  title = act.label;
  detail = utf8 "действие раздела";
  row = none;
  action = act;
}

abbrev pub back_entry : ListEntry
back_entry = record {
  kind = row_back;
  title = utf8 "Назад";
  detail = utf8 "вернуться в главное меню";
  row = none;
  action = no_action;
}

module _ (format_time : Time → Text) where
  abbrev pub record_entry : Text → Row → ListEntry
  record_entry section row = record {
    kind = row_record;
    title = format_row_title format_time section row;
    detail = format_row_detail format_time section row;
    row = some row;
    action = no_action;
  }

  unfoldable pub build_entries : Text → List Row → List ListEntry
  build_entries section rows =
      map (record_entry section) rows
      ++ (map action_entry (build_section_actions section) ++ back_entry ∷ [])

unfoldable pub section_label : Text → Text
section_label key =
    if key ==ᵗ utf8 "Dashboard"
    then utf8 "Панель"
    else if key ==ᵗ utf8 "Telegram Groups"
    then utf8 "Группы Telegram"
    else if key ==ᵗ utf8 "MAX Users"
    then utf8 "Пользователи MAX"
    else if key ==ᵗ utf8 "Invites"
    then utf8 "Инвайты"
    else if key ==ᵗ utf8 "Routes"
    then utf8 "Маршруты"
    else if key ==ᵗ utf8 "Delivery Queue"
    then utf8 "Очередь доставки"
    else if key ==ᵗ utf8 "Health Checks"
    then utf8 "Проверки"
    else if key ==ᵗ utf8 "Logs"
    then utf8 "Логи"
    else if key ==ᵗ utf8 "Settings"
    then utf8 "Настройки"
    else if key ==ᵗ utf8 "Exit"
    then utf8 "Выход"
    else key
