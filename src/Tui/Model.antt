-- ===== src/Tui/Model.antt =====
-- internal/tui/model.go: the state of the interface, the messages it receives and the commands it
-- gives. Indices are never negative, so they are natural numbers; nil maps and pointers are `none`.
use maxbridge.Prelude.{
  ℕ, ◌⊎◌, inl, inr, Bool, Option, none, some, List, [], ◌∷◌, ◌++◌, ◌==◌, if◌then◌else◌, ℤ,
}
use maxbridge.Text.{Text, utf8}
use maxbridge.Text.Decimal.{format_int}
use maxbridge.Storage.Tables.{Time}
use maxbridge.Storage.Listings.{Row, lookup}
use maxbridge.Tui.Rows.{int_from_row, show, shown, is_given, format_max_user_name}
use maxbridge.Tui.Menu.{FormField, MenuAction, ListEntry, no_action, no_entry}

pub data UiMode : Type 0 where
  mode_sections mode_rows mode_actions mode_form mode_confirm mode_route_add_picker : UiMode

-- The values that a form asked for, by their fields' keys.
abbrev pub Values : Type 0
Values = List (Text × Text)

pub record ActionForm : Type 0 where
  pub action : MenuAction
  pub entry : ListEntry
  pub fields : List FormField
  pub values : List Text
  pub index : ℕ
  pub ret : UiMode

pub record PendingAction : Type 0 where
  pub action : MenuAction
  pub entry : ListEntry
  pub values : Values
  pub ret : UiMode

pub record PickerOption : Type 0 where
  pub id : ℤ
  pub title : Text
  pub detail : Text

pub record RouteAddPicker : Type 0 where
  pub stage : ℕ
  pub index : ℕ
  pub group_options : List PickerOption
  pub user_options : List PickerOption
  pub selected_group : Option PickerOption

pub record Model : Type 0 where
  pub sections : List Text
  pub index : ℕ
  pub mode : UiMode
  pub current_section : Text
  pub section_content : Text
  pub rows : List ListEntry
  pub row_index : ℕ
  pub actions : List MenuAction
  pub action_index : ℕ
  pub form : ActionForm
  pub pending : Option PendingAction
  pub confirm_index : ℕ
  pub route_add : RouteAddPicker
  pub status : Text

pub record SectionData : Type 0 where
  pub rows : List Row
  pub content : Text

-- `String()` of a key, and whether its type is tea.KeyRunes.
pub record Key : Type 0 where
  pub name : Text
  pub is_runes : Bool

-- An error is its text.
pub data Msg : Type 0 where
  key_msg : Key → Msg
  section_loaded_msg : Text → Text ⊎ SectionData → Msg
  action_done_msg : Text → Option Text → Msg
  route_add_options_loaded_msg : Text ⊎ (List PickerOption × List PickerOption) → Msg

pub data Cmd : Type 0 where
  no_cmd quit load_route_add_options : Cmd
  load_section : Text → Cmd
  exec_action : Text → MenuAction → ListEntry → Values → Cmd

abbrev pub no_form : ActionForm
no_form = record {
  action = no_action;
  entry = no_entry;
  fields = [];
  values = [];
  index = 0;
  ret = mode_sections;
}

abbrev pub no_picker : RouteAddPicker
no_picker = record {
  stage = 0;
  index = 0;
  group_options = [];
  user_options = [];
  selected_group = none;
}

unfoldable pub new_model : Model
new_model = record {
  sections =
      utf8 "Dashboard"
      ∷ utf8 "Telegram Groups"
      ∷ utf8 "MAX Users"
      ∷ utf8 "Invites"
      ∷ utf8 "Routes"
      ∷ utf8 "Delivery Queue"
      ∷ utf8 "Health Checks"
      ∷ utf8 "Logs"
      ∷ utf8 "Settings"
      ∷ utf8 "Exit"
      ∷ [];
  index = 0;
  mode = mode_sections;
  current_section = [];
  section_content = [];
  rows = [];
  row_index = 0;
  actions = [];
  action_index = 0;
  form = no_form;
  pending = none;
  confirm_index = 0;
  route_add = no_picker;
  status = [];
}

unfoldable pub current_options : RouteAddPicker → List PickerOption
current_options p = if p.stage == 0 then p.group_options else p.user_options

module _ (format_time : Time → Text) where
  abbrev group_option : Row → ℤ → PickerOption
  group_option row id =
      let title = shown format_time row (utf8 "title") in
      record {
        id = id;
        title = if is_given title then title else utf8 "Чат " ++ format_int id;
        detail =
            utf8 "chat_id="
            ++ format_int id
            ++ utf8 " готовность="
            ++ show format_time (lookup (utf8 "readiness") row);
      }

  abbrev user_option : Row → ℤ → PickerOption
  user_option row id = record {
    id = id;
    title = format_max_user_name format_time row;
    detail =
        utf8 "id="
        ++ format_int id
        ++ utf8 " заблокирован="
        ++ show format_time (lookup (utf8 "blocked") row)
        ++ utf8 " последнее="
        ++ show format_time (lookup (utf8 "last") row);
  }

  abbrev add_option : (ℤ → PickerOption) → Text ⊎ ℤ → List PickerOption → List PickerOption
  add_option option (inl e) options = options
  add_option option (inr id) options = option id ∷ options

  unfoldable pub build_group_picker_options : List Row → List PickerOption
  build_group_picker_options [] = []
  build_group_picker_options (row ∷ rows) =
      add_option (group_option row) (int_from_row (some row) (utf8 "chat_id"))
        (build_group_picker_options rows)

  unfoldable pub build_user_picker_options : List Row → List PickerOption
  build_user_picker_options [] = []
  build_user_picker_options (row ∷ rows) =
      add_option (user_option row) (int_from_row (some row) (utf8 "max_user_id"))
        (build_user_picker_options rows)
