-- ===== src/Tui/View.antt =====
-- internal/tui/model.go: View, the text that the interface shows. `none` is a panic.
use maxbridge.Prelude.{
  ℕ, zero, suc, ◌+◌, Bool, ◌&&◌, Option, none, some, List, [], ◌∷◌, ◌++◌, map, ltb, ◌==◌,
  if◌then◌else◌, length,
}
use maxbridge.Text.{Text, utf8, is_empty, trim_space}
use maxbridge.Text.Decimal.{format_nat}
use maxbridge.Tui.Menu.{FormField, MenuAction, ListEntry, section_label}
use maxbridge.Tui.Model.{
  UiMode, mode_sections, mode_rows, mode_actions, mode_form, mode_confirm, mode_route_add_picker,
  PendingAction, PickerOption, Model, current_options,
}
use maxbridge.Tui.Steps.{get_elem?}

line : Text → Text
line s = s ++ utf8 "\n"

-- `%2d`
two_wide : ℕ → Text
two_wide n = if ltb n 10 then utf8 " " ++ format_nat n else format_nat n

dashes : ℕ → Text
dashes zero = []
dashes (suc n) = utf8 "-" ++ dashes n

unfoldable pub print_menu_line : Bool → ℕ → Text → Text → Text
unfolding line two_wide
print_menu_line selected number title detail =
    let head =
      line ((if selected then utf8 "> " else utf8 "  ") ++ two_wide number ++ utf8 ". " ++ title) in
    if is_empty detail then head else head ++ line (utf8 "     " ++ detail)

-- The lines of a list, numbered from `i` + 1, the one at `index` marked.
menu : ℕ → ℕ → List (Text × Text) → Text
menu index i [] = []
menu index i (e ∷ es) = print_menu_line (i == index) (i + 1) e.0 e.1 ++ menu index (suc i) es

abbrev action_detail : MenuAction → Text
action_detail act = if act.dangerous then utf8 "требует подтверждения" else []

view_sections : Model → Text
unfolding line menu
view_sections m =
    line (utf8 "Главное меню")
    ++ line (utf8 "------------")
    ++ menu m.index 0 (map (λ s. (section_label s, [])) m.sections)
    ++ line []
    ++ line (utf8 "Enter: открыть  |  q: выход")

view_rows : Model → Text
unfolding line menu dashes
view_rows m =
    let no_content = is_empty (trim_space m.section_content) in
    let no_rows = length m.rows == 0 in
    line (section_label m.current_section)
    ++ line (dashes (length (section_label m.current_section)))
    ++ (if no_content then [] else line [] ++ line m.section_content ++ line [])
    ++ (if no_rows && no_content then line (utf8 "<пусто>") else [])
    ++ menu m.row_index 0 (map (λ e. (e.title, e.detail)) m.rows)
    ++ line []
    ++ line (utf8 "Enter: открыть/выбрать  |  r: обновить  |  Esc: назад")

view_actions : Model → Option ListEntry → Option Text
unfolding line menu dashes
view_actions m none = none
view_actions m (some entry) = some (
    line (utf8 "Действия: " ++ section_label m.current_section)
    ++ line (dashes (length (section_label m.current_section) + 10))
    ++ line (utf8 "Объект: " ++ entry.title)
    ++ line []
    ++ menu m.action_index 0 (map (λ a. (a.label, action_detail a)) m.actions)
    ++ line []
    ++ line (utf8 "Enter: выбрать  |  Esc: назад"))

abbrev add_line : Text × Text → Option (List (Text × Text)) → Option (List (Text × Text))
add_line e none = none
add_line e (some es) = some (e ∷ es)

-- The line of each field; a field without a value is a panic.
unfoldable pub field_lines : List FormField → List Text → Option (List (Text × Text))
field_lines [] vs = some []
field_lines (f ∷ fs) [] = none
field_lines (f ∷ fs) (v ∷ vs) =
    add_line (f.label ++ utf8 ": " ++ (if is_empty v then f.placeholder else v), [])
      (field_lines fs vs)

view_form : Model → Option (List (Text × Text)) → Option Text
unfolding line menu dashes
view_form m none = none
view_form m (some lines) =
    let n = length m.form.fields in
    some (
      line (utf8 "Ввод параметров: " ++ m.form.action.label)
      ++ line (dashes (length m.form.action.label + 16))
      ++ line []
      ++ menu m.form.index 0 lines
      ++ print_menu_line (m.form.index == n) (n + 1) (utf8 "Сохранить") (utf8 "выполнить действие")
      ++ print_menu_line (m.form.index == n + 1) (n + 2) (utf8 "Назад")
          (utf8 "вернуться к действиям")
      ++ line []
      ++ line (utf8 "Enter: выбрать пункт"))

view_pending : Option PendingAction → Text
unfolding line
view_pending none = []
view_pending (some p) =
    line (utf8 "Действие: " ++ p.action.label) ++ line (utf8 "Объект: " ++ p.entry.title) ++ line []

view_confirm : Model → Text
unfolding line view_pending
view_confirm m =
    line (utf8 "Подтверждение")
    ++ line (utf8 "------------")
    ++ view_pending m.pending
    ++ print_menu_line (m.confirm_index == 0) 1 (utf8 "Подтвердить") (utf8 "выполнить сейчас")
    ++ print_menu_line (m.confirm_index == 1) 2 (utf8 "Назад") (utf8 "отмена")
    ++ line []
    ++ line (utf8 "Enter: выбрать  |  y: подтвердить")

chosen_group : Option PickerOption → Text
unfolding line
chosen_group none = []
chosen_group (some group) = line (utf8 "Группа: " ++ group.title) ++ line []

view_picker : Model → Text
unfolding line menu chosen_group
view_picker m =
    let options = current_options m.route_add in
    (if m.route_add.stage == 0
      then line (utf8 "Добавить маршрут: выбор группы")
        ++ line (utf8 "-----------------------------")
      else line (utf8 "Добавить маршрут: выбор пользователя MAX")
        ++ line (utf8 "--------------------------------------")
        ++ chosen_group m.route_add.selected_group)
    ++ menu m.route_add.index 0 (map (λ o. (o.title, o.detail)) options)
    ++ print_menu_line (m.route_add.index == length options) (length options + 1) (utf8 "Назад")
        (utf8 "вернуться на предыдущий шаг")
    ++ line []
    ++ line (utf8 "Enter: выбрать  |  Esc: назад")

unfoldable pub view_mode : UiMode → Model → Option Text
unfolding view_sections view_rows view_actions view_form view_confirm view_picker field_lines
view_mode mode_sections m = some (view_sections m)
view_mode mode_rows m = some (view_rows m)
view_mode mode_actions m = view_actions m (get_elem? m.rows m.row_index)
view_mode mode_form m = view_form m (field_lines m.form.fields m.form.values)
view_mode mode_confirm m = some (view_confirm m)
view_mode mode_route_add_picker m = some (view_picker m)

header : Text
unfolding line
header =
    line (utf8 "Операторский интерфейс MAXBridge") ++ line (utf8 "====================") ++ line []

status_line : Text → Text
unfolding line
status_line status = if is_empty status then [] else line [] ++ line (utf8 "Статус: " ++ status)

framed : Model → Option Text → Option Text
unfolding header status_line
framed m none = none
framed m (some shown) = some (header ++ shown ++ status_line m.status)

unfoldable pub view : Model → Option Text
unfolding view_mode framed
view m = framed m (view_mode m.mode m)
