-- ===== src/Tui/Update.antt =====
-- internal/tui/model.go: Update, on every message. Its handlers are those of Tui/Browse and Tui/Entry.
use maxbridge.Prelude.{
  ℕ, ◌-◌, inl, inr, Bool, true, false, ◌&&◌, none, some, List, [], ◌∷◌, ◌++◌, leb, ◌==◌,
  if◌then◌else◌, length,
}
use maxbridge.Text.{Text, utf8, ◌==ᵗ◌, is_empty, trim_space}
use maxbridge.Storage.Tables.{Time}
use maxbridge.Tui.Menu.{ListEntry, row_back, build_entries}
use maxbridge.Tui.Model.{
  UiMode, mode_sections, mode_rows, mode_actions, mode_form, mode_confirm, mode_route_add_picker,
  PickerOption, Model, SectionData, Key, Msg, key_msg, section_loaded_msg, action_done_msg,
  route_add_options_loaded_msg, Cmd, no_cmd, quit, load_section,
}
use maxbridge.Tui.Steps.{Outcome, pressed, stay}
use maxbridge.Tui.Browse.{update_sections, update_rows, update_actions}
use maxbridge.Tui.Entry.{update_form, update_confirm, update_route_add_picker}

abbrev is_only_back : List ListEntry → Bool
is_only_back (e ∷ []) = elim e.kind [ row_back ↦ true | _ ↦ false ]
is_only_back _ = false

abbrev pub content_of : Text → Text → List ListEntry → Text
content_of section content rows =
    let trimmed = trim_space content in
    if is_empty trimmed && is_only_back rows
    then (if section ==ᵗ utf8 "Dashboard"
        then utf8 "Панель пока не вернула данные."
        else utf8 "В этом разделе пока нет данных.")
    else trimmed

abbrev pub clamp : ℕ → ℕ → ℕ
clamp index n = if leb n index then n - 1 else index

-- The part of the status about the users.
abbrev no_users : Text → Text
no_users status =
    (if is_empty status then status else status ++ utf8 " ")
    ++ utf8 "Нет доступных пользователей MAX."

abbrev pub options_status : List PickerOption → List PickerOption → Text → Text
options_status groups users status =
    let after_groups =
      if length groups == 0 then utf8 "Нет доступных групп для маршрута." else status in
    if length users == 0 then no_users after_groups else after_groups

module _ (format_time : Time → Text) where
  unfoldable pub update_mode : UiMode → Key → Model → Outcome
  update_mode mode_sections key m = update_sections key m
  update_mode mode_rows key m = update_rows format_time key m
  update_mode mode_actions key m = update_actions format_time key m
  update_mode mode_form key m = update_form key m
  update_mode mode_confirm key m = update_confirm key m
  update_mode mode_route_add_picker key m = update_route_add_picker key m

  abbrev pub show_section : Text → SectionData → Model → Model
  show_section section content m =
      let rows = build_entries format_time section content.rows in
      record m {
        rows = rows;
        section_content = content_of section content.content rows;
        row_index = clamp m.row_index (length rows);
      }

  abbrev reload : Model → Cmd
  reload m = if is_empty m.current_section then no_cmd else load_section m.current_section

  unfoldable pub update : Msg → Model → Outcome
  unfolding update_mode
  update (key_msg key) m =
      if pressed key ("ctrl+c" ∷ "q" ∷ []) then some (m, quit) else update_mode m.mode key m
  update (section_loaded_msg section (inl e)) m = stay (record m { status = utf8 "ошибка: " ++ e })
  update (section_loaded_msg section (inr content)) m =
      stay (if section ==ᵗ m.current_section then show_section section content m else m)
  update (action_done_msg status (some e)) m =
      let m' = record m { status = utf8 "ошибка действия: " ++ e } in some (m', reload m')
  update (action_done_msg status none) m =
      let m' = record m { status = status } in some (m', reload m')
  update (route_add_options_loaded_msg (inl e)) m =
      stay (record m { status = utf8 "ошибка загрузки списка: " ++ e; mode = mode_rows })
  update (route_add_options_loaded_msg (inr (groups, users))) m = stay (record m {
    route_add = record {
      stage = 0;
      index = 0;
      group_options = groups;
      user_options = users;
      selected_group = none;
    };
    status = options_status groups users m.status;
  })
