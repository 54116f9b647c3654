-- ===== src/Tui/Browse.antt =====
-- internal/tui/model.go: the keys in the list of sections, among the rows and among their actions.
use maxbridge.Tui.Steps.{get_elem?, start_action, pressed, stay, open_section, Outcome}
use maxbridge.Prelude.{suc, ◌-◌, ◌%◌, Option, none, some, [], ◌∷◌, ltb, ◌==◌, if◌then◌else◌, length}
use maxbridge.Text.{Text, utf8, ◌==ᵗ◌}
use maxbridge.Storage.Tables.{Time}
use maxbridge.Tui.Menu.{
  MenuAction, ListEntry, RowKind, row_record, row_section_action, row_back, back_action_id,
  with_back_action, build_row_actions,
}
use maxbridge.Tui.Model.{mode_sections, mode_rows, mode_actions, Model, Key, quit, load_section}

abbrev enter_section : Option Text → Model → Outcome
enter_section none m = none
enter_section (some selected) m =
    if selected ==ᵗ utf8 "Exit"
    then some (m, quit)
    else some (open_section selected m, load_section selected)

unfoldable pub update_sections : Key → Model → Outcome
update_sections key m =
    let n = length m.sections in
    if pressed key ("up" ∷ "k" ∷ [])
    then stay (if ltb 0 m.index then record m { index = m.index - 1 } else m)
    else if pressed key ("down" ∷ "j" ∷ [])
    then stay (if ltb m.index (n - 1) then record m { index = suc m.index } else m)
    else if pressed key ("tab" ∷ "right" ∷ "l" ∷ [])
    then (if n == 0 then none else stay (record m { index = suc m.index % n }))
    else if pressed key ("left" ∷ "h" ∷ [])
    then stay (record m { index = if m.index == 0 then n - 1 else m.index - 1 })
    else if pressed key ("enter" ∷ [])
    then enter_section (get_elem? m.sections m.index) m
    else stay m

abbrev pub close_actions : Model → Model
close_actions m = record m { mode = mode_rows; actions = []; action_index = 0 }

module _ (format_time : Time → Text) where
  abbrev choose_kind : RowKind → ListEntry → Model → Outcome
  choose_kind row_back selected m = stay (record m { mode = mode_sections })
  choose_kind row_section_action selected m = start_action format_time selected.action selected m
  choose_kind row_record selected m = stay (record m {
    actions = with_back_action (build_row_actions m.current_section);
    action_index = 0;
    mode = mode_actions;
  })

  abbrev choose_row : Option ListEntry → Model → Outcome
  choose_row none m = none
  choose_row (some selected) m = choose_kind selected.kind selected m

  unfoldable pub update_rows : Key → Model → Outcome
  update_rows key m =
      if pressed key ("esc" ∷ "backspace" ∷ "left" ∷ "h" ∷ [])
      then stay (record m { mode = mode_sections })
      else if pressed key ("up" ∷ "k" ∷ [])
      then stay (if ltb 0 m.row_index then record m { row_index = m.row_index - 1 } else m)
      else if pressed key ("down" ∷ "j" ∷ [])
      then stay (
          if ltb m.row_index (length m.rows - 1)
          then record m { row_index = suc m.row_index }
          else m)
      else if pressed key ("r" ∷ [])
      then some (m, load_section m.current_section)
      else if pressed key ("enter" ∷ [])
      then (if length m.rows == 0
          then stay (record m { status = utf8 "в этом разделе нет пунктов" })
          else choose_row (get_elem? m.rows m.row_index) m)
      else stay m

  abbrev start_on : MenuAction → Option ListEntry → Model → Outcome
  start_on act none m = none
  start_on act (some entry) m = start_action format_time act entry m

  abbrev choose_action : Option MenuAction → Model → Outcome
  choose_action none m = none
  choose_action (some act) m =
      if act.id ==ᵗ back_action_id
      then stay (close_actions m)
      else start_on act (get_elem? m.rows m.row_index) m

  unfoldable pub update_actions : Key → Model → Outcome
  update_actions key m =
      if pressed key ("esc" ∷ "backspace" ∷ "left" ∷ "h" ∷ [])
      then stay (close_actions m)
      else if pressed key ("up" ∷ "k" ∷ [])
      then stay (if ltb 0 m.action_index then record m { action_index = m.action_index - 1 } else m)
      else if pressed key ("down" ∷ "j" ∷ [])
      then stay (
          if ltb m.action_index (length m.actions - 1)
          then record m { action_index = suc m.action_index }
          else m)
      else if pressed key ("enter" ∷ [])
      then (if length m.actions == 0
          then stay m
          else choose_action (get_elem? m.actions m.action_index) m)
      else stay m
