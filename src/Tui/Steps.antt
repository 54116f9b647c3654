-- ===== src/Tui/Steps.antt =====
-- internal/tui/model.go: what the handlers of the keys share, and startAction. `none` is a panic: an
-- index out of range, or a nil pointer followed.
use maxbridge.Prelude.{
  ℕ, zero, suc, Bool, true, false, ◌&&◌, ◌||◌, Option, none, some, List, [], ◌∷◌, map, ltb,
  if◌then◌else◌, length,
}
use Prim.Native.String.{String}
use maxbridge.Text.{Text, utf8, ◌==ᵗ◌, trim_space}
use maxbridge.Storage.Tables.{Time}
use maxbridge.Tui.Rows.{is_given, field_of, show}
use maxbridge.Tui.Menu.{MenuAction, ListEntry}
use maxbridge.Tui.Model.{
  UiMode, mode_rows, mode_actions, mode_form, mode_confirm, mode_route_add_picker, Values, Model,
  Key, Cmd, no_cmd, load_route_add_options, exec_action, no_picker,
}

abbrev pub Outcome : Type 0
Outcome = Option (Model × Cmd)

-- `case "…", "…":`
unfoldable pub pressed : Key → List String → Bool
pressed key [] = false
pressed key (w ∷ ws) = key.name ==ᵗ utf8 w || pressed key ws

module _ {ℓ} {A : Type ℓ} where
  abbrev pub get_elem? : List A → ℕ → Option A
  get_elem? [] i = none
  get_elem? (x ∷ xs) zero = some x
  get_elem? (x ∷ xs) (suc i) = get_elem? xs i

  abbrev pub set : List A → ℕ → A → List A
  set [] i v = []
  set (x ∷ xs) zero v = v ∷ xs
  set (x ∷ xs) (suc i) v = x ∷ set xs i v

abbrev pub stay : Model → Outcome
stay m = some (m, no_cmd)

-- Where the mode the action was started from is modeActions, its list is dropped.
abbrev pub leave_actions : UiMode → Model → Model
leave_actions mode_actions m = record m { actions = []; action_index = 0 }
leave_actions _ m = m

abbrev pub open_section : Text → Model → Model
open_section selected m = record m {
  current_section = selected;
  section_content = utf8 "Загрузка...";
  rows = [];
  row_index = 0;
  actions = [];
  action_index = 0;
  pending = none;
  confirm_index = 0;
  route_add = no_picker;
  status = [];
  mode = mode_rows;
}

abbrev pub ask_confirmation : MenuAction → ListEntry → Values → UiMode → Model → Model
ask_confirmation act entry values ret m = record m {
  pending = some (record { action = act; entry = entry; values = values; ret = ret });
  confirm_index = 0;
  mode = mode_confirm;
}

-- The action runs, from the rows.
abbrev pub run_action : MenuAction → ListEntry → Values → UiMode → Model → Outcome
run_action act entry values ret m = some (
  leave_actions ret (record m { mode = mode_rows }),
  exec_action m.current_section act entry values,
)

abbrev is_rows : UiMode → Bool
is_rows mode_rows = true
is_rows _ = false

abbrev pub rename_id : Text
rename_id = utf8 "user_rename"

module _ (format_time : Time → Text) where
  -- The current name, where there is one, stands in the form of the renaming.
  abbrev pub prefill : Text → ListEntry → List Text → List Text
  prefill id entry [] = []
  prefill id entry (v ∷ vs) =
      let current = trim_space (show format_time (field_of entry.row (utf8 "full_name"))) in
      if id ==ᵗ rename_id && is_given current then current ∷ vs else v ∷ vs

  abbrev pub open_form : MenuAction → ListEntry → Model → Model
  open_form act entry m = record m {
    form = record {
      action = act;
      entry = entry;
      fields = act.fields;
      values = prefill act.id entry (map (λ f. f.default_val) act.fields);
      index = 0;
      ret = m.mode;
    };
    mode = mode_form;
  }

  unfoldable pub start_action : MenuAction → ListEntry → Model → Outcome
  start_action act entry m =
      if act.id ==ᵗ utf8 "route_add" && is_rows m.mode
      then some
          (record m { mode = mode_route_add_picker; route_add = no_picker }, load_route_add_options)
      else if ltb 0 (length act.fields)
      then stay (open_form act entry m)
      else if act.dangerous
      then stay (ask_confirmation act entry [] m.mode m)
      else run_action act entry [] m.mode m
