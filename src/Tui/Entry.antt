-- ===== src/Tui/Entry.antt =====
-- internal/tui/model.go: the keys in a form, in a confirmation and in the picker of a route.
use maxbridge.Prelude.{
  ℕ, suc, ◌+◌, ◌-◌, not, ◌&&◌, Option, none, some, List, [], ◌∷◌, ◌++◌, ltb, leb, ◌==◌,
  if◌then◌else◌, length,
}
use maxbridge.Text.{Text, utf8, trim_space}
use maxbridge.Text.Decimal.{format_int}
use maxbridge.Tui.Menu.{FormField, MenuAction, no_entry, plain}
use maxbridge.Tui.Model.{
  UiMode, mode_rows, Values, PendingAction, PickerOption, Model, Key, exec_action, no_form,
  no_picker, current_options,
}
use maxbridge.Tui.Steps.{Outcome, pressed, get_elem?, set, stay, ask_confirmation, run_action}

-- The form is dropped, and its caller's mode is back.
abbrev pub leave_form : Model → Model
leave_form m = record m { form = no_form; mode = m.form.ret }

abbrev with_value : Text × Text → Option Values → Option Values
with_value entry none = none
with_value entry (some rest) = some (entry ∷ rest)

-- The trimmed value of each field; a field without a value is a panic.
unfoldable pub form_values : List FormField → List Text → Option Values
form_values [] vs = some []
form_values (f ∷ fs) [] = none
form_values (f ∷ fs) (v ∷ vs) = with_value (f.key, trim_space v) (form_values fs vs)

unfoldable pub submit : Option Values → Model → Outcome
submit none m = none
submit (some values) m =
    let act = m.form.action in
    let dropped = record m { form = no_form } in
    if act.dangerous
    then stay (ask_confirmation act m.form.entry values m.form.ret dropped)
    else run_action act m.form.entry values m.form.ret dropped

-- The last byte is cut off.
abbrev pub drop_last : Text → Text
drop_last [] = []
drop_last (c ∷ []) = []
drop_last (c ∷ d ∷ s) = c ∷ drop_last (d ∷ s)

unfoldable pub edit : (Text → Text) → Option Text → Model → Outcome
edit change none m = none
edit change (some v) m =
    stay (record m { form = record m.form { values = set m.form.values m.form.index (change v) } })

abbrev move_form : ℕ → Model → Outcome
move_form i m = stay (record m { form = record m.form { index = i } })

-- case "enter"
unfoldable pub enter_form : Model → Outcome
enter_form m =
    let n = length m.form.fields in
    let index = m.form.index in
    if index == n + 1
    then stay (leave_form m)
    else if ltb 0 n && ltb index (n - 1)
    then move_form (suc index) m
    else if not (index == n)
    then stay m
    else submit (form_values m.form.fields m.form.values) m

-- case "backspace"
unfoldable pub erase_form : Model → Outcome
erase_form m =
    if leb (length m.form.fields) m.form.index
    then stay m
    else edit drop_last (get_elem? m.form.values m.form.index) m

-- default
unfoldable pub type_form : Key → Model → Outcome
type_form key m =
    if key.is_runes && ltb m.form.index (length m.form.fields)
    then edit (λ v. v ++ key.name) (get_elem? m.form.values m.form.index) m
    else stay m

unfoldable pub update_form : Key → Model → Outcome
update_form key m =
    let index = m.form.index in
    if pressed key ("esc" ∷ "left" ∷ "h" ∷ [])
    then stay (leave_form m)
    else if pressed key ("up" ∷ "k" ∷ "shift+tab" ∷ "backtab" ∷ [])
    then (if ltb 0 index then move_form (index - 1) m else stay m)
    else if pressed key ("down" ∷ "j" ∷ "tab" ∷ [])
    then (if ltb index (length m.form.fields + 2 - 1) then move_form (suc index) m else stay m)
    else if pressed key ("enter" ∷ [])
    then enter_form m
    else if pressed key ("backspace" ∷ [])
    then erase_form m
    else type_form key m

abbrev pub back_mode : Option PendingAction → UiMode
back_mode none = mode_rows
back_mode (some p) = p.ret

abbrev confirmed : Option PendingAction → Model → Outcome
confirmed none m = stay (record m { mode = mode_rows })
confirmed (some p) m =
    run_action p.action p.entry p.values p.ret (record m { pending = none; confirm_index = 0 })

-- The branch of "enter", which "y" takes too.
abbrev pub accept : Model → Outcome
accept m =
    if m.confirm_index == 1
    then stay (record m { pending = none; mode = back_mode m.pending })
    else confirmed m.pending m

unfoldable pub update_confirm : Key → Model → Outcome
update_confirm key m =
    if pressed key ("esc" ∷ "left" ∷ "h" ∷ "n" ∷ [])
    then stay (record m { pending = none; mode = back_mode m.pending; confirm_index = 1 })
    else if pressed key ("up" ∷ "k" ∷ [])
    then stay
        (if ltb 0 m.confirm_index then record m { confirm_index = m.confirm_index - 1 } else m)
    else if pressed key ("down" ∷ "j" ∷ "tab" ∷ [])
    then stay
        (if ltb m.confirm_index 1 then record m { confirm_index = suc m.confirm_index } else m)
    else if pressed key ("y" ∷ [])
    then accept (record m { confirm_index = 0 })
    else if pressed key ("enter" ∷ [])
    then accept m
    else stay m

abbrev pub route_add : MenuAction
route_add = plain (utf8 "route_add") (utf8 "Добавить маршрут")

-- One step back in the picker: to the groups, or out of it.
abbrev pub picker_back : Model → Outcome
picker_back m =
    if m.route_add.stage == 1
    then stay (record m { route_add = record m.route_add { stage = 0; index = 0 } })
    else stay (record m { route_add = no_picker; mode = mode_rows })

abbrev add_route : Option PickerOption → PickerOption → Model → Outcome
add_route none user m = none
add_route (some group) user m = some (
  record m { route_add = no_picker; mode = mode_rows },
  exec_action m.current_section route_add no_entry
      ((utf8 "chat_id", format_int group.id) ∷ (utf8 "max_user_id", format_int user.id) ∷ []),
)

abbrev pick : Option PickerOption → Model → Outcome
pick none m = stay m
pick (some selected) m =
    if m.route_add.stage == 0
    then stay (record m {
      route_add = record m.route_add { selected_group = some selected; stage = 1; index = 0 };
    })
    else add_route m.route_add.selected_group selected m

unfoldable pub update_route_add_picker : Key → Model → Outcome
update_route_add_picker key m =
    let options = current_options m.route_add in
    let index = m.route_add.index in
    let move = λ (i : ℕ). stay (record m { route_add = record m.route_add { index = i } }) in
    if pressed key ("esc" ∷ "backspace" ∷ "left" ∷ "h" ∷ [])
    then picker_back m
    else if pressed key ("up" ∷ "k" ∷ [])
    then (if ltb 0 index then move (index - 1) else stay m)
    else if pressed key ("down" ∷ "j" ∷ [])
    then (if ltb index (length options) then move (suc index) else stay m)
    else if pressed key ("enter" ∷ [])
    then (if index == length options then picker_back m else pick (get_elem? options index) m)
    else stay m
