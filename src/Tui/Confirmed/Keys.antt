-- ===== src/Tui/Confirmed/Keys.antt =====
-- internal/tui/model.go: which messages start an action that removes something.
use maxbridge.Prelude.{
  ◌++◌, Option, ◌≡◌, refl, inl, inr, true, false, none, some, [], arith, Option-cases,
}
use maxbridge.Tui.Entry.{
  drop_last, form_values, type_form, erase_form, route_add, enter_form, submit,
  update_route_add_picker, update_form, edit,
}
use maxbridge.Tui.Confirmed.{
  no_action-safe, action-safe, is_destructive, is_safe, all_safe, row_menu-safe, all_entries_safe,
  entry-safe,
}
use maxbridge.Tui.Model.{Values, Model, Key, Cmd, exec_action}
use maxbridge.Tui.Browse.{update_actions, update_sections, update_rows}
use maxbridge.Text.{◌==ᵗ◌, Text}
use maxbridge.Storage.Tables.{Time}
use maxbridge.Tui.Menu.{ListEntry, MenuAction}
use maxbridge.Tui.Steps.{Outcome, get_elem?, start_action}

-- Every destructive action that a menu or a form holds is marked as dangerous.
pub record IsGuarded (m : Model) : Type 0 where
  pub rows_safe : all_entries_safe m.rows ≡ true
  pub actions_safe : all_safe m.actions ≡ true
  pub form_safe : is_safe m.form.action ≡ true

abbrev pub Harmless : Cmd → Type 0
Harmless (exec_action section act entry values) = is_destructive act.id ≡ false
Harmless _ = Unit {0}

-- What holds of a handler's result: the menus stay guarded, and nothing destructive starts.
abbrev pub StaysGuarded : Outcome → Type 0
StaysGuarded none = Unit {0}
StaysGuarded (some r) = IsGuarded r.0 × Harmless r.1

pub nil-safe : (all_entries_safe [] ≡ true) × (all_safe [] ≡ true)
unfolding all_entries_safe all_safe
nil-safe = (refl, refl)

module _ (format_time : Time → Text) (m : Model) (h : IsGuarded m) where
  start_action-IsGuarded :
      (act : MenuAction) (entry : ListEntry)
      → is_safe act ≡ true
      → StaysGuarded (start_action format_time act entry m)
  unfolding start_action is_safe
  start_action-IsGuarded act entry safe = ground (arith, safe, nil-safe)

  pub update_sections-IsGuarded : (key : Key) → StaysGuarded (update_sections key m)
  unfolding update_sections
  update_sections-IsGuarded key = ground (arith, nil-safe)

  pub update_rows-IsGuarded : (key : Key) → StaysGuarded (update_rows format_time key m)
  unfolding update_rows
  update_rows-IsGuarded key = elim (Option-cases (get_elem? m.rows m.row_index)) [
    | inl outside ↦ ground (arith, outside)
    | inr (entry, got) ↦
        let safe = entry-safe m.rows m.row_index h.rows_safe got in
        ground (
          arith,
          got,
          start_action-IsGuarded entry.action entry safe,
          row_menu-safe m.current_section,
        )
  ]

  pub update_actions-IsGuarded : (key : Key) → StaysGuarded (update_actions format_time key m)
  unfolding update_actions
  update_actions-IsGuarded key = elim (Option-cases (get_elem? m.actions m.action_index)) [
    | inl outside ↦ ground (arith, outside, nil-safe)
    | inr (act, got) ↦ elim (Option-cases (get_elem? m.rows m.row_index)) [
      | inl no_row ↦ ground (arith, got, no_row, nil-safe)
      | inr (entry, found) ↦
          let safe = action-safe m.actions m.action_index h.actions_safe got in
          ground (arith, got, found, start_action-IsGuarded act entry safe, nil-safe)
    ]
  ]

module _ (m : Model) (h : IsGuarded m) where
  submit-IsGuarded : (values : Option Values) → StaysGuarded (submit values m)
  unfolding submit is_safe
  submit-IsGuarded none = tt
  submit-IsGuarded (some values) = ground (arith, nil-safe, no_action-safe)

  edit-IsGuarded : (change : Text → Text) (v : Option Text) → StaysGuarded (edit change v m)
  unfolding edit
  edit-IsGuarded change none = tt
  edit-IsGuarded change (some v) = ground arith

  pub update_form-IsGuarded : (key : Key) → StaysGuarded (update_form key m)
  unfolding update_form enter_form erase_form type_form
  update_form-IsGuarded key = ground (
    arith,
    no_action-safe,
    submit-IsGuarded (form_values m.form.fields m.form.values),
    edit-IsGuarded drop_last (get_elem? m.form.values m.form.index),
    edit-IsGuarded (λ (v : Text). v ++ key.name) (get_elem? m.form.values m.form.index),
  )

  route_add-harmless : is_destructive route_add.id ≡ false
  unfolding is_destructive ◌==ᵗ◌
  route_add-harmless = refl

  pub update_route_add_picker-IsGuarded : (key : Key) → StaysGuarded (update_route_add_picker key m)
  unfolding update_route_add_picker
  update_route_add_picker-IsGuarded key = ground (arith, route_add-harmless)
