-- ===== src/Tui/Confirmed/Theorem.antt =====
-- internal/tui/model.go: what removes something is confirmed.
use maxbridge.Prelude.{
  ◌≡◌, refl, subst, ◌≢◌, ◌⊎◌, inl, inr, true, false, none, some, [], ◌∷◌, arith, ◌==◌, Bool-cases,
  Option-cases,
}
use Prim.Native.String.{String}
use maxbridge.Text.{Text, utf8, ==ᵗ_iff}
use maxbridge.Storage.Tables.{Time}
use maxbridge.Tui.Menu.{ListEntry, MenuAction}
use maxbridge.Tui.Model.{
  UiMode, mode_sections, mode_rows, mode_actions, mode_form, mode_confirm, mode_route_add_picker,
  Values, section_loaded_msg, action_done_msg, route_add_options_loaded_msg, new_model, Model,
  PendingAction, Key, Msg, key_msg, Cmd, exec_action,
}
use maxbridge.Tui.Steps.{Outcome, pressed}
use maxbridge.Tui.Entry.{update_confirm}
use maxbridge.Tui.Update.{update_mode, update as update_model}
use maxbridge.Tui.Intact.Reachable.{Reachable, start, after}
use maxbridge.Tui.Confirmed.{build_entries-safe, no_action-safe, is_destructive}
use maxbridge.Tui.Confirmed.Keys.{
  IsGuarded, StaysGuarded, nil-safe, update_sections-IsGuarded, update_rows-IsGuarded,
  update_actions-IsGuarded, update_form-IsGuarded, update_route_add_picker-IsGuarded,
}

-- The operator was asked about this action on this entry, and answered with "y", or with "enter"
-- while the marked line was not the second one, "Назад".
pub record IsConfirmed (msg : Msg) (m : Model) (act : MenuAction) (entry : ListEntry) : Type 0 where
  pub key : Key
  pub pending : PendingAction
  pub asked : m.mode ≡ mode_confirm
  pub pressed_key : msg ≡ key_msg key
  pub shown : m.pending ≡ some pending
  pub same_action : pending.action ≡ act
  pub same_entry : pending.entry ≡ entry
  pub answered : (key.name ≡ utf8 "y") ⊎ ((key.name ≡ utf8 "enter") × (m.confirm_index ≢ 1))

-- A step that keeps the menus guarded, and starts nothing destructive that was not confirmed.
abbrev Asks : Msg → Model → Outcome → Type 0
Asks msg m none = Unit {0}
Asks msg m (some (m', exec_action section act entry values)) =
    IsGuarded m' × ((is_destructive act.id ≡ false) ⊎ IsConfirmed msg m act entry)
Asks msg m (some (m', _)) = IsGuarded m'

Asks-of_guarded : (msg : Msg) (m : Model) (o : Outcome) → StaysGuarded o → Asks msg m o
Asks-of_guarded msg m none h = tt
Asks-of_guarded msg m (some (m', exec_action section act entry values)) h = (h.0, inl h.1)
Asks-of_guarded msg m (some (m', Cmd.no_cmd)) h = h.0
Asks-of_guarded msg m (some (m', Cmd.quit)) h = h.0
Asks-of_guarded msg m (some (m', Cmd.load_route_add_options)) h = h.0
Asks-of_guarded msg m (some (m', Cmd.load_section section)) h = h.0

pressed_one : (key : Key) (w : String) → pressed key (w ∷ []) ≡ true → key.name ≡ utf8 w
unfolding pressed
pressed_one key w h = (==ᵗ_iff key.name (utf8 w)).0 (ground (arith, h))

confirmation :
    (key : Key) (m : Model) (p : PendingAction)
    → m.mode ≡ mode_confirm
    → m.pending ≡ some p
    → (key.name ≡ utf8 "y") ⊎ ((key.name ≡ utf8 "enter") × (m.confirm_index ≢ 1))
    → IsConfirmed (key_msg key) m p.action p.entry
confirmation key m p asked shown answer = record {
  key = key;
  pending = p;
  asked = asked;
  pressed_key = refl;
  shown = shown;
  same_action = refl;
  same_entry = refl;
  answered = answer;
}

update_confirm-Asks :
    (key : Key) (m : Model)
    → IsGuarded m
    → m.mode ≡ mode_confirm
    → Asks (key_msg key) m (update_confirm key m)
unfolding update_confirm
update_confirm-Asks key m h e = elim (Option-cases m.pending) [
  | inl nothing ↦ ground (arith, nothing, nil-safe)
  | inr (p, shown) ↦
      let confirmed =
        λ (answer : (key.name ≡ utf8 "y") ⊎ ((key.name ≡ utf8 "enter") × (m.confirm_index ≢ 1))).
          confirmation key m p e shown answer in
      elim (Bool-cases (pressed key ("y" ∷ []))) [
        | inl y ↦ ground (arith, shown, y, confirmed (inl (pressed_one key "y" y)), nil-safe)
        | inr not_y ↦ elim (Bool-cases (m.confirm_index == 1)) [
          | inl back ↦ ground (arith, shown, not_y, back, nil-safe)
          | inr first ↦ elim (Bool-cases (pressed key ("enter" ∷ []))) [
            | inl enter ↦ ground (
              arith,
              shown,
              not_y,
              enter,
              confirmed (inr (pressed_one key "enter" enter, ground (arith, first))),
              nil-safe,
            )
            | inr other ↦ ground (arith, shown, not_y, other, nil-safe)
          ]
        ]
      ]
]

new_model-IsGuarded : IsGuarded new_model
unfolding new_model
new_model-IsGuarded = record {
  rows_safe = nil-safe.0;
  actions_safe = nil-safe.1;
  form_safe = no_action-safe;
}

module _ (format_time : Time → Text) where
  key_mode-Asks :
      (mode : UiMode) (key : Key) (m : Model)
      → m.mode ≡ mode
      → IsGuarded m
      → Asks (key_msg key) m (update_mode format_time mode key m)
  unfolding update_mode
  key_mode-Asks mode_sections key m e h =
      Asks-of_guarded _ m _ (update_sections-IsGuarded format_time m h key)
  key_mode-Asks mode_rows key m e h =
      Asks-of_guarded _ m _ (update_rows-IsGuarded format_time m h key)
  key_mode-Asks mode_actions key m e h =
      Asks-of_guarded _ m _ (update_actions-IsGuarded format_time m h key)
  key_mode-Asks mode_form key m e h = Asks-of_guarded _ m _ (update_form-IsGuarded m h key)
  key_mode-Asks mode_confirm key m e h = update_confirm-Asks key m h e
  key_mode-Asks mode_route_add_picker key m e h =
      Asks-of_guarded _ m _ (update_route_add_picker-IsGuarded m h key)

  update-Asks : (msg : Msg) (m : Model) → IsGuarded m → Asks msg m (update_model format_time msg m)
  unfolding update_model
  update-Asks (key_msg key) m h = ground (arith, key_mode-Asks m.mode key m refl h)
  update-Asks (section_loaded_msg section (inl e)) m h = ground arith
  update-Asks (section_loaded_msg section (inr content)) m h =
      ground (arith, build_entries-safe format_time section content.rows)
  update-Asks (action_done_msg status (some e)) m h = ground arith
  update-Asks (action_done_msg status none) m h = ground arith
  update-Asks (route_add_options_loaded_msg (inl e)) m h = ground arith
  update-Asks (route_add_options_loaded_msg (inr (groups, users))) m h = ground arith

  Asks-IsGuarded :
      (msg : Msg) (m m' : Model) (cmd : Cmd) → Asks msg m (some (m', cmd)) → IsGuarded m'
  Asks-IsGuarded msg m m' (exec_action section act entry values) h = h.0
  Asks-IsGuarded msg m m' Cmd.no_cmd h = h
  Asks-IsGuarded msg m m' Cmd.quit h = h
  Asks-IsGuarded msg m m' Cmd.load_route_add_options h = h
  Asks-IsGuarded msg m m' (Cmd.load_section section) h = h

  Reachable-IsGuarded : {m : Model} → Reachable format_time m → IsGuarded m
  Reachable-IsGuarded start = new_model-IsGuarded
  Reachable-IsGuarded (after {m} {m'} {cmd} msg r e) =
      Asks-IsGuarded msg m m' cmd (subst (Asks msg m) e (update-Asks msg m (Reachable-IsGuarded r)))

  -- In every state that the interface can reach, a message that starts an action which disables a
  -- group or deletes a user, an invite, a route or the completed jobs is the answer to a question:
  -- the interface was asking about that action on that entry, and the operator pressed "y", or
  -- "enter" while the second line, "Назад", was not the marked one.
  pub destructive_action-IsConfirmed :
      {m m' : Model} {section : Text} {act : MenuAction} {entry : ListEntry} {values : Values}
      (msg : Msg)
      → Reachable format_time m
      → update_model format_time msg m ≡ some (m', exec_action section act entry values)
      → is_destructive act.id ≡ true
      → IsConfirmed msg m act entry
  destructive_action-IsConfirmed {m} {act} {entry} msg r e destructive =
      let asked = subst (Asks msg m) e (update-Asks msg m (Reachable-IsGuarded r)) in
      elim asked.1 [ inl harmless ↦ cc | inr confirmed ↦ confirmed ]
