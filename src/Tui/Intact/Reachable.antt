-- ===== src/Tui/Intact/Reachable.antt =====
-- internal/tui/model.go: the interface as it runs, with the commands whose messages are still to come.
use maxbridge.Tui.Menu.{
  record_entry, build_section_actions, action_entry, back_entry, FormField, build_entries,
}
use maxbridge.Text.{is_empty, Text, utf8}
use maxbridge.Tui.Update.{update_mode, update}
use maxbridge.Storage.Listings.{Row}
use maxbridge.Prelude.{
  ◌<◌, ◌≡◌, refl, subst, ◌≢◌, inl, inr, none, some, List, [], ◌∷◌, ◌++◌, map, arith, if◌then◌else◌,
  length, length-append,
}
use maxbridge.Storage.Tables.{Time}
use maxbridge.Tui.Model.{
  UiMode, mode_sections, mode_rows, mode_actions, mode_form, mode_confirm, mode_route_add_picker,
  Model, Key, Msg, key_msg, section_loaded_msg, action_done_msg, route_add_options_loaded_msg, Cmd,
  new_model,
}
use maxbridge.Tui.View.{view, view_mode, field_lines}
use maxbridge.Tui.Intact.{
  IsIntact, StaysIntact, get_elem?-lt, new_model-IsIntact, update_sections-IsIntact,
  update_rows-IsIntact, update_actions-IsIntact,
}
use maxbridge.Tui.Intact.Entry.{
  update_form-IsIntact, update_confirm-IsIntact, update_route_add_picker-IsIntact,
}

-- The states that any messages in any order lead to: keys, and the replies of commands, which may
-- come late, after the operator has moved on.
pub data Reachable (format_time : Time → Text) : Model → Type 0 where
  start : Reachable format_time new_model
  after :
      {m m' : Model} {cmd : Cmd} (msg : Msg)
      → Reachable format_time m
      → update format_time msg m ≡ some (m', cmd)
      → Reachable format_time m'

module _ (format_time : Time → Text) where
  key_mode-IsIntact :
      (mode : UiMode) (key : Key) (m : Model)
      → m.mode ≡ mode
      → IsIntact m
      → StaysIntact (update_mode format_time mode key m)
  unfolding update_mode
  key_mode-IsIntact mode_sections key m e h = update_sections-IsIntact key m h e
  key_mode-IsIntact mode_rows key m e h = update_rows-IsIntact format_time key m h e
  key_mode-IsIntact mode_actions key m e h = update_actions-IsIntact format_time key m h e
  key_mode-IsIntact mode_form key m e h = update_form-IsIntact key m h e
  key_mode-IsIntact mode_confirm key m e h = update_confirm-IsIntact key m h e
  key_mode-IsIntact mode_route_add_picker key m e h = update_route_add_picker-IsIntact key m h e

  build_entries-some :
      (section : Text) (rows : List Row) → 0 < length (build_entries format_time section rows)
  unfolding build_entries
  build_entries-some section rows =
      let back = back_entry ∷ [] in
      let acts = map action_entry (build_section_actions section) in
      omega (
        arith,
        length-append (map (record_entry format_time section) rows) (acts ++ back),
        length-append acts back,
      )

  update-IsIntact : (msg : Msg) (m : Model) → IsIntact m → StaysIntact (update format_time msg m)
  unfolding update
  update-IsIntact (key_msg key) m h = ground (arith, key_mode-IsIntact m.mode key m refl h)
  update-IsIntact (section_loaded_msg section (inl e)) m h = ground arith
  update-IsIntact (section_loaded_msg section (inr content)) m h =
      ground (arith, build_entries-some section content.rows)
  update-IsIntact (action_done_msg status (some e)) m h = ground arith
  update-IsIntact (action_done_msg status none) m h = ground arith
  update-IsIntact (route_add_options_loaded_msg (inl e)) m h = ground arith
  update-IsIntact (route_add_options_loaded_msg (inr (groups, users))) m h = ground arith

  Reachable-IsIntact : {m : Model} → Reachable format_time m → IsIntact m
  Reachable-IsIntact start = new_model-IsIntact
  Reachable-IsIntact (after {m} {m'} msg r e) =
      subst StaysIntact e (update-IsIntact msg m (Reachable-IsIntact r))

field_lines-some :
    (fs : List FormField) (vs : List Text)
    → length vs ≡ length fs
    → (lines : List (Text × Text)) × (field_lines fs vs ≡ some lines)
unfolding field_lines
field_lines-some [] vs h = ([], refl)
field_lines-some (f ∷ fs) [] h = absurd (omega (arith, h))
field_lines-some (f ∷ fs) (v ∷ vs) h =
    let (lines, e) = field_lines-some fs vs (omega (arith, h)) in
    ((f.label ++ utf8 ": " ++ (if is_empty v then f.placeholder else v), []) ∷ lines, rw e)

view_mode-shown : (mode : UiMode) (m : Model) → m.mode ≡ mode → IsIntact m → view_mode mode m ≢ none
unfolding view_mode
view_mode-shown mode_sections m e h q = cc
view_mode-shown mode_rows m e h q = cc
view_mode-shown mode_actions m e h q =
    let rows : 0 < length m.rows = h.entry_shown (ground (arith, e)) in
    let (entry, got) = get_elem?-lt m.rows m.row_index (omega (arith, rows, h.row_in_range)) in
    ground (arith, got, q)
view_mode-shown mode_form m e h q =
    let (lines, got) = field_lines-some m.form.fields m.form.values h.values_match in
    ground (arith, got, q)
view_mode-shown mode_confirm m e h q = cc
view_mode-shown mode_route_add_picker m e h q = cc

module _ (format_time : Time → Text) where
  -- Whatever keys the operator has pressed, and whatever and whenever the commands have replied,
  -- neither the next message nor the drawing of the screen panics: no index is out of range, and no
  -- nil pointer is followed.
  pub Reachable-NeverPanics :
      {m : Model} (msg : Msg)
      → Reachable format_time m
      → (update format_time msg m ≢ none) × (view m ≢ none)
  unfolding view
  Reachable-NeverPanics {m} msg r =
      let h = Reachable-IsIntact format_time r in
      (
        λ e. subst StaysIntact e (update-IsIntact format_time msg m h),
        λ e. view_mode-shown m.mode m refl h (ground (arith, e)),
      )
