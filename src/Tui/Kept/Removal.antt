-- ===== src/Tui/Kept/Removal.antt =====
-- internal/tui: whatever the interface runs, nothing is lost that the operator has not confirmed.
use maxbridge.Prelude.{refl, ◌≡◌, ◌⊎◌, inl, inr, Bool, some, Bool-cases}
use maxbridge.Text.{Text, utf8}
use maxbridge.Storage.Tables.{Time}
use maxbridge.Storage.Present.{Subject, IsPresent}
use maxbridge.Tui.Menu.{MenuAction, ListEntry}
use maxbridge.Tui.Model.{
  Model, Msg, Cmd, no_cmd, quit, load_route_add_options, load_section, exec_action, SectionData,
  Values,
}
use maxbridge.Tui.Update.{update as update_model}
use maxbridge.Tui.Intact.Reachable.{Reachable}
use maxbridge.Tui.Confirmed.{is_destructive}
use maxbridge.Tui.Confirmed.Theorem.{IsConfirmed, destructive_action-IsConfirmed}
use maxbridge.Tui.Service.{Outer, AdminState}
use maxbridge.Tui.Service.Actions.{run_cmd, load, with_groups}
use maxbridge.Tui.Kept.{Spares}
use maxbridge.Tui.Kept.Actions.{execute_action-Spares}
use maxbridge.Tui.Kept.Loads.{load_section-Spares}

module _ {W : Type 0} (outer : Outer W) (format_time : Time → Text)
    (ping : AdminState W → Bool) where
  with_groups-Spares :
      (groups : Text ⊎ SectionData) → Spares outer (with_groups outer format_time ping groups)
  with_groups-Spares (inl e) subject s h = h
  with_groups-Spares (inr groups) subject s h =
      load_section-Spares outer format_time ping (utf8 "MAX Users") subject s h

  -- The command runs the action and the entry that the operator has confirmed.
  abbrev pub IsAskedFor : Cmd → Msg → Model → Type 0
  IsAskedFor cmd msg m =
      (section : Text) × (act : MenuAction) × (entry : ListEntry) × (values : Values) × (cmd
        ≡ exec_action section act entry values)
      × IsConfirmed msg m act entry

  -- In every state that the interface can reach, the command that a message starts loses nothing
  -- without being asked for: each active user, each enabled group, and each route, invite and job that
  -- is in the database before it runs is there after it, whatever the database and the clients
  -- answer, unless the command runs the action and the entry that the operator has just confirmed.
  -- Whether a route is enabled and whether a user is blocked is no part of this.
  pub losses_confirmed :
      {m m' : Model} {cmd : Cmd} (msg : Msg)
      → Reachable format_time m
      → update_model format_time msg m ≡ some (m', cmd)
      → (subject : Subject) (s : AdminState W) → IsPresent subject s.store.tables
      → IsPresent subject (run_cmd outer format_time ping cmd s).1.store.tables
        ⊎ IsAskedFor cmd msg m
  unfolding run_cmd
  losses_confirmed {cmd = no_cmd} msg r e subject s there = inl there
  losses_confirmed {cmd = quit} msg r e subject s there = inl there
  losses_confirmed {cmd = load_route_add_options} msg r e subject s there =
      let (groups, s') = load outer format_time ping (utf8 "Telegram Groups") s in
      inl (
        with_groups-Spares groups subject s'
          (load_section-Spares outer format_time ping (utf8 "Telegram Groups") subject s there))
  losses_confirmed {cmd = load_section section} msg r e subject s there =
      inl (load_section-Spares outer format_time ping section subject s there)
  losses_confirmed {cmd = exec_action section act entry values} msg r e subject s there =
      elim (Bool-cases (is_destructive act.id)) [
        | inl destructive ↦ inr (
          section,
          act,
          entry,
          values,
          refl,
          destructive_action-IsConfirmed format_time msg r e destructive,
        )
        | inr harmless ↦
            inl (execute_action-Spares outer section act.id entry values harmless subject s there)
      ]
