-- ===== src/Tests/Terminal.antt =====
-- The theorems on the terminal interface, in the section of the delivery queue.
use maxbridge.Prelude.{◌==ℤ◌, ◌⊎◌, ◌∷◌, ℕ, ◌≡◌, refl, ◌≢◌, inr, true, false, none, some, []}
use Prim.Native.String.{String}
use maxbridge.Text.{Text, utf8, ◌==ᵗ◌}
use maxbridge.Storage.Tables.{Time}
use maxbridge.Tui.Menu.{MenuAction, build_entries, build_section_actions, action_entry, danger}
use maxbridge.Tui.Model.{Model, Msg, key_msg, section_loaded_msg, exec_action, new_model, mode_rows}
use maxbridge.Tui.Steps.{pressed, start_action, open_section, ask_confirmation}
use maxbridge.Tui.Browse.{update_sections, update_rows}
use maxbridge.Tui.Entry.{update_confirm}
use maxbridge.Tui.Update.{update_mode, update as update_model, show_section}
use maxbridge.Storage.Present.{IsPresent, stored_job, is_present}
use maxbridge.Tui.Service.{AdminState}
use maxbridge.Tui.Service.Actions.{run_cmd}
use maxbridge.Tui.Kept.Removal.{IsAskedFor, losses_confirmed}
use maxbridge.Tests.Commands.{outer}
use maxbridge.Tests.Data.{database, finished}
use maxbridge.Tui.View.{view}
use maxbridge.Tui.Intact.Reachable.{Reachable, start, after, Reachable-NeverPanics}

abbrev format_time : Time → Text
format_time t = utf8 "01.02"

abbrev key : String → Msg
key name = key_msg (record { name = utf8 name; is_runes = false })

abbrev queue : Text
queue = utf8 "Delivery Queue"

abbrev clear : MenuAction
clear = danger (utf8 "queue_clear_completed") (utf8 "Очистить завершённые задания")

abbrev at : ℕ → Model
at i = record new_model { index = i }

abbrev opened : Model
opened = open_section queue (at 5)

abbrev loaded : Model
loaded = show_section format_time queue (record { rows = []; content = [] }) opened

abbrev waiting : Model
waiting = ask_confirmation clear (action_entry clear) [] mode_rows loaded

-- "left" marks the last section, and then the one before.
at_5-Reachable : Reachable format_time (at 5)
unfolding update_model update_mode update_sections pressed ◌==ᵗ◌ new_model
at_5-Reachable =
    let at_9 : Reachable format_time (at 9) = after (key "left") start refl in
    let at_8 : Reachable format_time (at 8) = after (key "left") at_9 refl in
    let at_7 : Reachable format_time (at 7) = after (key "left") at_8 refl in
    let at_6 : Reachable format_time (at 6) = after (key "left") at_7 refl in
    after (key "left") at_6 refl

opened-Reachable : Reachable format_time opened
unfolding update_model update_mode update_sections pressed ◌==ᵗ◌ new_model
opened-Reachable = after (key "enter") at_5-Reachable refl

loaded-Reachable : Reachable format_time loaded
unfolding update_model ◌==ᵗ◌ new_model
loaded-Reachable =
    after (section_loaded_msg queue (inr (record { rows = []; content = [] }))) opened-Reachable
      refl

waiting-Reachable : Reachable format_time waiting
unfolding update_model update_mode update_rows pressed ◌==ᵗ◌ new_model start_action build_entries
    build_section_actions
waiting-Reachable = after (key "enter") loaded-Reachable refl

confirmed_one :
    update_model format_time (key "y") waiting
    ≡ some (
      record loaded { pending = none; confirm_index = 0 },
      exec_action queue clear (action_entry clear) [],
    )
unfolding update_model update_mode update_confirm pressed ◌==ᵗ◌ new_model
confirmed_one = refl

Reachable-NeverPanics_example :
    (update_model format_time (key "enter") waiting ≢ none) × (view waiting ≢ none)
Reachable-NeverPanics_example = Reachable-NeverPanics format_time (key "enter") waiting-Reachable

abbrev stored : AdminState (Unit {0})
stored = record { store = database (finished ∷ []) []; world = tt }

finished-IsPresent : IsPresent (stored_job finished.id) stored.store.tables
unfolding is_present ◌==ℤ◌
finished-IsPresent = refl

losses_confirmed_example :
    IsPresent
      (stored_job finished.id)
      (run_cmd outer format_time
        (λ s. true)
        (exec_action queue clear (action_entry clear) [])
        stored).1.store.tables
    ⊎ IsAskedFor outer format_time
        (λ s. true)
        (exec_action queue clear (action_entry clear) [])
        (key "y")
        waiting
losses_confirmed_example =
    losses_confirmed outer format_time (λ s. true) (key "y") waiting-Reachable confirmed_one
      (stored_job finished.id) stored finished-IsPresent
