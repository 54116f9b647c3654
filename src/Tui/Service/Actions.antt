-- ===== src/Tui/Service/Actions.antt =====
-- internal/tui/model.go: executeAction, and what the commands of the interface do with the service.
-- The service is set, as cmd/tui sets it.
use maxbridge.Prelude.{
  ◌⊎◌, inl, inr, Bool, true, Option, none, some, List, [], ◌∷◌, ◌++◌, if◌then◌else◌, ℤ,
}
use maxbridge.Text.{Text, utf8, ◌==ᵗ◌}
use maxbridge.Storage.Tables.{Time}
use maxbridge.Storage.Listings.{Row}
use maxbridge.Tui.Rows.{int_from_row, parse_int64}
use maxbridge.Tui.Menu.{ListEntry}
use maxbridge.Tui.Model.{
  Values, SectionData, PickerOption, Msg, section_loaded_msg, action_done_msg,
  route_add_options_loaded_msg, Cmd, no_cmd, quit, load_route_add_options, load_section,
  exec_action, build_group_picker_options, build_user_picker_options,
}
use maxbridge.Tui.Service.{
  Outer, AdminState, Operation, answer, refused, group_add, group_probe, group_probe_all,
  group_disable, invite_create, invite_revoke,
}
use maxbridge.Tui.Service.Routes.{
  route_add, route_pause, route_resume, route_delete, queue_retry, queue_clear_completed_all,
}
use maxbridge.Tui.Service.Users.{user_block, user_unblock, user_remove, user_test, user_rename}
use maxbridge.Tui.Service.Sections.{load_section as load_section_of}

-- `values[key]`
unfoldable pub value_of : Text → Values → Text
value_of key [] = []
value_of key (e ∷ rest) = let later = value_of key rest in if e.0 ==ᵗ key then e.1 else later

module _ {W : Type 0} (outer : Outer W) where
  -- An operation on an id, or the error of reading it.
  abbrev pub on_id : Text ⊎ ℤ → (ℤ → Operation outer) → Operation outer
  on_id (inl e) op = answer outer (refused e)
  on_id (inr id) op = op id

  -- The same with the error's text replaced.
  abbrev pub picked : Text → Text ⊎ ℤ → (ℤ → Operation outer) → Operation outer
  picked e (inl _) op = answer outer (refused e)
  picked e (inr id) op = op id

  unfoldable pub execute_action : Text → Text → ListEntry → Values → Operation outer
  execute_action section action_id entry values =
      let is = λ (id : Text). action_id ==ᵗ id in
      let on = λ (key : Text) (op : ℤ → Operation outer). on_id (int_from_row entry.row key) op in
      if is (utf8 "group_add")
      then on_id (parse_int64 (value_of (utf8 "chat_id") values) (utf8 "chat_id"))
          (λ id. group_add outer id (value_of (utf8 "title") values))
      else if is (utf8 "group_probe_all")
      then group_probe_all outer
      else if is (utf8 "group_probe")
      then on (utf8 "chat_id") (group_probe outer)
      else if is (utf8 "group_disable")
      then on (utf8 "chat_id") (group_disable outer)
      else if is (utf8 "invite_create")
      then invite_create outer (utf8 "entity") (utf8 "general") (utf8 "24h")
          (value_of (utf8 "max_full_name") values)
      else if is (utf8 "invite_revoke")
      then on (utf8 "id") (invite_revoke outer)
      else if is (utf8 "route_add")
      then picked (utf8 "выберите группу из списка")
          (parse_int64 (value_of (utf8 "chat_id") values) (utf8 "chat_id"))
          (λ chat_id.
            picked (utf8 "выберите пользователя MAX из списка")
              (parse_int64 (value_of (utf8 "max_user_id") values) (utf8 "max_user_id"))
              (λ user_id. route_add outer chat_id user_id (utf8 "all") true))
      else if is (utf8 "route_pause")
      then on (utf8 "id") (route_pause outer)
      else if is (utf8 "route_resume")
      then on (utf8 "id") (route_resume outer)
      else if is (utf8 "route_delete")
      then on (utf8 "id") (route_delete outer)
      else if is (utf8 "user_block")
      then on (utf8 "max_user_id") (user_block outer)
      else if is (utf8 "user_unblock")
      then on (utf8 "max_user_id") (user_unblock outer)
      else if is (utf8 "user_remove")
      then on (utf8 "max_user_id") (user_remove outer)
      else if is (utf8 "user_test")
      then on (utf8 "max_user_id") (user_test outer)
      else if is (utf8 "user_rename")
      then on (utf8 "max_user_id") (λ id. user_rename outer id (value_of (utf8 "full_name") values))
      else if is (utf8 "queue_retry")
      then on (utf8 "id") (queue_retry outer)
      else if is (utf8 "queue_clear_completed")
      then queue_clear_completed_all outer
      else answer outer
          (refused (utf8 "неизвестное действие для " ++ section ++ utf8 ": " ++ action_id))

  module _ (format_time : Time → Text) (ping : AdminState W → Bool) where
    abbrev pub load : Text → AdminState W → (Text ⊎ SectionData) × AdminState W
    load section s = load_section_of outer format_time ping section s

    abbrev with_users :
        List Row → Text ⊎ SectionData → Text ⊎ (List PickerOption × List PickerOption)
    with_users groups (inl e) = inl e
    with_users groups (inr users) = inr (
      build_group_picker_options format_time groups,
      build_user_picker_options format_time users.rows,
    )

    abbrev pub with_groups : Text ⊎ SectionData → AdminState W → Msg × AdminState W
    with_groups (inl e) s = (route_add_options_loaded_msg (inl e), s)
    with_groups (inr groups) s =
        let (users, s') = load (utf8 "MAX Users") s in
        (route_add_options_loaded_msg (with_users groups.rows users), s')

    -- The message that a command ends with, if it ends with one; the model has its service.
    unfoldable pub run_cmd : Cmd → AdminState W → Option Msg × AdminState W
    run_cmd no_cmd s = (none, s)
    run_cmd quit s = (none, s)
    run_cmd load_route_add_options s =
        let (groups, s') = load (utf8 "Telegram Groups") s in
        let (msg, s'') = with_groups groups s' in (some msg, s'')
    run_cmd (load_section section) s =
        let (loaded, s') = load section s in (some (section_loaded_msg section loaded), s')
    run_cmd (exec_action section act entry values) s =
        let (reply, s') = execute_action section act.id entry values s in
        (some (action_done_msg reply.0 reply.1), s')
