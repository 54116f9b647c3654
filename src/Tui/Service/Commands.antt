-- ===== src/Tui/Service/Commands.antt =====
-- internal/tui/service.go: Exec, the command line of the operators.
pub mod Documented
use maxbridge.Prelude.{Bool, true, false, Option, none, some, List, [], ◌∷◌, if◌then◌else◌, any, ℤ}
use maxbridge.Text.{Text, utf8, ◌==ᵗ◌, join, trim_space}
use maxbridge.Text.Decimal.{parse_int}
use maxbridge.Text.Fields.{fields}
use maxbridge.Tui.Service.{
  Outer, AdminState, Operation, answer, done, group_add, group_probe, group_probe_all,
  group_disable, group_deep_link, invite_create, invite_revoke,
}
use maxbridge.Tui.Service.Routes.{
  route_add, route_pause, route_resume, route_delete, queue_retry, queue_clear_completed,
}
use maxbridge.Tui.Service.Users.{user_block, user_unblock, user_remove, user_test, user_rename}

-- strconv.ParseBool
unfoldable pub parse_bool : Text → Option Bool
parse_bool s =
    if any (λ t. s ==ᵗ t)
      (utf8 "1" ∷ utf8 "t" ∷ utf8 "T" ∷ utf8 "TRUE" ∷ utf8 "true" ∷ utf8 "True" ∷ [])
    then some true
    else if any (λ t. s ==ᵗ t)
        (utf8 "0" ∷ utf8 "f" ∷ utf8 "F" ∷ utf8 "FALSE" ∷ utf8 "false" ∷ utf8 "False" ∷ [])
    then some false
    else none

abbrev pub help_text : Text
help_text =
    utf8
      "Справка (устаревший командный режим):\n\ngroup add <chat_id> <title>\ngroup probe <chat_id>\ngroup probeall now\ngroup remove <chat_id>\ngroup deeplink <bot_username> <payload>\n\ninvite create <group|route|entity> <scope_id> <ttl> <имя_пользователя_MAX>\ninvite revoke <invite_id>\n\nroute add <chat_id> <max_user_id> <all|text_only|mentions_only> <ignore_bots:true|false>\nroute pause <route_id>\nroute resume <route_id>\nroute delete <route_id>\n\nuser block <max_user_id>\nuser unblock <max_user_id>\nuser remove <max_user_id>\nuser test <max_user_id>\nuser rename <max_user_id> <имя>\n\nqueue retry <job_id>\nqueue clear-completed <days>"

module _ {W : Type 0} (outer : Outer W) where
  abbrev pub usage : Text → Operation outer
  usage text = answer outer (done text)

  -- An operation on a number, or what is said where it is none.
  abbrev pub on_number : Option ℤ → Text → (ℤ → Operation outer) → Operation outer
  on_number none text op = usage text
  on_number (some n) text op = op n

  abbrev pub on_bool : Option Bool → Text → (Bool → Operation outer) → Operation outer
  on_bool none text op = usage text
  on_bool (some b) text op = op b

  abbrev bad_chat_id : Text
  bad_chat_id = utf8 "Некорректный chat_id."

  -- The parts from the third on, of which there is one at least.
  abbrev group_add_command : Text → List Text → Operation outer
  group_add_command chat [] = usage (utf8 "Использование: group add <chat_id> <title>")
  group_add_command chat (t ∷ ts) =
      on_number (parse_int chat) bad_chat_id (λ id. group_add outer id (join (t ∷ ts) (utf8 " ")))

  abbrev deep_link_command : Text → List Text → Operation outer
  deep_link_command bot [] = usage (utf8 "Использование: group deeplink <bot_username> <payload>")
  deep_link_command bot (payload ∷ _) = group_deep_link outer bot payload

  unfoldable pub exec_group : List Text → Operation outer
  exec_group (_ ∷ sub ∷ arg ∷ more) =
      if sub ==ᵗ utf8 "add"
      then group_add_command arg more
      else if sub ==ᵗ utf8 "probe"
      then on_number (parse_int arg) bad_chat_id (group_probe outer)
      else if sub ==ᵗ utf8 "probeall"
      then group_probe_all outer
      else if sub ==ᵗ utf8 "remove"
      then on_number (parse_int arg) bad_chat_id (group_disable outer)
      else if sub ==ᵗ utf8 "deeplink"
      then deep_link_command arg more
      else usage (utf8 "Неизвестная подкоманда group.")
  exec_group _ = usage (utf8 "Использование: group <add|probe|probeall|remove|deeplink> ...")

  abbrev invite_create_command : Text → List Text → Operation outer
  invite_create_command scope (id ∷ ttl ∷ name ∷ names) =
      invite_create outer scope id ttl (join (name ∷ names) (utf8 " "))
  invite_create_command scope _ = usage (
      utf8
        "Использование: invite create <group|route|entity> <scope_id> <ttl> <имя_пользователя_MAX>")

  unfoldable pub exec_invite : List Text → Operation outer
  exec_invite (_ ∷ sub ∷ arg ∷ more) =
      if sub ==ᵗ utf8 "create"
      then invite_create_command arg more
      else if sub ==ᵗ utf8 "revoke"
      then on_number (parse_int arg) (utf8 "Некорректный invite_id.") (invite_revoke outer)
      else usage (utf8 "Неизвестная подкоманда invite.")
  exec_invite _ = usage (utf8 "Использование: invite <create|revoke> ...")

  abbrev route_add_command : Text → List Text → Operation outer
  route_add_command chat (user ∷ mode ∷ ignore ∷ _) =
      on_number (parse_int chat) bad_chat_id (λ chat_id.
        on_number (parse_int user) (utf8 "Некорректный max_user_id.") (λ user_id.
          on_bool (parse_bool ignore) (utf8 "Некорректный ignore_bots.")
            (λ ignore_bots. route_add outer chat_id user_id mode ignore_bots)))
  route_add_command chat _ = usage (
      utf8
        "Использование: route add <chat_id> <max_user_id> <all|text_only|mentions_only> <ignore_bots:true|false>")

  unfoldable pub exec_route : List Text → Operation outer
  exec_route (_ ∷ sub ∷ arg ∷ more) =
      let bad_id = utf8 "Некорректный route_id." in
      if sub ==ᵗ utf8 "add"
      then route_add_command arg more
      else if sub ==ᵗ utf8 "pause"
      then on_number (parse_int arg) bad_id (route_pause outer)
      else if sub ==ᵗ utf8 "resume"
      then on_number (parse_int arg) bad_id (route_resume outer)
      else if sub ==ᵗ utf8 "delete"
      then on_number (parse_int arg) bad_id (route_delete outer)
      else usage (utf8 "Неизвестная подкоманда route.")
  exec_route _ = usage (utf8 "Использование: route <add|pause|resume|delete> ...")

  -- strconv.Atoi reads a 64-bit number as ParseInt does.
  unfoldable pub exec_queue : List Text → Operation outer
  exec_queue (_ ∷ sub ∷ arg ∷ more) =
      if sub ==ᵗ utf8 "retry"
      then on_number (parse_int arg) (utf8 "Некорректный job_id.") (queue_retry outer)
      else if sub ==ᵗ utf8 "clear-completed"
      then on_number (parse_int arg) (utf8 "Некорректное значение days.")
          (queue_clear_completed outer)
      else usage (utf8 "Неизвестная подкоманда queue.")
  exec_queue _ = usage (utf8 "Использование: queue <retry|clear-completed> ...")

  abbrev rename_command : List Text → ℤ → Operation outer
  rename_command [] id = usage (utf8 "Использование: user rename <max_user_id> <имя>")
  rename_command (name ∷ names) id = user_rename outer id (join (name ∷ names) (utf8 " "))

  abbrev user_command : Text → List Text → ℤ → Operation outer
  user_command sub more id =
      if sub ==ᵗ utf8 "block"
      then user_block outer id
      else if sub ==ᵗ utf8 "unblock"
      then user_unblock outer id
      else if sub ==ᵗ utf8 "remove"
      then user_remove outer id
      else if sub ==ᵗ utf8 "test"
      then user_test outer id
      else if sub ==ᵗ utf8 "rename"
      then rename_command more id
      else usage (utf8 "Неизвестная подкоманда user.")

  unfoldable pub exec_user : List Text → Operation outer
  exec_user (_ ∷ sub ∷ arg ∷ more) =
      on_number (parse_int arg) (utf8 "Некорректный max_user_id.") (user_command sub more)
  exec_user _ = usage (utf8 "Использование: user <block|unblock|remove|test|rename> ...")

  unfoldable pub exec_parts : List Text → Operation outer
  exec_parts [] = answer outer (done [])
  exec_parts (command ∷ more) =
      if command ==ᵗ utf8 "help"
      then usage help_text
      else if command ==ᵗ utf8 "group"
      then exec_group (command ∷ more)
      else if command ==ᵗ utf8 "invite"
      then exec_invite (command ∷ more)
      else if command ==ᵗ utf8 "route"
      then exec_route (command ∷ more)
      else if command ==ᵗ utf8 "queue"
      then exec_queue (command ∷ more)
      else if command ==ᵗ utf8 "user"
      then exec_user (command ∷ more)
      else usage (utf8 "Неизвестная команда, используйте help.")

  unfoldable pub exec : Text → Operation outer
  exec raw = exec_parts (fields (trim_space raw))
