-- ===== src/Tui/Service/Users.antt =====
-- internal/tui/service.go: UserBlock to UserRename.
use maxbridge.Prelude.{true, false, Option, none, some, ◌++◌, if◌then◌else◌, ℤ}
use maxbridge.Text.{Text, utf8, is_empty, trim_space}
use maxbridge.Storage.Accounts.{set_user_blocked, remove_user, update_max_user_name}
use maxbridge.MaxApi.{SendError, error_text}
use maxbridge.Tui.Service.{Outer, Operation, Reply, answer, done, refused, calling}

module _ {W : Type 0} (outer : Outer W) where
  unfoldable pub user_block : ℤ → Operation outer
  user_block max_user_id =
      calling outer (set_user_blocked max_user_id true) (λ _. utf8 "Пользователь заблокирован.")

  unfoldable pub user_unblock : ℤ → Operation outer
  user_unblock max_user_id =
      calling outer (set_user_blocked max_user_id false) (λ _. utf8 "Пользователь разблокирован.")

  unfoldable pub user_remove : ℤ → Operation outer
  user_remove max_user_id =
      calling outer (remove_user max_user_id) (λ _. utf8 "Пользователь удалён.")

  abbrev tested : Option SendError → Reply
  tested none = done (utf8 "Тестовая отправка выполнена успешно.")
  tested (some e) = (utf8 "Тестовая отправка неуспешна.", some (error_text e))

  unfoldable pub user_test : ℤ → Operation outer
  user_test max_user_id s =
      let (reply, w) =
        outer.send_message max_user_id (utf8 "Тестовое сообщение из MaxBridge") s.world in
      (tested reply, record s { world = w })

  unfoldable pub user_rename : ℤ → Text → Operation outer
  user_rename max_user_id full_name =
      let name = trim_space full_name in
      if is_empty name
      then answer outer (refused (utf8 "имя пользователя MAX обязательно"))
      else calling outer (update_max_user_name max_user_id name)
          (λ _. utf8 "Имя пользователя обновлено: " ++ name)
