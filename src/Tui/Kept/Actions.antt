-- ===== src/Tui/Kept/Actions.antt =====
-- internal/tui/model.go: what an action that is not destructive leaves, and what the operator confirms.
use maxbridge.Prelude.{◌≡◌, ◌⊎◌, inl, inr, true, false, arith, ℤ}
use Prim.Native.String.{String}
use maxbridge.Text.{Text, utf8}
use maxbridge.Tui.Menu.{ListEntry}
use maxbridge.Tui.Model.{Values}
use maxbridge.Tui.Rows.{parse_int64, int_from_row}
use maxbridge.Tui.Service.Routes.{route_add, route_pause, route_resume, queue_retry}
use maxbridge.Tui.Service.Users.{user_block, user_unblock, user_test, user_rename}
use maxbridge.Tui.Service.{group_add, group_probe, Outer, Operation, refused}
use maxbridge.Tui.Service.Actions.{value_of, on_id, picked, execute_action}
use maxbridge.Tui.Confirmed.{is_destructive}
use maxbridge.Tui.Kept.{
  Spares, answer-Spares, group_add-Spares, group_probe-Spares, group_probe_all-Spares,
  invite_create-Spares, route_add-Spares, route_pause-Spares, route_resume-Spares,
  queue_retry-Spares, user_block-Spares, user_unblock-Spares, user_test-Spares, user_rename-Spares,
}

module _ {W : Type 0} (outer : Outer W) where
  on_id-Spares :
      (id : Text ⊎ ℤ) (op : ℤ → Operation outer)
      → ((i : ℤ) → Spares outer (op i))
      → Spares outer (on_id outer id op)
  on_id-Spares (inl e) op spares = answer-Spares outer (refused e)
  on_id-Spares (inr id) op spares = spares id

  picked-Spares :
      (e : Text) (id : Text ⊎ ℤ) (op : ℤ → Operation outer)
      → ((i : ℤ) → Spares outer (op i))
      → Spares outer (picked outer e id op)
  picked-Spares e (inl _) op spares = answer-Spares outer (refused e)
  picked-Spares e (inr id) op spares = spares id

  module _ (section action_id : Text) (entry : ListEntry) (values : Values) where
    on_row-Spares :
        (key : Text) (op : ℤ → Operation outer)
        → ((i : ℤ) → Spares outer (op i))
        → Spares outer (on_id outer (int_from_row entry.row key) op)
    on_row-Spares key op spares = on_id-Spares (int_from_row entry.row key) op spares

    -- An action that is not destructive keeps what is there.
    pub execute_action-Spares :
        is_destructive action_id ≡ false
        → Spares outer (execute_action outer section action_id entry values)
    unfolding execute_action is_destructive
    execute_action-Spares harmless subject s h =
        let value = λ (key : String). value_of (utf8 key) values in
        let number = λ (key : String). parse_int64 (value key) (utf8 key) in
        let chat = utf8 "chat_id" in
        let user = utf8 "max_user_id" in
        let id = utf8 "id" in
        let no_group = utf8 "выберите группу из списка" in
        let no_user = utf8 "выберите пользователя MAX из списка" in
        ground (
          arith,
          harmless,
          h,
          on_id-Spares (number "chat_id") (λ i. group_add outer i (value "title"))
              (λ i. group_add-Spares outer i (value "title")) subject s h,
          group_probe_all-Spares outer subject s h,
          on_row-Spares chat (group_probe outer) (group_probe-Spares outer) subject s h,
          invite_create-Spares outer (utf8 "entity") (utf8 "general") (utf8 "24h")
              (value "max_full_name") subject s h,
          picked-Spares no_group (number "chat_id")
              (λ i.
                picked outer no_user (number "max_user_id")
                  (λ u. route_add outer i u (utf8 "all") true))
              (λ i.
                picked-Spares no_user (number "max_user_id")
                  (λ u. route_add outer i u (utf8 "all") true)
                  λ u. route_add-Spares outer i u (utf8 "all") true)
              subject s h,
          on_row-Spares id (route_pause outer) (route_pause-Spares outer) subject s h,
          on_row-Spares id (route_resume outer) (route_resume-Spares outer) subject s h,
          on_row-Spares user (user_block outer) (user_block-Spares outer) subject s h,
          on_row-Spares user (user_unblock outer) (user_unblock-Spares outer) subject s h,
          on_row-Spares user (user_test outer) (user_test-Spares outer) subject s h,
          on_row-Spares user (λ i. user_rename outer i (value "full_name"))
              (λ i. user_rename-Spares outer i (value "full_name")) subject s h,
          on_row-Spares id (queue_retry outer) (queue_retry-Spares outer) subject s h,
        )
