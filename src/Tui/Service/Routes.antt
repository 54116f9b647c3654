-- ===== src/Tui/Service/Routes.antt =====
-- internal/tui/service.go: RouteAdd to RouteDelete, QueueRetry to QueueClearCompletedAll.
use maxbridge.Prelude.{◌⊎◌, inl, inr, Bool, true, false, ◌++◌, ltb, if◌then◌else◌, ℤ, pos, negsuc}
use maxbridge.Text.{Text, utf8}
use maxbridge.Text.Decimal.{format_int, format_nat}
use maxbridge.Storage.Routes.{create_route, update_route_state, delete_route}
use maxbridge.Storage.Queue.{retry_job_now}
use maxbridge.Storage.Retention.{clear_old_completed, clear_completed_now}
use maxbridge.Tui.Service.{Outer, Operation, answer, refused, calling, normalize_filter_mode}

module _ {W : Type 0} (outer : Outer W) where
  abbrev add_with_mode : ℤ → ℤ → Text ⊎ Text → Bool → Operation outer
  add_with_mode chat_id max_user_id (inl e) ignore_bots = answer outer (refused e)
  add_with_mode chat_id max_user_id (inr mode) ignore_bots =
      calling outer (create_route chat_id max_user_id mode ignore_bots)
        (λ id. utf8 "Маршрут создан: id=" ++ format_int id)

  unfoldable pub route_add : ℤ → ℤ → Text → Bool → Operation outer
  route_add chat_id max_user_id filter_mode ignore_bots =
      add_with_mode chat_id max_user_id (normalize_filter_mode filter_mode) ignore_bots

  unfoldable pub route_pause : ℤ → Operation outer
  route_pause route_id =
      calling outer (update_route_state route_id false) (λ _. utf8 "Маршрут поставлен на паузу.")

  unfoldable pub route_resume : ℤ → Operation outer
  route_resume route_id =
      calling outer (update_route_state route_id true) (λ _. utf8 "Маршрут возобновлён.")

  unfoldable pub route_delete : ℤ → Operation outer
  route_delete route_id = calling outer (delete_route route_id) (λ _. utf8 "Маршрут удалён.")

  unfoldable pub queue_retry : ℤ → Operation outer
  queue_retry job_id =
      calling outer (retry_job_now job_id) (λ _. utf8 "Задание поставлено на повтор.")

  unfoldable pub queue_clear_completed : ℤ → Operation outer
  queue_clear_completed (negsuc n) = answer outer (refused (utf8 "значение days должно быть >= 1"))
  queue_clear_completed (pos days) =
      if ltb days 1
      then answer outer (refused (utf8 "значение days должно быть >= 1"))
      else calling outer (clear_old_completed days)
          (λ _. utf8 "Удалены завершённые задания старше " ++ format_nat days ++ utf8 " дн.")

  unfoldable pub queue_clear_completed_all : Operation outer
  queue_clear_completed_all =
      calling outer clear_completed_now
        (λ deleted. utf8 "Удалено завершённых задач: " ++ format_nat deleted ++ utf8 ".")
