-- ===== src/Tui/Kept/Loads.antt =====
-- internal/tui/service.go: loading a section only reads.
use maxbridge.Prelude.{Bool, arith, List, [], ℕ}
use maxbridge.Text.{Text}
use maxbridge.Storage.Tables.{Time, Tables}
use maxbridge.Storage.Database.{Exec, Result, ok, err, query}
use maxbridge.Storage.Database.Keeps.{Keeps-statement}
use maxbridge.Storage.Present.{IsPresent, KeepsAll}
use maxbridge.Storage.Listings.{
  Row, list_telegram_groups, list_max_users, list_invites, list_routes, list_queue,
  list_recent_events,
}
use maxbridge.Storage.Stats.{QueueStats, get_queue_stats}
use maxbridge.Storage.Routes.{count_core}
use maxbridge.Tui.Service.{Outer, AdminState, call}
use maxbridge.Tui.Service.Sections.{
  load_rows, load_dashboard, load_health, load_section, with_stats, with_counts,
}
use maxbridge.Tui.Kept.{Spares}

query-KeepsAll {ℓ} : {A : Type ℓ} (read : Time → Tables → A) → KeepsAll (query read)
query-KeepsAll read subject = Keeps-statement (IsPresent subject) _ λ db h. h

listings-KeepsAll :
    KeepsAll list_telegram_groups
    × KeepsAll list_max_users
    × KeepsAll list_invites
    × KeepsAll list_routes
unfolding list_telegram_groups list_max_users list_invites list_routes
listings-KeepsAll = (query-KeepsAll _, query-KeepsAll _, query-KeepsAll _, query-KeepsAll _)

list_queue-KeepsAll : (status : Text) (limit : ℕ) → KeepsAll (list_queue status limit)
unfolding list_queue
list_queue-KeepsAll status limit = query-KeepsAll _

list_recent_events-KeepsAll : (limit : ℕ) → KeepsAll (list_recent_events limit)
unfolding list_recent_events
list_recent_events-KeepsAll limit = query-KeepsAll _

counts-KeepsAll : KeepsAll count_core × KeepsAll get_queue_stats
unfolding count_core get_queue_stats
counts-KeepsAll = (query-KeepsAll _, query-KeepsAll _)

module _ {W : Type 0} (outer : Outer W) (format_time : Time → Text) where
  with_stats-Spares :
      (counts : ℕ × ℕ × ℕ) (r : Result QueueStats)
      → Spares outer (with_stats outer format_time counts r)
  with_stats-Spares counts (err e) subject s h = h
  with_stats-Spares counts (ok queue) subject s h = (list_recent_events-KeepsAll 8 subject).at _ h

  with_counts-Spares : (r : Result (ℕ × ℕ × ℕ)) → Spares outer (with_counts outer format_time r)
  with_counts-Spares (err e) subject s h = h
  with_counts-Spares (ok counts) subject s h =
      let (queue, s') = call outer get_queue_stats s in
      with_stats-Spares counts queue subject s' ((counts-KeepsAll.1 subject).at _ h)

  load_dashboard-Spares : Spares outer (load_dashboard outer format_time)
  unfolding load_dashboard
  load_dashboard-Spares subject s h =
      let (counts, s') = call outer count_core s in
      with_counts-Spares counts subject s' ((counts-KeepsAll.0 subject).at _ h)

  rows-Spares :
      (action : Exec (List Row))
      → KeepsAll action
      → Spares outer (load_rows outer format_time action)
  rows-Spares action keeps subject s h = (keeps subject).at _ h

  -- Loading a section keeps what is there.
  pub load_section-Spares :
      (ping : AdminState W → Bool) (section : Text)
      → Spares outer (load_section outer format_time ping section)
  unfolding load_section load_health
  load_section-Spares ping section subject s h =
      let (groups, users, invites, routes) = listings-KeepsAll in
      ground (
        arith,
        h,
        load_dashboard-Spares subject s h,
        rows-Spares list_telegram_groups groups subject s h,
        rows-Spares list_max_users users subject s h,
        rows-Spares list_invites invites subject s h,
        rows-Spares list_routes routes subject s h,
        rows-Spares (list_queue [] 200) (list_queue-KeepsAll [] 200) subject s h,
        rows-Spares (list_recent_events 100) (list_recent_events-KeepsAll 100) subject s h,
      )
