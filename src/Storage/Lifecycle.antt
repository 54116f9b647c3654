-- ===== src/Storage/Lifecycle.antt =====
-- The delivery jobs under all that internal/storage/store.go does to them, in any order.
pub mod Leases
use maxbridge.Prelude.{ℕ, ◌≡◌, Bool, Option, none, some, [], All, All-update, ℤ}
use maxbridge.Text.{Text}
use maxbridge.Domain.{JobStatus, processing, TelegramUpdate}
use maxbridge.Storage.Tables.{Time, DeliveryJob, Tables}
use maxbridge.Storage.Database.{Db}
use maxbridge.Storage.Database.Keeps.{Keeps, Keeps-exec}
use maxbridge.Storage.Queue.{
  claim_jobs, mark_job_completed, mark_job_retry_or_dead, requeue_stale_processing, retry_job_now,
  update_jobs,
}
use maxbridge.Storage.Retention.{cleanup_retention, clear_old_completed, clear_completed_now}
use maxbridge.Storage.Enqueue.{enqueue_telegram_update}
use maxbridge.Storage.Routes.{delete_route}

-- A call of the store that writes to the jobs, or anything else that leaves them alone, such as the
-- passing of time.
pub data Step : Db → Db → Type 0 where
  enqueued :
      (upd : TelegramUpdate) (max_attempts : ℕ) (db : Db)
      → Step db (enqueue_telegram_update upd max_attempts db).1
  claimed :
      (batch lease : ℕ) (locked : DeliveryJob → Bool) (db : Db)
      → Step db (claim_jobs batch lease locked db).1
  done : (id : ℤ) (db : Db) → Step db (mark_job_completed id db).1
  marked :
      (id : ℤ) (next limit : ℕ) (run_at : Time) (detail : Text) (db : Db)
      → Step db (mark_job_retry_or_dead id next limit run_at detail db).1
  requeued : (db : Db) → Step db (requeue_stale_processing db).1
  retried : (id : ℤ) (db : Db) → Step db (retry_job_now id db).1
  cleaned :
      (jobs_days dedupe_days payload_hours : ℕ) (db : Db)
      → Step db (cleanup_retention jobs_days dedupe_days payload_hours db).1
  cleared_old : (days : ℕ) (db : Db) → Step db (clear_old_completed days db).1
  cleared : (db : Db) → Step db (clear_completed_now db).1
  route_deleted : (id : ℤ) (db : Db) → Step db (delete_route id db).1
  elsewhere : (db db' : Db) → db'.tables.jobs ≡ db.tables.jobs → Step db db'

-- The databases that steps lead to from one without jobs.
pub data Reachable : Db → Type 0 where
  start : (db : Db) → db.tables.jobs ≡ [] → Reachable db
  after : (db db' : Db) → Reachable db → Step db db' → Reachable db'

-- A lease fits the status: only a job that is processing has one, and it does.
abbrev pub Fits : JobStatus → Option Time → Type 0
Fits processing none = ⊥
Fits processing (some t) = Unit {0}
Fits _ none = Unit {0}
Fits _ (some t) = ⊥

abbrev pub HasFittingLease : DeliveryJob → Type 0
HasFittingLease j = Fits j.status j.leased_until

abbrev pub AllFit : Tables → Type 0
AllFit t = All HasFittingLease t.jobs
