-- ===== src/Storage/Queue/Recovery.antt =====
-- RequeueStaleProcessing and CleanupRetention of internal/storage/store.go: what recovers a lost lease,
-- and what retention may not touch.
use maxbridge.Storage.Database.{next_fault}
use maxbridge.Prelude.{
  ℕ, ◌≡◌, inl, inr, Bool, true, false, not, Memᴰ, arith, Option-cases, length, filter, filter-Memᴰ,
  Memᴰ-update_hit, Memᴰ-update_miss,
}
use maxbridge.Storage.Tables.{Time, DeliveryJob, Tables}
use maxbridge.Storage.Database.{Db, ok}
use maxbridge.Storage.Database.Keeps.{Keeps-exec, Keeps-then}
use maxbridge.Storage.Queue.{
  is_claimable, is_stale, is_finished, requeue_job, requeue_stale_processing,
}
use maxbridge.Storage.Retention.{has_old_payload, is_old_finished, delete_jobs, cleanup_retention}

abbrev pub not_locked : DeliveryJob → Bool
not_locked j = false

requeued-IsClaimable :
    (now : Time) (j : DeliveryJob) → is_claimable now not_locked (requeue_job now j) ≡ true
unfolding is_claimable
requeued-IsClaimable now j = ground arith

-- A served RequeueStaleProcessing reports how many jobs were processing under a lease that had run
-- out. Each of them stands in the table afterwards with the status retry, claimable at once, with
-- its attempts unchanged; every other row stays as it was.
pub requeue_stale_processing_lem :
    (db : Db) (n : ℕ)
    → (requeue_stale_processing db).0 ≡ ok n
    → (n ≡ length (filter (is_stale db.now) db.tables.jobs))
      × ((j : DeliveryJob)
          → Memᴰ j db.tables.jobs
          → is_stale db.now j ≡ true
          → Memᴰ (requeue_job db.now j) (requeue_stale_processing db).1.tables.jobs
            × (is_claimable db.now not_locked (requeue_job db.now j) ≡ true))
      × ((j : DeliveryJob)
          → Memᴰ j db.tables.jobs
          → is_stale db.now j ≡ false
          → Memᴰ j (requeue_stale_processing db).1.tables.jobs)
unfolding requeue_stale_processing
requeue_stale_processing_lem db n h = elim (Option-cases (next_fault db.faults)) [
  | inr (f, e) ↦ ground (arith, e)
  | inl e ↦ (
    ground (arith, e),
    λ j m stale. rw e (
      Memᴰ-update_hit (is_stale db.now) (requeue_job db.now) db.tables.jobs m stale,
      requeued-IsClaimable db.now j,
    ),
    λ j m fresh.
        rw e (Memᴰ-update_miss (is_stale db.now) (requeue_job db.now) db.tables.jobs m fresh),
  )
]

-- Jobs that have not ended survive: what CleanupRetention keeps, statement by statement.
abbrev HasJob : DeliveryJob → Tables → Type 0
HasJob j t = Memᴰ j t.jobs

delete_jobs-HasJob :
    (test : DeliveryJob → Bool) (j : DeliveryJob) (t : Tables)
    → test j ≡ false
    → HasJob j t
    → HasJob j (delete_jobs test t)
delete_jobs-HasJob test j t spared m = filter-Memᴰ (λ k. not (test k)) t.jobs m (rw spared)

-- CleanupRetention, whatever its limits and whichever of its statements fail, neither deletes nor
-- changes a job that is pending, processing or in retry.
pub cleanup_retention_spares_active :
    (jobs_days dedupe_days payload_hours : ℕ) (db : Db) (j : DeliveryJob)
    → is_finished j.status ≡ false
    → Memᴰ j db.tables.jobs
    → Memᴰ j (cleanup_retention jobs_days dedupe_days payload_hours db).1.tables.jobs
unfolding cleanup_retention
cleanup_retention_spares_active jobs_days dedupe_days payload_hours db j active m =
    (Keeps-then (HasJob j) _ _
        (Keeps-exec (HasJob j) _ λ now t h.
          Memᴰ-update_miss (has_old_payload now payload_hours) _ t.jobs h (ground (arith, active)))
        (Keeps-then (HasJob j) _ _ (Keeps-exec (HasJob j) _ λ now t h. h) (
          Keeps-then (HasJob j) _ _
            (Keeps-exec (HasJob j) _ λ now t h.
              delete_jobs-HasJob (is_old_finished now jobs_days) j t (ground (arith, active)) h)
            (Keeps-exec (HasJob j) _ λ now t h. h)))).at
      db m
