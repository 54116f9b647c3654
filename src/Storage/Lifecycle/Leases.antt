-- ===== src/Storage/Lifecycle/Leases.antt =====
-- No delivery job of internal/storage/store.go is ever stuck.
use maxbridge.Storage.Tables.{empty_object, Time, DeliveryJob, Tables}
use maxbridge.Storage.Database.{pure, Db, next_fault}
use maxbridge.Storage.Queue.{
  claim_jobs, mark_job_completed, mark_job_retry_or_dead, requeue_stale_processing, retry_job_now,
  is_claimable, is_stale, is_finished, claim_job, whole_seconds, is_among, claimable_jobs,
  complete_job, bury_job, reschedule_job, requeue_job, has_id, update_jobs,
}
use maxbridge.Storage.Retention.{
  has_old_payload, cleanup_retention, clear_old_completed, clear_completed_now, delete_jobs,
}
use maxbridge.Prelude.{
  ℕ, ◌≤◌, ◌<◌, ◌≡◌, refl, sym, subst, ◌⊎◌, inl, inr, Bool, true, not, Option, none, some, Memᴰ,
  arith, leb, Bool-cases, Option-cases, All, All-filter, All-update, All-Memᴰ, Memᴰ-All, ℤ, ◌==ℤ◌,
}
use maxbridge.Text.{Text}
use maxbridge.Domain.{
  JobStatus, pending, processing, retry, completed, dead_letter, TelegramUpdate, TelegramMessage,
}
use maxbridge.Storage.Database.Keeps.{Keeps, Keeps-exec, Keeps-then}
use maxbridge.Storage.Queue.Recovery.{not_locked}
use maxbridge.Storage.Enqueue.{enqueue_telegram_update}
use maxbridge.Storage.Enqueue.Recipients.{enqueue_telegram_update-IsDue, IsDue}
use maxbridge.Storage.Routes.{delete_route}
use maxbridge.Storage.Lifecycle.{
  Step, enqueued, claimed, done, marked, requeued, retried, cleaned, cleared_old, cleared,
  route_deleted, elsewhere, Reachable, start, after, Fits, HasFittingLease, AllFit,
}

update_jobs-AllFit :
    (test : DeliveryJob → Bool) (change : Time → DeliveryJob → DeliveryJob)
    → ((now : Time) (j : DeliveryJob) → HasFittingLease j → HasFittingLease (change now j))
    → Keeps AllFit (update_jobs test change)
update_jobs-AllFit test change keep =
    Keeps-exec AllFit _
      λ now t h. All-update HasFittingLease test (change now) t.jobs (λ j _. keep now j) h

delete_jobs-AllFit :
    (test : DeliveryJob → Bool) (t : Tables) → AllFit t → AllFit (delete_jobs test t)
delete_jobs-AllFit test t h = All-filter HasFittingLease (λ k. not (test k)) t.jobs h

IsDue-HasFittingLease :
    {msg : TelegramMessage} {t : Tables} (j : DeliveryJob) → IsDue msg t j → HasFittingLease j
IsDue-HasFittingLease j due =
    subst (λ s. Fits s j.leased_until) (sym due.status) (subst (Fits pending) (sym due.unleased) tt)

enqueue_telegram_update-AllFit :
    (upd : TelegramUpdate) (max_attempts : ℕ)
    → Keeps AllFit (enqueue_telegram_update upd max_attempts)
enqueue_telegram_update-AllFit upd max_attempts = record {
  at = λ db h.
      let after_jobs = (enqueue_telegram_update upd max_attempts db).1.tables.jobs in
      Memᴰ-All HasFittingLease after_jobs λ j m.
        elim ((enqueue_telegram_update-IsDue upd max_attempts db).0 j m) [
          | inl old ↦ All-Memᴰ HasFittingLease db.tables.jobs h old
          | inr (msg, _, due) ↦ IsDue-HasFittingLease j due
        ];
}

claim_jobs-AllFit :
    (batch lease : ℕ) (locked : DeliveryJob → Bool) → Keeps AllFit (claim_jobs batch lease locked)
unfolding claim_jobs
claim_jobs-AllFit batch lease locked = record {
  at = λ db h. elim (Option-cases (next_fault db.faults)) [
    | inl served ↦ rw served (
        All-update HasFittingLease (is_among (claimable_jobs batch db.now locked db.tables.jobs))
          (claim_job db.now (whole_seconds lease)) db.tables.jobs (λ j _ _. tt) h)
    | inr (e, failed) ↦ rw failed h
  ];
}

requeue_stale_processing-AllFit : Keeps AllFit requeue_stale_processing
unfolding requeue_stale_processing
requeue_stale_processing-AllFit = record {
  at = λ db h. elim (Option-cases (next_fault db.faults)) [
    | inl served ↦ rw served (
        All-update HasFittingLease (is_stale db.now) (requeue_job db.now) db.tables.jobs
          (λ j _ _. tt) h)
    | inr (e, failed) ↦ rw failed h
  ];
}

clear_completed_now-AllFit : Keeps AllFit clear_completed_now
unfolding clear_completed_now
clear_completed_now-AllFit = record {
  at = λ db h. elim (Option-cases (next_fault db.faults)) [
    | inl served ↦ rw served (delete_jobs-AllFit _ db.tables h)
    | inr (e, failed) ↦ rw failed h
  ];
}

cleanup_retention-AllFit :
    (jobs_days dedupe_days payload_hours : ℕ)
    → Keeps AllFit (cleanup_retention jobs_days dedupe_days payload_hours)
unfolding cleanup_retention
cleanup_retention-AllFit jobs_days dedupe_days payload_hours =
    Keeps-then AllFit _ _
      (Keeps-exec AllFit _ λ now t h.
        All-update HasFittingLease (has_old_payload now payload_hours)
          (λ j. record j { payload = empty_object; updated_at = now }) t.jobs (λ j _ k. k) h)
      (Keeps-then AllFit _ _ (Keeps-exec AllFit _ λ now t h. h) (
        Keeps-then AllFit _ _ (Keeps-exec AllFit _ λ now t h. delete_jobs-AllFit _ t h)
          (Keeps-exec AllFit _ λ now t h. h)))

mark_job_retry_or_dead-AllFit :
    (id : ℤ) (next limit : ℕ) (run_at : Time) (detail : Text)
    → Keeps AllFit (mark_job_retry_or_dead id next limit run_at detail)
unfolding mark_job_retry_or_dead
mark_job_retry_or_dead-AllFit id next limit run_at detail = elim (Bool-cases (leb limit next)) [
  | inl over ↦ rw over (
      Keeps-then AllFit (update_jobs (has_id id) (bury_job next detail)) (pure dead_letter)
        (update_jobs-AllFit (has_id id) (bury_job next detail) λ now j k. tt)
        (record { at = λ db h. h }))
  | inr under ↦ rw under (
      Keeps-then AllFit (update_jobs (has_id id) (reschedule_job next run_at detail)) (pure retry)
        (update_jobs-AllFit (has_id id) (reschedule_job next run_at detail) λ now j k. tt)
        (record { at = λ db h. h }))
]

Step-AllFit : {db db' : Db} → Step db db' → AllFit db.tables → AllFit db'.tables
unfolding mark_job_completed retry_job_now clear_old_completed delete_route
Step-AllFit (enqueued upd max_attempts db) h =
    (enqueue_telegram_update-AllFit upd max_attempts).at db h
Step-AllFit (claimed batch lease locked db) h = (claim_jobs-AllFit batch lease locked).at db h
Step-AllFit (done id db) h = (update_jobs-AllFit (has_id id) complete_job λ now j k. tt).at db h
Step-AllFit (marked id next limit run_at detail db) h =
    (mark_job_retry_or_dead-AllFit id next limit run_at detail).at db h
Step-AllFit (requeued db) h = requeue_stale_processing-AllFit.at db h
Step-AllFit (retried id db) h = (update_jobs-AllFit (has_id id) requeue_job λ now j k. tt).at db h
Step-AllFit (cleaned jobs_days dedupe_days payload_hours db) h =
    (cleanup_retention-AllFit jobs_days dedupe_days payload_hours).at db h
Step-AllFit (cleared_old days db) h =
    (Keeps-exec AllFit _ λ now t k. delete_jobs-AllFit _ t k).at db h
Step-AllFit (cleared db) h = clear_completed_now-AllFit.at db h
Step-AllFit (route_deleted id db) h =
    (Keeps-exec AllFit _
        λ now t k. All-filter HasFittingLease (λ j. not (j.route_id ==ℤ id)) t.jobs k).at
      db h
Step-AllFit (elsewhere db db' same) h = subst (All HasFittingLease) (sym same) h

Reachable-AllFit : {db : Db} → Reachable db → AllFit db.tables
Reachable-AllFit (start db none_yet) = subst (All HasFittingLease) (sym none_yet) tt
Reachable-AllFit (after db db' r s) = Step-AllFit s (Reachable-AllFit r)

-- The job has ended, or waits for its time and can be claimed from then on, or is under a lease and
-- is requeued once that has run out.
abbrev pub IsLive : DeliveryJob → Type 0
IsLive j =
    (is_finished j.status ≡ true)
    ⊎ ((now : Time) → j.available_at ≤ now → is_claimable now not_locked j ≡ true)
    ⊎ ((t : Time) × (j.leased_until ≡ some t) × ((now : Time) → t < now → is_stale now j ≡ true))

HasFittingLease-IsLive : (j : DeliveryJob) → HasFittingLease j → IsLive j
unfolding is_claimable is_stale
HasFittingLease-IsLive j h = go j.status j.leased_until h refl refl
  where
    go : (s : JobStatus) (l : Option Time) → Fits s l → j.status ≡ s → j.leased_until ≡ l → IsLive j
    go pending (some t) f e k = elim f [ ]
    go processing none f e k = elim f [ ]
    go retry (some t) f e k = elim f [ ]
    go completed (some t) f e k = elim f [ ]
    go dead_letter (some t) f e k = elim f [ ]
    go pending none f e k = inr (inl λ now due. ground (arith, e, k, due))
    go retry none f e k = inr (inl λ now due. ground (arith, e, k, due))
    go processing (some t) f e k = inr (inr (t, k, λ now over. ground (arith, e, k, over)))
    go completed none f e k = inl (rw e refl)
    go dead_letter none f e k = inl (rw e refl)

-- No job gets stuck: whatever sequence of calls of the store has led to the database, with whatever
-- failures on the way, each of its jobs is completed or dead, or can be claimed from its time on, or
-- is under a lease after whose end RequeueStaleProcessing takes it up.
pub Reachable-IsLive : (db : Db) (j : DeliveryJob) → Reachable db → Memᴰ j db.tables.jobs → IsLive j
Reachable-IsLive db j r m =
    HasFittingLease-IsLive j (All-Memᴰ HasFittingLease db.tables.jobs (Reachable-AllFit r) m)
