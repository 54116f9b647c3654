-- ===== src/Delivery/Worker/Effects.antt =====
-- What the calls of the store that internal/delivery/worker.go makes do to the delivery jobs.
use maxbridge.Storage.Database.{Result-cases, pure, ◌>>◌, Db, Exec, next_fault}
use maxbridge.Prelude.{
  gt→leb, le→leb, ℕ, ◌≤◌, ◌<◌, ◌≡◌, refl, sym, subst, ◌≢◌, ◌⊎◌, inl, inr, [], arith, Option-cases,
  update, ℤ,
}
use maxbridge.Text.{Text}
use maxbridge.Domain.{DeliveryResult, dead_letter, retry}
use maxbridge.Storage.Tables.{Time, DeliveryJob}
use maxbridge.Storage.Queue.{
  record_attempt, mark_job_completed, mark_job_retry_or_dead, update_jobs, has_id, complete_job,
  bury_job, reschedule_job,
}
use maxbridge.Storage.Accounts.{update_max_user_delivery_status}
use maxbridge.Storage.Routes.{update_route_delivery_status}

-- The call leaves the jobs alone, and no fault comes out of nothing.
abbrev pub SparesJobs {ℓ} : {A : Type ℓ} → Exec A → Type 0
SparesJobs action =
    (db : Db)
    → ((action db).1.tables.jobs ≡ db.tables.jobs) × (db.faults ≡ [] → (action db).1.faults ≡ [])

pub record_attempt-SparesJobs :
    (id : ℤ) (result : DeliveryResult) (class detail : Text) (latency_ms : ℕ)
    → SparesJobs (record_attempt id result class detail latency_ms)
unfolding record_attempt
record_attempt-SparesJobs id result class detail latency_ms db =
    (ground arith, λ h. ground (arith, h))

pub update_max_user_delivery_status-SparesJobs :
    (id : ℤ) (status detail : Text) → SparesJobs (update_max_user_delivery_status id status detail)
unfolding update_max_user_delivery_status
update_max_user_delivery_status-SparesJobs id status detail db =
    (ground arith, λ h. ground (arith, h))

pub update_route_delivery_status-SparesJobs :
    (id : ℤ) (status detail : Text) → SparesJobs (update_route_delivery_status id status detail)
unfolding update_route_delivery_status
update_route_delivery_status-SparesJobs id status detail db = (ground arith, λ h. ground (arith, h))

-- The call either fails, of a fault, and changes no job, or changes the jobs with the id.
abbrev pub Writes {ℓ} : {A : Type ℓ} → Exec A → ℤ → (Time → DeliveryJob → DeliveryJob) → Db → Type 0
Writes action id change db =
    (db.faults ≢ []) × ((action db).1.tables.jobs ≡ db.tables.jobs)
    ⊎ ((action db).1.tables.jobs ≡ update (has_id id) (change db.now) db.tables.jobs)
      × (db.faults ≡ [] → (action db).1.faults ≡ [])

update_jobs-Writes :
    (id : ℤ) (change : Time → DeliveryJob → DeliveryJob) (db : Db)
    → Writes (update_jobs (has_id id) change) id change db
update_jobs-Writes id change db = elim (Option-cases (next_fault db.faults)) [
  | inl served ↦ inr (rw served refl, λ h. rw h refl)
  | inr (e, failed) ↦ inl ((λ h. ground (arith, failed, h)), rw failed refl)
]

pub mark_job_completed-Writes :
    (id : ℤ) (db : Db) → Writes (mark_job_completed id) id complete_job db
unfolding mark_job_completed
mark_job_completed-Writes id db = update_jobs-Writes id complete_job db

then_pure-state {ℓ} :
    {A : Type ℓ} (action : Exec (Unit {0})) (a : A) (db : Db)
    → ((action >> pure a) db).1 ≡ (action db).1
then_pure-state action a db = elim (Result-cases (action db).0) [
  | inl (_, e) ↦ rw e refl
  | inr (_, e) ↦ rw e refl
]

then_pure-Writes {ℓ} :
    {A : Type ℓ} (action : Exec (Unit {0})) (a : A) (id : ℤ)
    (change : Time → DeliveryJob → DeliveryJob) (db : Db)
    → Writes action id change db
    → Writes (action >> pure a) id change db
then_pure-Writes action a id change db h =
    subst
      (λ after.
        (db.faults ≢ []) × (after.tables.jobs ≡ db.tables.jobs)
        ⊎ (after.tables.jobs ≡ update (has_id id) (change db.now) db.tables.jobs)
          × (db.faults ≡ [] → after.faults ≡ []))
      (sym (then_pure-state action a db)) h

module _ (id : ℤ) (next limit : ℕ) (run_at : Time) (detail : Text) (db : Db) where
  pub mark_job_retry_or_dead-bury :
      limit ≤ next
      → Writes (mark_job_retry_or_dead id next limit run_at detail) id (bury_job next detail) db
  unfolding mark_job_retry_or_dead
  mark_job_retry_or_dead-bury h =
      let change = bury_job next detail in
      let e = le→leb limit next h in
      rw e (
        then_pure-Writes (update_jobs (has_id id) change) dead_letter id change db
          (update_jobs-Writes id change db))

  pub mark_job_retry_or_dead-reschedule :
      next < limit
      → Writes
          (mark_job_retry_or_dead id next limit run_at detail)
          id
          (reschedule_job next run_at detail)
          db
  unfolding mark_job_retry_or_dead
  mark_job_retry_or_dead-reschedule h =
      let change = reschedule_job next run_at detail in
      let e = gt→leb limit next h in
      rw e (
        then_pure-Writes (update_jobs (has_id id) change) retry id change db
          (update_jobs-Writes id change db))
