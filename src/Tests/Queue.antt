-- ===== src/Tests/Queue.antt =====
-- The theorems on the delivery queue at small queues.
use maxbridge.Prelude.{
  ◌/◌, some, ℕ, ◌+◌, ◌*◌, ◌≤◌, ◌≡◌, refl, ◌⊎◌, true, false, [], ◌∷◌, Memᴰ, length, filter, All,
  Distinct, pos, ◌==ℤ◌,
}
use maxbridge.Domain.{processing}
use maxbridge.Storage.Tables.{second, DeliveryJob}
use maxbridge.Storage.Database.{Db, ok}
use maxbridge.Storage.Queue.{
  claim_jobs, claim_job, is_claimable, is_stale, requeue_job, requeue_stale_processing,
}
use maxbridge.Storage.Retention.{cleanup_retention}
use maxbridge.Storage.Queue.Recovery.{
  not_locked, requeue_stale_processing_lem, cleanup_retention_spares_active,
}
use maxbridge.Storage.Queue.Claim.{claim_jobs_leased, claim_jobs_fair, claim_jobs_exclusive}
use maxbridge.Tests.Data.{now, early, late, stale, finished, database, an_hour_later}

abbrev lease : ℕ
lease = 90 * second

abbrev leased : DeliveryJob → DeliveryJob
leased j = claim_job now lease j

abbrev queue : Db
queue = database (late ∷ early ∷ stale ∷ finished ∷ []) []

claim_one : (claim_jobs 1 lease not_locked queue).0 ≡ ok (leased early ∷ [])
unfolding claim_jobs
claim_one = refl

claim_many : (claim_jobs 20 lease not_locked queue).0 ≡ ok (leased early ∷ leased late ∷ [])
unfolding claim_jobs
claim_many = refl

late_claimable : is_claimable now not_locked late ≡ true
unfolding is_claimable
late_claimable = refl

claim_jobs_leased_example :
    (k : DeliveryJob) × Memᴰ k queue.tables.jobs
    × (is_claimable now not_locked k ≡ true)
    × (leased early ≡ record k {
      status = processing;
      leased_until = some (queue.now + lease / second * second);
      updated_at = queue.now;
    })
    × Memᴰ (leased early) (claim_jobs 1 lease not_locked queue).1.tables.jobs
claim_jobs_leased_example =
    claim_jobs_leased 1 lease not_locked queue (leased early ∷ []) (leased early) claim_one
      (Memᴰ.head refl)

claim_jobs_fair_example :
    Memᴰ (leased late) (leased early ∷ [])
    ⊎ ((length (leased early ∷ []) ≡ 1) × All (λ j. j.available_at ≤ 2) (leased early ∷ []))
claim_jobs_fair_example =
    claim_jobs_fair 1 lease not_locked queue (leased early ∷ []) late claim_one (Memᴰ.head refl)
      late_claimable

stale_unclaimable : is_claimable now not_locked stale ≡ false
unfolding is_claimable
stale_unclaimable = refl

queue-Distinct : Distinct (λ j. j.id) queue.tables.jobs
unfolding ◌==ℤ◌
queue-Distinct = ((refl, (refl, (refl, tt))), ((refl, (refl, tt)), ((refl, tt), (tt, tt))))

abbrev claimed_once : Db
claimed_once = (claim_jobs 1 lease not_locked queue).1

claim_next :
    (claim_jobs 20 lease not_locked (an_hour_later claimed_once)).0
    ≡ ok (claim_job (now + 3600 * second) lease late ∷ [])
unfolding claim_jobs ◌==ℤ◌
claim_next = refl

claim_jobs_exclusive_example : (pos 1 ==ℤ pos 2) ≡ false
claim_jobs_exclusive_example =
    claim_jobs_exclusive 1 lease 20 lease not_locked not_locked queue (an_hour_later claimed_once)
      (leased early ∷ []) (claim_job (now + 3600 * second) lease late ∷ []) (leased early)
      (claim_job (now + 3600 * second) lease late) claim_one refl claim_next (Memᴰ.head refl)
      (Memᴰ.head refl)

requeue_one : (requeue_stale_processing queue).0 ≡ ok 1
unfolding requeue_stale_processing
requeue_one = refl

requeue_stale_processing_example :
    (1 ≡ length (filter (is_stale now) queue.tables.jobs))
    × ((j : DeliveryJob)
        → Memᴰ j queue.tables.jobs
        → is_stale now j ≡ true
        → Memᴰ (requeue_job now j) (requeue_stale_processing queue).1.tables.jobs
          × (is_claimable now not_locked (requeue_job now j) ≡ true))
    × ((j : DeliveryJob)
        → Memᴰ j queue.tables.jobs
        → is_stale now j ≡ false
        → Memᴰ j (requeue_stale_processing queue).1.tables.jobs)
requeue_stale_processing_example = requeue_stale_processing_lem queue 1 requeue_one

cleanup_retention_example : Memᴰ early (cleanup_retention 7 30 72 queue).1.tables.jobs
cleanup_retention_example =
    cleanup_retention_spares_active 7 30 72 queue early refl (Memᴰ.tail (Memᴰ.head refl))
