-- ===== src/Delivery/Worker/Schedule.antt =====
-- When internal/delivery/worker.go tries a failed job again.
use maxbridge.Prelude.{
  arith, refl, Memᴰ-update, update, if◌then◌else◌, sym, inr, not, inl, ◌&&◌, leb, ◌==ℤ◌, [], none,
  ◌≡◌, Memᴰ, ℕ, suc, ◌+◌, ◌*◌, ◌^◌, ◌≤◌, ◌<◌, subst, Bool, true, false,
}
use maxbridge.Storage.Queue.{has_id, is_claimable, reschedule_job}
use maxbridge.Delivery.Worker.{
  inr, inl, Text, [], none, WorkerState, retry, next_time, cut_err, max_int,
}
use maxbridge.Delivery.Worker.Written.{Waiting, retry-Written}
use maxbridge.Text.{Text}
use maxbridge.Domain.{JobStatus}
use maxbridge.Storage.Tables.{Time, second, DeliveryJob}
use maxbridge.MaxApi.{SendError}
use maxbridge.Delivery.Outside.{Outside}
use maxbridge.Delivery.Backoff.{IsJitter, next_backoff_range, clamp}
use maxbridge.Delivery.Worker.Effects.{mark_job_retry_or_dead-reschedule}

module _ {W : Type 0} (outside : Outside W) (now : Time) (locked : DeliveryJob → Bool)
    (max_retry : ℕ) (job : DeliveryJob) (e : SendError) (s : WorkerState W) (k : DeliveryJob) where
  -- The row `k` waits in retry with one more attempt counted, and is claimable from `run_at` on.
  abbrev pub TriedAgain : Bool → Time → Type 0
  TriedAgain is_temporary run_at =
      let s' = retry outside max_retry job e is_temporary s in
      (k' : DeliveryJob) × Memᴰ k' s'.store.tables.jobs
      × (k'.id ≡ k.id)
      × (k'.status ≡ JobStatus.retry)
      × (k'.attempts ≡ suc job.attempts)
      × (k'.available_at ≡ run_at)
      × (k'.leased_until ≡ none)
      × (k'.payload ≡ k.payload)
      × (is_claimable now locked k' ≡ (leb run_at now && not (locked k')))

  Waiting-TriedAgain :
      (is_temporary : Bool) (run_at : Time) (detail : Text)
      → s.store.faults ≡ []
      → Memᴰ k s.store.tables.jobs
      → (k.id ==ℤ job.id) ≡ true
      → Waiting job.id
          (suc job.attempts)
          run_at
          detail
          s
          (retry outside max_retry job e is_temporary s)
      → TriedAgain is_temporary run_at
  unfolding is_claimable
  Waiting-TriedAgain is_temporary run_at detail served m same (inl (failed, _)) =
      absurd (failed served)
  Waiting-TriedAgain is_temporary run_at detail served m same (inr (t, written)) =
      let change = reschedule_job (suc job.attempts) run_at detail t in
      (
        change k,
        subst (Memᴰ (change k)) (sym written) (
            subst
              (λ b.
                Memᴰ (if b then change k else k)
                  (update (has_id job.id) change s.store.tables.jobs))
              same (Memᴰ-update (has_id job.id) change s.store.tables.jobs m)),
        refl,
        refl,
        refl,
        refl,
        refl,
        refl,
        ground arith,
      )

  -- Where the database serves every statement, a retry of a job with attempts left puts its row in
  -- retry with one more attempt counted, no lease and its payload unchanged, and at every time of the
  -- database and under any locks the row is claimable exactly if that time is not before the row's
  -- available_at and the row is not locked. After a permanent error, available_at is the worker's
  -- time: the row is not held back, and not dead. After a temporary error it is a whole number of seconds
  -- after the worker's time, between four fifths, rounded down, and six fifths of 2 to the number of
  -- the job's attempts, at most 2^8.
  pub retry_schedule :
      s.store.faults ≡ []
      → suc job.attempts < max_int job.max_attempts max_retry
      → IsJitter (outside.jitter s.world).0
      → Memᴰ k s.store.tables.jobs
      → (k.id ==ℤ job.id) ≡ true
      → TriedAgain false (outside.clock s.world)
        × (n : ℕ) × TriedAgain true (outside.clock s.world + n * second)
        × (4 * 2 ^ clamp (suc job.attempts) ≤ 5 * n + 4)
        × (5 * n ≤ 6 * 2 ^ clamp (suc job.attempts))
  retry_schedule served under h m same =
      let next = suc job.attempts in
      let limit = max_int job.max_attempts max_retry in
      let again = λ (is_temporary : Bool).
        let run_at = (next_time outside is_temporary next s).0 in
        Waiting-TriedAgain is_temporary run_at (cut_err e) served m same (
          retry-Written outside max_retry job e is_temporary s
            (reschedule_job next run_at (cut_err e))
            λ db.
              mark_job_retry_or_dead-reschedule job.id next limit run_at (cut_err e) db under) in
      let (n, wait, low, high) = next_backoff_range next (outside.jitter s.world).0 h in
      (
        again false,
        n,
        subst (λ d. TriedAgain true (outside.clock s.world + d)) wait (again true),
        low,
        high,
      )
