-- ===== src/Delivery/Worker/Written.antt =====
-- What retry and the success branch of processOne in internal/delivery/worker.go write to the jobs.
use maxbridge.Prelude.{
  none, ℕ, suc, ◌≡◌, refl, ap, ◌∙◌, ◌≢◌, ◌⊎◌, inl, inr, Bool, true, false, List, [], update, ℤ,
}
use maxbridge.Domain.{completed, DeliveryResult, JobStatus}
use maxbridge.Delivery.Worker.{
  none, dead_letter, utf8, success, mark_success, WorkerState, call, ignore, next_time, report,
  after_mark, retry, complete, cut_err, max_int, result_of, class_of, result_text, count_mark,
}
use maxbridge.Text.{utf8, Text}
use maxbridge.Delivery.Circuit.{mark_success}
use maxbridge.Storage.Tables.{Time, DeliveryJob}
use maxbridge.Storage.Database.{Db, Exec, Result, ok, err}
use maxbridge.Storage.Queue.{
  record_attempt, mark_job_completed, mark_job_retry_or_dead, has_id, complete_job,
}
use maxbridge.Storage.Accounts.{update_max_user_delivery_status}
use maxbridge.Storage.Routes.{update_route_delivery_status}
use maxbridge.MaxApi.{SendError}
use maxbridge.Delivery.Outside.{Outside}
use maxbridge.Delivery.Worker.Effects.{
  SparesJobs, Writes, record_attempt-SparesJobs, update_max_user_delivery_status-SparesJobs,
  update_route_delivery_status-SparesJobs, mark_job_completed-Writes,
}

module _ {W : Type 0} where
  abbrev pub jobs : WorkerState W → List DeliveryJob
  jobs s = s.store.tables.jobs

  -- No job changes, and no fault comes out of nothing.
  abbrev pub Quiet : WorkerState W → WorkerState W → Type 0
  Quiet s s' = (jobs s' ≡ jobs s) × (s.store.faults ≡ [] → s'.store.faults ≡ [])

  -- Either the jobs stay, after a failure of the database, or those with the id change.
  abbrev pub Written :
      ℤ → (Time → DeliveryJob → DeliveryJob) → WorkerState W → WorkerState W → Type 0
  Written id change s s' =
      (s.store.faults ≢ []) × (jobs s' ≡ jobs s)
      ⊎ (t : Time) × (jobs s' ≡ update (has_id id) (change t) (jobs s))

  abbrev pub Completed : ℤ → WorkerState W → WorkerState W → Type 0
  Completed id =
      Written id
        λ t j. record j { status = completed; leased_until = none; last_error = []; updated_at = t }

  -- Dead, after so many attempts.
  abbrev pub Buried : ℤ → ℕ → Text → WorkerState W → WorkerState W → Type 0
  Buried id attempts detail = Written id λ t j. record j {
    status = dead_letter;
    attempts = attempts;
    leased_until = none;
    last_error = detail;
    updated_at = t;
  }

  -- To be tried again from `run_at` on.
  abbrev pub Waiting : ℤ → ℕ → Time → Text → WorkerState W → WorkerState W → Type 0
  Waiting id attempts run_at detail = Written id λ t j. record j {
    status = JobStatus.retry;
    attempts = attempts;
    available_at = run_at;
    leased_until = none;
    last_error = detail;
    updated_at = t;
  }

  pub Quiet-trans : (s s' s'' : WorkerState W) → Quiet s s' → Quiet s' s'' → Quiet s s''
  Quiet-trans s s' s'' (j, f) (j', f') = (j' ∙ j, λ h. f' (f h))

  Written-around :
      (id : ℤ) (change : Time → DeliveryJob → DeliveryJob) (s s1 s2 s' : WorkerState W)
      → Quiet s s1
      → Written id change s1 s2
      → Quiet s2 s'
      → Written id change s s'
  Written-around id change s s1 s2 s' (j, f) (inl (failed, same)) (j', f') =
      inl ((λ h. failed (f h)), j' ∙ same ∙ j)
  Written-around id change s s1 s2 s' (j, f) (inr (t, e)) (j', f') =
      inr (t, j' ∙ e ∙ ap (update (has_id id) (change t)) j)

module _ {W : Type 0} (outside : Outside W) where
  abbrev at_database : WorkerState W → Db
  at_database s = record s.store { now = outside.database_clock s.world }

  ignore-Quiet :
      (action : Exec (Unit {0})) (s : WorkerState W)
      → SparesJobs action
      → Quiet s (ignore outside action s)
  ignore-Quiet action s spares = spares (at_database s)

  call-Written {ℓ} :
      {A : Type ℓ} (action : Exec A) (id : ℤ) (change : Time → DeliveryJob → DeliveryJob)
      (s : WorkerState W)
      → Writes action id change (at_database s)
      → Written id change s (call outside action s).1
  call-Written action id change s (inl kept) = inl kept
  call-Written action id change s (inr (e, _)) = inr (outside.database_clock s.world, e)

  report-Quiet :
      (job : DeliveryJob) (status detail : Text) (s : WorkerState W)
      → Quiet s (report outside job status detail s)
  report-Quiet job status detail s =
      let user = update_max_user_delivery_status job.max_user_id status detail in
      let route = update_route_delivery_status job.route_id status detail in
      let s' = ignore outside user s in
      Quiet-trans s s' (ignore outside route s')
        (ignore-Quiet user s
          (update_max_user_delivery_status-SparesJobs job.max_user_id status detail))
        (ignore-Quiet route s' (update_route_delivery_status-SparesJobs job.route_id status detail))

  after_mark-Quiet :
      (job : DeliveryJob) (result : DeliveryResult) (detail : Text) (r : Result JobStatus)
      (s : WorkerState W)
      → Quiet s (after_mark outside job result detail r s)
  after_mark-Quiet job result detail (err e) s = (refl, λ h. h)
  after_mark-Quiet job result detail (ok status) s = report-Quiet job (result_text result) detail s

  next_time-Quiet :
      (is_temporary : Bool) (next : ℕ) (s : WorkerState W)
      → Quiet s (next_time outside is_temporary next s).1
  next_time-Quiet true next s = (refl, λ h. h)
  next_time-Quiet false next s = (refl, λ h. h)

  -- What a retry writes, once its outcome is decided.
  pub retry-Written :
      (max_retry : ℕ) (job : DeliveryJob) (e : SendError) (is_temporary : Bool) (s : WorkerState W)
      (change : Time → DeliveryJob → DeliveryJob)
      → ((db : Db)
          → Writes
              (mark_job_retry_or_dead job.id
                (suc job.attempts)
                (max_int job.max_attempts max_retry)
                (next_time outside is_temporary (suc job.attempts) s).0
                (cut_err e))
              job.id
              change
              db)
      → Written job.id change s (retry outside max_retry job e is_temporary s)
  unfolding retry
  retry-Written max_retry job e is_temporary s change writes =
      let next = suc job.attempts in
      let limit = max_int job.max_attempts max_retry in
      let result = result_of is_temporary in
      let (run_at, s1) = next_time outside is_temporary next s in
      let attempt = record_attempt job.id result (class_of is_temporary) (cut_err e) 0 in
      let s2 = ignore outside attempt s1 in
      let mark = mark_job_retry_or_dead job.id next limit run_at (cut_err e) in
      let (r, s3) = call outside mark s2 in
      Written-around job.id change s s2 s3 (after_mark outside job result (cut_err e) r s3)
        (Quiet-trans s s1 s2 (next_time-Quiet is_temporary next s) (
          ignore-Quiet attempt s1
            (record_attempt-SparesJobs job.id result (class_of is_temporary) (cut_err e) 0)))
        (call-Written mark job.id change s2 (writes (at_database s2)))
        (after_mark-Quiet job result (cut_err e) r s3)

  count_mark-Quiet : (r : Result (Unit {0})) (s : WorkerState W) → Quiet s (count_mark outside r s)
  count_mark-Quiet (ok _) s = (refl, λ h. h)
  count_mark-Quiet (err e) s = (refl, λ h. h)

  pub complete-Written :
      (job : DeliveryJob) (latency_ms : ℕ) (s : WorkerState W)
      → Written job.id complete_job s (complete outside job latency_ms s)
  unfolding complete
  complete-Written job latency_ms s =
      let s1 : WorkerState W = record s { breaker = mark_success s.breaker } in
      let attempt = record_attempt job.id success [] [] latency_ms in
      let s2 = ignore outside attempt s1 in
      let (r, s3) = call outside (mark_job_completed job.id) s2 in
      let s4 = count_mark outside r s3 in
      Written-around job.id complete_job s s2 s3 (report outside job (utf8 "success") [] s4)
        (ignore-Quiet attempt s1 (record_attempt-SparesJobs job.id success [] [] latency_ms))
        (call-Written (mark_job_completed job.id) job.id complete_job s2
          (mark_job_completed-Writes job.id (at_database s2)))
        (Quiet-trans s3 s4 (report outside job (utf8 "success") [] s4) (count_mark-Quiet r s3)
          (report-Quiet job (utf8 "success") [] s4))

  count_mark-world :
      (r : Result (Unit {0})) (s : WorkerState W) → (count_mark outside r s).world ≡ s.world
  count_mark-world (ok _) s = refl
  count_mark-world (err e) s = refl

  -- Marking a job calls no client.
  pub complete-world :
      (job : DeliveryJob) (latency_ms : ℕ) (s : WorkerState W)
      → (complete outside job latency_ms s).world ≡ s.world
  unfolding complete
  complete-world job latency_ms s =
      let s1 : WorkerState W = record s { breaker = mark_success s.breaker } in
      let s2 = ignore outside (record_attempt job.id success [] [] latency_ms) s1 in
      let (r, s3) = call outside (mark_job_completed job.id) s2 in count_mark-world r s3
