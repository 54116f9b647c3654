-- ===== src/Delivery/Worker/Settles.antt =====
-- How a job ends that a worker of internal/delivery/worker.go takes.
use maxbridge.Delivery.Send.{
  prepare_failed, prepare_panicked, prepare_done, Prepared, prepare_attachments,
  send_with_attachment_warmup,
}
use maxbridge.Delivery.Send.Replies.{
  prepare_attachments-Panicked, Panicked, Accepted, length-prepare_attachments,
  send_with_attachment_warmup-Accepted,
}
use maxbridge.Delivery.Worker.Written.{
  Waiting, Buried, Completed, complete-world, retry-Written, complete-Written,
}
use maxbridge.Prelude.{
  ℕ, suc, ◌≤◌, ◌<◌, ◌≡◌, refl, sym, subst, ◌⊎◌, inl, inr, Bool, true, Option, none, some, List,
  arith, leb, leb→le, Bool-cases, length,
}
use maxbridge.Text.{Text}
use maxbridge.Storage.Tables.{Time, DeliveryJob}
use maxbridge.Storage.Queue.{bury_job, reschedule_job}
use maxbridge.MaxApi.{SendError, other_error, Attachment, is_temporary_send_error}
use maxbridge.Delivery.Outside.{Outside}
use maxbridge.Delivery.Circuit.{allow, mark_failure}
use maxbridge.Delivery.Render.{render_message}
use maxbridge.Delivery.Worker.{
  WorkerState, retry, next_time, settle, deliver, deliver_prepared, after_wait, process_one,
  cut_err, max_int, circuit_open,
}
use maxbridge.Delivery.Worker.Effects.{
  mark_job_retry_or_dead-bury, mark_job_retry_or_dead-reschedule,
}

module _ {W : Type 0} (outside : Outside W) (max_retry : ℕ) (job : DeliveryJob) where
  -- The last that happened to this world is that the MAX API has accepted the rendered message with
  -- all its media.
  abbrev pub Sent : W → Type 0
  Sent w =
      (attachments : List Attachment) × (length attachments ≡ length (render_message job).media)
      × Accepted outside job.max_user_id (render_message job).text attachments w

  -- The attempts after which a job is dead.
  abbrev pub limit : ℕ
  limit = max_int job.max_attempts max_retry

  -- The attempt has failed and is counted: the job is dead once `limit` is reached, and waits for
  -- the next attempt below it.
  abbrev pub Counted : WorkerState W → WorkerState W → Type 0
  Counted s s' =
      (detail : Text) × ((limit ≤ suc job.attempts) × Buried job.id (suc job.attempts) detail s s'
        ⊎ (suc job.attempts < limit)
          × (run_at : Time) × Waiting job.id (suc job.attempts) run_at detail s s')

  -- The last that happened is an upload that panicked, which has ended the program; the database is
  -- as it was.
  abbrev pub Crashed : WorkerState W → WorkerState W → Type 0
  Crashed s s' = Panicked outside s'.world × (s'.crashed ≡ true) × (s'.store ≡ s.store)

  abbrev Settled : WorkerState W → WorkerState W → Type 0
  Settled s s' = Sent s'.world × Completed job.id s s' ⊎ Counted s s' ⊎ Crashed s s'

  pub retry-Counted :
      (e : SendError) (is_temporary : Bool) (s : WorkerState W)
      → Counted s (retry outside max_retry job e is_temporary s)
  retry-Counted e is_temporary s =
      let next = suc job.attempts in
      let run_at = (next_time outside is_temporary next s).0 in
      (
        cut_err e,
        elim (Bool-cases (leb limit next)) [
          | inl exhausted ↦
              (let over = leb→le limit next exhausted in
                inl (
                  over,
                  retry-Written outside max_retry job e is_temporary s (bury_job next (cut_err e))
                      λ db.
                        mark_job_retry_or_dead-bury job.id next limit run_at (cut_err e) db over,
                ))
          | inr left ↦
              (let under : next < limit = ground (arith, left) in
                inr (
                  under,
                  run_at,
                  retry-Written outside max_retry job e is_temporary s
                      (reschedule_job next run_at (cut_err e))
                      λ db.
                        mark_job_retry_or_dead-reschedule job.id next limit run_at (cut_err e) db
                          under,
                ))
        ],
      )

  settle-Settled :
      (start : Time) (reply : Option SendError) (s : WorkerState W)
      → (reply ≡ none → Sent s.world)
      → Settled s (settle outside max_retry job start reply s)
  unfolding settle
  settle-Settled start none s sent = inl (
    subst Sent (sym (complete-world outside job _ s)) (sent refl),
    complete-Written outside job _ s,
  )
  settle-Settled start (some e) s sent = inr (
      inl (
        retry-Counted e (is_temporary_send_error e)
          (record s { breaker = mark_failure (outside.clock s.world) s.breaker })))

  deliver_prepared-Settled :
      (prepared : Prepared) (s : WorkerState W)
      → ((as_ : List Attachment)
          → prepared ≡ prepare_done as_
          → length as_ ≡ length (render_message job).media)
      → (prepared ≡ prepare_panicked → Panicked outside s.world)
      → Settled s (deliver_prepared outside max_retry job (render_message job).text prepared s)
  unfolding deliver_prepared
  deliver_prepared-Settled prepare_panicked s all_ panicked = inr (inr (panicked refl, refl, refl))
  deliver_prepared-Settled (prepare_failed e) s all_ panicked =
      inr (inl (retry-Counted e (is_temporary_send_error e) s))
  deliver_prepared-Settled (prepare_done attachments) s all_ panicked =
      let text = (render_message job).text in
      let (reply, w) =
        send_with_attachment_warmup outside job.max_user_id text attachments s.world in
      settle-Settled (outside.clock s.world) reply (record s { world = w })
        λ h. (
          attachments,
          all_ attachments refl,
          send_with_attachment_warmup-Accepted outside job.max_user_id text attachments s.world h,
        )

  after_wait-Settled :
      (refused : Option Text) (s : WorkerState W)
      → Settled s (after_wait outside max_retry job refused s)
  unfolding after_wait deliver
  after_wait-Settled (some detail) s = inr (inl (retry-Counted (other_error detail) true s))
  after_wait-Settled none s =
      let media = (render_message job).media in
      let (prepared, w) = prepare_attachments outside media s.world in
      deliver_prepared-Settled prepared (record s { world = w })
        (length-prepare_attachments outside media s.world)
        (prepare_attachments-Panicked outside media s.world)

  -- Whatever the clients, the limiter and the database answer, a worker that takes a job settles it.
  -- Either the last call of a client was a send of the rendered message with an attachment for each of
  -- its media, which the MAX API has accepted, and the job becomes completed; or the attempt counts, and the job becomes dead if that was the last of
  -- the larger of its own and the worker's limit, and is in retry otherwise. Only a failure of the
  -- database, or a panic of an upload, can leave the jobs as they were.
  pub process_one-Settled : (s : WorkerState W) → Settled s (process_one outside max_retry job s)
  unfolding process_one
  process_one-Settled s = elim (Bool-cases (allow (outside.clock s.world) s.breaker)) [
    | inl allowed ↦
        (let (refused, w) = outside.wait s.world in
          rw allowed (after_wait-Settled refused (record s { world = w })))
    | inr refused ↦ rw refused (inr (inl (retry-Counted circuit_open true s)))
  ]
