-- ===== src/Delivery/Worker/Once.antt =====
-- How often a worker of internal/delivery/worker.go that takes a job has its message accepted.
use maxbridge.Delivery.Worker.Written.{Completed, complete-Written, complete-world}
use maxbridge.Prelude.{
  none, ap, some, Option, Bool-cases, inl, suc, ℕ, ◌≡◌, refl, ◌∙◌, ◌⊎◌, inr, Bool, true, false,
  List, ◌∷◌, length,
}
use maxbridge.Delivery.Circuit.{mark_failure, allow}
use maxbridge.Delivery.Send.Logged.{
  prepare_attachments-keeps, send_with_attachment_warmup-logs, log_reply, Log, logged,
}
use maxbridge.Delivery.Send.Replies.{
  length-prepare_attachments, Panicked, prepare_attachments-Panicked,
}
use maxbridge.Delivery.Send.{
  prepare_attachments, send_with_attachment_warmup, Prepared, prepare_panicked, prepare_failed,
  prepare_done,
}
use maxbridge.Delivery.Worker.{
  other_error, circuit_open, send_with_attachment_warmup, some, Option, allow,
  is_temporary_send_error, inl, Time, deliver, after_wait, process_one, deliver_prepared, settle,
  suc, WorkerState, retry, next_time, cut_err, max_int, after_mark, call, ignore, result_of,
  class_of,
}
use maxbridge.MaxApi.{is_temporary_send_error, SendError, Attachment}
use maxbridge.Storage.Tables.{Time, DeliveryJob}
use maxbridge.Text.{Text}
use maxbridge.Domain.{JobStatus}
use maxbridge.Storage.Database.{Result, ok, err}
use maxbridge.Storage.Queue.{record_attempt, mark_job_retry_or_dead}
use maxbridge.Delivery.Outside.{Outside}
use maxbridge.Delivery.Render.{render_message}
use maxbridge.Delivery.Worker.Settles.{Counted, Crashed, retry-Counted}

module _ {W : Type 0} (outside : Outside W) where
  abbrev log_of : WorkerState (Log × W) → Log
  log_of s = s.world.0

  next_time-log :
      (is_temporary : Bool) (next : ℕ) (s : WorkerState (Log × W))
      → log_of (next_time (logged outside) is_temporary next s).1 ≡ log_of s
  next_time-log true next s = refl
  next_time-log false next s = refl

  after_mark-log :
      (job : DeliveryJob) (is_temporary : Bool) (detail : Text) (r : Result JobStatus)
      (s : WorkerState (Log × W))
      → log_of (after_mark (logged outside) job (result_of is_temporary) detail r s) ≡ log_of s
  after_mark-log job is_temporary detail (ok status) s = refl
  after_mark-log job is_temporary detail (err e) s = refl

  -- A retry sends nothing.
  retry-log :
      (max_retry : ℕ) (job : DeliveryJob) (e : SendError) (is_temporary : Bool)
      (s : WorkerState (Log × W))
      → log_of (retry (logged outside) max_retry job e is_temporary s) ≡ log_of s
  unfolding retry
  retry-log max_retry job e is_temporary s =
      let next = suc job.attempts in
      let (run_at, s1) = next_time (logged outside) is_temporary next s in
      let attempt =
        record_attempt job.id (result_of is_temporary) (class_of is_temporary) (cut_err e) 0 in
      let s2 = ignore (logged outside) attempt s1 in
      let (r, s3) =
        call (logged outside)
          (mark_job_retry_or_dead job.id next (max_int job.max_attempts max_retry) run_at
            (cut_err e))
          s2 in
      after_mark-log job is_temporary (cut_err e) r s3 ∙ next_time-log is_temporary next s

  module _ (max_retry : ℕ) (job : DeliveryJob) where
    -- From a log: one more message is accepted, and the job is completed; or none, and the attempt
    -- counts or the program has crashed.
    abbrev pub DeliveredOnce : Log → WorkerState (Log × W) → WorkerState (Log × W) → Type 0
    DeliveredOnce log s s' =
        ((attachments : List Attachment) × (length attachments ≡ length (render_message job).media)
          × (s'.world.0 ≡ (job.max_user_id, (render_message job).text, attachments) ∷ log)
          × Completed job.id s s')
        ⊎ (s'.world.0 ≡ log) × Counted (logged outside) max_retry job s s'
        ⊎ (s'.world.0 ≡ log) × Crashed (logged outside) max_retry job s s'

    retry-DeliveredOnce :
        (log : Log) (e : SendError) (is_temporary : Bool) (s : WorkerState (Log × W))
        → s.world.0 ≡ log
        → DeliveredOnce log s (retry (logged outside) max_retry job e is_temporary s)
    retry-DeliveredOnce log e is_temporary s same = inr (
        inl (
          retry-log max_retry job e is_temporary s ∙ same,
          retry-Counted (logged outside) max_retry job e is_temporary s,
        ))

    settle-DeliveredOnce :
        (log : Log) (attachments : List Attachment) (start : Time) (reply : Option SendError)
        (s : WorkerState (Log × W))
        → length attachments ≡ length (render_message job).media
        → s.world.0 ≡ log_reply (job.max_user_id, (render_message job).text, attachments) reply log
        → DeliveredOnce log s (settle (logged outside) max_retry job start reply s)
    unfolding settle
    settle-DeliveredOnce log attachments start none s all_ logs = inl (
      attachments,
      all_,
      ap (λ w. w.0) (complete-world (logged outside) job _ s) ∙ logs,
      complete-Written (logged outside) job _ s,
    )
    settle-DeliveredOnce log attachments start (some e) s all_ logs =
        retry-DeliveredOnce log e (is_temporary_send_error e)
          (record s { breaker = mark_failure (outside.clock s.world.1) s.breaker }) logs

    deliver_prepared-DeliveredOnce :
        (log : Log) (prepared : Prepared) (s : WorkerState (Log × W))
        → ((as_ : List Attachment)
            → prepared ≡ prepare_done as_
            → length as_ ≡ length (render_message job).media)
        → (prepared ≡ prepare_panicked → Panicked (logged outside) s.world)
        → s.world.0 ≡ log
        → DeliveredOnce log s
            (deliver_prepared (logged outside) max_retry job (render_message job).text prepared s)
    unfolding deliver_prepared
    deliver_prepared-DeliveredOnce log prepare_panicked s all_ panicked same =
        inr (inr (same, (panicked refl, refl, refl)))
    deliver_prepared-DeliveredOnce log (prepare_failed e) s all_ panicked same =
        retry-DeliveredOnce log e (is_temporary_send_error e) s same
    deliver_prepared-DeliveredOnce log (prepare_done attachments) s all_ panicked same =
        let text = (render_message job).text in
        let (reply, w) =
          send_with_attachment_warmup (logged outside) job.max_user_id text attachments s.world in
        settle-DeliveredOnce log attachments (outside.clock s.world.1) reply
          (record s { world = w }) (all_ attachments refl)
          (send_with_attachment_warmup-logs outside job.max_user_id text attachments s.world
            ∙ ap (log_reply (job.max_user_id, text, attachments) reply) same)

    after_wait-DeliveredOnce :
        (log : Log) (refused : Option Text) (s : WorkerState (Log × W))
        → s.world.0 ≡ log
        → DeliveredOnce log s (after_wait (logged outside) max_retry job refused s)
    unfolding after_wait deliver
    after_wait-DeliveredOnce log (some detail) s same =
        retry-DeliveredOnce log (other_error detail) true s same
    after_wait-DeliveredOnce log none s same =
        let media = (render_message job).media in
        let (prepared, w) = prepare_attachments (logged outside) media s.world in
        deliver_prepared-DeliveredOnce log prepared (record s { world = w })
          (length-prepare_attachments (logged outside) media s.world)
          (prepare_attachments-Panicked (logged outside) media s.world)
          (prepare_attachments-keeps outside media s.world ∙ same)

    -- Whatever the clients, the limiter and the database answer, a worker that takes a job either has
    -- exactly one message accepted by the MAX API, which is the rendered one with an attachment for each
    -- of its media to the job's user, and marks the job completed; or it has none accepted, and the
    -- attempt counts, the job being dead or in retry; or, only where an upload panics, it has none
    -- accepted, and the program ends with the database as it was. In the first two cases only a failure of the
    -- database can leave the jobs as they were. So no message is accepted twice in an attempt, and no
    -- attempt counts as failed whose message was accepted.
    pub process_one-DeliveredOnce :
        (s : WorkerState (Log × W))
        → DeliveredOnce s.world.0 s (process_one (logged outside) max_retry job s)
    unfolding process_one
    process_one-DeliveredOnce s = elim (Bool-cases (allow (outside.clock s.world.1) s.breaker)) [
      | inl allowed ↦
          (let (refused, w) = (logged outside).wait s.world in
            rw allowed (after_wait-DeliveredOnce s.world.0 refused (record s { world = w }) refl))
      | inr refused ↦ rw refused (retry-DeliveredOnce s.world.0 circuit_open true s refl)
    ]
