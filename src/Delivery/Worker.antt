-- ===== src/Delivery/Worker.antt =====
-- internal/delivery/worker.go: processOne and retry. A worker's log lines and the latency histogram
-- are left out.
pub mod Effects
pub mod Written
pub mod Settles
pub mod Once
pub mod Schedule
use maxbridge.Prelude.{
  List, ◌⊎◌, ℕ, suc, ◌+◌, ◌-◌, ◌/◌, inl, inr, Bool, true, false, Option, none, some, [], ltb,
  if◌then◌else◌, take,
}
use maxbridge.Text.{Text, utf8}
use maxbridge.Domain.{DeliveryResult, temporary, permanent, success, JobStatus, dead_letter}
use maxbridge.Storage.Tables.{Time, DeliveryJob}
use maxbridge.Storage.Database.{Db, Exec, Result, ok, err}
use maxbridge.Storage.Queue.{record_attempt, mark_job_completed, mark_job_retry_or_dead}
use maxbridge.Storage.Accounts.{update_max_user_delivery_status}
use maxbridge.Storage.Routes.{update_route_delivery_status}
use maxbridge.MaxApi.{Attachment, SendError, other_error, error_text, is_temporary_send_error}
use maxbridge.Delivery.Outside.{Outside}
use maxbridge.Delivery.Backoff.{next_backoff}
use maxbridge.Delivery.Circuit.{CircuitBreaker, allow, mark_success, mark_failure}
use maxbridge.Delivery.Render.{render_message}
use maxbridge.Delivery.Send.{
  Prepared, prepare_panicked, prepare_failed, prepare_done, prepare_attachments,
  send_with_attachment_warmup,
}

-- The counters of internal/app/metrics.go that the worker moves.
pub record Metrics : Type 0 where
  pub db_errors : ℕ
  pub dead_letter : ℕ
  pub retries : ℕ
  pub send_success : ℕ
  pub send_failure : ℕ

pub record WorkerState (W : Type 0) : Type 0 where
  pub store : Db
  pub breaker : CircuitBreaker
  pub metrics : Metrics
  pub world : W
  -- A panic has ended the program: nothing runs any more.
  pub crashed : Bool

-- The first 500 bytes of the error's text.
unfoldable pub cut_err : SendError → Text
cut_err e = take 500 (error_text e)

abbrev pub max_int : ℕ → ℕ → ℕ
max_int a b = if ltb b a then a else b

abbrev pub result_of : Bool → DeliveryResult
result_of is_temporary = if is_temporary then temporary else permanent

abbrev pub class_of : Bool → Text
class_of is_temporary = if is_temporary then utf8 "temporary" else utf8 "permanent"

-- string(result)
abbrev pub result_text : DeliveryResult → Text
result_text success = utf8 "success"
result_text temporary = utf8 "temporary_error"
result_text permanent = utf8 "permanent_error"

abbrev count_retry : JobStatus → Metrics → Metrics
count_retry dead_letter m = record m {
  dead_letter = suc m.dead_letter;
  send_failure = suc m.send_failure;
}
count_retry _ m = record m { retries = suc m.retries }

abbrev pub circuit_open : SendError
circuit_open = other_error (utf8 "circuit breaker open")

module _ {W : Type 0} (outside : Outside W) where
  -- A call of the store, at the time of the database.
  abbrev pub call {ℓ} : {A : Type ℓ} → Exec A → WorkerState W → Result A × WorkerState W
  call action s =
      let (r, db) = action (record s.store { now = outside.database_clock s.world }) in
      (r, record s { store = db })

  -- A call whose error is dropped or only logged.
  abbrev pub ignore : Exec (Unit {0}) → WorkerState W → WorkerState W
  ignore action s = (call action s).1

  abbrev count_db_error : WorkerState W → WorkerState W
  count_db_error s = record s { metrics = record s.metrics { db_errors = suc s.metrics.db_errors } }

  -- When to try again, and the jitter it draws.
  abbrev pub next_time : Bool → ℕ → WorkerState W → Time × WorkerState W
  next_time true next_attempt s =
      let now = outside.clock s.world in
      let (draw, w) = outside.jitter s.world in
      (now + next_backoff next_attempt draw, record s { world = w })
  next_time false next_attempt s = (outside.clock s.world, s)

  abbrev report : DeliveryJob → Text → Text → WorkerState W → WorkerState W
  report job status detail s =
      let s' = ignore (update_max_user_delivery_status job.max_user_id status detail) s in
      ignore (update_route_delivery_status job.route_id status detail) s'

  abbrev after_mark :
      DeliveryJob → DeliveryResult → Text → Result JobStatus → WorkerState W → WorkerState W
  after_mark job result detail (err e) s = count_db_error s
  after_mark job result detail (ok status) s =
      let s' = report job (result_text result) detail s in
      record s' { metrics = count_retry status s'.metrics }

  unfoldable pub retry : ℕ → DeliveryJob → SendError → Bool → WorkerState W → WorkerState W
  retry max_retry job e is_temporary s =
      let next_attempt = suc job.attempts in
      let (run_at, s1) = next_time is_temporary next_attempt s in
      let result = result_of is_temporary in
      let s2 = ignore (record_attempt job.id result (class_of is_temporary) (cut_err e) 0) s1 in
      let (r, s3) =
        call
          (mark_job_retry_or_dead job.id next_attempt (max_int job.max_attempts max_retry) run_at
            (cut_err e))
          s2 in
      after_mark job result (cut_err e) r s3

  abbrev count_mark : Result (Unit {0}) → WorkerState W → WorkerState W
  count_mark (ok _) s = s
  count_mark (err e) s = count_db_error s

  -- The branch of processOne for a message that was sent.
  unfoldable pub complete : DeliveryJob → ℕ → WorkerState W → WorkerState W
  complete job latency_ms s =
      let s1 = record s { breaker = mark_success s.breaker } in
      let s2 = ignore (record_attempt job.id success [] [] latency_ms) s1 in
      let (r, s3) = call (mark_job_completed job.id) s2 in
      let s4 = report job (utf8 "success") [] (count_mark r s3) in
      record s4 { metrics = record s4.metrics { send_success = suc s4.metrics.send_success } }

  abbrev milliseconds : ℕ → ℕ
  milliseconds t = t / 1000000

  -- The branches on what the send returned, `start` being the time before it.
  unfoldable pub settle : ℕ → DeliveryJob → Time → Option SendError → WorkerState W → WorkerState W
  settle max_retry job start none s = complete job (milliseconds (outside.clock s.world - start)) s
  settle max_retry job start (some e) s =
      let failed = record s { breaker = mark_failure (outside.clock s.world) s.breaker } in
      retry max_retry job e (is_temporary_send_error e) failed

  -- The branches on what the attachments came to.
  unfoldable pub deliver_prepared :
      ℕ → DeliveryJob → Text → Prepared → WorkerState W → WorkerState W
  deliver_prepared max_retry job text prepare_panicked s = record s { crashed = true }
  deliver_prepared max_retry job text (prepare_failed e) s =
      retry max_retry job e (is_temporary_send_error e) s
  deliver_prepared max_retry job text (prepare_done attachments) s =
      let (reply, w) =
        send_with_attachment_warmup outside job.max_user_id text attachments s.world in
      settle max_retry job (outside.clock s.world) reply (record s { world = w })

  unfoldable pub deliver : ℕ → DeliveryJob → WorkerState W → WorkerState W
  deliver max_retry job s =
      let out = render_message job in
      let (prepared, w) = prepare_attachments outside out.media s.world in
      deliver_prepared max_retry job out.text prepared (record s { world = w })

  -- The branches on the rate limiter.
  unfoldable pub after_wait : ℕ → DeliveryJob → Option Text → WorkerState W → WorkerState W
  after_wait max_retry job (some detail) s = retry max_retry job (other_error detail) true s
  after_wait max_retry job none s = deliver max_retry job s

  unfoldable pub process_one : ℕ → DeliveryJob → WorkerState W → WorkerState W
  process_one max_retry job s =
      if allow (outside.clock s.world) s.breaker
      then (let (refused, w) = outside.wait s.world in
          after_wait max_retry job refused (record s { world = w }))
      else retry max_retry job circuit_open true s
