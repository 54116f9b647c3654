-- ===== src/Storage/Queue.antt =====
-- internal/storage/store.go: the delivery queue, from ClaimJobs to ClearCompletedNow.
-- `ORDER BY available_at` leaves the order of equal times open: here it is the table's. RETURNING
-- gives the claimed rows in the order in which they were selected.
pub mod Order
pub mod Claim
pub mod Recovery
use maxbridge.Prelude.{
  minus, ℕ, suc, ◌+◌, ◌*◌, ◌/◌, ◌-◌, ℤ, pos, Bool, true, false, not, ◌&&◌, ◌||◌, Option, none, some,
  List, [], ◌∷◌, ◌++◌, map, filter, any, take, update, length, ltb, leb, if◌then◌else◌, ◌==ℤ◌,
}
use maxbridge.Text.{Text, utf8}
use maxbridge.Domain.{JobStatus, pending, processing, retry, completed, dead_letter, DeliveryResult}
use maxbridge.Storage.Tables.{
  Time, second, hour, day, Payload, encoded, empty_object, malformed, DeliveryJob, AttemptRow,
  Tables, Sequences, DedupeRow,
}
use maxbridge.Storage.Database.{
  Db, Exec, Result, ok, err, foreign_key_violation, statement, exec, query, pure, ◌>>=◌, ◌>>◌,
}

-- status IN ('pending', 'retry')
abbrev pub is_waiting : JobStatus → Bool
is_waiting pending = true
is_waiting retry = true
is_waiting _ = false

abbrev pub is_processing : JobStatus → Bool
is_processing processing = true
is_processing _ = false

abbrev pub is_completed : JobStatus → Bool
is_completed completed = true
is_completed _ = false

-- status IN ('completed', 'dead_letter')
abbrev pub is_finished : JobStatus → Bool
is_finished completed = true
is_finished dead_letter = true
is_finished _ = false

-- `t < now`, which is not true of NULL.
abbrev pub is_before : Option Time → Time → Bool
is_before none now = false
is_before (some t) now = ltb t now

abbrev pub is_null : Option Time → Bool
is_null none = true
is_null (some t) = false

abbrev pub has_id : ℤ → DeliveryJob → Bool
has_id id j = j.id ==ℤ id

-- The WHERE clause of ClaimJobs; `locked` are the rows that other transactions hold, which
-- SKIP LOCKED passes over.
unfoldable pub is_claimable : Time → (DeliveryJob → Bool) → DeliveryJob → Bool
is_claimable now locked j =
    is_waiting j.status
    && leb j.available_at now
    && (is_null j.leased_until || is_before j.leased_until now)
    && not (locked j)

insert_by_time : DeliveryJob → List DeliveryJob → List DeliveryJob
insert_by_time j [] = j ∷ []
insert_by_time j (k ∷ ks) =
    let rest = insert_by_time j ks in
    if leb j.available_at k.available_at then j ∷ k ∷ ks else k ∷ rest

-- ORDER BY available_at ASC
pub order_by_time : List DeliveryJob → List DeliveryJob
unfolding insert_by_time
order_by_time [] = []
order_by_time (j ∷ js) = insert_by_time j (order_by_time js)

-- The common table expression of ClaimJobs.
unfoldable pub claimable_jobs :
    ℕ → Time → (DeliveryJob → Bool) → List DeliveryJob → List DeliveryJob
unfolding order_by_time is_claimable
claimable_jobs batch now locked jobs =
    take batch (order_by_time (filter (is_claimable now locked) jobs))

-- SET status = 'processing', leased_until = now() + …, updated_at = now()
abbrev pub claim_job : Time → ℕ → DeliveryJob → DeliveryJob
claim_job now interval j = record j {
  status = processing;
  leased_until = some (now + interval);
  updated_at = now;
}

-- `WHERE j.id = cte.id`
abbrev pub is_among : List DeliveryJob → DeliveryJob → Bool
is_among cte j = any (λ c. j.id ==ℤ c.id) cte

-- `fmt.Sprintf("%d seconds", int(lease.Seconds()))` drops the fraction of a second.
abbrev pub whole_seconds : ℕ → ℕ
whole_seconds lease = lease / second * second

unfoldable pub claim_jobs : ℕ → ℕ → (DeliveryJob → Bool) → Exec (List DeliveryJob)
unfolding claimable_jobs
claim_jobs batch lease locked = statement λ db.
    let cte = claimable_jobs batch db.now locked db.tables.jobs in
    let claim = claim_job db.now (whole_seconds lease) in
    (
      ok (map claim cte),
      record db { tables = record db.tables { jobs = update (is_among cte) claim db.tables.jobs } },
    )

abbrev pub has_job : ℤ → List DeliveryJob → Bool
has_job id jobs = any (has_id id) jobs

unfoldable pub record_attempt : ℤ → DeliveryResult → Text → Text → ℕ → Exec (Unit {0})
record_attempt job_id result error_class detail latency_ms = statement λ db.
    let row : AttemptRow = record {
      id = pos db.sequences.attempts;
      job_id = job_id;
      result = result;
      error_class = error_class;
      error_detail = detail;
      latency_ms = latency_ms;
      created_at = db.now;
    } in
    let next = record db.sequences { attempts = suc db.sequences.attempts } in
    if has_job job_id db.tables.jobs
    then (
      ok tt,
      record db {
        tables = record db.tables { attempts = db.tables.attempts ++ row ∷ [] };
        sequences = next;
      },
    )
    else (err foreign_key_violation, record db { sequences = next })

abbrev pub update_jobs : (DeliveryJob → Bool) → (Time → DeliveryJob → DeliveryJob) → Exec (Unit {0})
update_jobs test change =
    exec λ now tables. record tables { jobs = update test (change now) tables.jobs }

abbrev pub complete_job : Time → DeliveryJob → DeliveryJob
complete_job now j = record j {
  status = completed;
  leased_until = none;
  last_error = [];
  updated_at = now;
}

unfoldable pub mark_job_completed : ℤ → Exec (Unit {0})
mark_job_completed job_id = update_jobs (has_id job_id) complete_job

abbrev pub bury_job : ℕ → Text → Time → DeliveryJob → DeliveryJob
bury_job attempts error now j = record j {
  status = dead_letter;
  attempts = attempts;
  leased_until = none;
  last_error = error;
  updated_at = now;
}

abbrev pub reschedule_job : ℕ → Time → Text → Time → DeliveryJob → DeliveryJob
reschedule_job attempts next_run error now j = record j {
  status = retry;
  attempts = attempts;
  available_at = next_run;
  leased_until = none;
  last_error = error;
  updated_at = now;
}

unfoldable pub mark_job_retry_or_dead : ℤ → ℕ → ℕ → Time → Text → Exec JobStatus
mark_job_retry_or_dead job_id next_attempt max_attempts next_run message =
    if leb max_attempts next_attempt
    then (do update_jobs (has_id job_id) (bury_job next_attempt message); pure dead_letter)
    else (do update_jobs (has_id job_id) (reschedule_job next_attempt next_run message); pure retry)

-- WHERE status = 'processing' AND leased_until < now()
unfoldable pub is_stale : Time → DeliveryJob → Bool
is_stale now j = is_processing j.status && is_before j.leased_until now

abbrev pub requeue_job : Time → DeliveryJob → DeliveryJob
requeue_job now j = record j {
  status = retry;
  leased_until = none;
  available_at = now;
  updated_at = now;
}

-- The result is RowsAffected.
unfoldable pub requeue_stale_processing : Exec ℕ
unfolding is_stale
requeue_stale_processing = statement λ db. (
  ok (length (filter (is_stale db.now) db.tables.jobs)),
  record db {
    tables = record db.tables {
      jobs = update (is_stale db.now) (requeue_job db.now) db.tables.jobs;
    };
  },
)

unfoldable pub retry_job_now : ℤ → Exec (Unit {0})
retry_job_now job_id = update_jobs (has_id job_id) requeue_job
