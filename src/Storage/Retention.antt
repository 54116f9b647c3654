-- ===== src/Storage/Retention.antt =====
-- internal/storage/store.go: what deletes old jobs, attempts and dedupe records.
use maxbridge.Storage.Queue.{has_job, is_completed, is_finished}
use maxbridge.Prelude.{ℕ, ◌+◌, ◌*◌, Bool, true, false, not, ◌&&◌, ◌||◌, filter, update, length, ltb}
use maxbridge.Storage.Tables.{
  Time, hour, day, Payload, encoded, empty_object, malformed, DeliveryJob, Tables, DedupeRow,
}
use maxbridge.Storage.Database.{Exec, ok, statement, exec, ◌>>◌}

-- Deleting jobs deletes their attempts (ON DELETE CASCADE).
abbrev pub delete_jobs : (DeliveryJob → Bool) → Tables → Tables
delete_jobs test tables =
    let kept = filter (λ j. not (test j)) tables.jobs in
    record tables { jobs = kept; attempts = filter (λ a. has_job a.job_id kept) tables.attempts }

-- `t < now() - span`, with no subtraction.
abbrev pub is_older : Time → ℕ → Time → Bool
is_older now span t = ltb (t + span) now

abbrev is_blank : Payload → Bool
is_blank empty_object = true
is_blank (encoded msg) = false
is_blank malformed = false

-- The payloads that the first statement of CleanupRetention drops.
abbrev pub has_old_payload : Time → ℕ → DeliveryJob → Bool
has_old_payload now hours j =
    is_completed j.status && not (is_blank j.payload) && is_older now (hours * hour) j.updated_at

abbrev pub is_old_finished : Time → ℕ → DeliveryJob → Bool
is_old_finished now days j = is_finished j.status && is_older now (days * day) j.updated_at

abbrev pub is_old_dedupe : Time → ℕ → DedupeRow → Bool
is_old_dedupe now days d = ltb d.expires_at now || is_older now (days * day) d.created_at

-- Four statements, in no transaction: the first that fails ends the cleanup.
unfoldable pub cleanup_retention : ℕ → ℕ → ℕ → Exec (Unit {0})
cleanup_retention jobs_days dedupe_days payload_hours = do
  exec λ now tables. record tables {
    jobs =
        update (has_old_payload now payload_hours)
          (λ j. record j { payload = empty_object; updated_at = now }) tables.jobs;
  }
  exec λ now tables. record tables {
    attempts = filter (λ a. not (is_older now (jobs_days * day) a.created_at)) tables.attempts;
  }
  exec λ now tables. delete_jobs (is_old_finished now jobs_days) tables
  exec λ now tables. record tables {
    dedupe = filter (λ d. not (is_old_dedupe now dedupe_days d)) tables.dedupe;
  }

unfoldable pub clear_old_completed : ℕ → Exec (Unit {0})
clear_old_completed days = exec λ now tables.
    delete_jobs (λ j. is_completed j.status && is_older now (days * day) j.updated_at) tables

-- The result is RowsAffected.
unfoldable pub clear_completed_now : Exec ℕ
clear_completed_now = statement λ db. (
  ok (length (filter (λ j. is_completed j.status) db.tables.jobs)),
  record db { tables = delete_jobs (λ j. is_completed j.status) db.tables },
)
