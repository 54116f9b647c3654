-- ===== src/Storage/Stats.antt =====
-- internal/storage/store.go: GetQueueStats.
use maxbridge.Storage.Queue.{is_waiting}
use maxbridge.Prelude.{
  minus, ℕ, ◌+◌, ◌*◌, ◌/◌, ◌-◌, ℤ, pos, Bool, true, false, List, [], ◌∷◌, filter, length, ltb, leb,
  if◌then◌else◌,
}
use maxbridge.Domain.{JobStatus, pending, retry, dead_letter}
use maxbridge.Storage.Tables.{Time, second, DeliveryJob}
use maxbridge.Storage.Database.{Exec, query}

pub record QueueStats : Type 0 where
  pub pending_depth : ℕ
  pub retry_depth : ℕ
  pub dead_letter_depth : ℕ
  pub oldest_pending_age : ℤ

abbrev is_pending : JobStatus → Bool
is_pending pending = true
is_pending _ = false

abbrev is_retry : JobStatus → Bool
is_retry retry = true
is_retry _ = false

abbrev is_dead_letter : JobStatus → Bool
is_dead_letter dead_letter = true
is_dead_letter _ = false

abbrev pub count_jobs : (JobStatus → Bool) → List DeliveryJob → ℕ
count_jobs test jobs = length (filter (λ j. test j.status) jobs)

abbrev earliest : Time → List DeliveryJob → Time
earliest t [] = t
earliest t (j ∷ js) = earliest (if ltb j.available_at t then j.available_at else t) js

-- Seconds, rounded to the nearest, halves upwards.
abbrev nearest_second : ℕ → ℕ
nearest_second t = (2 * t + second) / (2 * second)

-- `EXTRACT(EPOCH FROM (now() - t))::bigint`, negative for a time to come.
abbrev pub age : Time → Time → ℤ
age now t = if leb t now then pos (nearest_second (now - t)) else minus (nearest_second (t - now))

abbrev pub oldest_age : Time → List DeliveryJob → ℤ
oldest_age now [] = pos 0
oldest_age now (j ∷ js) = age now (earliest j.available_at js)

unfoldable pub get_queue_stats : Exec QueueStats
get_queue_stats = query λ now tables. record {
  pending_depth = count_jobs is_pending tables.jobs;
  retry_depth = count_jobs is_retry tables.jobs;
  dead_letter_depth = count_jobs is_dead_letter tables.jobs;
  oldest_pending_age = oldest_age now (filter (λ j. is_waiting j.status) tables.jobs);
}
