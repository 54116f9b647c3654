-- ===== src/Tests/Delivery.antt =====
-- The theorems on the worker, with a MAX API that answers from a list.
use maxbridge.Prelude.{
  ◌==ℤ◌, Memᴰ, pos, ℕ, ◌+◌, ◌*◌, ◌%◌, ◌^◌, ◌≤◌, ◌≡◌, refl, inr, true, false, Option, none, some,
  List, [], ◌∷◌, arith, ltb, length,
}
use maxbridge.MaxApi.{Attachment, safe_file_name, SendError, api_error}
use maxbridge.MaxApi.Client.{upload_done}
use maxbridge.Delivery.Send.{send_with_attachment_warmup}
use maxbridge.Delivery.Send.Sends.{counted, send_with_attachment_warmup_bounded}
use maxbridge.MaxApi.FileNames.{IsSafe, safe_file_name-IsSafe}
use maxbridge.Text.{utf8}
use maxbridge.Storage.Tables.{second, DeliveryJob}
use maxbridge.Storage.Queue.{claim_job}
use maxbridge.Delivery.Outside.{Outside}
use maxbridge.Delivery.Backoff.{unit, clamp}
use maxbridge.Delivery.Circuit.{Outcome, failed_at, succeeded, new_circuit_breaker, after, allow}
use maxbridge.Delivery.Circuit.History.{circuit_breaker_lem, streak, open_until}
use maxbridge.Delivery.Worker.{WorkerState, process_one}
use maxbridge.Delivery.Worker.Once.{DeliveredOnce, process_one-DeliveredOnce}
use maxbridge.Delivery.Send.Logged.{Log, logged}
use maxbridge.Delivery.Worker.Schedule.{TriedAgain, retry_schedule}
use maxbridge.Tests.Data.{now, early, database}

abbrev Script : Type 0
Script = List (Option SendError)

abbrev next_reply : Script → Option SendError × Script
next_reply [] = (none, [])
next_reply (r ∷ rs) = (r, rs)

abbrev scripted : Outside Script
scripted = record {
  clock = λ w. now;
  database_clock = λ w. now;
  jitter = λ w. (unit, w);
  wait = λ w. (none, w);
  sleep = λ t w. (none, w);
  send = λ user text attachments w. next_reply w;
  upload = λ kind name content w. (upload_done (record { kind = kind; payload = [] }), w);
  has_media_client = true;
  download = λ file_id w. (inr (record { bytes = []; broken = none }, []), w);
}

abbrev taken : DeliveryJob
taken = claim_job now (90 * second) early

abbrev unavailable : SendError
unavailable = api_error 503 (utf8 "busy")

abbrev worker : Script → WorkerState Script
worker script = record {
  store = database (taken ∷ []) [];
  breaker = new_circuit_breaker 20 (20 * second);
  metrics = record {
    db_errors = 0;
    dead_letter = 0;
    retries = 0;
    send_success = 0;
    send_failure = 0;
  };
  world = script;
  crashed = false;
}

retry_schedule_example :
    TriedAgain scripted (now + 9) (λ j. false) 8 taken unavailable (worker []) taken false now
    × (n : ℕ) × TriedAgain scripted
        (now + 9)
        (λ j. false)
        8
        taken
        unavailable
        (worker [])
        taken
        true
        (now + n * second)
    × (4 * 2 ^ clamp 1 ≤ 5 * n + 4)
    × (5 * n ≤ 6 * 2 ^ clamp 1)
unfolding ◌==ℤ◌
retry_schedule_example =
    retry_schedule scripted (now + 9) (λ j. false) 8 taken unavailable (worker []) taken refl
      (omega arith) (omega arith, omega arith) (Memᴰ.head refl) refl

abbrev two_failures : List Outcome
two_failures = failed_at 9 ∷ failed_at 5 ∷ succeeded ∷ []

circuit_breaker_example :
    ((after (new_circuit_breaker 2 10) two_failures).consecutive_failures
      ≡ length (streak two_failures) % 2)
    × (allow 19 (after (new_circuit_breaker 2 10) two_failures)
        ≡ ltb (open_until 2 10 (streak two_failures)) 19)
circuit_breaker_example = circuit_breaker_lem 2 10 two_failures 19 (omega arith)

abbrev not_ready : SendError
not_ready = api_error 400 (utf8 "attachment.not.ready")

abbrev picture : Attachment
picture = record { kind = utf8 "image"; payload = [] }

send_with_attachment_warmup_bounded_example :
    let sent =
      (send_with_attachment_warmup
        (counted scripted)
        (pos 7)
        (utf8 "Hi")
        (picture ∷ [])
        (0, some not_ready ∷ some not_ready ∷ [])).1.0 in
    (sent ≤ 4 + 0) × (picture ∷ [] ≡ [] → sent ≡ 1)
send_with_attachment_warmup_bounded_example =
    send_with_attachment_warmup_bounded scripted (pos 7) (utf8 "Hi") (picture ∷ []) 0
      (some not_ready ∷ some not_ready ∷ [])

safe_file_name-IsSafe_example : IsSafe (safe_file_name (utf8 "../../etc/passwd "))
safe_file_name-IsSafe_example = safe_file_name-IsSafe (utf8 "../../etc/passwd ")

-- Nothing is logged yet.
abbrev logging : Script → WorkerState (Log × Script)
logging script = record {
  store = database (taken ∷ []) [];
  breaker = new_circuit_breaker 20 (20 * second);
  metrics = (worker script).metrics;
  world = ([], script);
  crashed = false;
}

process_one-DeliveredOnce_example :
    DeliveredOnce scripted 8 taken []
      (logging (some unavailable ∷ []))
      (process_one (logged scripted) 8 taken (logging (some unavailable ∷ [])))
process_one-DeliveredOnce_example =
    process_one-DeliveredOnce scripted 8 taken (logging (some unavailable ∷ []))
