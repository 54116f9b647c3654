-- ===== src/Tests/Clients.antt =====
-- The theorems on the clients, with a server that gives the same answer to every request.
use maxbridge.Delivery.Worker.Written.{Completed}
use maxbridge.Prelude.{ℕ, ◌*◌, ◌≡◌, refl, ◌⊎◌, inl, inr, true, false, none, some, [], ◌∷◌, pos}
use maxbridge.Text.{Text, utf8, trim_space}
use maxbridge.Storage.Tables.{second, DeliveryJob}
use maxbridge.Storage.Queue.{claim_job}
use maxbridge.Http.{Reader, Http, exchange}
use maxbridge.MaxApi.{api_error}
use maxbridge.MaxApi.Client.{
  Codec, Client, Upload, upload_panicked, upload_done, send_message_with_attachments,
  upload_attachment, request_upload_url, upload_file, put_token,
}
use maxbridge.MaxApi.Client.Verdict.{Verdict, send_message_with_attachments-Verdict}
use maxbridge.MaxApi.Client.Uploaded.{Outcome, upload_attachment-Outcome}
use maxbridge.TelegramApi.Client.{Decoders}
use maxbridge.Delivery.Outside.{Outside}
use maxbridge.Delivery.Circuit.{new_circuit_breaker}
use maxbridge.Delivery.Backoff.{unit}
use maxbridge.Delivery.Worker.{WorkerState, process_one}
use maxbridge.Delivery.Worker.Settles.{Counted}
use maxbridge.Delivery.Clients.{
  Recorded, worker_calls, IsDelivered, IsNullAnswered, process_one-IsDelivered,
}
use maxbridge.Tests.Data.{now, early, database}

abbrev answering : ℕ → Text → Http (Unit {0})
answering status body = record {
  url_error = λ url. none;
  send_request = λ req w.
      (inr (record { status_code = status; body = record { bytes = body; broken = none } }), w);
}

-- Every upload gets a URL and a token, and the answer to every file is `null`.
abbrev codec : Codec
codec = record {
  marshal_message = λ text attachments. inr text;
  decode_upload = λ r. inr (record { url = utf8 "https://u"; token = utf8 "t" });
  decode_payload = λ r. inr none;
  quoted = λ s. s;
  form_file = λ name content. (content, utf8 "multipart/form-data");
}

abbrev client : Client
client = record { base_url = utf8 "https://max"; token = utf8 "Bearer x" }

abbrev photo : Reader
photo = record { bytes = utf8 "jpg"; broken = none }

abbrev reply : Upload × Unit {0}
reply = upload_attachment (answering 200 []) codec client (utf8 "image") (utf8 "a/b.jpg") photo tt

null_panics : reply.0 ≡ upload_panicked
unfolding upload_attachment request_upload_url upload_file put_token exchange trim_space
null_panics = refl

upload_attachment-Outcome_example :
    Outcome (answering 200 []) codec client (utf8 "image") (utf8 "a/b.jpg") photo tt reply.0
upload_attachment-Outcome_example =
    upload_attachment-Outcome (answering 200 []) codec client (utf8 "image") (utf8 "a/b.jpg") photo
      tt

abbrev busy : Http (Unit {0})
busy = answering 429 (utf8 "slow down")

refused_when_busy :
    (send_message_with_attachments busy codec client (pos 7) (utf8 "Hi") [] tt).0
    ≡ some (api_error 429 (utf8 "slow down"))
unfolding send_message_with_attachments exchange
refused_when_busy = refl

send_message_with_attachments-Verdict_example :
    Verdict busy codec client
      (pos 7)
      (utf8 "Hi")
      []
      tt
      (send_message_with_attachments busy codec client (pos 7) (utf8 "Hi") [] tt).0
send_message_with_attachments-Verdict_example =
    send_message_with_attachments-Verdict busy codec client (pos 7) (utf8 "Hi") [] tt

abbrev decoders : Decoders
decoders = record {
  decode_me = λ s. inl (utf8 "no JSON");
  decode_chat_member = λ s. inl (utf8 "no JSON");
  decode_file = λ s. inl (utf8 "no JSON");
}

abbrev outside : Outside (Recorded (Unit {0}))
outside = record {
  clock = λ w. now;
  database_clock = λ w. now;
  jitter = λ w. (unit, w);
  wait = λ w. (none, w);
  sleep = λ t w. (none, w);
  send = λ user text attachments w. (none, w);
  upload = λ kind name content w. (upload_done (record { kind = kind; payload = [] }), w);
  has_media_client = true;
  download = λ file_id w. (inl (utf8 "offline"), w);
}

abbrev taken : DeliveryJob
taken = claim_job now (90 * second) early

abbrev worker : WorkerState (Recorded (Unit {0}))
worker = record {
  store = database (taken ∷ []) [];
  breaker = new_circuit_breaker 20 (20 * second);
  metrics = record {
    db_errors = 0;
    dead_letter = 0;
    retries = 0;
    send_success = 0;
    send_failure = 0;
  };
  world = ([], tt);
  crashed = false;
}

process_one-IsDelivered_example :
    let http = answering 200 [] in
    let s' =
      process_one
        (worker_calls http codec client decoders (utf8 "x") outside 8 taken)
        8
        taken
        worker in
    IsDelivered http codec client decoders (utf8 "x") outside 8 taken s'.world
      × Completed taken.id worker s'
    ⊎ Counted (worker_calls http codec client decoders (utf8 "x") outside 8 taken) 8 taken worker s'
    ⊎ IsNullAnswered http codec client decoders (utf8 "x") outside 8 taken s'.world
      × (s'.crashed ≡ true)
      × (s'.store ≡ worker.store)
process_one-IsDelivered_example =
    process_one-IsDelivered (answering 200 []) codec client decoders (utf8 "x") outside 8 taken
      worker
