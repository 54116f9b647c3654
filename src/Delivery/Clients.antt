-- ===== src/Delivery/Clients.antt =====
-- cmd/worker/main.go: the worker of internal/delivery with the clients of internal/max and
-- internal/telegram, and so what a completed job says of the answers of the MAX API.
use maxbridge.Delivery.Worker.Written.{Completed}
use maxbridge.Prelude.{
  ℕ, ◌≤◌, ◌≡◌, ◌⊎◌, inl, inr, true, List, length, subst, ◌∷◌, refl, sym, ap, ◌∙◌, arith,
  Option-cases, Either-cases, ℤ,
}
use maxbridge.Text.{Text}
use maxbridge.Storage.Tables.{DeliveryJob}
use maxbridge.Http.{Http, HttpRequest, HttpResponse, exchange, Reader}
use maxbridge.MaxApi.{Attachment}
use maxbridge.MaxApi.Client.{
  upload_attachment, upload_panicked, Codec, Client, message_request, send_message_with_attachments,
}
use maxbridge.MaxApi.Client.Uploaded.{Outcome, upload_attachment-Outcome}
use maxbridge.Delivery.Send.Replies.{Panicked}
use maxbridge.MaxApi.Client.Verdict.{Verdict, send_message_with_attachments-Verdict}
use maxbridge.TelegramApi.Client.{Decoders, download_file}
use maxbridge.Delivery.Outside.{Outside}
use maxbridge.Delivery.Render.{render_message}
use maxbridge.Delivery.Worker.{WorkerState, process_one}
use maxbridge.Delivery.Worker.Settles.{Sent, Counted, process_one-Settled}

-- The requests that were answered, the last one first, beside the world.
abbrev pub Recorded : Type 0 → Type 0
Recorded W = List (HttpRequest × HttpResponse) × W

abbrev add_answer :
    HttpRequest
    → Text ⊎ HttpResponse
    → List (HttpRequest × HttpResponse)
    → List (HttpRequest × HttpResponse)
add_answer req (inl e) answers = answers
add_answer req (inr resp) answers = (req, resp) ∷ answers

-- The same server, with a record of its answers.
abbrev pub recorded : {W : Type 0} → Http W → Http (Recorded W)
recorded http = record {
  url_error = http.url_error;
  send_request =
      λ req w. let (r, w') = http.send_request req w.1 in (r, (add_answer req r w.0, w'));
}

exchange-recorded :
    {W : Type 0} (http : Http W) (req : HttpRequest) (resp : HttpResponse) (w : Recorded W)
    → (exchange (recorded http) req w).0 ≡ inr resp
    → (exchange (recorded http) req w).1.0 ≡ (req, resp) ∷ w.0
unfolding exchange
exchange-recorded http req resp w h = elim (Option-cases (http.url_error req.url)) [
  | inr (e, bad) ↦ ground (arith, h, bad)
  | inl good ↦ elim (Either-cases (http.send_request req w.1).0) [
    | inl (e, failed) ↦ ground (arith, h, good, failed)
    | inr (r, got) ↦ ground (arith, h, good, got)
  ]
]

send-world :
    {W : Type 0} (http : Http W) (codec : Codec) (client : Client) (user_id : ℤ) (text body : Text)
    (attachments : List Attachment) (w : W)
    → codec.marshal_message text attachments ≡ inr body
    → (send_message_with_attachments http codec client user_id text attachments w).1
      ≡ (exchange http (message_request client user_id body) w).1
unfolding send_message_with_attachments
send-world http codec client user_id text body attachments w encoded = rw encoded refl

-- The clients that main gives to NewWorker.
unfoldable pub with_clients :
    {W : Type 0} → Http W → Codec → Client → Decoders → Text → Outside W → Outside W
with_clients http codec client decoders token outside = record outside {
  send = send_message_with_attachments http codec client;
  upload = upload_attachment http codec client;
  has_media_client = true;
  download = download_file http decoders token;
}

module _ {W : Type 0} (http : Http W) (codec : Codec) (client : Client) (decoders : Decoders)
    (token : Text) (outside : Outside (Recorded W)) (max_retry : ℕ) (job : DeliveryJob) where
  abbrev pub worker_calls : Outside (Recorded W)
  worker_calls = with_clients (recorded http) codec client decoders token outside

  -- The last answer is one of the MAX API, with a status from 200 to 299, to the request that sends
  -- the rendered message to the job's user, with an attachment for each of its media.
  abbrev pub IsDelivered : Recorded W → Type 0
  IsDelivered w =
      (attachments : List Attachment) × (body : Text) × (resp : HttpResponse) × (before : List
        (HttpRequest × HttpResponse))
      × (length attachments ≡ length (render_message job).media)
      × (codec.marshal_message (render_message job).text attachments ≡ inr body)
      × (w.0 ≡ (message_request client job.max_user_id body, resp) ∷ before)
      × (200 ≤ resp.status_code)
      × (resp.status_code ≤ 299)

  Sent-IsDelivered : (w' : Recorded W) → Sent worker_calls max_retry job w' → IsDelivered w'
  unfolding with_clients
  Sent-IsDelivered w' (attachments, all_, (w, accepted)) =
      let text = (render_message job).text in
      let (resp, (body, encoded, answered), low, high) =
        subst (Verdict (recorded http) codec client job.max_user_id text attachments w)
          (ap (λ r. r.0) accepted)
          (send_message_with_attachments-Verdict (recorded http) codec client job.max_user_id text
            attachments w) in
      let req = message_request client job.max_user_id body in
      let led : w' ≡ (exchange (recorded http) req w).1 =
        sym (ap (λ r. r.1) accepted)
        ∙ send-world (recorded http) codec client job.max_user_id text body attachments w encoded in
      (
        attachments,
        body,
        resp,
        w.0,
        all_,
        encoded,
        ap (λ r. r.0) led ∙ exchange-recorded http req resp w answered,
        low,
        high,
      )

  -- The last that happened is an upload that had a token with its URL, and `null` as the answer to its
  -- file, and panicked.
  abbrev pub IsNullAnswered : Recorded W → Type 0
  IsNullAnswered w' =
      (kind : Text) × (name : Text) × (content : Reader) × (w : Recorded W) × (upload_attachment
          (recorded http) codec client kind name content w
        ≡ (upload_panicked, w'))
      × Outcome (recorded http) codec client kind name content w upload_panicked

  Panicked-IsNullAnswered : (w' : Recorded W) → Panicked worker_calls w' → IsNullAnswered w'
  unfolding with_clients
  Panicked-IsNullAnswered w' (kind, name, content, w, panicked) = (
    kind,
    name,
    content,
    w,
    panicked,
    subst (Outcome (recorded http) codec client kind name content w) (ap (λ r. r.0) panicked)
        (upload_attachment-Outcome (recorded http) codec client kind name content w),
  )

  -- With the clients of the MAX API and of Telegram, a worker that takes a job marks it completed only
  -- where the last request that was answered sent this message to the job's user, with an attachment
  -- for each of its media, and the MAX API answered it with a status from 200 to 299. Otherwise the
  -- attempt counts: the job is dead once its limit is reached, and waits in retry below it. In both
  -- cases only a failure of the database leaves the jobs as they were. The one way around this is a
  -- panic of UploadAttachment, which ends the program with the database as it was; the upload that
  -- came last then had its URL with a token, and its file answered by the JSON `null`.
  pub process_one-IsDelivered :
      (s : WorkerState (Recorded W))
      → let s' = process_one worker_calls max_retry job s in
        IsDelivered s'.world × Completed job.id s s'
        ⊎ Counted worker_calls max_retry job s s'
        ⊎ IsNullAnswered s'.world × (s'.crashed ≡ true) × (s'.store ≡ s.store)
  process_one-IsDelivered s =
      let s' = process_one worker_calls max_retry job s in
      elim (process_one-Settled worker_calls max_retry job s) [
        | inl (sent, completed) ↦ inl (Sent-IsDelivered s'.world sent, completed)
        | inr (inl counted) ↦ inr (inl counted)
        | inr (inr (panicked, crashed, kept)) ↦
            inr (inr (Panicked-IsNullAnswered s'.world panicked, crashed, kept))
      ]
