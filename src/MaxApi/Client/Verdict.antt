-- ===== src/MaxApi/Client/Verdict.antt =====
-- internal/max/client.go: what an answer of SendMessageWithAttachments says of the MAX API, and which
-- errors the worker takes for temporary.
use maxbridge.Prelude.{
  ℕ, ◌≤◌, ◌<◌, ◌≡◌, refl, ◌↔◌, ◌⊎◌, inl, inr, true, Option, none, some, List, arith, Bool-cases,
  Either-cases, take, ℤ,
}
use maxbridge.Text.{Text}
use maxbridge.Http.{HttpResponse, Http, exchange, is_success}
use maxbridge.MaxApi.{
  SendError, api_error, other_error, Attachment, is_attachment_not_ready_error,
  is_temporary_send_error,
}
use maxbridge.MaxApi.Client.{
  Codec, Client, message_request, send_answer, status_error, send_message_with_attachments,
}

-- The errors of the API that may pass: too many requests, those of the server, and a medium that is
-- still being processed.
abbrev pub IsPassing : HttpResponse → Type 0
IsPassing resp =
    (resp.status_code ≡ 429)
    ⊎ (500 ≤ resp.status_code)
    ⊎ (is_attachment_not_ready_error (status_error 2048 resp) ≡ true)

temporary_iff :
    (status : ℕ) (body : Text)
    → (is_temporary_send_error (api_error status body) ≡ true) ↔ (
        (status ≡ 429)
        ⊎ (500 ≤ status)
        ⊎ (is_attachment_not_ready_error (api_error status body) ≡ true))
unfolding is_temporary_send_error
temporary_iff status body = (λ h. ground (arith, h), λ h. ground (arith, h))

module _ {W : Type 0} (http : Http W) (codec : Codec) (client : Client) (user_id : ℤ) (text : Text)
    (attachments : List Attachment) (w : W) where
  -- The API answered the request that carries this message.
  abbrev pub IsAnswered : HttpResponse → Type 0
  IsAnswered resp =
      (body : Text) × (codec.marshal_message text attachments ≡ inr body)
      × ((exchange http (message_request client user_id body) w).0 ≡ inr resp)

  -- The message could not be encoded, or its request got no answer.
  abbrev pub IsUnanswered : Text → Type 0
  IsUnanswered detail =
      (codec.marshal_message text attachments ≡ inl detail)
      ⊎ (body : Text) × (codec.marshal_message text attachments ≡ inr body)
        × ((exchange http (message_request client user_id body) w).0 ≡ inl detail)

  abbrev pub Verdict : Option SendError → Type 0
  Verdict none =
      (resp : HttpResponse) × IsAnswered resp × (200 ≤ resp.status_code) × (resp.status_code ≤ 299)
  Verdict (some e) =
      ((detail : Text) × IsUnanswered detail
        × (e ≡ other_error detail)
        × (is_temporary_send_error e ≡ true))
      ⊎ (resp : HttpResponse) × IsAnswered resp
        × ((resp.status_code < 200) ⊎ (299 < resp.status_code))
        × (e ≡ api_error resp.status_code (take 2048 resp.body.bytes))
        × ((is_temporary_send_error e ≡ true) ↔ IsPassing resp)

  response-Verdict : (resp : HttpResponse) → IsAnswered resp → Verdict (send_answer (inr resp))
  response-Verdict resp answered = elim (Bool-cases (is_success resp.status_code)) [
    | inl good ↦ rw good (resp, answered, ground (arith, good), ground (arith, good))
    | inr bad ↦ rw bad (
        inr (
          resp,
          answered,
          ground (arith, bad),
          refl,
          temporary_iff resp.status_code (take 2048 resp.body.bytes),
        ))
  ]

  answer-Verdict :
      (body : Text) (r : Text ⊎ HttpResponse)
      → codec.marshal_message text attachments ≡ inr body
      → (exchange http (message_request client user_id body) w).0 ≡ r
      → Verdict (send_answer r)
  unfolding is_temporary_send_error
  answer-Verdict body (inl detail) encoded got = inl (detail, inr (body, encoded, got), refl, refl)
  answer-Verdict body (inr resp) encoded got = response-Verdict resp (body, encoded, got)

  -- SendMessageWithAttachments succeeds only where the API answered its request with a status from
  -- 200 to 299. Otherwise the error is temporary if the request got no answer; and if it got one, the
  -- error holds its status and the start of its body, and is temporary exactly for too many requests,
  -- for an error of the server, and for an attachment that is still being processed.
  pub send_message_with_attachments-Verdict :
      Verdict (send_message_with_attachments http codec client user_id text attachments w).0
  unfolding send_message_with_attachments is_temporary_send_error
  send_message_with_attachments-Verdict =
      elim (Either-cases (codec.marshal_message text attachments)) [
        | inl (e, failed) ↦ rw failed (inl (e, inl failed, refl, refl))
        | inr (body, encoded) ↦ rw encoded (answer-Verdict body _ encoded refl)
      ]
