-- ===== src/MaxApi/Client.antt =====
-- internal/max/client.go: the requests of the client. JSON and multipart bodies are parameters.
pub mod Verdict
pub mod Uploaded
use maxbridge.Prelude.{
  ◌||◌, ℕ, ◌^◌, ◌⊎◌, inl, inr, Bool, true, false, not, ◌&&◌, Option, none, some, List, [], ◌∷◌,
  ◌++◌, any, leb, if◌then◌else◌, take, ℤ,
}
use maxbridge.Text.{Text, utf8, ◌==ᵗ◌, is_empty, trim_space}
use maxbridge.Text.Decimal.{format_int}
use maxbridge.Http.{
  Reader, limited, read_all, HttpRequest, HttpResponse, Http, exchange, is_success, query_escape,
}
use maxbridge.MaxApi.{
  SendError, api_error, other_error, Attachment, normalize_auth_token, safe_file_name,
}

pub record Client : Type 0 where
  pub base_url : Text
  pub token : Text

pub record UploadInitResponse : Type 0 where
  pub url : Text
  pub token : Text

-- The keys of a JSON object, each with the JSON of its value.
abbrev pub Payload : Type 0
Payload = List (Text × Text)

-- encoding/json and mime/multipart, with the text of an error on the left.
pub record Codec : Type 0 where
  -- json.Marshal of a SendMessageRequest
  pub marshal_message : Text → List Attachment → Text ⊎ Text
  -- json.Decoder.Decode
  pub decode_upload : Reader → Text ⊎ UploadInitResponse
  -- The same for a map, which the JSON `null` leaves nil.
  pub decode_payload : Reader → Text ⊎ Option Payload
  -- The JSON of a string
  pub quoted : Text → Text
  -- The body with the file of a name and a content in its field `data`, and its content type
  pub form_file : Text → Text → Text × Text

-- What an upload comes to: a write to a nil map panics.
pub data Upload : Type 0 where
  upload_panicked : Upload
  upload_failed : SendError → Upload
  upload_done : Attachment → Upload

-- `string(bs)` of what is read of the body, with the error of reading it dropped.
abbrev pub status_error : ℕ → HttpResponse → SendError
status_error limit resp = api_error resp.status_code (take limit resp.body.bytes)

abbrev authorization : Client → Text × Text
authorization client = (utf8 "Authorization", normalize_auth_token client.token)

abbrev pub message_request : Client → ℤ → Text → HttpRequest
message_request client user_id body = record {
  method = utf8 "POST";
  url = client.base_url ++ utf8 "/messages?user_id=" ++ query_escape (format_int user_id);
  headers = authorization client ∷ (utf8 "Content-Type", utf8 "application/json") ∷ [];
  body = body;
}

abbrev pub upload_url_request : Client → Text → HttpRequest
upload_url_request client upload_type = record {
  method = utf8 "POST";
  url = client.base_url ++ utf8 "/uploads?type=" ++ query_escape upload_type;
  headers = authorization client ∷ [];
  body = [];
}

abbrev pub file_request : Client → Text → Text × Text → HttpRequest
file_request client url form = record {
  method = utf8 "POST";
  url = url;
  headers = authorization client ∷ (utf8 "Content-Type", form.1) ∷ [];
  body = form.0;
}

abbrev ping_request : Client → HttpRequest
ping_request client = record {
  method = utf8 "GET";
  url = client.base_url ++ utf8 "/subscriptions";
  headers = authorization client ∷ [];
  body = [];
}

abbrev ping_answer : Text ⊎ HttpResponse → Option SendError
ping_answer (inl e) = some (other_error e)
ping_answer (inr resp) =
    if leb 200 resp.status_code && leb resp.status_code 499
    then none
    else some (status_error 1024 resp)

abbrev pub send_answer : Text ⊎ HttpResponse → Option SendError
send_answer (inl e) = some (other_error e)
send_answer (inr resp) = if is_success resp.status_code then none else some (status_error 2048 resp)

abbrev checked_url : UploadInitResponse → SendError ⊎ (Text × Text)
checked_url out =
    if is_empty (trim_space out.url)
    then inl (other_error (utf8 "max uploads returned empty url"))
    else inr (out.url, trim_space out.token)

abbrev url_decoded : Text ⊎ UploadInitResponse → SendError ⊎ (Text × Text)
url_decoded (inl e) = inl (other_error e)
url_decoded (inr out) = checked_url out

abbrev payload_decoded : Text ⊎ Option Payload → SendError ⊎ Option Payload
payload_decoded (inl e) = inl (other_error e)
payload_decoded (inr payload) = inr payload

unfoldable pub has_token : Payload → Bool
has_token payload = any (λ p. p.0 ==ᵗ utf8 "token") payload

module _ {W : Type 0} (http : Http W) (codec : Codec) (client : Client) where
  unfoldable pub ping : W → Option SendError × W
  ping w = let (r, w') = exchange http (ping_request client) w in (ping_answer r, w')

  abbrev send_body : ℤ → Text ⊎ Text → W → Option SendError × W
  send_body user_id (inl e) w = (some (other_error e), w)
  send_body user_id (inr body) w =
      let (r, w') = exchange http (message_request client user_id body) w in (send_answer r, w')

  unfoldable pub send_message_with_attachments :
      ℤ → Text → List Attachment → W → Option SendError × W
  send_message_with_attachments user_id text attachments w =
      send_body user_id (codec.marshal_message text attachments) w

  unfoldable pub send_message : ℤ → Text → W → Option SendError × W
  send_message user_id text w = send_message_with_attachments user_id text [] w

  abbrev url_answer : Text ⊎ HttpResponse → SendError ⊎ (Text × Text)
  url_answer (inl e) = inl (other_error e)
  url_answer (inr resp) =
      if is_success resp.status_code
      then url_decoded (codec.decode_upload (limited (2 ^ 20) resp.body))
      else inl (status_error 2048 resp)

  -- The URL, and the token that comes with it.
  unfoldable pub request_upload_url : Text → W → (SendError ⊎ (Text × Text)) × W
  request_upload_url upload_type w =
      let (r, w') = exchange http (upload_url_request client upload_type) w in (url_answer r, w')

  abbrev file_answer : Text ⊎ HttpResponse → SendError ⊎ Option Payload
  file_answer (inl e) = inl (other_error e)
  file_answer (inr resp) =
      if is_success resp.status_code
      then payload_decoded (codec.decode_payload (limited (2 ^ 21) resp.body))
      else inl (status_error 2048 resp)

  abbrev send_file : Text → Text → Text ⊎ Text → W → (SendError ⊎ Option Payload) × W
  send_file url name (inl e) w = (inl (other_error e), w)
  send_file url name (inr content) w =
      let form = codec.form_file (safe_file_name name) content in
      let (r, w') = exchange http (file_request client url form) w in (file_answer r, w')

  unfoldable pub upload_file : Text → Text → Reader → W → (SendError ⊎ Option Payload) × W
  upload_file url name content w = send_file url name (read_all content) w

  -- `payload["token"] = prefetchedToken`, where there is one and the payload has none.
  unfoldable pub put_token : Text → Text → Option Payload → Upload
  put_token upload_type token none =
      if is_empty token
      then upload_done (record { kind = upload_type; payload = [] })
      else upload_panicked
  put_token upload_type token (some payload) = upload_done (record {
    kind = upload_type;
    payload =
        if is_empty token || has_token payload
        then payload
        else (utf8 "token", codec.quoted token) ∷ payload;
  })

  abbrev pub with_token : Text → Text → SendError ⊎ Option Payload → Upload
  with_token upload_type token (inl e) = upload_failed e
  with_token upload_type token (inr payload) = put_token upload_type token payload

  abbrev upload_to : Text → Text → Reader → SendError ⊎ (Text × Text) → W → Upload × W
  upload_to upload_type name content (inl e) w = (upload_failed e, w)
  upload_to upload_type name content (inr (url, token)) w =
      let (payload, w') = upload_file url name content w in
      (with_token upload_type token payload, w')

  unfoldable pub upload_attachment : Text → Text → Reader → W → Upload × W
  upload_attachment upload_type name content w =
      let (r, w') = request_upload_url upload_type w in upload_to upload_type name content r w'
