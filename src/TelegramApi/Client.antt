-- ===== src/TelegramApi/Client.antt =====
-- internal/telegram/client.go: the requests of the client. json.Unmarshal of the answers is a
-- parameter, and so is the address of a deep link.
use maxbridge.Prelude.{
  ◌^◌, ◌⊎◌, inl, inr, Bool, not, ◌||◌, Option, none, some, List, [], ◌∷◌, ◌++◌, if◌then◌else◌, take,
  ℤ, pos,
}
use maxbridge.Text.{Text, utf8, is_empty}
use maxbridge.Text.Decimal.{format_int}
use maxbridge.Text.Ascii.{base}
use maxbridge.Http.{
  Reader, limited, read_all, HttpRequest, HttpResponse, Http, exchange, is_success, encode,
}
use maxbridge.TelegramApi.{GetMeResult, GetChatMemberResult, TelegramCalls}

pub record TgResponse (A : Type 0) : Type 0 where
  pub ok : Bool
  pub description : Text
  pub result : A

pub record GetFileResult : Type 0 where
  pub file_path : Text

-- json.Unmarshal into each response, with the text of an error on the left.
pub record Decoders : Type 0 where
  pub decode_me : Text → Text ⊎ TgResponse GetMeResult
  pub decode_chat_member : Text → Text ⊎ TgResponse GetChatMemberResult
  pub decode_file : Text → Text ⊎ TgResponse GetFileResult

abbrev pub get_request : Text → HttpRequest
get_request url = record { method = utf8 "GET"; url = url; headers = []; body = [] }

abbrev with_query : Text → List (Text × Text) → Text
with_query url [] = url
with_query url (p ∷ ps) = url ++ utf8 "?" ++ encode (p ∷ ps)

-- Of the token, the method, and the query in the order of its keys.
abbrev pub method_url : Text → Text → List (Text × Text) → Text
method_url token method query =
    with_query (utf8 "https://api.telegram.org/bot" ++ token ++ utf8 "/" ++ method) query

abbrev pub file_url : Text → Text → Text
file_url token path = utf8 "https://api.telegram.org/file/bot" ++ token ++ utf8 "/" ++ path

abbrev status_text : Text → HttpResponse → Text
status_text what resp =
    what ++ format_int (pos resp.status_code) ++ utf8 " body=" ++ take 1024 resp.body.bytes

abbrev call_answer : Text ⊎ HttpResponse → Text ⊎ Text
call_answer (inl e) = inl e
call_answer (inr resp) =
    if is_success resp.status_code
    then read_all (limited (2 ^ 20) resp.body)
    else inl (status_text (utf8 "telegram api status=") resp)

abbrev decoded {ℓ} : {A : Type ℓ} → (Text → Text ⊎ A) → Text ⊎ Text → Text ⊎ A
decoded decode (inl e) = inl e
decoded decode (inr bytes) = decode bytes

abbrev result_of : {A : Type 0} → Text → Text ⊎ TgResponse A → Text ⊎ A
result_of refusal (inl e) = inl e
result_of refusal (inr parsed) = if not parsed.ok then inl refusal else inr parsed.result

abbrev path_of : Text ⊎ TgResponse GetFileResult → Text ⊎ Text
path_of (inl e) = inl e
path_of (inr parsed) =
    if not parsed.ok || is_empty parsed.result.file_path
    then inl (utf8 "telegram getFile not ok")
    else inr parsed.result.file_path

abbrev file_answer : Text → Text ⊎ HttpResponse → Text ⊎ (Reader × Text)
file_answer path (inl e) = inl e
file_answer path (inr resp) =
    if is_success resp.status_code
    then inr (resp.body, base path)
    else inl (status_text (utf8 "telegram file download status=") resp)

module _ {W : Type 0} (http : Http W) (decoders : Decoders) (token : Text) where
  unfoldable pub call : Text → List (Text × Text) → W → (Text ⊎ Text) × W
  call method query w =
      let (r, w') = exchange http (get_request (method_url token method query)) w in
      (call_answer r, w')

  unfoldable pub get_me : W → (Text ⊎ GetMeResult) × W
  get_me w =
      let (r, w') = call (utf8 "getMe") [] w in
      (result_of (utf8 "telegram getMe not ok") (decoded decoders.decode_me r), w')

  unfoldable pub get_chat_member : ℤ → ℤ → W → (Text ⊎ GetChatMemberResult) × W
  get_chat_member chat_id user_id w =
      let query =
        (utf8 "chat_id", format_int chat_id) ∷ (utf8 "user_id", format_int user_id) ∷ [] in
      let (r, w') = call (utf8 "getChatMember") query w in
      (result_of (utf8 "telegram getChatMember not ok") (decoded decoders.decode_chat_member r), w')

  abbrev error_of : Text ⊎ GetMeResult → Option Text
  error_of (inl e) = some e
  error_of (inr me) = none

  unfoldable pub ping : W → Option Text × W
  ping w = let (r, w') = get_me w in (error_of r, w')

  -- What ProbeGroup calls.
  abbrev pub telegram_calls : TelegramCalls W
  telegram_calls = record { get_me = get_me; get_chat_member = get_chat_member }

  abbrev fetch : Text ⊎ Text → W → (Text ⊎ (Reader × Text)) × W
  fetch (inl e) w = (inl e, w)
  fetch (inr path) w =
      let (r, w') = exchange http (get_request (file_url token path)) w in (file_answer path r, w')

  abbrev file_query : Text → List (Text × Text)
  file_query file_id = (utf8 "file_id", file_id) ∷ []

  unfoldable pub download_file : Text → W → (Text ⊎ (Reader × Text)) × W
  download_file file_id w =
      let (r, w') = call (utf8 "getFile") (file_query file_id) w in
      fetch (path_of (decoded decoders.decode_file r)) w'
