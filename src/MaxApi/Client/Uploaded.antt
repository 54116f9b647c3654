-- ===== src/MaxApi/Client/Uploaded.antt =====
-- internal/max/client.go: what UploadAttachment has done where it returns an attachment.
use maxbridge.Prelude.{
  ◌∷◌, refl, none, some, ◌⊎◌, ◌^◌, ◌≡◌, inl, inr, true, false, Option, arith, Bool-cases,
  Either-cases,
}
use maxbridge.MaxApi.Client.{
  none, some, has_token, upload_failed, upload_done, upload_panicked, put_token, with_token, Upload,
  upload_file, upload_attachment, Codec, Client, UploadInitResponse, Payload, upload_url_request,
  file_request, request_upload_url,
}
use maxbridge.Text.{Text, utf8, ◌==ᵗ◌, is_empty, trim_space}
use maxbridge.Http.{Reader, limited, read_all, HttpResponse, Http, exchange, is_success}
use maxbridge.MaxApi.{safe_file_name}

has_token-put : (payload : Payload) (v : Text) → has_token ((utf8 "token", v) ∷ payload) ≡ true
unfolding has_token ◌==ᵗ◌
has_token-put payload v = refl

module _ {W : Type 0} (http : Http W) (codec : Codec) (client : Client) (upload_type name : Text)
    (content : Reader) (w : W) where
  -- The API gave a URL, with a status of success.
  abbrev pub HasUrl : UploadInitResponse → Type 0
  HasUrl out =
      (resp : HttpResponse) × ((exchange http (upload_url_request client upload_type) w).0
        ≡ inr resp)
      × (is_success resp.status_code ≡ true)
      × (codec.decode_upload (limited (2 ^ 20) resp.body) ≡ inr out)
      × (is_empty (trim_space out.url) ≡ false)

  abbrev after_url : W
  after_url = (exchange http (upload_url_request client upload_type) w).1

  -- The whole content went to the URL, in a file with a safe name, and was answered with success.
  abbrev pub HasFile : UploadInitResponse → Option Payload → Type 0
  HasFile out payload =
      (bytes : Text) × (resp : HttpResponse) × (read_all content ≡ inr bytes)
      × ((exchange http (file_request client out.url (codec.form_file (safe_file_name name) bytes))
            after_url).0
          ≡ inr resp)
      × (is_success resp.status_code ≡ true)
      × (codec.decode_payload (limited (2 ^ 21) resp.body) ≡ inr payload)

  request_upload_url-HasUrl :
      (url token : Text)
      → (request_upload_url http codec client upload_type w).0 ≡ inr (url, token)
      → (out : UploadInitResponse) × HasUrl out × (url ≡ out.url) × (token ≡ trim_space out.token)
  unfolding request_upload_url
  request_upload_url-HasUrl url token h =
      elim (Either-cases (exchange http (upload_url_request client upload_type) w).0) [
        | inl (e, failed) ↦ ground (arith, h, failed)
        | inr (resp, got) ↦ elim (Bool-cases (is_success resp.status_code)) [
          | inr bad ↦ ground (arith, h, got, bad)
          | inl good ↦ elim (Either-cases (codec.decode_upload (limited (2 ^ 20) resp.body))) [
            | inl (e, failed) ↦ ground (arith, h, got, good, failed)
            | inr (out, decoded) ↦ elim (Bool-cases (is_empty (trim_space out.url))) [
              | inl empty ↦ ground (arith, h, got, good, decoded, empty)
              | inr given ↦ (
                out,
                (resp, got, good, decoded, given),
                ground (arith, h, got, good, decoded, given),
                ground (arith, h, got, good, decoded, given),
              )
            ]
          ]
        ]
      ]

  upload_file-HasFile :
      (out : UploadInitResponse) (payload : Option Payload)
      → (upload_file http codec client out.url name content after_url).0 ≡ inr payload
      → HasFile out payload
  unfolding upload_file
  upload_file-HasFile out payload h = elim (Either-cases (read_all content)) [
    | inl (e, failed) ↦ ground (arith, h, failed)
    | inr (bytes, whole) ↦
        let req = file_request client out.url (codec.form_file (safe_file_name name) bytes) in
        elim (Either-cases (exchange http req after_url).0) [
          | inl (e, failed) ↦ ground (arith, h, whole, failed)
          | inr (resp, got) ↦ elim (Bool-cases (is_success resp.status_code)) [
            | inr bad ↦ ground (arith, h, whole, got, bad)
            | inl good ↦ elim (Either-cases (codec.decode_payload (limited (2 ^ 21) resp.body))) [
              | inl (e, failed) ↦ ground (arith, h, whole, got, good, failed)
              | inr (p, decoded) ↦
                  (bytes, resp, whole, got, good, ground (arith, h, whole, got, good, decoded))
            ]
          ]
        ]
  ]

  -- What the result says: the token that came with the URL is in the payload of an attachment, and
  -- only an answer `null` to the file, where there is such a token, makes the client panic.
  abbrev pub Outcome : Upload → Type 0
  Outcome (upload_failed e) = Unit
  Outcome (upload_done a) =
      (out : UploadInitResponse) × (payload : Option Payload) × HasUrl out
      × HasFile out payload
      × (a.kind ≡ upload_type)
      × ((is_empty (trim_space out.token) ≡ true) ⊎ (has_token a.payload ≡ true))
  Outcome upload_panicked =
      (out : UploadInitResponse) × HasUrl out
      × HasFile out none
      × (is_empty (trim_space out.token) ≡ false)

  put_token-Outcome :
      (out : UploadInitResponse) (payload : Option Payload)
      → HasUrl out
      → HasFile out payload
      → Outcome (put_token http codec client upload_type (trim_space out.token) payload)
  unfolding put_token
  put_token-Outcome out none url file = elim (Bool-cases (is_empty (trim_space out.token))) [
    | inl no_token ↦ rw no_token (out, none, url, file, refl, inl no_token)
    | inr token ↦ rw token (out, url, file, token)
  ]
  put_token-Outcome out (some payload) url file =
      elim (Bool-cases (is_empty (trim_space out.token))) [
        | inl no_token ↦ rw no_token (out, some payload, url, file, refl, inl no_token)
        | inr token ↦ elim (Bool-cases (has_token payload)) [
          | inl there ↦ rw (token, there) (out, some payload, url, file, refl, inr there)
          | inr missing ↦
              rw (token, missing)
                (out, some payload, url, file, refl, inr (has_token-put payload _))
        ]
      ]

  upload_file-Outcome :
      (out : UploadInitResponse)
      → HasUrl out
      → Outcome (
          with_token http codec client upload_type
            (trim_space out.token)
            (upload_file http codec client out.url name content after_url).0)
  upload_file-Outcome out url =
      elim (Either-cases (upload_file http codec client out.url name content after_url).0) [
        | inl (e, failed) ↦ rw failed tt
        | inr (payload, sent) ↦
            rw sent (put_token-Outcome out payload url (upload_file-HasFile out payload sent))
      ]

  -- Whatever the API answers, UploadAttachment returns an attachment only where the API gave a URL and
  -- took the whole content there, in a file with a safe name, both with a status from 200 to 299. The
  -- attachment then is of the type asked for, and has a token if one came with the URL. It panics
  -- only where a token came with the URL, and the answer to the file was the JSON `null`.
  pub upload_attachment-Outcome :
      Outcome (upload_attachment http codec client upload_type name content w).0
  unfolding upload_attachment request_upload_url
  upload_attachment-Outcome =
      elim (Either-cases (request_upload_url http codec client upload_type w).0) [
        | inl (e, failed) ↦ rw failed tt
        | inr ((url, token), given) ↦
            let (out, has_url, is_url, is_token) = request_upload_url-HasUrl url token given in
            rw (given, is_url, is_token) (upload_file-Outcome out has_url)
      ]
