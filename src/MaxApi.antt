-- ===== src/MaxApi.antt =====
-- internal/max/client.go: the errors of the MAX API and how the worker reads them, the attachments,
-- and the names and tokens that the requests carry.
pub mod FileNames
pub mod Client
use maxbridge.Prelude.{ℕ, Bool, true, false, ◌||◌, List, [], ◌++◌, leb, ◌==◌, if◌then◌else◌, pos}
use maxbridge.Text.{Text, utf8, ◌==ᵗ◌, contains, trim_space, trim_prefix}
use maxbridge.Text.Decimal.{format_int}
use maxbridge.Text.Ascii.{lower_ascii, base}

-- The error of a call: an `*APIError`, or any other with its text.
pub data SendError : Type 0 where
  api_error : ℕ → Text → SendError
  other_error : Text → SendError

-- err.Error()
unfoldable pub error_text : SendError → Text
error_text (api_error status body) =
    utf8 "max api status=" ++ format_int (pos status) ++ utf8 " body=" ++ body
error_text (other_error detail) = detail

-- `payload` is the JSON object that the upload answered: each key with the JSON of its value.
pub record Attachment : Type 0 where
  pub kind : Text
  pub payload : List (Text × Text)

unfoldable pub is_attachment_not_ready_error : SendError → Bool
is_attachment_not_ready_error (other_error detail) = false
is_attachment_not_ready_error (api_error status body) =
    let lower = lower_ascii body in
    contains lower (utf8 "attachment.not.ready") || contains lower (utf8 "file.not.processed")

unfoldable pub is_temporary_send_error : SendError → Bool
is_temporary_send_error (other_error detail) = true
is_temporary_send_error (api_error status body) =
    if status == 429
    then true
    else if leb 500 status
    then true
    else if is_attachment_not_ready_error (api_error status body)
    then true
    else false

unfoldable pub normalize_auth_token : Text → Text
normalize_auth_token token =
    let t = trim_space token in
    let t = trim_prefix t (utf8 "Bearer ") in trim_prefix t (utf8 "bearer ")

unfoldable pub safe_file_name : Text → Text
safe_file_name name =
    let b = trim_space (base name) in
    if b ==ᵗ utf8 "." || b ==ᵗ utf8 "/" || b ==ᵗ [] then utf8 "attachment.bin" else b
