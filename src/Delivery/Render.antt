-- ===== src/Delivery/Render.antt =====
-- internal/delivery/worker.go: renderMessage, the names it shows, and extractOutboundMedia.
pub mod Content
use maxbridge.Prelude.{
  Bool, not, Option, none, some, List, [], ◌∷◌, ◌++◌, if◌then◌else◌, pos, is_positive,
}
use maxbridge.Text.{Text, utf8, is_empty, trim_space, trim_prefix, join}
use maxbridge.Text.Decimal.{format_int}
use maxbridge.Domain.{
  TelegramMessage, TelegramChat, TelegramUser, TelegramPhoto, TelegramDocument, TelegramVideo,
  TelegramAudio, TelegramVoice, TelegramAnimation,
}
use maxbridge.Storage.Tables.{Payload, encoded, empty_object, malformed, DeliveryJob}

pub record OutboundMedia : Type 0 where
  pub file_id : Text
  pub file_name : Text
  pub attachment_type : Text
  pub upload_type : Text

pub record OutboundMessage : Type 0 where
  pub text : Text
  pub media : List OutboundMedia

abbrev pub is_blank : Text → Bool
is_blank s = is_empty (trim_space s)

unfoldable pub telegram_chat_name : TelegramChat → Text
telegram_chat_name chat =
    let title = trim_space chat.title in
    let username = trim_space chat.username in
    if not (is_empty title)
    then title
    else if not (is_empty username)
    then utf8 "@" ++ trim_prefix username (utf8 "@")
    else utf8 "chat_" ++ format_int chat.id

unfoldable pub telegram_sender_name : Option TelegramUser → Text
telegram_sender_name none = utf8 "unknown_sender"
telegram_sender_name (some from) =
    let full_name =
      trim_space (trim_space from.first_name ++ utf8 " " ++ trim_space from.last_name) in
    let username = trim_space from.username in
    if not (is_empty full_name)
    then full_name
    else if not (is_empty username)
    then utf8 "@" ++ trim_prefix username (utf8 "@")
    else if is_positive from.id
    then utf8 "user_" ++ format_int from.id
    else utf8 "unknown_sender"

-- One medium, unless its file id is blank.
abbrev pub medium : Text → Text → Text → List OutboundMedia
medium file_id file_name kind =
    if is_blank file_id
    then []
    else record {
      file_id = file_id;
      file_name = file_name;
      attachment_type = kind;
      upload_type = kind;
    }
      ∷ []

abbrev name_or : Text → Text → Text
name_or file_name default =
    let name = trim_space file_name in if is_empty name then default else name

last_photo : List TelegramPhoto → List OutboundMedia
last_photo [] = []
last_photo (photo ∷ []) = medium photo.file_id (utf8 "photo.jpg") (utf8 "image")
last_photo (photo ∷ next ∷ rest) = last_photo (next ∷ rest)

document_media : Option TelegramDocument → List OutboundMedia
document_media none = []
document_media (some d) = medium d.file_id d.file_name (utf8 "file")

video_media : Option TelegramVideo → List OutboundMedia
video_media none = []
video_media (some v) = medium v.file_id (utf8 "video.mp4") (utf8 "video")

audio_media : Option TelegramAudio → List OutboundMedia
audio_media none = []
audio_media (some a) = medium a.file_id (name_or a.file_name (utf8 "audio.mp3")) (utf8 "audio")

voice_media : Option TelegramVoice → List OutboundMedia
voice_media none = []
voice_media (some v) = medium v.file_id (utf8 "voice.ogg") (utf8 "file")

animation_media : Option TelegramAnimation → List OutboundMedia
animation_media none = []
animation_media (some a) =
    medium a.file_id (name_or a.file_name (utf8 "animation.gif")) (utf8 "file")

unfoldable pub extract_outbound_media : TelegramMessage → List OutboundMedia
unfolding last_photo document_media video_media audio_media voice_media animation_media
extract_outbound_media msg =
    last_photo msg.photo
    ++ document_media msg.document
    ++ video_media msg.video
    ++ audio_media msg.audio
    ++ voice_media msg.voice
    ++ animation_media msg.animation

-- A text that is not blank, trimmed.
abbrev part : Text → List Text
part s = let t = trim_space s in if is_empty t then [] else t ∷ []

abbrev pub no_content : TelegramMessage → Text
no_content msg =
    utf8 "[bridge] сообщение без текста и вложений\nchat="
    ++ format_int msg.chat.id
    ++ utf8 " msg="
    ++ format_int msg.message_id

-- The placeholder, where there is neither a part nor a medium.
abbrev pub or_no_content : TelegramMessage → List Text → List OutboundMedia → List Text
or_no_content msg [] [] = no_content msg ∷ []
or_no_content msg [] (m ∷ ms) = []
or_no_content msg (p ∷ ps) media = p ∷ ps

abbrev pub body_parts : TelegramMessage → List OutboundMedia → List Text
body_parts msg media = or_no_content msg (part msg.text ++ part msg.caption) media

abbrev pub header : TelegramMessage → Text
header msg = telegram_chat_name msg.chat ++ utf8 " - " ++ telegram_sender_name msg.from

abbrev with_body : Text → List Text → Text
with_body head [] = head
with_body head (p ∷ ps) = head ++ (utf8 "\n" ++ join (p ∷ ps) (utf8 "\n"))

unfoldable pub render_decoded : TelegramMessage → OutboundMessage
render_decoded msg =
    let media = extract_outbound_media msg in
    record { text = with_body (header msg) (body_parts msg media); media = media }

-- What `json.Unmarshal` makes of `{}`.
abbrev pub zero_message : TelegramMessage
zero_message = record {
  message_id = pos 0;
  date = pos 0;
  text = [];
  caption = [];
  from = none;
  chat = record { id = pos 0; title = []; username = []; kind = [] };
  entities = [];
  photo = [];
  document = none;
  video = none;
  audio = none;
  voice = none;
  animation = none;
}

abbrev pub undecodable : DeliveryJob → OutboundMessage
undecodable job = record {
  text =
      utf8 "[bridge] tg:"
      ++ format_int job.telegram_chat_id
      ++ utf8 " msg:"
      ++ format_int job.telegram_message_id;
  media = [];
}

unfoldable pub render_payload : Payload → DeliveryJob → OutboundMessage
render_payload (encoded msg) job = render_decoded msg
render_payload empty_object job = render_decoded zero_message
render_payload malformed job = undecodable job

unfoldable pub render_message : DeliveryJob → OutboundMessage
render_message job = render_payload job.payload job
