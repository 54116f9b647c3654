-- ===== src/Domain.antt =====
-- internal/domain/models.go: the types that the other packages share. A pointer is an `Option`, a
-- string its bytes, and an `int64` an integer.
pub mod Rules
use maxbridge.Prelude.{ℕ, ℤ, Bool, Option, List}
use maxbridge.Text.{Text}

-- The two-valued string constants that the code compares by value.
pub data JobStatus : Type 0 where
  pending processing retry completed dead_letter : JobStatus

pub data DeliveryResult : Type 0 where
  success temporary permanent : DeliveryResult

pub data GroupReadiness : Type 0 where
  ready limited blocked : GroupReadiness

pub record TelegramUser : Type 0 where
  pub id : ℤ
  pub is_bot : Bool
  pub username : Text
  pub first_name : Text
  pub last_name : Text

pub record TelegramChat : Type 0 where
  pub id : ℤ
  pub title : Text
  pub username : Text
  pub kind : Text

pub record TelegramEntity : Type 0 where
  pub kind : Text

pub record TelegramPhoto : Type 0 where
  pub file_id : Text

pub record TelegramDocument : Type 0 where
  pub file_id : Text
  pub file_name : Text

pub record TelegramVideo : Type 0 where
  pub file_id : Text

pub record TelegramAudio : Type 0 where
  pub file_id : Text
  pub file_name : Text

pub record TelegramVoice : Type 0 where
  pub file_id : Text

pub record TelegramAnimation : Type 0 where
  pub file_id : Text
  pub file_name : Text

pub record TelegramMessage : Type 0 where
  pub message_id : ℤ
  pub date : ℤ
  pub text : Text
  pub caption : Text
  pub from : Option TelegramUser
  pub chat : TelegramChat
  pub entities : List TelegramEntity
  pub photo : List TelegramPhoto
  pub document : Option TelegramDocument
  pub video : Option TelegramVideo
  pub audio : Option TelegramAudio
  pub voice : Option TelegramVoice
  pub animation : Option TelegramAnimation

pub record TelegramChatMemberUpdated : Type 0 where
  pub chat : TelegramChat

pub record TelegramUpdate : Type 0 where
  pub update_id : ℤ
  pub message : Option TelegramMessage
  pub my_chat_member : Option TelegramChatMemberUpdated
  pub chat_member : Option TelegramChatMemberUpdated
  pub channel_post : Option TelegramMessage
  pub edited_message : Option TelegramMessage

pub record MaxWebhookBody : Type 0 where
  pub text : Text

pub record MaxSenderRef : Type 0 where
  pub user_id : ℤ

pub record MaxWebhookMessage : Type 0 where
  pub text : Text
  pub body : Option MaxWebhookBody
  pub sender : MaxSenderRef

pub record MaxWebhookUpdate : Type 0 where
  pub message : Option MaxWebhookMessage
