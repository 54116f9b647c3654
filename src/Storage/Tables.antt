-- ===== src/Storage/Tables.antt =====
-- The rows of the database. Times are nanoseconds; a nullable column is an `Option`.
use maxbridge.Prelude.{ℕ, ℤ, Bool, Option, List, ◌*◌}
use maxbridge.Text.{Text}
use maxbridge.Domain.{JobStatus, DeliveryResult, GroupReadiness, TelegramMessage}

abbrev pub Time : Type 0
Time = ℕ

abbrev pub second : ℕ
second = 1000000000

abbrev pub hour : ℕ
hour = 3600 * second

abbrev pub day : ℕ
day = 24 * hour

pub record GroupRow : Type 0 where
  pub id : ℤ
  pub telegram_chat_id : ℤ
  pub title : Text
  pub readiness : GroupReadiness
  pub readiness_reason : Text
  pub is_enabled : Bool
  pub created_at : Time
  pub updated_at : Time

pub record UserRow : Type 0 where
  pub id : ℤ
  pub max_user_id : ℤ
  pub full_name : Option Text
  pub is_active : Bool
  pub is_blocked : Bool
  pub linked_at : Time
  pub last_delivery_status : Text
  pub last_delivery_error : Text
  pub last_delivery_at : Option Time
  pub created_at : Time
  pub updated_at : Time

-- The program stores texts only in the metadata of an invite.
abbrev pub Metadata : Type 0
Metadata = List (Text × Text)

pub record Invite : Type 0 where
  pub id : ℤ
  pub scope_type : Text
  pub scope_id : Text
  pub code_hash : Text
  pub expires_at : Time
  pub used_at : Option Time
  pub revoked_at : Option Time
  pub single_use : Bool
  pub metadata : Metadata
  pub created_at : Time

pub record RouteRow : Type 0 where
  pub id : ℤ
  pub telegram_chat_id : ℤ
  pub max_user_id : ℤ
  pub enabled : Bool
  pub filter_mode : Text
  pub ignore_bot_messages : Bool
  pub last_delivery_status : Text
  pub last_delivery_error : Text
  pub created_at : Time
  pub updated_at : Time

pub record DedupeRow : Type 0 where
  pub id : ℤ
  pub dedupe_key : Text
  pub route_id : ℤ
  pub telegram_chat_id : ℤ
  pub telegram_message_id : ℤ
  pub expires_at : Time
  pub created_at : Time

-- `payload_json`: the JSON of a message, `{}`, or a value that does not decode as a message.
pub data Payload : Type 0 where
  encoded : TelegramMessage → Payload
  empty_object malformed : Payload

pub record DeliveryJob : Type 0 where
  pub id : ℤ
  pub route_id : ℤ
  pub telegram_chat_id : ℤ
  pub telegram_message_id : ℤ
  pub max_user_id : ℤ
  pub payload : Payload
  pub status : JobStatus
  pub attempts : ℕ
  pub max_attempts : ℕ
  pub available_at : Time
  pub leased_until : Option Time
  pub last_error : Text
  pub created_at : Time
  pub updated_at : Time

pub record AttemptRow : Type 0 where
  pub id : ℤ
  pub job_id : ℤ
  pub result : DeliveryResult
  pub error_class : Text
  pub error_detail : Text
  pub latency_ms : ℕ
  pub created_at : Time

pub record EventRow : Type 0 where
  pub id : ℤ
  pub level : Text
  pub source : Text
  pub message : Text
  pub created_at : Time

pub record Tables : Type 0 where
  pub groups : List GroupRow
  pub users : List UserRow
  pub invites : List Invite
  pub routes : List RouteRow
  pub dedupe : List DedupeRow
  pub jobs : List DeliveryJob
  pub attempts : List AttemptRow
  pub events : List EventRow

-- The next value of each BIGSERIAL column.
pub record Sequences : Type 0 where
  pub groups : ℕ
  pub users : ℕ
  pub invites : ℕ
  pub routes : ℕ
  pub dedupe : ℕ
  pub jobs : ℕ
  pub attempts : ℕ
  pub events : ℕ
