-- ===== src/HttpApi.antt =====
-- internal/httpapi/server.go: what the two webhook handlers share. Responses are their status codes.
pub mod Guards
pub mod Telegram
pub mod Max
pub mod Server
use maxbridge.Text.{==ᵗ_iff, Text, utf8, ◌==ᵗ◌}
use maxbridge.Prelude.{ℕ, suc, ◌⊎◌, inl, inr, not, Option, if◌then◌else◌, ℤ}
use maxbridge.Storage.Tables.{Time}
use maxbridge.Storage.Database.{Db, Exec, Result}
use maxbridge.MaxApi.{SendError}

-- What reading the body and json.Unmarshal made of it.
pub data Body (A : Type 0) : Type 0 where
  unreadable undecodable : Body A
  decoded : A → Body A

-- `secret` is the value of the secret's header, empty where it is missing.
pub record Request (A : Type 0) : Type 0 where
  pub method : Text
  pub secret : Text
  pub body : Body A

-- The counters of internal/app/metrics.go that the handlers move.
pub record ServerMetrics : Type 0 where
  pub invalid_webhooks : ℕ
  pub telegram_updates : ℕ
  pub telegram_events_enqueued : ℕ
  pub db_errors : ℕ
  pub invalid_links_ignored : ℕ
  pub successful_links : ℕ

pub record ServerState (W : Type 0) : Type 0 where
  pub store : Db
  pub metrics : ServerMetrics
  pub world : W

-- The clocks, and the client of MAX.
pub record Peers (W : Type 0) : Type 0 where
  pub clock : W → Time
  pub database_clock : W → Time
  pub send_message : ℤ → Text → W → Option SendError × W

module _ {A : Type 0} where
  abbrev pub decoded_body : Body A → ℕ ⊎ A
  decoded_body unreadable = inl 400
  decoded_body undecodable = inl 400
  decoded_body (decoded a) = inr a

  -- The guards of both handlers: the update of an authentic request, or a status.
  unfoldable pub guarded : Text → Request A → ℕ ⊎ A
  guarded secret request =
      if not (request.method ==ᵗ utf8 "POST")
      then inl 405
      else if not (request.secret ==ᵗ secret)
      then inl 403
      else decoded_body request.body

module _ {W : Type 0} where
  abbrev pub count_invalid_webhook : ServerState W → ServerState W
  count_invalid_webhook s = record s {
    metrics = record s.metrics { invalid_webhooks = suc s.metrics.invalid_webhooks };
  }

  abbrev pub count_db_error : ServerState W → ServerState W
  count_db_error s = record s { metrics = record s.metrics { db_errors = suc s.metrics.db_errors } }

  -- A call of the store, at the time of the database.
  abbrev pub call {ℓ} : {A : Type ℓ} → Peers W → Exec A → ServerState W → Result A × ServerState W
  call peers action s =
      let (r, db) = action (record s.store { now = peers.database_clock s.world }) in
      (r, record s { store = db })
