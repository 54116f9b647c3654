-- ===== src/HttpApi/Server.antt =====
-- internal/httpapi/server.go: NewServer's paths and the health checks. The server listens outside of
-- the model, and the metrics are those of Prometheus.
pub mod Guarded
use maxbridge.Prelude.{
  ℕ, inl, inr, Bool, true, false, Option, none, some, List, [], ◌∷◌, ◌++◌, if◌then◌else◌, ℤ,
}
use maxbridge.Text.{Text, utf8, ◌==ᵗ◌}
use maxbridge.Domain.{TelegramUpdate, MaxWebhookUpdate}
use maxbridge.Storage.Database.{Result, ok, err}
use maxbridge.Storage.Stats.{QueueStats, get_queue_stats}
use maxbridge.MaxApi.{SendError}
use maxbridge.Config.{Config}
use maxbridge.HttpApi.{Body, Request, ServerState, Peers, call}
use maxbridge.HttpApi.Telegram.{handle_telegram_webhook}
use maxbridge.HttpApi.Max.{handle_max_webhook}

-- A request, with its body as each webhook would decode it, and the headers with their secrets.
pub record WebRequest : Type 0 where
  pub path : Text
  pub method : Text
  pub telegram_secret : Text
  pub max_secret : Text
  pub telegram_body : Body TelegramUpdate
  pub max_body : Body MaxWebhookUpdate

abbrev pub telegram_request : WebRequest → Request TelegramUpdate
telegram_request request = record {
  method = request.method;
  secret = request.telegram_secret;
  body = request.telegram_body;
}

abbrev pub max_request : WebRequest → Request MaxWebhookUpdate
max_request request = record {
  method = request.method;
  secret = request.max_secret;
  body = request.max_body;
}

-- The handlers that NewServer has given a path.
pub data Handler : Type 0 where
  metrics liveness readiness checks telegram_webhook max_webhook : Handler

-- The mux; `none` is its answer 404.
unfoldable pub handler_of : Text → Option Handler
handler_of path =
    if path ==ᵗ utf8 "/metrics"
    then some metrics
    else if path ==ᵗ utf8 "/health/live"
    then some liveness
    else if path ==ᵗ utf8 "/health/ready"
    then some readiness
    else if path ==ᵗ utf8 "/health/checks"
    then some checks
    else if path ==ᵗ utf8 "/webhooks/telegram"
    then some telegram_webhook
    else if path ==ᵗ utf8 "/webhooks/max"
    then some max_webhook
    else none

-- A value of the JSON object that a health check answers.
pub data Field : Type 0 where
  state : Text → Field
  depths : ℕ → ℕ → ℕ → Field

-- The status, and the fields of the answer of a health check.
abbrev pub Answer : Type 0
Answer = ℕ × List (Text × Field)

-- What the health checks call: the pool's Ping and those of the clients, with the texts of errors.
pub record Pings (W : Type 0) : Type 0 where
  pub db_ping : W → Option Text × W
  pub telegram_ping : W → Option Text × W
  pub max_ping : W → Option SendError × W

abbrev report {ℓ} : {E : Type ℓ} → Text → Option E → Text
report failure (some e) = failure
report failure none = utf8 "ok"

abbrev readiness_answer : Option Text → Answer
readiness_answer (some e) =
    (503, (utf8 "status", state (utf8 "not_ready")) ∷ (utf8 "db", state (utf8 "down")) ∷ [])
readiness_answer none =
    (200, (utf8 "status", state (utf8 "ready")) ∷ (utf8 "db", state (utf8 "ok")) ∷ [])

abbrev queue_field : Result QueueStats → List (Text × Field)
queue_field (err e) = []
queue_field (ok stats) =
    (utf8 "queue", depths stats.pending_depth stats.retry_depth stats.dead_letter_depth) ∷ []

unfoldable pub handle_liveness : Answer
handle_liveness = (200, (utf8 "status", state (utf8 "ok")) ∷ [])

module _ {W : Type 0} (peers : Peers W) (pings : Pings W) where
  unfoldable pub handle_readiness : ServerState W → Answer × ServerState W
  handle_readiness s =
      let (db, w) = pings.db_ping s.world in (readiness_answer db, record s { world = w })

  unfoldable pub handle_checks : ServerState W → Answer × ServerState W
  handle_checks s =
      let (db, w1) = pings.db_ping s.world in
      let (telegram, w2) = pings.telegram_ping w1 in
      let (max, w3) = pings.max_ping w2 in
      let (stats, s') = call peers get_queue_stats (record s { world = w3 }) in
      let fields =
        (utf8 "uptime", state (utf8 "ok"))
        ∷ (utf8 "db", state (report (utf8 "fail") db))
        ∷ (utf8 "telegram", state (report (utf8 "degraded") telegram))
        ∷ (utf8 "max", state (report (utf8 "degraded") max))
        ∷ queue_field stats in
      ((200, fields), s')

  -- `max_retry` is cfg.WorkerMaxRetry, which is taken not to be negative.
  module _ (unicode_upper : Text → Text) (sha256 : Text → List ℕ) (cfg : Config)
      (max_retry : ℕ) where
    abbrev status_only : ℕ × ServerState W → Answer × ServerState W
    status_only (status, s) = ((status, []), s)

    abbrev pub handle : Option Handler → WebRequest → ServerState W → Answer × ServerState W
    handle none request s = ((404, []), s)
    handle (some metrics) request s = ((200, []), s)
    handle (some liveness) request s = (handle_liveness, s)
    handle (some readiness) request s = handle_readiness s
    handle (some checks) request s = handle_checks s
    handle (some telegram_webhook) request s = status_only (
        handle_telegram_webhook peers cfg.telegram_webhook_secret max_retry
          (telegram_request request) s)
    handle (some max_webhook) request s = status_only (
        handle_max_webhook peers unicode_upper sha256 cfg.invite_hash_pepper cfg.max_webhook_secret
          (max_request request) s)

    unfoldable pub serve : WebRequest → ServerState W → Answer × ServerState W
    serve request s = handle (handler_of request.path) request s
