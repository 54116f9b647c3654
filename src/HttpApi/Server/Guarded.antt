-- ===== src/HttpApi/Server/Guarded.antt =====
-- internal/httpapi/server.go: who can change the database over HTTP.
use maxbridge.Prelude.{
  ℕ, ◌≡◌, refl, ap, ◌⊎◌, inl, inr, false, Option, none, some, List, arith, Option-cases,
}
use maxbridge.Text.{Text, utf8, is_empty, ==ᵗ_iff}
use maxbridge.Storage.Tables.{Tables}
use maxbridge.Storage.Database.{Db, next_fault}
use maxbridge.Storage.Stats.{get_queue_stats}
use maxbridge.Config.{Config, Environment, load_config}
use maxbridge.Config.Secrets.{load_config-secrets}
use maxbridge.HttpApi.{ServerState, Peers}
use maxbridge.HttpApi.Telegram.Answers.{handle_telegram_webhook_lem}
use maxbridge.HttpApi.Max.Links.{handle_max_webhook_guarded}
use maxbridge.HttpApi.Server.{
  WebRequest, Handler, metrics, liveness, readiness, checks, telegram_webhook, max_webhook,
  handler_of, telegram_request, max_request, Pings, handle_readiness, handle_checks, handle, serve,
}

abbrev pub tables_of {ℓ} : {A : Type ℓ} {W : Type 0} → A × ServerState W → Tables
tables_of r = r.1.store.tables

module _ (cfg : Config) (request : WebRequest) where
  -- A POST to the path of a webhook, with that webhook's secret, which is not empty.
  abbrev pub IsAllowed : Type 0
  IsAllowed =
      (request.method ≡ utf8 "POST")
      × ((request.path ≡ utf8 "/webhooks/telegram")
            × (request.telegram_secret ≡ cfg.telegram_webhook_secret)
            × (is_empty cfg.telegram_webhook_secret ≡ false)
          ⊎ (request.path ≡ utf8 "/webhooks/max")
            × (request.max_secret ≡ cfg.max_webhook_secret)
            × (is_empty cfg.max_webhook_secret ≡ false))

handler_of-telegram :
    (path : Text) → handler_of path ≡ some telegram_webhook → path ≡ utf8 "/webhooks/telegram"
unfolding handler_of
handler_of-telegram path h = (==ᵗ_iff path (utf8 "/webhooks/telegram")).0 (ground (arith, h))

handler_of-max : (path : Text) → handler_of path ≡ some max_webhook → path ≡ utf8 "/webhooks/max"
unfolding handler_of
handler_of-max path h = (==ᵗ_iff path (utf8 "/webhooks/max")).0 (ground (arith, h))

get_queue_stats-tables : (db : Db) → (get_queue_stats db).1.tables ≡ db.tables
unfolding get_queue_stats
get_queue_stats-tables db = elim (Option-cases (next_fault db.faults)) [
  | inl served ↦ rw served refl
  | inr (e, lost) ↦ rw lost refl
]

module _ {W : Type 0} (peers : Peers W) (pings : Pings W) (unicode_upper : Text → Text)
    (sha256 : Text → List ℕ) (environment : Environment) (cfg : Config) (max_retry : ℕ)
    (request : WebRequest) (s : ServerState W) where
  handler-guarded :
      (handler : Option Handler)
      → handler_of request.path ≡ handler
      → load_config environment ≡ inr cfg
      → (tables_of (handle peers pings unicode_upper sha256 cfg max_retry handler request s)
          ≡ s.store.tables)
        ⊎ IsAllowed cfg request
  unfolding handle_readiness handle_checks
  handler-guarded none e loaded = inl refl
  handler-guarded (some metrics) e loaded = inl refl
  handler-guarded (some liveness) e loaded = inl refl
  handler-guarded (some readiness) e loaded = inl refl
  handler-guarded (some checks) e loaded = inl (get_queue_stats-tables _)
  handler-guarded (some telegram_webhook) e loaded =
      elim (handle_telegram_webhook_lem peers max_retry cfg.telegram_webhook_secret
        (telegram_request request) s) [
          | inl (_, kept) ↦ inl (ap (λ db. db.tables) kept)
          | inr (upd, (method, secret, _), _) ↦ inr (
            method,
            inl (
              handler_of-telegram request.path e,
              secret,
              (load_config-secrets environment cfg loaded).0,
            ),
          )
        ]
  handler-guarded (some max_webhook) e loaded =
      elim (handle_max_webhook_guarded peers unicode_upper sha256 cfg.invite_hash_pepper s
        cfg.max_webhook_secret (max_request request)) [
          | inr kept ↦ inl kept
          | inl (upd, _, (method, secret, _), _, _) ↦ inr (
            method,
            inr (
              handler_of-max request.path e,
              secret,
              (load_config-secrets environment cfg loaded).1,
            ),
          )
        ]

  -- With a configuration that LoadConfig accepts, whatever path a request names, the server leaves all
  -- tables as they were, unless the request is a POST to the path of a webhook with the secret
  -- of that webhook, which is not empty.
  pub serve_guarded :
      load_config environment ≡ inr cfg
      → (tables_of (serve peers pings unicode_upper sha256 cfg max_retry request s)
          ≡ s.store.tables)
        ⊎ IsAllowed cfg request
  unfolding serve
  serve_guarded loaded = handler-guarded (handler_of request.path) refl loaded
