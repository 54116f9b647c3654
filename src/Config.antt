-- ===== src/Config.antt =====
-- internal/app/config.go. The environment, the files and time.ParseDuration are parameters; durations
-- are nanoseconds.
pub mod Secrets
use maxbridge.Prelude.{
  ℕ, suc, ◌-◌, ◌*◌, ◌%◌, ◌^◌, ◌⊎◌, inl, inr, not, Option, none, some, [], ltb, if◌then◌else◌, ℤ,
  pos, negsuc,
}
use maxbridge.Text.{Text, utf8, is_empty, trim_space}
use maxbridge.Text.Decimal.{parse_int}
use maxbridge.Storage.Tables.{second}

pub record Config : Type 0 where
  pub env : Text
  pub log_level : Text
  pub http_addr : Text
  pub metrics_addr : Text
  pub db_dsn : Text
  pub invite_hash_pepper : Text
  pub telegram_token : Text
  pub telegram_webhook_secret : Text
  pub max_token : Text
  pub max_webhook_secret : Text
  pub max_api_base_url : Text
  pub webhook_read_timeout : ℤ
  pub webhook_write_timeout : ℤ
  pub max_webhook_body_bytes : ℤ
  pub worker_concurrency : ℤ
  pub worker_lease : ℤ
  pub worker_max_retry : ℤ
  pub worker_rate_limit_rps : ℤ
  pub retention_jobs_days : ℤ
  pub retention_dedupe_days : ℤ
  pub retention_payload_hours : ℤ

-- The value of 64 bits as an `int64`.
abbrev signed : ℕ → ℤ
signed r = if ltb r (2 ^ 63) then pos r else negsuc (2 ^ 64 - r - 1)

-- `n * time.Second`, which wraps around.
unfoldable pub times_second : ℤ → ℤ
times_second (pos n) = signed (n * second % 2 ^ 64)
times_second (negsuc n) = signed ((2 ^ 64 - suc n * second % 2 ^ 64) % 2 ^ 64)

-- `os.Getenv`, which gives the empty text for a missing variable, `os.ReadFile`, and
-- `time.ParseDuration`, where they succeed.
pub record Environment : Type 0 where
  pub getenv : Text → Text
  pub read_file : Text → Option Text
  pub parse_duration : Text → Option ℤ

abbrev or_else {ℓ} : {A : Type ℓ} → Option A → A → A
or_else none fallback = fallback
or_else (some a) fallback = a

abbrev trimmed : Option Text → Text
trimmed none = []
trimmed (some data_) = trim_space data_

module _ (e : Environment) where
  unfoldable pub read_secret : Text → Text → Text
  read_secret value_key file_key =
      let val = e.getenv value_key in
      let path = e.getenv file_key in
      if not (is_empty val) then val else if is_empty path then [] else trimmed (e.read_file path)

  unfoldable pub getenv : Text → Text → Text
  getenv key fallback = let v = e.getenv key in if not (is_empty v) then v else fallback

  -- parseInt and parseInt64: an `int` has 64 bits.
  unfoldable pub parse_int_env : Text → ℤ → ℤ
  parse_int_env key fallback =
      let raw = e.getenv key in
      if not (is_empty raw) then or_else (parse_int raw) fallback else fallback

  unfoldable pub parse_duration_env : Text → ℤ → ℤ
  parse_duration_env key fallback =
      let raw = e.getenv key in
      if not (is_empty raw) then or_else (e.parse_duration raw) fallback else fallback

  unfoldable pub read_config : Config
  read_config = record {
    env = getenv (utf8 "APP_ENV") (utf8 "dev");
    log_level = getenv (utf8 "LOG_LEVEL") (utf8 "info");
    http_addr = getenv (utf8 "HTTP_ADDR") (utf8 ":8080");
    metrics_addr = getenv (utf8 "METRICS_ADDR") (utf8 ":9090");
    db_dsn = read_secret (utf8 "DB_DSN") (utf8 "DB_DSN_FILE");
    invite_hash_pepper = read_secret (utf8 "INVITE_HASH_PEPPER") (utf8 "INVITE_HASH_PEPPER_FILE");
    telegram_token = read_secret (utf8 "TELEGRAM_BOT_TOKEN") (utf8 "TELEGRAM_BOT_TOKEN_FILE");
    telegram_webhook_secret =
        read_secret (utf8 "TELEGRAM_WEBHOOK_SECRET") (utf8 "TELEGRAM_WEBHOOK_SECRET_FILE");
    max_token = read_secret (utf8 "MAX_BOT_TOKEN") (utf8 "MAX_BOT_TOKEN_FILE");
    max_webhook_secret = read_secret (utf8 "MAX_WEBHOOK_SECRET") (utf8 "MAX_WEBHOOK_SECRET_FILE");
    max_api_base_url = getenv (utf8 "MAX_API_BASE_URL") (utf8 "https://botapi.max.ru");
    webhook_read_timeout = parse_duration_env (utf8 "WEBHOOK_READ_TIMEOUT") (pos (5 * second));
    webhook_write_timeout = parse_duration_env (utf8 "WEBHOOK_WRITE_TIMEOUT") (pos (5 * second));
    max_webhook_body_bytes = parse_int_env (utf8 "MAX_WEBHOOK_BODY_BYTES") (pos (256 * 1024));
    worker_concurrency = parse_int_env (utf8 "WORKER_CONCURRENCY") (pos 8);
    worker_lease = times_second (parse_int_env (utf8 "WORKER_LEASE_SECONDS") (pos 60));
    worker_max_retry = parse_int_env (utf8 "WORKER_MAX_RETRY") (pos 8);
    worker_rate_limit_rps = parse_int_env (utf8 "WORKER_RATE_LIMIT_RPS") (pos 20);
    retention_jobs_days = parse_int_env (utf8 "RETENTION_JOBS_DAYS") (pos 30);
    retention_dedupe_days = parse_int_env (utf8 "RETENTION_DEDUPE_DAYS") (pos 14);
    retention_payload_hours = parse_int_env (utf8 "RETENTION_PAYLOAD_HOURS") (pos 24);
  }

  -- The left side is the error's text.
  unfoldable pub load_config : Text ⊎ Config
  load_config =
      let cfg = read_config in
      if is_empty cfg.db_dsn
      then inl (utf8 "missing DB_DSN or DB_DSN_FILE")
      else if is_empty cfg.invite_hash_pepper
      then inl (utf8 "missing INVITE_HASH_PEPPER or INVITE_HASH_PEPPER_FILE")
      else if is_empty cfg.telegram_webhook_secret
      then inl (utf8 "missing TELEGRAM_WEBHOOK_SECRET or TELEGRAM_WEBHOOK_SECRET_FILE")
      else if is_empty cfg.telegram_token
      then inl (utf8 "missing TELEGRAM_BOT_TOKEN or TELEGRAM_BOT_TOKEN_FILE")
      else if is_empty cfg.max_webhook_secret
      then inl (utf8 "missing MAX_WEBHOOK_SECRET or MAX_WEBHOOK_SECRET_FILE")
      else if is_empty cfg.max_token
      then inl (utf8 "missing MAX_BOT_TOKEN or MAX_BOT_TOKEN_FILE")
      else inr cfg
