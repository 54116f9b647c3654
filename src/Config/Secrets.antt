-- ===== src/Config/Secrets.antt =====
-- A configuration that internal/app/config.go accepts has both secrets.
use maxbridge.Prelude.{◌≡◌, inr, false, arith}
use maxbridge.Text.{is_empty}
use maxbridge.Config.{Config, Environment, load_config}

pub load_config-secrets :
    (e : Environment) (cfg : Config)
    → load_config e ≡ inr cfg
    → (is_empty cfg.telegram_webhook_secret ≡ false) × (is_empty cfg.max_webhook_secret ≡ false)
unfolding load_config
load_config-secrets e cfg h = ground (arith, h)
