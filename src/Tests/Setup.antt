-- ===== src/Tests/Setup.antt =====
-- The theorems on the configuration and on the probe of a group.
use maxbridge.Config.{read_secret, Config, Environment, load_config, read_config}
use maxbridge.Prelude.{◌≡◌, refl, ◌↔◌, inr, true, none, some, ◌⊎◌, ℕ, [], pos}
use maxbridge.Text.{utf8}
use maxbridge.Domain.{ready}
use maxbridge.HttpApi.{Request, undecodable}
use maxbridge.HttpApi.Server.{WebRequest, Pings, serve}
use maxbridge.HttpApi.Server.Guarded.{IsAllowed, tables_of, serve_guarded}
use maxbridge.TelegramApi.{TelegramCalls, probe_group}
use maxbridge.TelegramApi.Readiness.{IsReady, probe_group-IsReady}
use maxbridge.Tests.Data.{chat_id}
use maxbridge.Tests.Webhooks.{peers, server, same, sha256}

-- Every variable is set, to a text that is no number.
abbrev pub environment : Environment
environment = record {
  getenv = λ key. utf8 "set";
  read_file = λ path. none;
  parse_duration = λ s. none;
}

abbrev pub config : Config
config = read_config environment

loaded : load_config environment ≡ inr config
unfolding load_config read_config read_secret
loaded = refl

abbrev anonymous : {A : Type 0} → Request A
anonymous = record { method = utf8 "POST"; secret = []; body = undecodable }

abbrev calls : TelegramCalls (Unit {0})
calls = record {
  get_me = λ w. (inr (record { id = pos 1; can_read_all_group_messages = true }), w);
  get_chat_member = λ chat user w. (inr (record { status = utf8 "administrator" }), w);
}

probe_group-IsReady_example :
    ((probe_group calls chat_id tt).0.1.readiness ≡ ready) ↔ IsReady calls chat_id tt
probe_group-IsReady_example = probe_group-IsReady calls chat_id tt

abbrev pings : Pings ℕ
pings = record {
  db_ping = λ w. (none, w);
  telegram_ping = λ w. (some (utf8 "timeout"), w);
  max_ping = λ w. (none, w);
}

abbrev anonymous_post : WebRequest
anonymous_post = record {
  path = utf8 "/webhooks/max";
  method = utf8 "POST";
  telegram_secret = [];
  max_secret = [];
  telegram_body = undecodable;
  max_body = undecodable;
}

serve_guarded_example :
    (tables_of (serve peers pings same sha256 config 8 anonymous_post server) ≡ server.store.tables)
    ⊎ IsAllowed config anonymous_post
serve_guarded_example =
    serve_guarded peers pings same sha256 environment config 8 anonymous_post server loaded
