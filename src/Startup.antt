-- ===== src/Startup.antt =====
-- cmd/metasocial-mcp/main.go: how the parts are configured, and the background sweeps. Signals, the
-- listener and the shutdown are left out.
pub mod Ready
use meta_mcp.Prelude.{zero, suc, ℕ, ◌*◌, Bool, true, String, List, Option, none, some, eqb, is_some}
use meta_mcp.Domain.Time.{Time, Duration, second, minute, hour}
use meta_mcp.Domain.Errors.{Error, wrap}
use meta_mcp.Exec.{Result, ok, err, pure, raise, lift, ◌>>=◌, ◌>>◌, or_return, attempt}
use meta_mcp.World.{Env, World, Action, ask, reading}
use meta_mcp.Crypto.{Bytes, Aead, new_cipher}
use meta_mcp.Store.Opening.{Disk, Schema, new_store}
use meta_mcp.Store.Oauth.{purge_expired}
use meta_mcp.Auth.Server.{Options, new_server}
use meta_mcp.App.Service.{Service, Formats}
use meta_mcp.App.Refresh.{refresh_expiring_tokens, default_refresh_window}
use meta_mcp.Config as Settings
use meta_mcp.Config.{Config, Variables, load}
use meta_mcp.Meta.Client.{Client, new_client}
use meta_mcp.Meta.Handlers.{HandlerOptions}
use meta_mcp.Http.{Endpoint, loopback_relay, relay_handler, routes}

abbrev pub purge_interval : Duration
purge_interval = 10 * minute

abbrev pub token_refresh_interval : Duration
token_refresh_interval = 12 * hour

-- The options of the parts.
unfoldable pub auth_options : Config → Options
auth_options cfg = new_server (record {
  issuer = cfg.public_url;
  resource = Settings.mcp_resource_url cfg;
  signing_key = cfg.jwt_signing_key;
  login_path = "/meta/login";
  access_token_ttl = cfg.access_token_ttl;
  refresh_token_ttl = cfg.refresh_token_ttl;
})

unfoldable pub graph_options : Config → Client
graph_options cfg = new_client (record {
  app_id = cfg.meta_app_id;
  app_secret = cfg.meta_app_secret;
  version = cfg.graph_version;
  graph_base = cfg.graph_base_url;
  dialog_base = cfg.dialog_base_url;
  redirect_uri = Settings.meta_redirect_uri cfg;
  scopes = cfg.meta_scopes;
  retry_delay = 0;
})

-- `bytes` are those of a text.
unfoldable pub handler_options : (String → Bytes) → Config → HandlerOptions
handler_options bytes cfg = record {
  public_url = cfg.public_url;
  redirect_uri = Settings.meta_redirect_uri cfg;
  app_secret = bytes cfg.meta_app_secret;
}

unfoldable pub service : Formats → Config → Service
service formats cfg = record {
  public_url = cfg.public_url;
  required_scopes = Settings.scope_list cfg;
  formats = formats;
}

-- Every endpoint is given but the relay, which depends on its port.
unfoldable pub given : Config → Endpoint → Bool
given cfg loopback_relay = is_some (relay_handler cfg)
given cfg _ = true

unfoldable pub mounted : Config → List (String × Endpoint)
mounted cfg = routes (given cfg)

abbrev pub first_purge : Env → Action Error (Unit {0})
first_purge env = do
  now ← ask (reading env.now)
  or_return (purge_expired env now) (wrap "purge au démarrage")

-- The start, up to the loops: the configuration, the cipher, the database file, in which `schema` is
-- recorded, and the first purge.
unfoldable pub start :
    Variables → (Bytes → Result Error Aead) → Disk → Schema → Env → Action Error (Config × Aead)
start v gcm disk schema env = do
  cfg ← lift (load v)
  aead ← lift (new_cipher gcm cfg.token_cipher_key)
  lift (new_store disk cfg.db_path schema).0
  first_purge env
  pure (cfg, aead)

-- One round of `purgeLoop`: an error is logged.
unfoldable pub purge_round : Env → Action Error (Result Error (Unit {0}))
purge_round env = do now ← ask (reading env.now); attempt (purge_expired env now)

-- The sweep of `refreshLoop`: at the start, and then at each tick.
unfoldable pub refresh_round : Env → World → World
refresh_round env w = (refresh_expiring_tokens env default_refresh_window w).1

unfoldable pub refresh_loop : Env → ℕ → World → World
refresh_loop env ticks w = rounds ticks (refresh_round env w)
  where
    rounds : ℕ → World → World
    rounds zero w = w
    rounds (suc ticks) w = rounds ticks (refresh_round env w)
