-- ===== src/Http.antt =====
-- internal/adapters/httpserver: the routes, the headers that a middleware sets, the check of health,
-- and the relay of a callback to the user's own machine.
pub mod Relay
use Prim.Native.String
use meta_mcp.Prelude.{
  ℕ, Bool, true, false, not, ◌||◌, String, List, [], ◌∷◌, ◌++◌, Option, none, some, ◌==◌, eqb,
  decimal, has_prefix, if◌then◌else◌,
}
use meta_mcp.Domain.Errors.{Error}
use meta_mcp.Config.{Config}

infixr 65 ◌^^◌
abbrev pub ◌^^◌ : String → String → String
a ^^ b = String.◌++◌ a b

pub record RelayOptions : Type 0 where
  pub port : ℕ
  pub path : String

-- The address that a browser is sent to.
pub record Target : Type 0 where
  pub scheme : String
  pub host : String
  pub path : String
  pub raw_query : String

unfoldable pub relay_path : String → String
relay_path given =
    let path = if given == "" then "/callback" else given in
    if has_prefix path "/" then path else "/" ^^ path

unfoldable pub loopback_relay_handler : RelayOptions → String → Target
loopback_relay_handler opts raw_query = record {
  scheme = "http";
  host = "127.0.0.1:" ^^ decimal opts.port;
  path = relay_path opts.path;
  raw_query = raw_query;
}

-- `relayHandler` of main
unfoldable pub relay_handler : Config → Option (String → Target)
relay_handler cfg =
    if eqb cfg.relay_port 0
    then none
    else some (loopback_relay_handler (record { port = cfg.relay_port; path = "/callback" }))

unfoldable pub is_sensitive_path : String → Bool
is_sensitive_path path =
    has_prefix path "/oauth/" || has_prefix path "/meta/" || has_prefix path "/mcp"

-- The headers that `withLimits` sets.
unfoldable pub limit_headers : String → List (String × String)
limit_headers path =
    if is_sensitive_path path
    then ("Cache-Control", "no-store") ∷ ("Pragma", "no-cache") ∷ []
    else []

-- The status and the body of GET /healthz; the check is absent, or gives its error.
unfoldable pub health_handler : Option (Option Error) → ℕ × String
health_handler (some (some e)) = (503, "error")
health_handler (some none) = (200, "ok")
health_handler none = (200, "ok")

-- The optional endpoints, in the order of `Handlers`.
pub data Endpoint : Type 0 where
  protected_resource_metadata auth_server_metadata register authorize token : Endpoint
  meta_login meta_callback meta_data_deletion meta_deauthorize privacy icon loopback_relay mcp :
      Endpoint

-- A pattern is mounted where its handler is there.
abbrev pub mount : (Endpoint → Bool) → String → Endpoint → List (String × Endpoint)
mount given pattern e = if given e then (pattern, e) ∷ [] else []

-- The patterns of `New` beside GET /healthz, which is always mounted.
unfoldable pub routes : (Endpoint → Bool) → List (String × Endpoint)
routes given =
    mount given "GET /.well-known/oauth-protected-resource" protected_resource_metadata
    ++ mount given "GET /.well-known/oauth-protected-resource/mcp" protected_resource_metadata
    ++ mount given "GET /.well-known/oauth-authorization-server" auth_server_metadata
    ++ mount given "GET /.well-known/oauth-authorization-server/mcp" auth_server_metadata
    ++ mount given "POST /oauth/register" register
    ++ mount given "GET /oauth/authorize" authorize
    ++ mount given "POST /oauth/token" token
    ++ mount given "GET /meta/login" meta_login
    ++ mount given "GET /meta/callback" meta_callback
    ++ mount given "POST /meta/data-deletion" meta_data_deletion
    ++ mount given "GET /meta/deauthorize" meta_deauthorize
    ++ mount given "GET /privacy" privacy
    ++ mount given "GET /icon.png" icon
    ++ mount given "GET /relay/callback" loopback_relay
    ++ mount given "/mcp" mcp
