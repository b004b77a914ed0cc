-- ===== src/Mcp/Server.antt =====
-- internal/adapters/mcpserver/server.go and http.go: the tenant of a request, the errors that a client
-- sees, the annotations of the tools, and the check of the bearer token.
use meta_mcp.Prelude.{Bool, true, false, ◌||◌, String, Option, none, some, ◌==◌, if◌then◌else◌}
use meta_mcp.Domain.Time.{Time, of_unix}
use meta_mcp.Domain.Errors.{
  Error, unknown_page, no_instagram, text, wrap, as_graph_error, user_message, is_not_found,
  is_reauthorize,
}
use meta_mcp.Exec.{Result, ok, err, pure, lift, ◌>>=◌, or_return}
use meta_mcp.World.{Env, Action}
use meta_mcp.Auth.Server.{Codec, Options}
use meta_mcp.Auth.Jwt.{verify_access_token}

pub record TokenInfo : Type 0 where
  pub user_id : String
  pub expiration : Time

-- What the transport hands to a handler: `none` where there is no verified token.
abbrev pub Session : Type 0
Session = Option TokenInfo

abbrev pub session_unauthenticated : Error
session_unauthenticated = text "session non authentifiée"

unfoldable pub tenant_id : Session → Result Error String
tenant_id none = err session_unauthenticated
tenant_id (some info) = if info.user_id == "" then err session_unauthenticated else ok info.user_id

-- `errors.Is(err, domain.ErrUnknownPage)` and `errors.Is(err, domain.ErrNoInstagram)`
unfoldable pub is_unknown_page : Error → Bool
is_unknown_page unknown_page = true
is_unknown_page (wrap _ e) = is_unknown_page e
is_unknown_page _ = false

unfoldable pub is_no_instagram : Error → Bool
is_no_instagram no_instagram = true
is_no_instagram (wrap _ e) = is_no_instagram e
is_no_instagram _ = false

unfoldable pub tool_error : Error → Error
tool_error e = elim (as_graph_error e) [
  | some ge ↦ text (user_message ge)
  | none ↦
      if is_unknown_page e || is_no_instagram e || is_reauthorize e
      then e
      else if is_not_found e
      then unknown_page
      else e
]

-- The tenant, the use case, and its error as the client reads it.
unfoldable pub answering : {A : Type 0} → Session → (String → Action Error A) → Action Error A
answering session use_case = do
  tenant ← lift (tenant_id session)
  or_return (use_case tenant) tool_error

pub record Annotations : Type 0 where
  pub read_only_hint : Bool
  pub destructive_hint : Bool
  pub idempotent_hint : Bool
  pub open_world_hint : Bool

unfoldable pub writing : Annotations
writing = record {
  read_only_hint = false;
  destructive_hint = false;
  idempotent_hint = false;
  open_world_hint = true;
}

unfoldable pub moderating : Annotations
moderating = record {
  read_only_hint = false;
  destructive_hint = true;
  idempotent_hint = false;
  open_world_hint = true;
}

unfoldable pub read_only : Annotations
read_only = record {
  read_only_hint = true;
  destructive_hint = false;
  idempotent_hint = false;
  open_world_hint = true;
}

-- A tool as it is registered.
pub record Tool : Type 0 where
  pub name : String
  pub title : String
  pub description : String
  pub annotations : Annotations

pub data InvalidToken : Type 0 where
  invalid_token : String → InvalidToken

-- The function that main passes as `TenantResolver`, and the check of the SDK's middleware.
unfoldable pub resolve : Codec → Options → Env → String → Action Error TokenInfo
resolve codec opts env token = do
  claims ← verify_access_token codec opts env token
  pure (record { user_id = claims.subject; expiration = of_unix claims.expires_at })

unfoldable pub verifier : Codec → Options → Env → String → Action InvalidToken TokenInfo
verifier codec opts env token =
    or_return (resolve codec opts env token) (λ _. invalid_token "jeton d'accès invalide ou expiré")
