-- ===== src/Auth/Authorize.antt =====
-- internal/adapters/authserver/authorize.go: the authorization endpoint.
use meta_mcp.Prelude.{◌+◌, not, ◌&&◌, ◌||◌, ◌==◌, if◌then◌else◌}
use meta_mcp.Domain.Errors.{Error, is_not_found}
use meta_mcp.Domain.Entities.{allows_redirect_uri}
use meta_mcp.Exec.{pure, stop_if, ◌>>=◌, ◌>>◌, or_return}
use meta_mcp.World.{Env, ask, reading}
use meta_mcp.Store.Oauth.{client_by_id, create_login_state}
use meta_mcp.Auth.Server.{
  Codec, Options, Form, Response, oauth_error, to_login, Handler, internal_error, redirect_error,
  login_state_ttl,
}

unfoldable pub client_error : Error → Response
client_error e =
    if is_not_found e then oauth_error 401 "invalid_client" "client_id inconnu" else internal_error

module _ (codec : Codec) (opts : Options) (env : Env) where
  -- The part in which the redirect URI is trusted.
  unfoldable pub authorize_trusted : Form → Handler
  authorize_trusted q = do
    let refuse = redirect_error codec (q "redirect_uri") (q "state")
    stop_if (not (q "response_type" == "code"))
        (refuse "invalid_request" "seul response_type=code est supporté")
    stop_if (q "code_challenge" == "")
        (refuse "invalid_request" "code_challenge est obligatoire (PKCE)")
    stop_if (not (q "code_challenge_method" == "S256"))
        (refuse "invalid_request" "seul code_challenge_method=S256 est supporté")
    stop_if (not (q "resource" == "") && not (q "resource" == opts.resource))
        (refuse "invalid_request" "resource ne correspond pas à ce serveur MCP")
    state ← or_return (ask env.secret) (λ _. refuse "server_error" "erreur interne")
    now ← ask (reading env.now)
    or_return
        (create_login_state env (record {
          state = state;
          request = record {
            client_id = q "client_id";
            redirect_uri = q "redirect_uri";
            code_challenge = q "code_challenge";
            client_state = q "state";
            resource = q "resource";
          };
          expires_at = now + login_state_ttl;
        }))
        (λ _. refuse "server_error" "erreur interne")
    pure (to_login opts.login_path state)

  unfoldable pub authorize_handler : Form → Handler
  unfolding authorize_trusted client_error
  authorize_handler q = do
    stop_if (q "client_id" == "") (oauth_error 400 "invalid_request" "client_id manquant")
    client ← or_return (client_by_id env (q "client_id")) client_error
    stop_if (q "redirect_uri" == "" || not (allows_redirect_uri client (q "redirect_uri")))
        (oauth_error 400 "invalid_request" "redirect_uri absente ou non enregistrée pour ce client")
    authorize_trusted q
