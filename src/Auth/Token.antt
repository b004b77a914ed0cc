-- ===== src/Auth/Token.antt =====
-- internal/adapters/authserver/token.go: the token endpoint.
use Prim.Native.String.{len}
use meta_mcp.Prelude.{
  ℕ, ◌+◌, Bool, false, not, ◌&&◌, ◌||◌, String, ◌==◌, ltb, units_between, if◌then◌else◌,
}
use meta_mcp.Domain.Time.{second}
use meta_mcp.Domain.Errors.{Error, is_not_found}
use meta_mcp.Domain.Entities.{AuthCode}
use meta_mcp.Exec.{pure, raise, stop_if, ◌>>=◌, ◌>>◌, or_return}
use meta_mcp.World.{Env, ask, reading}
use meta_mcp.Store.Oauth.{consume_auth_code, rotate_refresh_token, create_refresh_token}
use meta_mcp.Auth.Server.{
  Codec, Options, Form, Response, no_content, oauth_error, tokens, Handler, internal_error,
}
use meta_mcp.Auth.Jwt.{mint_access_token, hash_token, verify_pkce}

abbrev pub min_verifier_len : ℕ
min_verifier_len = 43

abbrev pub max_verifier_len : ℕ
max_verifier_len = 128

-- `parsed` is false where the body cannot be read as a form.
pub record TokenInput : Type 0 where
  pub method : String
  pub parsed : Bool
  pub form : Form

abbrev pub bad_request : String → Response
bad_request description = oauth_error 400 "invalid_request" description

abbrev pub bad_grant : String → Response
bad_grant description = oauth_error 400 "invalid_grant" description

unfoldable pub grant_error : String → Error → Response
grant_error message e = if is_not_found e then bad_grant message else internal_error

module _ (codec : Codec) (opts : Options) (env : Env) where
  unfoldable pub issue_tokens : String → String → Handler
  issue_tokens tenant_id client_id = do
    minted ← or_return (mint_access_token codec opts env tenant_id client_id) (λ _. internal_error)
    refresh_token ← or_return (ask env.secret) (λ _. internal_error)
    now ← ask (reading env.now)
    or_return
        (create_refresh_token env (record {
          token_hash = hash_token codec opts env refresh_token;
          client_id = client_id;
          tenant_id = tenant_id;
          expires_at = now + opts.refresh_token_ttl;
          revoked = false;
        }))
        (λ _. internal_error)
    later ← ask (reading env.now)
    pure (
        tokens (record {
          access_token = minted.0;
          token_type = "Bearer";
          expires_in = units_between second minted.1 later;
          refresh_token = refresh_token;
        }))

  -- The checks on a consumed code, in the source's order.
  unfoldable pub check_code : Form → AuthCode → Handler
  check_code f code = do
    now ← ask (reading env.now)
    stop_if (not (ltb now code.expires_at)) (bad_grant "code expiré")
    stop_if (not (code.client_id == f "client_id")) (bad_grant "code émis pour un autre client")
    stop_if (not (f "redirect_uri" == code.redirect_uri))
        (bad_grant "redirect_uri différente de celle de la demande d'autorisation")
    stop_if (not (verify_pkce codec opts env (f "code_verifier") code.code_challenge))
        (bad_grant "code_verifier invalide")
    stop_if (not (f "resource" == "") && not (f "resource" == opts.resource))
        (bad_request "resource ne correspond pas à ce serveur MCP")
    issue_tokens code.tenant_id code.client_id

  abbrev pub verifier_out_of_range : Form → Bool
  verifier_out_of_range f =
      ltb (len (f "code_verifier")) min_verifier_len
      || ltb max_verifier_len (len (f "code_verifier"))

  unfoldable pub grant_authorization_code : Form → Handler
  unfolding check_code grant_error
  grant_authorization_code f = do
    stop_if (f "code" == "" || f "code_verifier" == "" || f "client_id" == "")
        (bad_request "code, code_verifier et client_id sont obligatoires")
    stop_if (verifier_out_of_range f)
        (bad_request "code_verifier doit faire entre 43 et 128 caractères")
    code ←
        or_return (consume_auth_code env (f "code"))
          (grant_error "code inconnu, déjà utilisé ou expiré")
    check_code f code

  unfoldable pub grant_refresh_token : Form → Handler
  unfolding grant_error
  grant_refresh_token f = do
    stop_if (f "refresh_token" == "" || f "client_id" == "")
        (bad_request "refresh_token et client_id sont obligatoires")
    now ← ask (reading env.now)
    stored ←
        or_return (rotate_refresh_token env (hash_token codec opts env (f "refresh_token")) now)
          (grant_error "refresh_token inconnu, déjà utilisé, révoqué ou expiré")
    stop_if (not (stored.client_id == f "client_id"))
        (oauth_error 400 "unauthorized_client" "refresh_token émis pour un autre client")
    issue_tokens stored.tenant_id stored.client_id

  unfoldable pub token_handler : TokenInput → Handler
  unfolding grant_authorization_code grant_refresh_token
  token_handler r =
      if r.method == "OPTIONS"
      then pure no_content
      else if not r.parsed
      then raise (bad_request "corps de requête illisible")
      else if r.form "grant_type" == "authorization_code"
      then grant_authorization_code r.form
      else if r.form "grant_type" == "refresh_token"
      then grant_refresh_token r.form
      else raise (
          oauth_error 400 "unsupported_grant_type"
            "grant_type doit valoir authorization_code ou refresh_token")
