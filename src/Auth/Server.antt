-- ===== src/Auth/Server.antt =====
-- internal/adapters/authserver/server.go: the server's options, its answers, and the bridge from the
-- Meta callback. What the standard library does to bytes (HMAC-SHA256, SHA-256, base64url, JSON and
-- URL parsing) is the record `Codec`.
use meta_mcp.Prelude.{
  ℕ, ◌+◌, ◌*◌, not, String, List, [], ◌∷◌, Option, ◌==◌, keep, is_some, if◌then◌else◌, ℤ,
}
use meta_mcp.Domain.Time.{Duration, minute}
use meta_mcp.Domain.Errors.{Error}
use meta_mcp.Domain.Entities.{OauthRequest}
use meta_mcp.Exec.{pure, ◌>>=◌, ◌>>◌, answer}
use meta_mcp.Crypto.{Bytes}
use meta_mcp.World.{Env, World, Action, ask, reading}
use meta_mcp.Store.Oauth.{create_auth_code}

pub record Url : Type 0 where
  pub scheme : String
  pub host : String
  pub hostname : String
  pub fragment : String

pub record JwtHeader : Type 0 where
  pub alg : String
  pub typ : String

-- `iat` and `exp` are in seconds, held as the columns of the store are.
pub record Claims : Type 0 where
  pub issuer : String
  pub subject : String
  pub audience : String
  pub client_id : String
  pub issued_at : ℕ
  pub expires_at : ℕ
  pub jti : String

pub record Codec : Type 0 where
  pub hmac : Bytes → String → Bytes
  pub sha256 : String → Bytes
  pub base64 : Bytes → String
  pub unbase64 : String → Option Bytes
  pub header_json : JwtHeader → Bytes
  pub read_header : Bytes → Option JwtHeader
  pub claims_json : Claims → Bytes
  pub read_claims : Bytes → Option Claims
  pub parse_url : String → Option Url

pub record Options : Type 0 where
  pub issuer : String
  pub resource : String
  pub signing_key : Bytes
  pub login_path : String
  pub access_token_ttl : Duration
  pub refresh_token_ttl : Duration

-- `New`
unfoldable pub new_server : Options → Options
new_server o = if o.login_path == "" then record o { login_path = "/meta/login" } else o

abbrev pub auth_code_ttl : Duration
auth_code_ttl = 5 * minute

abbrev pub login_state_ttl : Duration
login_state_ttl = 10 * minute

-- The parameters of a query or a form: `Get`, with "" for a missing key.
abbrev pub Form : Type 0
Form = String → String

-- A redirect target: the URI and the query parameters set on it. `net/url` writes them out.
pub record Location : Type 0 where
  pub uri : String
  pub params : List (String × String)

pub record TokenResponse : Type 0 where
  pub access_token : String
  pub token_type : String
  pub expires_in : ℤ
  pub refresh_token : String

pub record RegistrationResponse : Type 0 where
  pub client_id : String
  pub client_id_issued_at : ℕ
  pub client_name : String
  pub redirect_uris : List String
  pub grant_types : List String
  pub response_types : List String
  pub token_endpoint_auth_method : String

pub data Response : Type 0 where
  no_content : Response
  -- `writeOAuthError` with its status, error code and description
  oauth_error : ℕ → String → String → Response
  -- 302 to the client
  redirect : Location → Response
  -- 302 to the login page with this state
  to_login : String → String → Response
  -- 200 and 201
  tokens : TokenResponse → Response
  registered : RegistrationResponse → Response

abbrev pub Handler : Type 0
Handler = Action Response Response

-- A handler's answer and the state it leaves.
abbrev pub serve : Handler → World → Response × World
serve h w = let (r, w') = h w in (answer r, w')

abbrev pub internal_error : Response
internal_error = oauth_error 500 "server_error" "erreur interne"

module _ (codec : Codec) where
  -- A URI that does not parse comes back as it is; an empty value is not set.
  unfoldable pub redirect_with_params : String → List (String × String) → Location
  redirect_with_params uri params =
      if is_some (codec.parse_url uri)
      then record { uri = uri; params = keep (λ p. not (p.1 == "")) params }
      else record { uri = uri; params = [] }

  unfoldable pub redirect_error : String → String → String → String → Response
  unfolding redirect_with_params
  redirect_error uri state code description = redirect (
      redirect_with_params uri
        (("error", code) ∷ ("error_description", description) ∷ ("state", state) ∷ []))

  unfoldable pub issue_auth_code : Env → OauthRequest → String → Action Error Location
  unfolding redirect_with_params
  issue_auth_code env req tenant_id = do
    code ← ask env.secret
    now ← ask (reading env.now)
    create_auth_code env (record {
      code = code;
      client_id = req.client_id;
      tenant_id = tenant_id;
      redirect_uri = req.redirect_uri;
      code_challenge = req.code_challenge;
      resource = req.resource;
      expires_at = now + auth_code_ttl;
    })
    pure (redirect_with_params req.redirect_uri (("code", code) ∷ ("state", req.client_state) ∷ []))
