-- ===== src/Auth/Register.antt =====
-- internal/adapters/authserver/register.go: dynamic client registration.
use meta_mcp.Prelude.{
  ℕ, Bool, not, ◌||◌, String, List, [], ◌∷◌, Option, none, some, ◌==◌, ltb, eqb, length, cut,
  is_some, trim_space, if◌then◌else◌,
}
use meta_mcp.Domain.Time.{unix}
use meta_mcp.Exec.{pure, raise, stop_if, ◌>>=◌, ◌>>◌, or_return}
use meta_mcp.World.{Env, ask, reading}
use meta_mcp.Store.Oauth.{register_client}
use meta_mcp.Auth.Server.{
  Codec, Url, Response, no_content, oauth_error, registered, Handler, internal_error,
}

abbrev pub max_redirect_uris : ℕ
max_redirect_uris = 10

pub record RegistrationRequest : Type 0 where
  pub client_name : String
  pub redirect_uris : List String

-- `body` is `none` where it is not the JSON of a request.
pub record RegisterInput : Type 0 where
  pub method : String
  pub body : Option RegistrationRequest

unfoldable pub is_loopback : String → Bool
is_loopback host = host == "localhost" || host == "127.0.0.1" || host == "::1"

abbrev pub has_hash : String → Bool
has_hash raw = is_some (cut raw b'#')

-- The error's text, or `none` where the URI is accepted.
unfoldable pub checked_url : String → Url → Option String
unfolding is_loopback
checked_url raw u =
    if not (u.fragment == "") || has_hash raw
    then some "redirect_uri ne doit pas contenir de fragment"
    else if u.scheme == "https"
    then (if u.host == "" then some "redirect_uri sans hôte" else none)
    else if u.scheme == "http"
    then (if is_loopback u.hostname
        then none
        else some "redirect_uri en http n'est autorisée que sur localhost")
    else some "redirect_uri doit être en https, ou en http sur localhost"

unfoldable pub validate_redirect_uri : Codec → String → Option String
unfolding checked_url
validate_redirect_uri codec raw = elim (codec.parse_url raw) [
  | none ↦ some "redirect_uri illisible"
  | some u ↦ checked_url raw u
]

-- The loop stops at the first URI that is refused.
unfoldable pub first_refusal : Codec → List String → Option String
unfolding validate_redirect_uri
first_refusal codec [] = none
first_refusal codec (uri ∷ uris) =
    let later = first_refusal codec uris in
    elim (validate_redirect_uri codec uri) [ none ↦ later | some message ↦ some message ]

abbrev pub bad_metadata : String → Response
bad_metadata description = oauth_error 400 "invalid_client_metadata" description

abbrev pub refuse : Option String → Handler
refuse none = pure no_content
refuse (some message) = raise (bad_metadata message)

module _ (codec : Codec) (env : Env) where
  unfoldable pub register_valid : RegistrationRequest → Handler
  register_valid req = do
    client_id ← or_return (ask env.secret) (λ _. internal_error)
    now ← ask (reading env.now)
    or_return
        (register_client env (record {
          client_id = client_id;
          client_name = trim_space req.client_name;
          redirect_uris = req.redirect_uris;
          created_at = now;
        }))
        (λ _. internal_error)
    pure (
        registered (record {
          client_id = client_id;
          client_id_issued_at = unix now;
          client_name = trim_space req.client_name;
          redirect_uris = req.redirect_uris;
          grant_types = "authorization_code" ∷ "refresh_token" ∷ [];
          response_types = "code" ∷ [];
          token_endpoint_auth_method = "none";
        }))

  unfoldable pub register_request : RegistrationRequest → Handler
  unfolding first_refusal register_valid
  register_request req = do
    stop_if (eqb (length req.redirect_uris) 0) (bad_metadata "redirect_uris est obligatoire")
    stop_if (ltb max_redirect_uris (length req.redirect_uris))
        (bad_metadata "trop de redirect_uris")
    refuse (first_refusal codec req.redirect_uris)
    register_valid req

  unfoldable pub register_handler : RegisterInput → Handler
  unfolding register_request
  register_handler r = if r.method == "OPTIONS" then pure no_content else elim r.body [
    | none ↦ raise (bad_metadata "corps JSON illisible")
    | some req ↦ register_request req
  ]
