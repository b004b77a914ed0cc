-- ===== src/Auth/Metadata.antt =====
-- internal/adapters/authserver/metadata.go: the two documents that a client discovers the server by.
use Prim.Native.String
use meta_mcp.Prelude.{String, List, [], ◌∷◌, Option, none, some, ◌==◌, if◌then◌else◌}
use meta_mcp.Auth.Server.{Options}

infixr 65 ◌^^◌
abbrev ◌^^◌ : String → String → String
a ^^ b = String.◌++◌ a b

pub record ProtectedResourceMetadata : Type 0 where
  pub resource : String
  pub authorization_servers : List String
  pub bearer_methods_supported : List String

pub record AuthServerMetadata : Type 0 where
  pub issuer : String
  pub authorization_endpoint : String
  pub token_endpoint : String
  pub registration_endpoint : String
  pub response_types_supported : List String
  pub grant_types_supported : List String
  pub code_challenge_methods_supported : List String
  pub token_endpoint_auth_methods_supported : List String

-- `none` is the answer 204 to OPTIONS.
unfoldable pub protected_resource_metadata_handler :
    Options → String → Option ProtectedResourceMetadata
protected_resource_metadata_handler opts method =
    if method == "OPTIONS"
    then none
    else some (record {
      resource = opts.resource;
      authorization_servers = opts.issuer ∷ [];
      bearer_methods_supported = "header" ∷ [];
    })

unfoldable pub auth_server_metadata_handler : Options → String → Option AuthServerMetadata
auth_server_metadata_handler opts method =
    if method == "OPTIONS"
    then none
    else some (record {
      issuer = opts.issuer;
      authorization_endpoint = opts.issuer ^^ "/oauth/authorize";
      token_endpoint = opts.issuer ^^ "/oauth/token";
      registration_endpoint = opts.issuer ^^ "/oauth/register";
      response_types_supported = "code" ∷ [];
      grant_types_supported = "authorization_code" ∷ "refresh_token" ∷ [];
      code_challenge_methods_supported = "S256" ∷ [];
      token_endpoint_auth_methods_supported = "none" ∷ [];
    })
