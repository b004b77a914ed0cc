-- ===== src/Domain/Entities.antt =====
-- internal/domain/tenant.go, ports.go and the request types of metrics.go.
use meta_mcp.Prelude.{◌+◌, Bool, true, not, String, List, ◌==◌, any, ltb, if◌then◌else◌}
use meta_mcp.Domain.Time.{Time, Duration, is_zero}

pub record Tenant : Type 0 where
  pub id : String
  pub meta_user_id : String
  pub display_name : String
  pub user_token : String
  pub created_at : Time
  pub updated_at : Time
  pub user_token_expires_at : Time

unfoldable pub token_expires_within : Tenant → Time → Duration → Bool
token_expires_within t now window =
    if is_zero t.user_token_expires_at then true else ltb t.user_token_expires_at (now + window)

pub record Page : Type 0 where
  pub tenant_id : String
  pub page_id : String
  pub name : String
  pub ig_user_id : String
  pub ig_username : String
  pub page_token : String
  pub synced_at : Time

abbrev pub has_instagram : Page → Bool
has_instagram p = not (p.ig_user_id == "")

pub record MetaUser : Type 0 where
  pub id : String
  pub name : String

pub record OauthClient : Type 0 where
  pub client_id : String
  pub client_name : String
  pub redirect_uris : List String
  pub created_at : Time

-- The loop stops at the first equal URI.
unfoldable pub allows_redirect_uri : OauthClient → String → Bool
allows_redirect_uri c uri = any (λ u. u == uri) c.redirect_uris

pub record AuthCode : Type 0 where
  pub code : String
  pub client_id : String
  pub tenant_id : String
  pub redirect_uri : String
  pub code_challenge : String
  pub resource : String
  pub expires_at : Time

pub record RefreshToken : Type 0 where
  pub token_hash : String
  pub client_id : String
  pub tenant_id : String
  pub expires_at : Time
  pub revoked : Bool

pub record OauthRequest : Type 0 where
  pub client_id : String
  pub redirect_uri : String
  pub code_challenge : String
  pub client_state : String
  pub resource : String

abbrev pub no_request : OauthRequest
no_request = record {
  client_id = "";
  redirect_uri = "";
  code_challenge = "";
  client_state = "";
  resource = "";
}

pub record LoginState : Type 0 where
  pub state : String
  pub request : OauthRequest
  pub expires_at : Time

pub record LongLivedToken : Type 0 where
  pub token : String
  pub expires_in : Duration

pub record TokenStatus : Type 0 where
  pub valid : Bool
  pub expires_at : Time
  pub data_access_expires_at : Time
  pub scopes : List String
  pub reason : String

pub record PublishPostRequest : Type 0 where
  pub message : String
  pub link : String
  pub photo_url : String
  pub scheduled_at : Time

abbrev pub is_photo : PublishPostRequest → Bool
is_photo r = not (r.photo_url == "")

abbrev pub is_scheduled : PublishPostRequest → Bool
is_scheduled r = not (is_zero r.scheduled_at)

pub record IgPublishRequest : Type 0 where
  pub media_type : String
  pub image_url : String
  pub video_url : String
  pub caption : String
  pub children : List String
