-- ===== src/Store/Db.antt =====
-- migrations/0001_init.sql and 0002_token_expiry.sql: a row of each table as it is stored, tokens
-- sealed and times in seconds. NULL is `none`. The JSON columns `redirect_uris` and `oauth_request`
-- hold the value that they encode.
use meta_mcp.Prelude.{ℕ, Bool, String, List, [], Option}
use meta_mcp.Domain.Entities.{OauthRequest}
use meta_mcp.Crypto.{Bytes}

pub record TenantRow : Type 0 where
  pub id : String
  pub meta_user_id : String
  pub display_name : String
  pub user_token_enc : Bytes
  pub created_at : ℕ
  pub updated_at : ℕ
  pub user_token_expires_at : ℕ

pub record PageRow : Type 0 where
  pub tenant_id : String
  pub page_id : String
  pub name : String
  pub ig_user_id : Option String
  pub ig_username : Option String
  pub page_token_enc : Bytes
  pub synced_at : ℕ

pub record ClientRow : Type 0 where
  pub client_id : String
  pub client_name : String
  pub redirect_uris : List String
  pub created_at : ℕ

pub record CodeRow : Type 0 where
  pub code : String
  pub client_id : String
  pub tenant_id : String
  pub redirect_uri : String
  pub code_challenge : String
  pub resource : Option String
  pub expires_at : ℕ

pub record RefreshRow : Type 0 where
  pub token_hash : String
  pub client_id : String
  pub tenant_id : String
  pub expires_at : ℕ
  pub revoked : Bool

pub record LoginRow : Type 0 where
  pub state : String
  pub oauth_request : OauthRequest
  pub expires_at : ℕ

pub record Db : Type 0 where
  pub tenants : List TenantRow
  pub pages : List PageRow
  pub clients : List ClientRow
  pub codes : List CodeRow
  pub refresh_tokens : List RefreshRow
  pub login_states : List LoginRow

abbrev pub empty_db : Db
empty_db = record {
  tenants = [];
  pages = [];
  clients = [];
  codes = [];
  refresh_tokens = [];
  login_states = [];
}
