-- ===== src/App/Login.antt =====
-- internal/app/login.go: the login through Facebook, the deletion of a tenant, and login states.
pub mod Allowed
use meta_mcp.Prelude.{
  ℕ, ◌+◌, Bool, true, false, not, String, List, Option, none, some, eqb, ltb, length, if◌then◌else◌,
}
use meta_mcp.Domain.Time.{Time, Duration, zero_time}
use meta_mcp.Domain.Errors.{Error, not_found, forbidden_user, wrap, is_not_found}
use meta_mcp.Domain.Entities.{Tenant, Page, MetaUser, LongLivedToken, LoginState}
use meta_mcp.Exec.{Result, ok, err, pure, raise, lift, stop_if, ◌>>=◌, ◌>>◌, or_return, attempt}
use meta_mcp.World.{Env, Action, Call, ask, reading, request}
use meta_mcp.Store.Tenants.{upsert_tenant, tenant_by_id, tenant_by_meta_user_id, delete_tenant}
use meta_mcp.Store.Oauth.{consume_login_state}
use meta_mcp.App.Service.{sync_pages}

pub record LoginResult : Type 0 where
  pub tenant_id : String
  pub display_name : String
  pub pages : ℕ

-- The zero time for a lifetime that Meta did not give.
unfoldable pub expiry_from : Time → Duration → Time
expiry_from now lifetime = if eqb lifetime 0 then zero_time else now + lifetime

new_tenant : MetaUser → LongLivedToken → Time → String → Tenant
unfolding expiry_from
new_tenant user token now id = record {
  id = id;
  meta_user_id = user.id;
  display_name = user.name;
  user_token = token.token;
  created_at = now;
  updated_at = now;
  user_token_expires_at = expiry_from now token.expires_in;
}

-- A returning user keeps the id and the creation time.
identified : Tenant → Result Error Tenant → Action Error Tenant
identified t (ok existing) = pure (record t { id = existing.id; created_at = existing.created_at })
identified t (err e) = if is_not_found e then pure t else raise (wrap "recherche du tenant" e)

module _ (env : Env) (allow : String → Bool) where
  unfoldable pub complete : String → String → Action Error LoginResult
  unfolding new_tenant identified
  complete code redirect_uri = do
    short ← request env.meta.exchange_code (Call.exchange_code code redirect_uri)
    long ← request env.meta.exchange_long_lived_token (Call.exchange_long_lived_token short)
    user ← request env.meta.me (Call.me long.token)
    stop_if (not (allow user.id)) forbidden_user
    now ← ask (reading env.now)
    id ← ask (reading env.uuid)
    existing ← attempt (tenant_by_meta_user_id env user.id)
    tenant ← identified (new_tenant user long now id) existing
    or_return (upsert_tenant env tenant) (wrap "enregistrement du tenant")
    pages ← sync_pages env tenant.id long.token
    pure
        (record { tenant_id = tenant.id; display_name = tenant.display_name; pages = length pages })

module _ (env : Env) where
  unfoldable pub sync_tenant : String → Action Error (List Page)
  sync_tenant tenant_id = do
    tenant ← tenant_by_id env tenant_id
    sync_pages env tenant.id tenant.user_token

  remove_found : Result Error Tenant → Action Error (Unit {0})
  remove_found (ok tenant) = or_return (delete_tenant env tenant.id) (wrap "suppression du tenant")
  remove_found (err e) =
      if is_not_found e then pure tt else raise (wrap "recherche du tenant à supprimer" e)

  unfoldable pub delete_by_meta_user_id : String → Action Error (Unit {0})
  unfolding remove_found
  delete_by_meta_user_id meta_user_id = do
    found ← attempt (tenant_by_meta_user_id env meta_user_id)
    remove_found found

  unfoldable pub consume_state : String → Action Error LoginState
  consume_state state = do
    login ← consume_login_state env state
    now ← ask (reading env.now)
    stop_if (not (ltb now login.expires_at)) not_found
    pure login
