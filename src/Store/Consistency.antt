-- ===== src/Store/Consistency.antt =====
-- The constraints of the schema hold of every database that the store's operations reach.
pub mod Keys
pub mod Schema
pub mod Oauth
pub mod Tenants
use meta_mcp.Prelude.{ℕ, refl, String, List, [], ◌∷◌}
use meta_mcp.Domain.Time.{Time}
use meta_mcp.Domain.Errors.{Error}
use meta_mcp.Domain.Entities.{Tenant, Page, OauthClient, AuthCode, RefreshToken, LoginState}
use meta_mcp.Exec.{◌>>=◌, ◌>>◌, pure}
use meta_mcp.Exec.Keeps.{Keeps, Keeps-bind, keeps_rules}
use meta_mcp.World.{Env, World, Action}
use meta_mcp.World.Keeps.{OnDb, KeepsDb, db_rules}
use meta_mcp.Store.Consistency.Schema.{IsConsistent}
use meta_mcp.Store.Tenants.{upsert_tenant, delete_tenant}
use meta_mcp.Store.Pages.{replace_pages, insert_one, insert_all}
use meta_mcp.Store.Oauth.{
  purge_expired, create_login_state, rotate_refresh_token, create_refresh_token,
  revoke_tenant_refresh_tokens, consume_login_state, consume_auth_code, create_auth_code,
  register_client,
}
use meta_mcp.Store.Consistency.Tenants.{
  rotate_row-IsConsistent, revoke_all-IsConsistent, remove_tenant-IsConsistent,
  upsert_row-IsConsistent, insert_page-IsConsistent, clear_pages-IsConsistent,
}
use meta_mcp.Store.Consistency.Oauth.{
  purge_refresh_tokens-IsConsistent, purge_login_states-IsConsistent, purge_codes-IsConsistent,
  insert_login-IsConsistent, insert_refresh-IsConsistent, take_login-IsConsistent,
  take_code-IsConsistent, insert_code-IsConsistent, insert_client-IsConsistent,
  clear_codes-IsConsistent, clear_refresh_tokens-IsConsistent,
}

-- A call of a method of `domain.TenantStore` that writes.
pub data StoreOp : Type 0 where
  upsert : Tenant → StoreOp
  delete : String → StoreOp
  replace : String → List Page → StoreOp
  register : OauthClient → StoreOp
  create_code : AuthCode → StoreOp
  consume_code consume_login revoke_tenant : String → StoreOp
  create_refresh : RefreshToken → StoreOp
  rotate : String → Time → StoreOp
  create_login : LoginState → StoreOp
  purge : Time → StoreOp

module _ (env : Env) where
  unfoldable pub run_op : StoreOp → Action Error (Unit {0})
  run_op (upsert t) = upsert_tenant env t
  run_op (delete id) = delete_tenant env id
  run_op (replace id pages) = replace_pages env id pages
  run_op (register c) = register_client env c
  run_op (create_code c) = create_auth_code env c
  run_op (consume_code code) = do code_row ← consume_auth_code env code; pure tt
  run_op (consume_login state) = do login ← consume_login_state env state; pure tt
  run_op (revoke_tenant id) = revoke_tenant_refresh_tokens env id
  run_op (create_refresh t) = create_refresh_token env t
  run_op (rotate hash now) = do token ← rotate_refresh_token env hash now; pure tt
  run_op (create_login s) = create_login_state env s
  run_op (purge now) = purge_expired env now

  -- The operations one after another, whatever each of them answers.
  unfoldable pub run_ops : List StoreOp → World → World
  run_ops [] w = w
  run_ops (op ∷ ops) w = run_ops ops (run_op op w).1

  insert_one-IsConsistent :
      (id : String) (p : Page) → Keeps (OnDb IsConsistent) (insert_one env id p)
  unfolding insert_one
  insert_one-IsConsistent id p = search (keeps_rules, db_rules, insert_page-IsConsistent)

  insert_all-IsConsistent :
      (id : String) (ps : List Page) → Keeps (OnDb IsConsistent) (insert_all env id ps)
  unfolding insert_all
  insert_all-IsConsistent id [] = search keeps_rules
  insert_all-IsConsistent id (p ∷ ps) =
      Keeps-bind (insert_one env id p) (λ _. insert_all env id ps) (insert_one-IsConsistent id p)
        (λ _. insert_all-IsConsistent id ps)

  replace_pages-IsConsistent :
      (id : String) (ps : List Page) → Keeps (OnDb IsConsistent) (replace_pages env id ps)
  unfolding replace_pages
  replace_pages-IsConsistent id ps =
      search (keeps_rules, db_rules, insert_all-IsConsistent, clear_pages-IsConsistent)

  upsert_tenant-IsConsistent : (t : Tenant) → Keeps (OnDb IsConsistent) (upsert_tenant env t)
  unfolding upsert_tenant
  upsert_tenant-IsConsistent t = search (keeps_rules, db_rules, upsert_row-IsConsistent)

  delete_tenant-IsConsistent : (id : String) → Keeps (OnDb IsConsistent) (delete_tenant env id)
  unfolding delete_tenant
  delete_tenant-IsConsistent id =
      search
        (
          keeps_rules, db_rules, clear_refresh_tokens-IsConsistent, clear_codes-IsConsistent,
          clear_pages-IsConsistent, remove_tenant-IsConsistent,
        )
        depth 9

  run_op-IsConsistent : (op : StoreOp) → Keeps (OnDb IsConsistent) (run_op op)
  unfolding run_op register_client create_auth_code consume_auth_code consume_login_state
      revoke_tenant_refresh_tokens create_refresh_token rotate_refresh_token create_login_state
      purge_expired
  run_op-IsConsistent (upsert t) = upsert_tenant-IsConsistent t
  run_op-IsConsistent (delete id) = delete_tenant-IsConsistent id
  run_op-IsConsistent (replace id pages) = replace_pages-IsConsistent id pages
  run_op-IsConsistent (register c) = search (keeps_rules, db_rules, insert_client-IsConsistent)
  run_op-IsConsistent (create_code c) = search (keeps_rules, db_rules, insert_code-IsConsistent)
  run_op-IsConsistent (consume_code code) =
      search (keeps_rules, db_rules, take_code-IsConsistent) depth 8
  run_op-IsConsistent (consume_login state) =
      search (keeps_rules, db_rules, take_login-IsConsistent) depth 8
  run_op-IsConsistent (revoke_tenant id) = search (keeps_rules, db_rules, revoke_all-IsConsistent)
  run_op-IsConsistent (create_refresh t) =
      search (keeps_rules, db_rules, insert_refresh-IsConsistent)
  run_op-IsConsistent (rotate hash now) =
      search (keeps_rules, db_rules, rotate_row-IsConsistent) depth 8
  run_op-IsConsistent (create_login s) = search (keeps_rules, db_rules, insert_login-IsConsistent)
  run_op-IsConsistent (purge now) =
      search
        (
          keeps_rules, db_rules, purge_codes-IsConsistent, purge_login_states-IsConsistent,
          purge_refresh_tokens-IsConsistent,
        )
        depth 8

-- From a database that meets every key and reference constraint of the schema, any sequence of store
-- operations, each succeeding or failing at any of its statements, leads to one that meets them.
pub run_ops-IsConsistent :
    (env : Env) (ops : List StoreOp) (w : World)
    → IsConsistent w.db
    → IsConsistent (run_ops env ops w).db
unfolding run_ops
run_ops-IsConsistent env [] w h = h
run_ops-IsConsistent env (op ∷ ops) w h =
    let kept = (run_op-IsConsistent env op).at w (record { holds = h }) in
    run_ops-IsConsistent env ops (run_op env op w).1 kept.holds
