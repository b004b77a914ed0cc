-- ===== src/Store/Added.antt =====
-- What a sequence of store operations leaves of the codes and the login states: rows that were there,
-- and rows that one of the operations adds.
use meta_mcp.Prelude.{
  Bool, ◌≡◌, ◌∷◌, [], ◌++◌, ◌==◌, not, ℕ, String, List, All, find, any, Bool-cases, Option-cases,
  inl, inr, arith, leb,
}
use meta_mcp.Domain.Entities.{Page}
use meta_mcp.Exec.Keeps.{Keeps, Keeps-bind, keeps_rules}
use meta_mcp.World.{Env, World}
use meta_mcp.World.Keeps.{OnDb, KeepsDb, db_rules}
use meta_mcp.Store.Db.{Db, CodeRow, LoginRow, TenantRow, PageRow, ClientRow, RefreshRow}
use meta_mcp.Store.Rows.{All-keep}
use meta_mcp.Store.Consistency.Keys.{All-concat}
use meta_mcp.Store.Tables.{delete_where}
use meta_mcp.Store.Tenants.{
  upsert_tenant, delete_tenant, upsert_row, remove_tenant, clear_pages, clear_codes,
  clear_refresh_tokens,
}
use meta_mcp.Store.Pages.{insert_page, replace_pages, insert_one, insert_all}
use meta_mcp.Store.Oauth.{
  is_live, code_row, login_row, insert_client, insert_code, insert_refresh, insert_login, take_code,
  take_login, rotate_row, revoke_all, purge_codes, purge_login_states, purge_refresh_tokens,
  purge_expired, create_login_state, rotate_refresh_token, create_refresh_token,
  revoke_tenant_refresh_tokens, consume_login_state, consume_auth_code, create_auth_code,
  register_client,
}
use meta_mcp.Store.Consistency.{
  StoreOp, upsert, delete, replace, register, create_code, consume_code, consume_login,
  revoke_tenant, create_refresh, rotate, create_login, purge, run_op, run_ops,
}

module _ (P : CodeRow → Type 0) (Q : LoginRow → Type 0) where
  -- Every code has `P`, and every login state has `Q`.
  pub record Rows (db : Db) : Type 0 where
    pub codes : All P db.codes
    pub login_states : All Q db.login_states

  -- An operation that adds a row adds one with `P`, or with `Q`.
  abbrev pub Adds : StoreOp → Type 0
  Adds (create_code c) = P (code_row c)
  Adds (create_login s) = Q (login_row s)
  Adds _ = Unit

  -- A statement on other tables.
  apart : {db d : Db} → d.codes ≡ db.codes → d.login_states ≡ db.login_states → Rows db → Rows d
  apart e e' h = record { codes = rw e h.codes; login_states = rw e' h.login_states }

  upsert_row-Rows : (row : TenantRow) → KeepsDb Rows (upsert_row row)
  unfolding upsert_row
  upsert_row-Rows row = record { at = λ db u d e h. apart (ground arith) (ground arith) h }

  remove_tenant-Rows : (id : String) → KeepsDb Rows (remove_tenant id)
  unfolding remove_tenant
  remove_tenant-Rows id = record { at = λ db u d e h. apart (ground arith) (ground arith) h }

  clear_pages-Rows : (id : String) → KeepsDb Rows (clear_pages id)
  unfolding clear_pages
  clear_pages-Rows id = record { at = λ db u d e h. apart (ground arith) (ground arith) h }

  insert_page-Rows : (row : PageRow) → KeepsDb Rows (insert_page row)
  unfolding insert_page
  insert_page-Rows row = record { at = λ db u d e h. apart (ground arith) (ground arith) h }

  insert_client-Rows : (row : ClientRow) → KeepsDb Rows (insert_client row)
  unfolding insert_client
  insert_client-Rows row = record { at = λ db u d e h. apart (ground arith) (ground arith) h }

  insert_refresh-Rows : (row : RefreshRow) → KeepsDb Rows (insert_refresh row)
  unfolding insert_refresh
  insert_refresh-Rows row = record { at = λ db u d e h. apart (ground arith) (ground arith) h }

  clear_refresh_tokens-Rows : (id : String) → KeepsDb Rows (clear_refresh_tokens id)
  unfolding clear_refresh_tokens
  clear_refresh_tokens-Rows id = record { at = λ db u d e h. apart (ground arith) (ground arith) h }

  rotate_row-Rows : (hash : String) (now : ℕ) → KeepsDb Rows (rotate_row hash now)
  unfolding rotate_row
  rotate_row-Rows hash now = record {
    at = λ db u d e h. elim (Option-cases (find (is_live hash now) db.refresh_tokens)) [
      | inl missing ↦ absurd (ground arith)
      | inr (r, found) ↦ apart (ground arith) (ground arith) h
    ];
  }

  revoke_all-Rows : (id : String) → KeepsDb Rows (revoke_all id)
  unfolding revoke_all
  revoke_all-Rows id = record { at = λ db u d e h. apart (ground arith) (ground arith) h }

  purge_refresh_tokens-Rows : (now : ℕ) → KeepsDb Rows (purge_refresh_tokens now)
  unfolding purge_refresh_tokens
  purge_refresh_tokens-Rows now = record {
    at = λ db u d e h. apart (ground arith) (ground arith) h;
  }

  -- A statement that deletes codes or login states.
  fewer_codes :
      (p : CodeRow → Bool) {db d : Db}
      → d ≡ record db { codes = delete_where p db.codes }
      → Rows db
      → Rows d
  unfolding delete_where
  fewer_codes p {db} e h = rw e (record {
    codes = All-keep P (λ r. not (p r)) db.codes h.codes;
    login_states = h.login_states;
  })

  fewer_logins :
      (p : LoginRow → Bool) {db d : Db}
      → d ≡ record db { login_states = delete_where p db.login_states }
      → Rows db
      → Rows d
  unfolding delete_where
  fewer_logins p {db} e h = rw e (record {
    codes = h.codes;
    login_states = All-keep Q (λ r. not (p r)) db.login_states h.login_states;
  })

  clear_codes-Rows : (id : String) → KeepsDb Rows (clear_codes id)
  unfolding clear_codes
  clear_codes-Rows id = record {
    at = λ db u d e h. fewer_codes (λ r. r.tenant_id == id) (ground arith) h;
  }

  purge_codes-Rows : (now : ℕ) → KeepsDb Rows (purge_codes now)
  unfolding purge_codes
  purge_codes-Rows now = record {
    at = λ db u d e h. fewer_codes (λ r. leb r.expires_at now) (ground arith) h;
  }

  purge_login_states-Rows : (now : ℕ) → KeepsDb Rows (purge_login_states now)
  unfolding purge_login_states
  purge_login_states-Rows now = record {
    at = λ db u d e h. fewer_logins (λ r. leb r.expires_at now) (ground arith) h;
  }

  take_code-Rows : (code : String) → KeepsDb Rows (take_code code)
  unfolding take_code
  take_code-Rows code = record {
    at = λ db u d e h. elim (Option-cases (find (λ r. r.code == code) db.codes)) [
      | inl missing ↦ absurd (ground arith)
      | inr (r, found) ↦ fewer_codes (λ r. r.code == code) (ground arith) h
    ];
  }

  take_login-Rows : (state : String) → KeepsDb Rows (take_login state)
  unfolding take_login
  take_login-Rows state = record {
    at = λ db u d e h. elim (Option-cases (find (λ r. r.state == state) db.login_states)) [
      | inl missing ↦ absurd (ground arith)
      | inr (r, found) ↦ fewer_logins (λ r. r.state == state) (ground arith) h
    ];
  }

  -- A statement that adds one.
  insert_code-Rows : (row : CodeRow) → P row → KeepsDb Rows (insert_code row)
  unfolding insert_code
  insert_code-Rows row good = record {
    at = λ db u d e h. elim (Bool-cases (any (λ r. r.code == row.code) db.codes)) [
      | inl clash ↦ absurd (ground arith)
      | inr free ↦
          let same : d ≡ record db { codes = db.codes ++ row ∷ [] } = ground arith in
          rw same (record {
            codes = All-concat P db.codes row h.codes good;
            login_states = h.login_states;
          })
    ];
  }

  insert_login-Rows : (row : LoginRow) → Q row → KeepsDb Rows (insert_login row)
  unfolding insert_login
  insert_login-Rows row good = record {
    at = λ db u d e h. elim (Bool-cases (any (λ r. r.state == row.state) db.login_states)) [
      | inl clash ↦ absurd (ground arith)
      | inr free ↦
          let same : d ≡ record db { login_states = db.login_states ++ row ∷ [] } = ground arith in
          rw same (record {
            codes = h.codes;
            login_states = All-concat Q db.login_states row h.login_states good;
          })
    ];
  }

  module _ (env : Env) where
    insert_one-Rows : (id : String) (p : Page) → Keeps (OnDb Rows) (insert_one env id p)
    unfolding insert_one
    insert_one-Rows id p = search (keeps_rules, db_rules, insert_page-Rows)

    insert_all-Rows : (id : String) (ps : List Page) → Keeps (OnDb Rows) (insert_all env id ps)
    unfolding insert_all
    insert_all-Rows id [] = search keeps_rules
    insert_all-Rows id (p ∷ ps) =
        Keeps-bind (insert_one env id p) (λ _. insert_all env id ps) (insert_one-Rows id p)
          (λ _. insert_all-Rows id ps)

    replace_pages-Rows :
        (id : String) (ps : List Page) → Keeps (OnDb Rows) (replace_pages env id ps)
    unfolding replace_pages
    replace_pages-Rows id ps = search (keeps_rules, db_rules, insert_all-Rows, clear_pages-Rows)

    delete_tenant-Rows : (id : String) → Keeps (OnDb Rows) (delete_tenant env id)
    unfolding delete_tenant
    delete_tenant-Rows id =
        search
          (
            keeps_rules, db_rules, clear_refresh_tokens-Rows, clear_codes-Rows, clear_pages-Rows,
            remove_tenant-Rows,
          )
          depth 9

    run_op-Rows : (op : StoreOp) → Adds op → Keeps (OnDb Rows) (run_op env op)
    unfolding run_op upsert_tenant register_client create_auth_code consume_auth_code
        consume_login_state revoke_tenant_refresh_tokens create_refresh_token rotate_refresh_token
        create_login_state purge_expired
    run_op-Rows (upsert t) good = search (keeps_rules, db_rules, upsert_row-Rows)
    run_op-Rows (delete id) good = delete_tenant-Rows id
    run_op-Rows (replace id pages) good = replace_pages-Rows id pages
    run_op-Rows (register c) good = search (keeps_rules, db_rules, insert_client-Rows)
    run_op-Rows (create_code c) good =
        search (keeps_rules, db_rules, insert_code-Rows (code_row c) good)
    run_op-Rows (consume_code code) good = search (keeps_rules, db_rules, take_code-Rows) depth 8
    run_op-Rows (consume_login state) good = search (keeps_rules, db_rules, take_login-Rows) depth 8
    run_op-Rows (revoke_tenant id) good = search (keeps_rules, db_rules, revoke_all-Rows)
    run_op-Rows (create_refresh t) good = search (keeps_rules, db_rules, insert_refresh-Rows)
    run_op-Rows (rotate hash now) good = search (keeps_rules, db_rules, rotate_row-Rows) depth 8
    run_op-Rows (create_login s) good =
        search (keeps_rules, db_rules, insert_login-Rows (login_row s) good)
    run_op-Rows (purge now) good =
        search
          (
            keeps_rules, db_rules, purge_codes-Rows, purge_login_states-Rows,
            purge_refresh_tokens-Rows,
          )
          depth 8

    pub run_ops-Rows :
        (ops : List StoreOp) (w : World) → All Adds ops → Rows w.db → Rows (run_ops env ops w).db
    unfolding run_ops
    run_ops-Rows [] w good h = h
    run_ops-Rows (op ∷ ops) w (first, later) h =
        let kept = (run_op-Rows op first).at w (record { holds = h }) in
        run_ops-Rows ops (run_op env op w).1 later kept.holds
