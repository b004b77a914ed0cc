-- ===== src/Store/Tenants.antt =====
-- internal/adapters/sqlite/store.go, the tenants.
use meta_mcp.Prelude.{
  ℕ, Bool, String, List, [], ◌∷◌, ◌++◌, Option, none, some, ◌==◌, ◌&&◌, ◌||◌, leb, ltb, eqb, any,
  find, keep, if◌then◌else◌,
}
use meta_mcp.Domain.Time.{Time, zero_time, epoch, is_zero, unix, of_unix}
use meta_mcp.Domain.Errors.{Error, not_found, no_rows, wrap, is_no_rows}
use meta_mcp.Domain.Entities.{Tenant}
use meta_mcp.Exec.{Result, ok, err, lift, ◌>>=◌, ◌>>◌, or_return}
use meta_mcp.Crypto.{Bytes, encrypt, decrypt}
use meta_mcp.World.{Env, Action, Statement, ask, sql, transaction}
use meta_mcp.Store.Db.{Db, TenantRow}
use meta_mcp.Store.Tables.{constraint, delete_where, update_where, order_by}

-- 0 of a column is `epoch` here.
unfoldable pub unix_or_zero : Time → ℕ
unix_or_zero t = if is_zero t then epoch else unix t

unfoldable pub time_or_zero : ℕ → Time
time_or_zero sec = if leb sec epoch then zero_time else of_unix sec

-- `INSERT ... ON CONFLICT(meta_user_id) DO UPDATE`: SQLite tries the ON CONFLICT constraint first.
unfoldable pub renew : TenantRow → TenantRow → TenantRow
renew new old = record old {
  display_name = new.display_name;
  user_token_enc = new.user_token_enc;
  updated_at = new.updated_at;
  user_token_expires_at = new.user_token_expires_at;
}

unfoldable pub upsert_row : TenantRow → Statement (Unit {0})
unfolding renew update_where
upsert_row row db =
    if any (λ r. r.meta_user_id == row.meta_user_id) db.tenants
    then ok (
      tt,
      record db {
        tenants = update_where (λ r. r.meta_user_id == row.meta_user_id) (renew row) db.tenants;
      },
    )
    else if any (λ r. r.id == row.id) db.tenants
    then err constraint
    else ok (tt, record db { tenants = db.tenants ++ row ∷ [] })

unfoldable pub tenant_row : Tenant → Bytes → TenantRow
unfolding unix_or_zero
tenant_row t enc = record {
  id = t.id;
  meta_user_id = t.meta_user_id;
  display_name = t.display_name;
  user_token_enc = enc;
  created_at = unix t.created_at;
  updated_at = unix t.updated_at;
  user_token_expires_at = unix_or_zero t.user_token_expires_at;
}

-- The first row of a query, or `sql.ErrNoRows`.
abbrev pub first_row : {A : Type 0} → Option A → Result Error A
first_row none = err no_rows
first_row (some a) = ok a

-- `if errors.Is(err, sql.ErrNoRows) { return nil, domain.ErrNotFound }`, other errors as they are
abbrev pub no_rows_not_found : Error → Error
no_rows_not_found e = if is_no_rows e then not_found else e

-- ... and other errors wrapped.
abbrev pub not_found_or_wrap : String → Error → Error
not_found_or_wrap s e = if is_no_rows e then not_found else wrap s e

-- A SELECT leaves the database as it is.
abbrev pub selecting : {A : Type 0} → (Db → Result Error A) → Statement A
selecting f db = elim (f db) [ ok a ↦ ok (a, db) | err e ↦ err e ]

-- The DELETE statements by tenant.
unfoldable pub clear_refresh_tokens : String → Statement (Unit {0})
unfolding delete_where
clear_refresh_tokens id db =
    ok (tt, record db { refresh_tokens = delete_where (λ r. r.tenant_id == id) db.refresh_tokens })

unfoldable pub clear_codes : String → Statement (Unit {0})
unfolding delete_where
clear_codes id db = ok (tt, record db { codes = delete_where (λ r. r.tenant_id == id) db.codes })

unfoldable pub clear_pages : String → Statement (Unit {0})
unfolding delete_where
clear_pages id db = ok (tt, record db { pages = delete_where (λ r. r.tenant_id == id) db.pages })

-- The pages of the tenant go with its row: ON DELETE CASCADE.
unfoldable pub remove_tenant : String → Statement (Unit {0})
unfolding delete_where
remove_tenant id db = ok (
  tt,
  record db {
    tenants = delete_where (λ r. r.id == id) db.tenants;
    pages = delete_where (λ r. r.tenant_id == id) db.pages;
  },
)

module _ (env : Env) where
  unfoldable pub upsert_tenant : Tenant → Action Error (Unit {0})
  unfolding upsert_row tenant_row
  upsert_tenant t = do
    nonce ← ask (λ n. ok (env.nonce n))
    enc ← or_return (lift (encrypt env.aead nonce t.user_token)) (wrap "encrypt user token")
    or_return (sql env (upsert_row (tenant_row t enc))) (wrap "upsert tenant")

  opened_row : TenantRow → String → Tenant
  unfolding time_or_zero
  opened_row r token = record {
    id = r.id;
    meta_user_id = r.meta_user_id;
    display_name = r.display_name;
    user_token = token;
    created_at = of_unix r.created_at;
    updated_at = of_unix r.updated_at;
    user_token_expires_at = time_or_zero r.user_token_expires_at;
  }

  -- `scanTenant` on a row that was read.
  unfoldable pub scan_tenant : TenantRow → Result Error Tenant
  unfolding opened_row
  scan_tenant r = elim (decrypt env.aead r.user_token_enc) [
    | ok token ↦ ok (opened_row r token)
    | err e ↦ err (wrap "decrypt user token" e)
  ]

  -- `QueryRowContext(...).Scan`: no row, or a failing statement.
  scan_error : String → Error → Error
  scan_error s e = if is_no_rows e then e else wrap s e

  unfoldable pub tenant_by : (TenantRow → Bool) → Action Error Tenant
  unfolding scan_tenant scan_error find
  tenant_by p =
      or_return
        (do
          row ←
              or_return (sql env (selecting (λ db. first_row (find p db.tenants))))
                (scan_error "select tenant")
          lift (scan_tenant row))
        no_rows_not_found

  unfoldable pub tenant_by_id : String → Action Error Tenant
  unfolding tenant_by
  tenant_by_id id = tenant_by (λ r. r.id == id)

  unfoldable pub tenant_by_meta_user_id : String → Action Error Tenant
  unfolding tenant_by
  tenant_by_meta_user_id id = tenant_by (λ r. r.meta_user_id == id)

  -- `WHERE (expires > 0 AND expires < ?) OR (expires = 0 AND updated_at < ?)`
  unfoldable pub is_due : ℕ → ℕ → TenantRow → Bool
  is_due expiring unchecked r =
      (ltb epoch r.user_token_expires_at && ltb r.user_token_expires_at expiring)
      || (eqb r.user_token_expires_at epoch && ltb r.updated_at unchecked)

  -- The loop over the rows stops at the first row that does not scan.
  unfoldable pub scan_tenants : List TenantRow → Result Error (List Tenant)
  unfolding scan_tenant
  scan_tenants [] = ok []
  scan_tenants (r ∷ rows) = elim (scan_tenant r) [
    | err e ↦ err e
    | ok t ↦ elim (scan_tenants rows) [ err e ↦ err e | ok ts ↦ ok (t ∷ ts) ]
  ]

  unfoldable pub tenants_due_for_token_refresh : Time → Time → Action Error (List Tenant)
  unfolding is_due scan_tenants keep order_by
  tenants_due_for_token_refresh expiring_before unchecked_before = do
    rows ←
        or_return
          (sql env (
            selecting (λ db. ok (
              order_by (λ a b. leb a.user_token_expires_at b.user_token_expires_at)
                (keep (is_due (unix expiring_before) (unix unchecked_before)) db.tenants)))))
          (wrap "select tenants to refresh")
    lift (scan_tenants rows)

  unfoldable pub delete_tenant : String → Action Error (Unit {0})
  unfolding clear_refresh_tokens clear_codes clear_pages remove_tenant
  delete_tenant id = transaction env "begin delete tenant" "commit delete tenant" (do
    or_return (sql env (clear_refresh_tokens id)) (wrap "delete refresh tokens")
    or_return (sql env (clear_codes id)) (wrap "delete auth codes")
    or_return (sql env (clear_pages id)) (wrap "delete pages")
    or_return (sql env (remove_tenant id)) (wrap "delete tenant"))
