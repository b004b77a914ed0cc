-- ===== src/Store/Consistency/Schema.antt =====
-- The constraints of the schema (migrations/0001_init.sql), and which table each of them is about.
use meta_mcp.Prelude.{eq_iff, true, any, All, ◌≡◌, Bool, ◌==◌, String, List, arith}
use meta_mcp.Store.Db.{TenantRow, RefreshRow, LoginRow, CodeRow, ClientRow, PageRow, Db}
use meta_mcp.Store.Consistency.Keys.{Distinct}
use meta_mcp.Store.Pages.{same_page}

-- The pages' foreign key.
abbrev pub HasTenant : List TenantRow → PageRow → Type 0
HasTenant tenants p = any (λ t. t.id == p.tenant_id) tenants ≡ true

abbrev pub same_page_key : PageRow → PageRow → Bool
same_page_key a b = same_page b.tenant_id b.page_id a

-- The PRIMARY KEY, UNIQUE and REFERENCES clauses of the schema.
pub record IsConsistent (db : Db) : Type 0 where
  pub tenant_ids : Distinct (λ a b. a.id == b.id) db.tenants
  pub meta_users : Distinct (λ a b. a.meta_user_id == b.meta_user_id) db.tenants
  pub page_keys : Distinct same_page_key db.pages
  pub page_tenants : All (HasTenant db.tenants) db.pages
  pub client_ids : Distinct (λ a b. a.client_id == b.client_id) db.clients
  pub codes : Distinct (λ a b. a.code == b.code) db.codes
  pub token_hashes : Distinct (λ a b. a.token_hash == b.token_hash) db.refresh_tokens
  pub states : Distinct (λ a b. a.state == b.state) db.login_states

pub eq_sym : (a b : String) → (a == b) ≡ true → (b == a) ≡ true
eq_sym a b h = ground (arith, eq_iff a b, eq_iff b a)

pub same_page_key_sym : (a b : PageRow) → same_page_key a b ≡ true → same_page_key b a ≡ true
same_page_key_sym a b h = ground (arith, eq_sym a.tenant_id b.tenant_id, eq_sym a.page_id b.page_id)

-- Each part of the constraints looks at one or two tables.
module _ {db : Db} (h : IsConsistent db) where
  pub with_clients :
      (rows : List ClientRow)
      → Distinct (λ a b. a.client_id == b.client_id) rows
      → IsConsistent (record db { clients = rows })
  with_clients rows d = record {
    tenant_ids = h.tenant_ids;
    meta_users = h.meta_users;
    page_keys = h.page_keys;
    page_tenants = h.page_tenants;
    client_ids = d;
    codes = h.codes;
    token_hashes = h.token_hashes;
    states = h.states;
  }

  pub with_codes :
      (rows : List CodeRow)
      → Distinct (λ a b. a.code == b.code) rows
      → IsConsistent (record db { codes = rows })
  with_codes rows d = record {
    tenant_ids = h.tenant_ids;
    meta_users = h.meta_users;
    page_keys = h.page_keys;
    page_tenants = h.page_tenants;
    client_ids = h.client_ids;
    codes = d;
    token_hashes = h.token_hashes;
    states = h.states;
  }

  pub with_refresh_tokens :
      (rows : List RefreshRow)
      → Distinct (λ a b. a.token_hash == b.token_hash) rows
      → IsConsistent (record db { refresh_tokens = rows })
  with_refresh_tokens rows d = record {
    tenant_ids = h.tenant_ids;
    meta_users = h.meta_users;
    page_keys = h.page_keys;
    page_tenants = h.page_tenants;
    client_ids = h.client_ids;
    codes = h.codes;
    token_hashes = d;
    states = h.states;
  }

  pub with_login_states :
      (rows : List LoginRow)
      → Distinct (λ a b. a.state == b.state) rows
      → IsConsistent (record db { login_states = rows })
  with_login_states rows d = record {
    tenant_ids = h.tenant_ids;
    meta_users = h.meta_users;
    page_keys = h.page_keys;
    page_tenants = h.page_tenants;
    client_ids = h.client_ids;
    codes = h.codes;
    token_hashes = h.token_hashes;
    states = d;
  }

  pub with_pages :
      (rows : List PageRow)
      → Distinct same_page_key rows
      → All (HasTenant db.tenants) rows
      → IsConsistent (record db { pages = rows })
  with_pages rows d f = record {
    tenant_ids = h.tenant_ids;
    meta_users = h.meta_users;
    page_keys = d;
    page_tenants = f;
    client_ids = h.client_ids;
    codes = h.codes;
    token_hashes = h.token_hashes;
    states = h.states;
  }

  pub with_tenants :
      (tenants : List TenantRow) (rows : List PageRow)
      → Distinct (λ a b. a.id == b.id) tenants
      → Distinct (λ a b. a.meta_user_id == b.meta_user_id) tenants
      → Distinct same_page_key rows
      → All (HasTenant tenants) rows
      → IsConsistent (record db { tenants = tenants; pages = rows })
  with_tenants tenants rows ids users d f = record {
    tenant_ids = ids;
    meta_users = users;
    page_keys = d;
    page_tenants = f;
    client_ids = h.client_ids;
    codes = h.codes;
    token_hashes = h.token_hashes;
    states = h.states;
  }
