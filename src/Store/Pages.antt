-- ===== src/Store/Pages.antt =====
-- internal/adapters/sqlite/store.go, the pages. Every query is by tenant.
use meta_mcp.Prelude.{Bool, String, List, [], ◌∷◌, ◌++◌, ◌==◌, ◌&&◌, any, find, keep, if◌then◌else◌}
use meta_mcp.Domain.Time.{unix, of_unix}
use meta_mcp.Domain.Errors.{Error, wrap, is_no_rows}
use meta_mcp.Domain.Entities.{Page}
use meta_mcp.Exec.{Result, ok, err, pure, lift, ◌>>=◌, ◌>>◌, or_return}
use meta_mcp.Crypto.{Bytes, encrypt, decrypt}
use meta_mcp.World.{Env, Action, Statement, ask, sql, transaction}
use meta_mcp.Store.Db.{Db, PageRow}
use meta_mcp.Store.Tables.{constraint, nullable, null_string, text_le, order_by}
use meta_mcp.Store.Tenants.{first_row, no_rows_not_found, selecting, clear_pages}

unfoldable pub page_row : String → Page → Bytes → PageRow
unfolding nullable
page_row tenant_id p enc = record {
  tenant_id = tenant_id;
  page_id = p.page_id;
  name = p.name;
  ig_user_id = nullable p.ig_user_id;
  ig_username = nullable p.ig_username;
  page_token_enc = enc;
  synced_at = unix p.synced_at;
}

abbrev pub same_page : String → String → PageRow → Bool
same_page tenant_id page_id r = r.tenant_id == tenant_id && r.page_id == page_id

-- The primary key is (tenant_id, page_id), and the tenant must exist: `PRAGMA foreign_keys = ON`.
unfoldable pub insert_page : PageRow → Statement (Unit {0})
insert_page row db =
    if any (same_page row.tenant_id row.page_id) db.pages
    then err constraint
    else if any (λ t. t.id == row.tenant_id) db.tenants
    then ok (tt, record db { pages = db.pages ++ row ∷ [] })
    else err constraint

-- `WHERE tenant_id = ? ORDER BY name`
abbrev pub pages_query : String → Db → Result Error (List PageRow)
pages_query tenant_id db =
    ok (order_by (λ a b. text_le a.name b.name) (keep (λ r. r.tenant_id == tenant_id) db.pages))

-- `WHERE tenant_id = ? AND page_id = ?`
abbrev pub page_query : String → String → Db → Result Error PageRow
page_query tenant_id page_id db = first_row (find (same_page tenant_id page_id) db.pages)

module _ (env : Env) where
  unfoldable pub insert_one : String → Page → Action Error (Unit {0})
  unfolding page_row insert_page
  insert_one tenant_id p = do
    nonce ← ask (λ n. ok (env.nonce n))
    enc ← or_return (lift (encrypt env.aead nonce p.page_token)) (wrap "encrypt page token")
    or_return (sql env (insert_page (page_row tenant_id p enc))) (wrap "insert page")

  unfoldable pub insert_all : String → List Page → Action Error (Unit {0})
  unfolding insert_one
  insert_all tenant_id [] = pure tt
  insert_all tenant_id (p ∷ pages) = do insert_one tenant_id p; insert_all tenant_id pages

  unfoldable pub replace_pages : String → List Page → Action Error (Unit {0})
  unfolding clear_pages insert_all
  replace_pages tenant_id pages = transaction env "begin replace pages" "commit replace pages" (do
    or_return (sql env (clear_pages tenant_id)) (wrap "clear pages")
    insert_all tenant_id pages)

  opened_page : String → PageRow → String → Page
  opened_page tenant_id r token = record {
    tenant_id = tenant_id;
    page_id = r.page_id;
    name = r.name;
    ig_user_id = null_string r.ig_user_id;
    ig_username = null_string r.ig_username;
    page_token = token;
    synced_at = of_unix r.synced_at;
  }

  -- `scanPage` on a row that was read.
  unfoldable pub scan_page : String → PageRow → Result Error Page
  unfolding opened_page
  scan_page tenant_id r = elim (decrypt env.aead r.page_token_enc) [
    | ok token ↦ ok (opened_page tenant_id r token)
    | err e ↦ err (wrap "decrypt page token" e)
  ]

  unfoldable pub scan_pages : String → List PageRow → Result Error (List Page)
  scan_pages tenant_id [] = ok []
  scan_pages tenant_id (r ∷ rows) = elim (scan_page tenant_id r) [
    | err e ↦ err e
    | ok p ↦ elim (scan_pages tenant_id rows) [ err e ↦ err e | ok ps ↦ ok (p ∷ ps) ]
  ]

  unfoldable pub list_pages : String → Action Error (List Page)
  unfolding scan_page scan_pages order_by keep
  list_pages tenant_id = do
    rows ← or_return (sql env (selecting (pages_query tenant_id))) (wrap "select pages")
    lift (scan_pages tenant_id rows)

  page_scan_error : Error → Error
  page_scan_error e = if is_no_rows e then e else wrap "scan page" e

  unfoldable pub page_by_id : String → String → Action Error Page
  unfolding scan_page page_scan_error find
  page_by_id tenant_id page_id =
      or_return
        (do
          row ← or_return (sql env (selecting (page_query tenant_id page_id))) page_scan_error
          lift (scan_page tenant_id row))
        no_rows_not_found
