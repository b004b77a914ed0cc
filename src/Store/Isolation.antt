-- ===== src/Store/Isolation.antt =====
-- The pages of one tenant against the operations on another. `page_view t` is all that a query for
-- the tenant `t` can see of the table.
use meta_mcp.Prelude.{
  refl, Option-cases, inl, inr, some, ℕ, ◌≡◌, ◌≢◌, sym, ◌∙◌, ap, true, false, String, List, [], ◌∷◌,
  ◌==◌, eq_iff, find, keep, arith,
}
use meta_mcp.Domain.Entities.{Page}
use meta_mcp.Exec.{ok, Result, ◌>>=◌, or_return}
use meta_mcp.Exec.Keeps.{Keeps, Keeps-bind, keeps_rules}
use meta_mcp.World.{Env, World, sql}
use meta_mcp.World.Keeps.{OnDb, KeepsDb, db_rules}
use meta_mcp.Store.Db.{Db, PageRow}
use meta_mcp.Store.Laws.{find-eq-some, find-keep, keep-delete_where_apart, keep-concat_apart}
use meta_mcp.Store.Pages.{
  scan_page, same_page, insert_page, insert_one, insert_all, replace_pages, list_pages, page_by_id,
}
use meta_mcp.Store.Tenants.{
  remove_tenant, delete_tenant, clear_refresh_tokens, clear_pages, clear_codes,
}
use meta_mcp.Domain.Errors.{Error}

abbrev pub page_view : String → Db → List PageRow
page_view t db = keep (λ r. r.tenant_id == t) db.pages

-- The world at another step, so that two runs meet the same environment.
abbrev pub at_step : ℕ → World → World
at_step n w = record w { step = n }

-- Both lookups read no more than the view of their tenant.
find-page_view :
    (t page_id : String) (db : Db)
    → find (same_page t page_id) (page_view t db) ≡ find (same_page t page_id) db.pages
find-page_view t page_id db =
    find-keep (λ r. r.tenant_id == t) (same_page t page_id) db.pages (λ r h. ground arith)

pub page_by_id-view :
    (env : Env) (t page_id : String) (w w' : World)
    → page_view t w.db ≡ page_view t w'.db
    → w.step ≡ w'.step
    → (page_by_id env t page_id w).0 ≡ (page_by_id env t page_id w').0
unfolding page_by_id sql or_return ◌>>=◌
page_by_id-view env t page_id w w' same same_step =
    let found : find (same_page t page_id) w.db.pages ≡ find (same_page t page_id) w'.db.pages =
      sym (find-page_view t page_id w.db)
      ∙ ap (find (same_page t page_id)) same
      ∙ find-page_view t page_id w'.db in
    ground (arith, found, same_step)

pub list_pages-view :
    (env : Env) (t : String) (w w' : World)
    → page_view t w.db ≡ page_view t w'.db
    → w.step ≡ w'.step
    → (list_pages env t w).0 ≡ (list_pages env t w').0
unfolding list_pages sql or_return ◌>>=◌
list_pages-view env t w w' same same_step = rw (same, same_step) (ground arith)

module _ (t : String) (rows : List PageRow) where
  -- The tenant `t` sees exactly `rows`.
  pub record Sees (db : Db) : Type 0 where
    pub sees : page_view t db ≡ rows

  module _ (a : String) (other : a ≢ t) where
    apart : (r : PageRow) → (r.tenant_id == t) ≡ true → (r.tenant_id == a) ≡ false
    apart r h = ground (arith, eq_iff r.tenant_id t, eq_iff r.tenant_id a)

    clear_pages-Sees : KeepsDb Sees (clear_pages a)
    unfolding clear_pages
    clear_pages-Sees = record {
      at = λ db u d e h. record {
        sees = ground (
          arith,
          keep-delete_where_apart (λ r. r.tenant_id == a) (λ r. r.tenant_id == t) apart db.pages,
        );
      };
    }

    insert_page-Sees : (row : PageRow) → row.tenant_id ≡ a → KeepsDb Sees (insert_page row)
    unfolding insert_page
    insert_page-Sees row own = record {
      at = λ db u d e h. record {
        sees =
            ground (
              arith,
              eq_iff row.tenant_id t,
              keep-concat_apart (λ r. r.tenant_id == t) db.pages row,
            );
      };
    }

    insert_one-Sees : (env : Env) (p : Page) → Keeps (OnDb Sees) (insert_one env a p)
    unfolding insert_one
    insert_one-Sees env p = search (keeps_rules, db_rules, insert_page-Sees)

    insert_all-Sees : (env : Env) (ps : List Page) → Keeps (OnDb Sees) (insert_all env a ps)
    unfolding insert_all
    insert_all-Sees env [] = search keeps_rules
    insert_all-Sees env (p ∷ ps) =
        Keeps-bind (insert_one env a p) (λ _. insert_all env a ps) (insert_one-Sees env p)
          (λ _. insert_all-Sees env ps)

    replace_pages-Sees : (env : Env) (ps : List Page) → Keeps (OnDb Sees) (replace_pages env a ps)
    unfolding replace_pages
    replace_pages-Sees env ps = search (keeps_rules, db_rules, insert_all-Sees, clear_pages-Sees)

    remove_tenant-Sees : KeepsDb Sees (remove_tenant a)
    unfolding remove_tenant
    remove_tenant-Sees = record {
      at = λ db u d e h. record {
        sees = ground (
          arith,
          keep-delete_where_apart (λ r. r.tenant_id == a) (λ r. r.tenant_id == t) apart db.pages,
        );
      };
    }

    clear_refresh_tokens-Sees : KeepsDb Sees (clear_refresh_tokens a)
    unfolding clear_refresh_tokens
    clear_refresh_tokens-Sees = record { at = λ db u d e h. record { sees = ground arith } }

    clear_codes-Sees : KeepsDb Sees (clear_codes a)
    unfolding clear_codes
    clear_codes-Sees = record { at = λ db u d e h. record { sees = ground arith } }

    delete_tenant-Sees : (env : Env) → Keeps (OnDb Sees) (delete_tenant env a)
    unfolding delete_tenant
    delete_tenant-Sees env =
        search
          (
            keeps_rules, db_rules, clear_pages-Sees, remove_tenant-Sees, clear_refresh_tokens-Sees,
            clear_codes-Sees,
          )
          depth 9

-- What a tenant is answered: one page, and all pages.
abbrev pub Answers : Env → String → String → World → Result Error Page × Result Error (List Page)
Answers env t page_id w = ((page_by_id env t page_id w).0, (list_pages env t w).0)

answers-eq_of_view :
    (env : Env) (t page_id : String) (n : ℕ) (w w' : World)
    → page_view t w.db ≡ page_view t w'.db
    → Answers env t page_id (at_step n w) ≡ Answers env t page_id (at_step n w')
answers-eq_of_view env t page_id n w w' same = cc (
  page_by_id-view env t page_id (at_step n w) (at_step n w') same refl,
  list_pages-view env t (at_step n w) (at_step n w') same refl,
)

-- Replacing the pages of one tenant, whether it succeeds or fails at any statement, leaves the
-- answers to every page query of another tenant as they were.
pub page_by_id-replace_pages_other :
    (env : Env) (a t page_id : String) (pages : List Page) (n : ℕ) (w : World)
    → a ≢ t
    → Answers env t page_id (at_step n (replace_pages env a pages w).1)
      ≡ Answers env t page_id (at_step n w)
page_by_id-replace_pages_other env a t page_id pages n w other =
    let kept =
      (replace_pages-Sees t (page_view t w.db) a other env pages).at w
        (record { holds = record { sees = refl } }) in
    answers-eq_of_view env t page_id n (replace_pages env a pages w).1 w kept.holds.sees

-- Deleting one tenant, whether it succeeds or fails at any statement, leaves the answers to every page
-- query of another tenant as they were.
pub page_by_id-delete_tenant_other :
    (env : Env) (a t page_id : String) (n : ℕ) (w : World)
    → a ≢ t
    → Answers env t page_id (at_step n (delete_tenant env a w).1)
      ≡ Answers env t page_id (at_step n w)
page_by_id-delete_tenant_other env a t page_id n w other =
    let kept =
      (delete_tenant-Sees t (page_view t w.db) a other env).at w
        (record { holds = record { sees = refl } }) in
    answers-eq_of_view env t page_id n (delete_tenant env a w).1 w kept.holds.sees

-- A page that a tenant is answered is a stored row of that tenant with that id.
pub page_by_id-owned :
    (env : Env) (t page_id : String) (w : World) {p : Page}
    → (page_by_id env t page_id w).0 ≡ ok p
    → (r : PageRow) × (find (same_page t page_id) w.db.pages ≡ some r)
      × (r.tenant_id ≡ t)
      × (r.page_id ≡ page_id)
      × (scan_page env t r ≡ ok p)
      × (p.tenant_id ≡ t)
      × (p.page_id ≡ page_id)
unfolding page_by_id sql or_return ◌>>=◌
page_by_id-owned env t page_id w {p} h =
    elim (Option-cases (find (same_page t page_id) w.db.pages)) [
      | inl missing ↦ absurd (ground arith)
      | inr (r, found) ↦
          let owned = find-eq-some (same_page t page_id) w.db.pages found in
          let tenant : r.tenant_id ≡ t = ground (arith, owned, eq_iff r.tenant_id t) in
          let page : r.page_id ≡ page_id = ground (arith, owned, eq_iff r.page_id page_id) in
          (r, found, tenant, page, ground arith, ground arith, ground arith)
    ]
