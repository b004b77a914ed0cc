-- ===== src/Store/Consistency/Tenants.antt =====
-- The statements on tenants and pages keep the constraints.
use meta_mcp.Prelude.{
  eq_iff, true, not, [], ◌∷◌, ◌≡◌, find, Option-cases, Bool-cases, ◌==◌, ℕ, String, arith, refl,
  inl, inr, ◌++◌, any, ◌∙◌,
}
use meta_mcp.Store.Tables.{delete_where, update_where}
use meta_mcp.Store.Tenants.{renew, upsert_row, remove_tenant, clear_pages}
use meta_mcp.Store.Pages.{same_page, insert_page}
use meta_mcp.Store.Oauth.{is_live, revoke, rotate_row, revoke_all}
use meta_mcp.Store.Db.{TenantRow, PageRow}
use meta_mcp.World.Keeps.{KeepsDb}
use meta_mcp.Store.Consistency.Schema.{
  same_page_key_sym, eq_sym, same_page_key, HasTenant, with_tenants, with_refresh_tokens,
  with_pages, IsConsistent,
}
use meta_mcp.Store.Consistency.Keys.{
  any-delete_apart, any-concat_old, All-concat, any-update_same, Distinct-concat,
  Distinct-update_where, Distinct-delete_where,
}
use meta_mcp.Store.Rows.{All-keep_test, All-keep, All-weaken}

pub rotate_row-IsConsistent : (hash : String) (now : ℕ) → KeepsDb IsConsistent (rotate_row hash now)
unfolding rotate_row
rotate_row-IsConsistent hash now = record {
  at = λ db u d e h. elim (Option-cases (find (is_live hash now) db.refresh_tokens)) [
    | inl missing ↦ absurd (ground arith)
    | inr (r, found) ↦
        let rows = update_where (is_live hash now) revoke db.refresh_tokens in
        let same : d ≡ record db { refresh_tokens = rows } = ground arith in
        rw same (
          with_refresh_tokens h rows (
            Distinct-update_where (λ a b. a.token_hash == b.token_hash) (is_live hash now) revoke
              (λ x y. refl) (λ x y. refl) db.refresh_tokens h.token_hashes))
  ];
}

pub revoke_all-IsConsistent : (id : String) → KeepsDb IsConsistent (revoke_all id)
unfolding revoke_all
revoke_all-IsConsistent id = record {
  at = λ db u d e h.
      let rows = update_where (λ r. r.tenant_id == id) revoke db.refresh_tokens in
      let same : d ≡ record db { refresh_tokens = rows } = ground arith in
      rw same (
        with_refresh_tokens h rows (
          Distinct-update_where (λ a b. a.token_hash == b.token_hash) (λ r. r.tenant_id == id)
            revoke (λ x y. refl) (λ x y. refl) db.refresh_tokens h.token_hashes));
}

pub clear_pages-IsConsistent : (id : String) → KeepsDb IsConsistent (clear_pages id)
unfolding clear_pages delete_where
clear_pages-IsConsistent id = record {
  at = λ db u d e h.
      let rows = delete_where (λ r. r.tenant_id == id) db.pages in
      let same : d ≡ record db { pages = rows } = ground arith in
      rw same (
        with_pages h rows
          (Distinct-delete_where same_page_key (λ r. r.tenant_id == id) db.pages h.page_keys)
          (All-keep (HasTenant db.tenants) (λ r. not (r.tenant_id == id)) db.pages h.page_tenants));
}

pub insert_page-IsConsistent : (row : PageRow) → KeepsDb IsConsistent (insert_page row)
unfolding insert_page
insert_page-IsConsistent row = record {
  at = λ db u d e h. elim (Bool-cases (any (same_page row.tenant_id row.page_id) db.pages)) [
    | inl clash ↦ absurd (ground arith)
    | inr free ↦
        let rows = db.pages ++ row ∷ [] in
        let owned : HasTenant db.tenants row = ground arith in
        let same : d ≡ record db { pages = rows } = ground arith in
        rw same (
          with_pages h rows
            (Distinct-concat same_page_key same_page_key_sym db.pages row h.page_keys free)
            (All-concat (HasTenant db.tenants) db.pages row h.page_tenants owned))
  ];
}

pub upsert_row-IsConsistent : (row : TenantRow) → KeepsDb IsConsistent (upsert_row row)
unfolding upsert_row
upsert_row-IsConsistent row = record {
  at = λ db u d e h. elim (Bool-cases (any (λ r. r.meta_user_id == row.meta_user_id) db.tenants)) [
    | inl known ↦
        let rows = update_where (λ r. r.meta_user_id == row.meta_user_id) (renew row) db.tenants in
        let same : d ≡ record db { tenants = rows; pages = db.pages } = ground arith in
        rw same (
          with_tenants h rows db.pages
            (Distinct-update_where (λ a b. a.id == b.id) _ (renew row) (λ x y. refl) (λ x y. refl)
              db.tenants h.tenant_ids)
            (Distinct-update_where (λ a b. a.meta_user_id == b.meta_user_id) _ (renew row)
              (λ x y. refl) (λ x y. refl) db.tenants h.meta_users)
            h.page_keys
            (All-weaken (HasTenant db.tenants) (HasTenant rows)
              (λ p has.
                any-update_same (λ t. t.id == p.tenant_id) _ (renew row) (λ y. refl) db.tenants
                ∙ has)
              db.pages h.page_tenants))
    | inr new ↦ elim (Bool-cases (any (λ r. r.id == row.id) db.tenants)) [
      | inl clash ↦ absurd (ground arith)
      | inr free ↦
          let rows = db.tenants ++ row ∷ [] in
          let same : d ≡ record db { tenants = rows; pages = db.pages } = ground arith in
          rw same (
            with_tenants h rows db.pages
              (Distinct-concat (λ a b. a.id == b.id) (λ a b. eq_sym a.id b.id) db.tenants row
                h.tenant_ids free)
              (Distinct-concat (λ a b. a.meta_user_id == b.meta_user_id)
                (λ a b. eq_sym a.meta_user_id b.meta_user_id) db.tenants row h.meta_users new)
              h.page_keys
              (All-weaken (HasTenant db.tenants) (HasTenant rows)
                (λ p has. any-concat_old (λ t. t.id == p.tenant_id) db.tenants row has) db.pages
                h.page_tenants))
    ]
  ];
}

pub remove_tenant-IsConsistent : (id : String) → KeepsDb IsConsistent (remove_tenant id)
unfolding remove_tenant delete_where
remove_tenant-IsConsistent id = record {
  at = λ db u d e h.
      let rows = delete_where (λ r. r.id == id) db.tenants in
      let pages = delete_where (λ r. r.tenant_id == id) db.pages in
      let same : d ≡ record db { tenants = rows; pages = pages } = ground arith in
      rw same (
        with_tenants h rows pages
          (Distinct-delete_where (λ a b. a.id == b.id) (λ r. r.id == id) db.tenants h.tenant_ids)
          (Distinct-delete_where (λ a b. a.meta_user_id == b.meta_user_id) (λ r. r.id == id)
            db.tenants h.meta_users)
          (Distinct-delete_where same_page_key (λ r. r.tenant_id == id) db.pages h.page_keys)
          (All-weaken (λ p. HasTenant db.tenants p × (not (p.tenant_id == id) ≡ true))
            (HasTenant rows)
            (λ p has.
              any-delete_apart (λ t. t.id == p.tenant_id) (λ r. r.id == id)
                (λ t e.
                  ground (arith, eq_iff t.id p.tenant_id, eq_iff t.id id, eq_iff p.tenant_id id))
                db.tenants
              ∙ has.0)
            pages
            (All-keep_test (HasTenant db.tenants) (λ r. not (r.tenant_id == id)) db.pages
              h.page_tenants)));
}
