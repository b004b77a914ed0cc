-- ===== src/Store/Erasure.antt =====
-- Deleting a tenant: all of it, or nothing.
use meta_mcp.Exec.{ok, err, or_return, ◌>>=◌}
use meta_mcp.Prelude.{
  suc, ◌==◌, refl, ◌≡◌, ◌⊎◌, Option-cases, inl, inr, Bool, String, arith, List, [], ◌∷◌, keep,
}
use meta_mcp.Store.Db.{Db}
use meta_mcp.World.{applied, sql, ended, transaction, World, Env}
use meta_mcp.Store.Tenants.{
  remove_tenant, clear_pages, clear_codes, clear_refresh_tokens, delete_tenant,
}
use meta_mcp.Store.Tables.{delete_where}
use meta_mcp.Domain.Errors.{Error}

keep-delete_where {ℓ} :
    {A : Type ℓ} (p : A → Bool) (rows : List A) → keep p (delete_where p rows) ≡ []
unfolding keep delete_where
keep-delete_where p [] = refl
keep-delete_where p (x ∷ rows) = ground (arith, keep-delete_where p rows)

-- No table holds a row of this tenant.
pub record IsErased (id : String) (db : Db) : Type 0 where
  pub no_tenant : keep (λ r. r.id == id) db.tenants ≡ []
  pub no_pages : keep (λ r. r.tenant_id == id) db.pages ≡ []
  pub no_codes : keep (λ r. r.tenant_id == id) db.codes ≡ []
  pub no_refresh_tokens : keep (λ r. r.tenant_id == id) db.refresh_tokens ≡ []

abbrev erased_db : String → Db → Db
erased_db id db = record db {
  tenants = delete_where (λ r. r.id == id) db.tenants;
  pages = delete_where (λ r. r.tenant_id == id) (delete_where (λ r. r.tenant_id == id) db.pages);
  codes = delete_where (λ r. r.tenant_id == id) db.codes;
  refresh_tokens = delete_where (λ r. r.tenant_id == id) db.refresh_tokens;
}

delete_tenant-db :
    (env : Env) (id : String) (w : World)
    → (((delete_tenant env id w).0 ≡ ok tt) × ((delete_tenant env id w).1.db ≡ erased_db id w.db))
      ⊎ ((e : Error) × ((delete_tenant env id w).0 ≡ err e)
          × ((delete_tenant env id w).1.db ≡ w.db))
unfolding delete_tenant transaction ended sql applied clear_refresh_tokens clear_codes clear_pages
    remove_tenant or_return ◌>>=◌
delete_tenant-db env id w = elim (Option-cases (env.fault w.step)) [
  | inr (e, bad) ↦ inr (Error.wrap "begin delete tenant" e, ground arith, ground arith)
  | inl fine0 ↦ elim (Option-cases (env.fault (suc w.step))) [
    | inr (e, bad) ↦ inr (Error.wrap "delete refresh tokens" e, ground arith, ground arith)
    | inl fine1 ↦ elim (Option-cases (env.fault (suc (suc w.step)))) [
      | inr (e, bad) ↦ inr (Error.wrap "delete auth codes" e, ground arith, ground arith)
      | inl fine2 ↦ elim (Option-cases (env.fault (suc (suc (suc w.step))))) [
        | inr (e, bad) ↦ inr (Error.wrap "delete pages" e, ground arith, ground arith)
        | inl fine3 ↦ elim (Option-cases (env.fault (suc (suc (suc (suc w.step)))))) [
          | inr (e, bad) ↦ inr (Error.wrap "delete tenant" e, ground arith, ground arith)
          | inl fine4 ↦ elim (Option-cases (env.fault (suc (suc (suc (suc (suc w.step))))))) [
            | inr (e, bad) ↦ inr (Error.wrap "commit delete tenant" e, ground arith, ground arith)
            | inl fine5 ↦ inl (ground arith, ground arith)
          ]
        ]
      ]
    ]
  ]
]

-- Deleting a tenant erases its row, pages, codes and refresh tokens, or fails at a statement and
-- leaves the database as it was.
pub delete_tenant-IsErased :
    (env : Env) (id : String) (w : World)
    → (((delete_tenant env id w).0 ≡ ok tt) × IsErased id (delete_tenant env id w).1.db)
      ⊎ ((e : Error) × ((delete_tenant env id w).0 ≡ err e)
          × ((delete_tenant env id w).1.db ≡ w.db))
delete_tenant-IsErased env id w = elim (delete_tenant-db env id w) [
  | inr failed ↦ inr failed
  | inl (went, same) ↦ inl (
    went,
    rw same (record {
      no_tenant = keep-delete_where (λ r. r.id == id) w.db.tenants;
      no_pages =
          keep-delete_where (λ r. r.tenant_id == id)
            (delete_where (λ r. r.tenant_id == id) w.db.pages);
      no_codes = keep-delete_where (λ r. r.tenant_id == id) w.db.codes;
      no_refresh_tokens = keep-delete_where (λ r. r.tenant_id == id) w.db.refresh_tokens;
    }),
  )
]
