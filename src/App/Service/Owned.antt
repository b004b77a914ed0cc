-- ===== src/App/Service/Owned.antt =====
-- Every page that the service resolves is one of the tenant's, and resolving writes nothing.
use mathlib.Core.List.{Memᴰ}
use meta_mcp.Prelude.{
  is_blank, ◌≡◌, refl, true, false, not, String, List, [], ◌∷◌, Option, none, some, ◌==◌, eq_iff,
  All, keep, find, arith,
}
use meta_mcp.Domain.Errors.{is_not_found, Error}
use meta_mcp.Domain.Entities.{Page, has_instagram}
use meta_mcp.Exec.{Result, ok, err}
use meta_mcp.Exec.Yields.{
  OnOk, Yields, Yields-pure, Yields-raise, Yields-lift, Yields-if, Yields-stop_if, Yields-bind,
  Yields-or_return, Yields-attempt,
}
use meta_mcp.World.{Env, Call}
use meta_mcp.World.Yields.{Reads, Yields-select}
use meta_mcp.Store.Db.{Db, PageRow}
use meta_mcp.Store.Rows.{All-order_by, All-Mem, All-keep_test, All-weaken, find-All}
use meta_mcp.Store.Tables.{text_le}
use meta_mcp.Store.Tenants.{first_row}
use meta_mcp.Store.Pages.{
  pages_query, page_query, same_page, scan_page, scan_pages, page_by_id, list_pages,
}
use meta_mcp.Store.Laws.{find-eq-some}
use meta_mcp.App.Service.{
  object_prefix, page, ig_page, only_page, only_ig_page, single_page, prefixed, page_of_object,
  owner_page, owner_ig_page,
}

-- `p` is what a stored row of the tenant `t` decrypts to.
pub record IsOwn (env : Env) (t : String) (db : Db) (p : Page) : Type 0 where
  pub row : PageRow
  pub listed : Memᴰ row db.pages
  pub tenant : row.tenant_id ≡ t
  pub scanned : scan_page env t row ≡ ok p

module _ (env : Env) (t : String) (db : Db) (Log : List Call → Type 0) where
  abbrev pub Own : Page → Type 0
  Own = IsOwn env t db

  abbrev IsOwnRow : PageRow → Type 0
  IsOwnRow r = Memᴰ r db.pages × (r.tenant_id ≡ t)

  own_rows : All IsOwnRow (keep (λ r. r.tenant_id == t) db.pages)
  own_rows =
      All-weaken (λ r. Memᴰ r db.pages × ((r.tenant_id == t) ≡ true)) IsOwnRow
        (λ r h. (h.0, (eq_iff r.tenant_id t).0 h.1)) (keep (λ r. r.tenant_id == t) db.pages)
        (All-keep_test (λ r. Memᴰ r db.pages) (λ r. r.tenant_id == t) db.pages (All-Mem db.pages))

  Own-of_scan : (r : PageRow) → IsOwnRow r → OnOk Own (scan_page env t r)
  Own-of_scan r (listed, tenant) = go (scan_page env t r) refl
    where
      go : (found : Result Error Page) → scan_page env t r ≡ found → OnOk Own found
      go (ok p) e = record { row = r; listed = listed; tenant = tenant; scanned = e }
      go (err e) _ = tt

  scan_cons :
      (found : Result Error Page) (rest : Result Error (List Page))
      → OnOk Own found
      → OnOk (All Own) rest
      → OnOk
          (All Own)
          (elim found [ err e ↦ err e | ok p ↦ elim rest [ err e ↦ err e | ok ps ↦ ok (p ∷ ps) ] ])
  scan_cons (err e) rest h k = tt
  scan_cons (ok p) (err e) h k = tt
  scan_cons (ok p) (ok ps) h k = (h, k)

  scan_pages-Own :
      (rows : List PageRow) → All IsOwnRow rows → OnOk (All Own) (scan_pages env t rows)
  unfolding scan_pages
  scan_pages-Own [] h = tt
  scan_pages-Own (r ∷ rows) (hr, h) =
      scan_cons (scan_page env t r) (scan_pages env t rows) (Own-of_scan r hr)
        (scan_pages-Own rows h)

  list_pages-Own : Yields (Reads db Log) (All Own) (list_pages env t)
  unfolding list_pages
  list_pages-Own =
      Yields-bind (Reads db Log) (All IsOwnRow) (All Own) _ _
        (Yields-or_return (Reads db Log) (All IsOwnRow) _ _ (
          Yields-select db Log (All IsOwnRow) env (pages_query t) (
            All-order_by IsOwnRow (λ a b. text_le a.name b.name)
              (keep (λ r. r.tenant_id == t) db.pages) own_rows)))
        (λ rows h. Yields-lift (Reads db Log) (All Own) _ (scan_pages-Own rows h))

  found_row :
      (page_id : String) (o : Option PageRow)
      → find (same_page t page_id) db.pages ≡ o
      → OnOk IsOwnRow (first_row o)
  found_row page_id none e = tt
  found_row page_id (some r) e = (
    find-All (λ r. Memᴰ r db.pages) (same_page t page_id) db.pages e (All-Mem db.pages),
    ground (arith, find-eq-some (same_page t page_id) db.pages e, eq_iff r.tenant_id t),
  )

  page_by_id-Own : (page_id : String) → Yields (Reads db Log) Own (page_by_id env t page_id)
  unfolding page_by_id
  page_by_id-Own page_id = Yields-or_return (Reads db Log) Own _ _ (
      Yields-bind (Reads db Log) IsOwnRow Own _ _
        (Yields-or_return (Reads db Log) IsOwnRow _ _ (
          Yields-select db Log IsOwnRow env (page_query t page_id)
            (found_row page_id (find (same_page t page_id) db.pages) refl)))
        (λ r h. Yields-lift (Reads db Log) Own _ (Own-of_scan r h)))

  pub page-Own : (page_id : String) → Yields (Reads db Log) Own (page env t page_id)
  unfolding page
  page-Own page_id =
      Yields-bind (Reads db Log) (λ _. is_blank page_id ≡ false) Own _ _
        (Yields-stop_if (Reads db Log) (is_blank page_id) _)
        (λ u h. Yields-or_return (Reads db Log) Own _ _ (page_by_id-Own page_id))

  abbrev pub IsOwnIg : Page → Type 0
  IsOwnIg p = Own p × (has_instagram p ≡ true)

  pub ig_page-Own : (page_id : String) → Yields (Reads db Log) IsOwnIg (ig_page env t page_id)
  unfolding ig_page
  ig_page-Own page_id = Yields-bind (Reads db Log) Own IsOwnIg _ _ (page-Own page_id) (λ p own.
      Yields-bind (Reads db Log) (λ _. not (has_instagram p) ≡ false) IsOwnIg _ _
        (Yields-stop_if (Reads db Log) (not (has_instagram p)) _)
        (λ u h. Yields-pure (Reads db Log) IsOwnIg p (own, ground arith)))

  only_page-Own : (ps : List Page) → All Own ps → Yields (Reads db Log) Own (only_page ps)
  unfolding only_page
  only_page-Own [] h = Yields-raise (Reads db Log) Own _
  only_page-Own (p ∷ []) h = Yields-pure (Reads db Log) Own p h.0
  only_page-Own (p ∷ q ∷ ps) h = Yields-raise (Reads db Log) Own _

  only_ig_page-Own :
      (ps : List Page) → All IsOwnIg ps → Yields (Reads db Log) IsOwnIg (only_ig_page ps)
  unfolding only_ig_page
  only_ig_page-Own [] h = Yields-raise (Reads db Log) IsOwnIg _
  only_ig_page-Own (p ∷ []) h = Yields-pure (Reads db Log) IsOwnIg p h.0
  only_ig_page-Own (p ∷ q ∷ ps) h = Yields-raise (Reads db Log) IsOwnIg _

  single_page-Own : Yields (Reads db Log) Own (single_page env t)
  unfolding single_page
  single_page-Own =
      Yields-bind (Reads db Log) (All Own) Own _ _
        (Yields-or_return (Reads db Log) (All Own) _ _ list_pages-Own) only_page-Own

  prefixed-Own : (r : Result Error Page) → OnOk Own r → Yields (Reads db Log) Own (prefixed env t r)
  unfolding prefixed
  prefixed-Own (ok p) h = Yields-pure (Reads db Log) Own p h
  prefixed-Own (err e) h =
      Yields-if (Reads db Log) Own (is_not_found e) _ _ (λ _. single_page-Own)
        (λ _. Yields-raise (Reads db Log) Own _)

  page_of_object-Own :
      (prefix : Option String) → Yields (Reads db Log) Own (page_of_object env t prefix)
  unfolding page_of_object
  page_of_object-Own none = single_page-Own
  page_of_object-Own (some prefix) =
      Yields-bind (Reads db Log) (OnOk Own) Own _ _
        (Yields-attempt (Reads db Log) Own _ (page_by_id-Own prefix)) prefixed-Own

  pub owner_page-Own :
      (hint object_id : String) → Yields (Reads db Log) Own (owner_page env t hint object_id)
  unfolding owner_page
  owner_page-Own hint object_id =
      Yields-bind (Reads db Log) (λ _. is_blank object_id ≡ false) Own _ _
        (Yields-stop_if (Reads db Log) (is_blank object_id) _)
        (λ u h.
          Yields-if (Reads db Log) Own (not (hint == "")) _ _ (λ _. page-Own hint)
            (λ _. page_of_object-Own (object_prefix object_id)))

  pub owner_ig_page-Own :
      (hint object_id : String) → Yields (Reads db Log) IsOwnIg (owner_ig_page env t hint object_id)
  unfolding owner_ig_page
  owner_ig_page-Own hint object_id =
      Yields-if (Reads db Log) IsOwnIg (not (hint == "")) _ _ (λ _. ig_page-Own hint)
        (λ _.
          Yields-bind (Reads db Log) (All Own) IsOwnIg _ _
            (Yields-or_return (Reads db Log) (All Own) _ _ list_pages-Own)
            (λ ps h.
              only_ig_page-Own (keep has_instagram ps) (All-keep_test Own has_instagram ps h)))
