-- ===== src/App/Service/Calls.antt =====
-- Resolving a page asks Meta nothing.
use meta_mcp.Prelude.{String, List, [], ◌∷◌, Option, none, some}
use meta_mcp.Domain.Errors.{Error}
use meta_mcp.Domain.Entities.{Page}
use meta_mcp.Exec.{Result, ok, err}
use meta_mcp.Exec.Keeps.{Keeps, keeps_rules}
use meta_mcp.World.{Env, Call}
use meta_mcp.World.Keeps.{OnCalls, calls_rules}
use meta_mcp.Store.Pages.{page_by_id, list_pages}
use meta_mcp.App.Service.{
  page, ig_page, only_page, only_ig_page, single_page, prefixed, page_of_object, owner_page,
  owner_ig_page,
}

module _ {Q : List Call → Type 0} (env : Env) where
  page_by_id-calls : (t page_id : String) → Keeps (OnCalls Q) (page_by_id env t page_id)
  unfolding page_by_id
  page_by_id-calls t page_id = search (keeps_rules, calls_rules)

  pub list_pages-calls : (t : String) → Keeps (OnCalls Q) (list_pages env t)
  unfolding list_pages
  list_pages-calls t = search (keeps_rules, calls_rules)

  pub page-calls : (t page_id : String) → Keeps (OnCalls Q) (page env t page_id)
  unfolding page
  page-calls t page_id = search (keeps_rules, page_by_id-calls)

  pub ig_page-calls : (t page_id : String) → Keeps (OnCalls Q) (ig_page env t page_id)
  unfolding ig_page
  ig_page-calls t page_id = search (keeps_rules, page-calls)

  only_page-calls : (ps : List Page) → Keeps (OnCalls Q) (only_page ps)
  unfolding only_page
  only_page-calls [] = search keeps_rules
  only_page-calls (p ∷ []) = search keeps_rules
  only_page-calls (p ∷ q ∷ ps) = search keeps_rules

  only_ig_page-calls : (ps : List Page) → Keeps (OnCalls Q) (only_ig_page ps)
  unfolding only_ig_page
  only_ig_page-calls [] = search keeps_rules
  only_ig_page-calls (p ∷ []) = search keeps_rules
  only_ig_page-calls (p ∷ q ∷ ps) = search keeps_rules

  single_page-calls : (t : String) → Keeps (OnCalls Q) (single_page env t)
  unfolding single_page
  single_page-calls t = search (keeps_rules, list_pages-calls, only_page-calls)

  prefixed-calls : (t : String) (r : Result Error Page) → Keeps (OnCalls Q) (prefixed env t r)
  unfolding prefixed
  prefixed-calls t (ok p) = search keeps_rules
  prefixed-calls t (err e) = search (keeps_rules, single_page-calls)

  page_of_object-calls :
      (t : String) (prefix : Option String) → Keeps (OnCalls Q) (page_of_object env t prefix)
  unfolding page_of_object
  page_of_object-calls t none = search (single_page-calls)
  page_of_object-calls t (some prefix) = search (keeps_rules, page_by_id-calls, prefixed-calls)

  pub owner_page-calls :
      (t hint object_id : String) → Keeps (OnCalls Q) (owner_page env t hint object_id)
  unfolding owner_page
  owner_page-calls t hint object_id = search (keeps_rules, page-calls, page_of_object-calls)

  pub owner_ig_page-calls :
      (t hint object_id : String) → Keeps (OnCalls Q) (owner_ig_page env t hint object_id)
  unfolding owner_ig_page
  owner_ig_page-calls t hint object_id =
      search (keeps_rules, ig_page-calls, list_pages-calls, only_ig_page-calls)

pub ruleset page_calls = (page-calls, ig_page-calls, owner_page-calls, owner_ig_page-calls)
