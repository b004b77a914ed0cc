-- ===== src/App/Service.antt =====
-- internal/app/service.go: the service, and how it resolves a page of the tenant.
pub mod Calls
pub mod Owned
use meta_mcp.Prelude.{
  ℕ, zero, suc, ◌+◌, ◌≡◌, Bool, true, false, not, ◌&&◌, ◌||◌, String, List, [], ◌∷◌, map, Option,
  none, some, ◌==◌, leb, ltb, keep, cut, trim_space, is_blank, if◌then◌else◌, ℤ, pos, negsuc,
}
use meta_mcp.Domain.Time.{Time, Duration, minute}
use meta_mcp.Domain.Errors.{Error, not_found, unknown_page, no_instagram, text, wrap, is_not_found}
use meta_mcp.Domain.Entities.{Page, has_instagram}
use meta_mcp.Exec.{Result, ok, err, pure, raise, lift, stop_if, ◌>>=◌, ◌>>◌, or_return, attempt}
use meta_mcp.World.{Env, World, Action, accounts, request}
use meta_mcp.Store.Pages.{page_by_id, list_pages, replace_pages}
use meta_mcp.Auth.Server.{Url}

-- What the standard library parses and prints for the tools.
pub record Formats : Type 0 where
  pub parse_rfc3339 : String → Option Time
  pub parse_day : String → Option Time
  pub format_rfc3339 : Time → String
  pub parse_url : String → Option Url
  pub query_escape : String → String

pub record Service : Type 0 where
  pub public_url : String
  pub required_scopes : List String
  pub formats : Formats

pub record PageView : Type 0 where
  pub page_id : String
  pub name : String
  pub ig_user_id : String
  pub ig_username : String
  pub synced_at : String

unfoldable pub to_page_views : Service → List Page → List PageView
to_page_views s pages =
    map
      (λ p. record {
        page_id = p.page_id;
        name = p.name;
        ig_user_id = p.ig_user_id;
        ig_username = p.ig_username;
        synced_at = s.formats.format_rfc3339 p.synced_at;
      })
      pages

unknown_or_wrap : Error → Error
unknown_or_wrap e = if is_not_found e then unknown_page else wrap "lecture de la page" e

-- `limit` is a Go int.
unfoldable pub clamp_limit : ℤ → ℕ → ℕ → ℕ
clamp_limit (negsuc n) def max = def
clamp_limit (pos zero) def max = def
clamp_limit (pos (suc n)) def max = if ltb max (suc n) then max else suc n

or_fallback : List String → List String → List String
or_fallback [] fallback = fallback
or_fallback (m ∷ ms) fallback = m ∷ ms

-- The trimmed names that are not empty, or the default set.
unfoldable pub metrics_or_default : List String → List String → List String
unfolding or_fallback
metrics_or_default requested fallback =
    or_fallback (keep (λ m. not (m == "")) (map trim_space requested)) fallback

-- The prefix of "{page-id}_{object-id}".
unfoldable pub object_prefix : String → Option String
object_prefix object_id = elim (cut object_id b'_') [
  | none ↦ none
  | some p ↦ if p.0 == "" then none else some p.0
]

only_page : List Page → Action Error Page
only_page [] = raise (text "aucune page connectée, utilisez sync_pages")
only_page (p ∷ []) = pure p
only_page (p ∷ q ∷ ps) = raise (text "impossible de déterminer la page concernée, précisez page_id")

only_ig_page : List Page → Action Error Page
only_ig_page [] = raise no_instagram
only_ig_page (p ∷ []) = pure p
only_ig_page (p ∷ q ∷ ps) =
    raise (text "plusieurs comptes Instagram sont connectés, précisez page_id")

module _ (env : Env) where
  unfoldable pub page : String → String → Action Error Page
  unfolding unknown_or_wrap
  page tenant_id page_id = do
    stop_if (is_blank page_id) (text "page_id est obligatoire")
    or_return (page_by_id env tenant_id page_id) unknown_or_wrap

  unfoldable pub ig_page : String → String → Action Error Page
  unfolding page
  ig_page tenant_id page_id = do
    found ← page tenant_id page_id
    stop_if (not (has_instagram found)) no_instagram
    pure found

  -- The single page of a tenant that has one.
  unfoldable pub single_page : String → Action Error Page
  unfolding only_page
  single_page tenant_id = do
    pages ← or_return (list_pages env tenant_id) (wrap "liste des pages")
    only_page pages

  -- A page of the tenant named by the prefix; where there is none, the single page.
  prefixed : String → Result Error Page → Action Error Page
  unfolding single_page
  prefixed tenant_id (ok p) = pure p
  prefixed tenant_id (err e) =
      if is_not_found e then single_page tenant_id else raise (wrap "lecture de la page" e)

  page_of_object : String → Option String → Action Error Page
  unfolding prefixed
  page_of_object tenant_id none = single_page tenant_id
  page_of_object tenant_id (some prefix) = do
    found ← attempt (page_by_id env tenant_id prefix)
    prefixed tenant_id found

  unfoldable pub owner_page : String → String → String → Action Error Page
  unfolding page page_of_object object_prefix
  owner_page tenant_id page_id_hint object_id = do
    stop_if (is_blank object_id) (text "identifiant de l'objet manquant")
    if not (page_id_hint == "")
        then page tenant_id page_id_hint
        else page_of_object tenant_id (object_prefix object_id)

  unfoldable pub owner_ig_page : String → String → String → Action Error Page
  unfolding ig_page only_ig_page
  owner_ig_page tenant_id page_id_hint object_id =
      if not (page_id_hint == "") then ig_page tenant_id page_id_hint else do
        pages ← or_return (list_pages env tenant_id) (wrap "liste des pages")
        only_ig_page (keep has_instagram pages)

  unfoldable pub sync_pages : String → String → Action Error (List Page)
  sync_pages tenant_id user_token = do
    pages ← request env.meta.accounts (accounts user_token)
    or_return (replace_pages env tenant_id pages) (wrap "enregistrement des pages")
    pure pages
