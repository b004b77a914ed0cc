-- ===== src/Mcp/Effects/Reads.antt =====
-- The use cases behind the tools that are annotated as reading make no writing call.
use meta_mcp.Prelude.{refl, String, List, [], ◌∷◌}
use meta_mcp.Domain.Entities.{Page, LoginState}
use meta_mcp.Exec.Keeps.{Keeps, Keeps-bind, keeps_rules}
use meta_mcp.World.{Env, Call}
use meta_mcp.World.Keeps.{OnCalls, Calls-ask, Calls-sql, Calls-transaction}
use meta_mcp.Store.Tenants.{tenant_by_id}
use meta_mcp.Store.Pages.{replace_pages, insert_all, insert_one}
use meta_mcp.Store.Oauth.{create_login_state}
use meta_mcp.App.Service.{Service, sync_pages}
use meta_mcp.App.Service.Calls.{page_calls, list_pages-calls}
use meta_mcp.App.Window.{date_window}
use meta_mcp.App.Read
use meta_mcp.App.Status.{ConnectionStatus, reconnect_url, attach_reconnect_link, connection_status}
use meta_mcp.App.Metadata.{page_insights_metadata}
use meta_mcp.Mcp.Effects.{Writes, request-reads}

ruleset reading_rules = (keeps_rules, Calls-ask, Calls-sql, Calls-transaction, page_calls)

module _ {ws : List Call} (s : Service) (env : Env) where
  tenant_by_id-Writes : (t : String) → Keeps (OnCalls (Writes ws)) (tenant_by_id env t)
  unfolding tenant_by_id
  tenant_by_id-Writes t = search reading_rules

  date_window-Writes :
      (since until : String) → Keeps (OnCalls (Writes ws)) (date_window s.formats env since until)
  unfolding date_window
  date_window-Writes since until = search reading_rules

  insert_one-Writes : (t : String) (p : Page) → Keeps (OnCalls (Writes ws)) (insert_one env t p)
  unfolding insert_one
  insert_one-Writes t p = search reading_rules

  insert_all-Writes :
      (t : String) (ps : List Page) → Keeps (OnCalls (Writes ws)) (insert_all env t ps)
  unfolding insert_all
  insert_all-Writes t [] = search reading_rules
  insert_all-Writes t (p ∷ ps) =
      Keeps-bind _ _ (insert_one-Writes t p) (λ u. insert_all-Writes t ps)

  replace_pages-Writes :
      (t : String) (ps : List Page) → Keeps (OnCalls (Writes ws)) (replace_pages env t ps)
  unfolding replace_pages
  replace_pages-Writes t ps = search (reading_rules, insert_all-Writes)

  sync_pages-Writes : (t token : String) → Keeps (OnCalls (Writes ws)) (sync_pages env t token)
  unfolding sync_pages
  sync_pages-Writes t token = search (
    reading_rules,
    replace_pages-Writes,
    request-reads env.meta.accounts (Call.accounts token) refl,
  )

  create_login_state-Writes :
      (l : LoginState) → Keeps (OnCalls (Writes ws)) (create_login_state env l)
  unfolding create_login_state
  create_login_state-Writes l = search reading_rules

  pub reconnect_url-Writes : Keeps (OnCalls (Writes ws)) (reconnect_url s env)
  unfolding reconnect_url
  reconnect_url-Writes = search (reading_rules, create_login_state-Writes)

  attach-Writes :
      (c : ConnectionStatus) → Keeps (OnCalls (Writes ws)) (attach_reconnect_link s env c)
  unfolding attach_reconnect_link
  attach-Writes c = search (reading_rules, reconnect_url-Writes)

  pub connection_status-Writes :
      (t : String) → Keeps (OnCalls (Writes ws)) (connection_status s env t)
  unfolding connection_status
  connection_status-Writes t =
      search (reading_rules, tenant_by_id-Writes, list_pages-calls, attach-Writes, request-reads)
        depth 12

  pub list_pages_tool-Writes :
      (t : String) → Keeps (OnCalls (Writes ws)) (Read.list_pages_tool s env t)
  unfolding Read.list_pages_tool
  list_pages_tool-Writes t = search (reading_rules, list_pages-calls)

  pub sync_pages_tool-Writes :
      (t : String) → Keeps (OnCalls (Writes ws)) (Read.sync_pages_tool s env t)
  unfolding Read.sync_pages_tool
  sync_pages_tool-Writes t = search (reading_rules, tenant_by_id-Writes, sync_pages-Writes)

  pub page_insights_metadata-Writes :
      (t id : String) → Keeps (OnCalls (Writes ws)) (page_insights_metadata env t id)
  unfolding page_insights_metadata
  page_insights_metadata-Writes t id = search reading_rules

  pub page_insights-Writes :
      (t : String) (i : Read.PageInsightsInput)
      → Keeps (OnCalls (Writes ws)) (Read.page_insights s env t i)
  unfolding Read.page_insights
  page_insights-Writes t i = search (reading_rules, date_window-Writes, request-reads)

  pub ig_account_insights-Writes :
      (t : String) (i : Read.PageInsightsInput)
      → Keeps (OnCalls (Writes ws)) (Read.ig_account_insights s env t i)
  unfolding Read.ig_account_insights
  ig_account_insights-Writes t i = search (reading_rules, date_window-Writes, request-reads)

  pub page_posts-Writes :
      (t : String) (i : Read.ListInput) → Keeps (OnCalls (Writes ws)) (Read.page_posts s env t i)
  unfolding Read.page_posts
  page_posts-Writes t i = search (reading_rules, request-reads)

  pub ig_media-Writes :
      (t : String) (i : Read.ListInput) → Keeps (OnCalls (Writes ws)) (Read.ig_media s env t i)
  unfolding Read.ig_media
  ig_media-Writes t i = search (reading_rules, request-reads)

  pub page_scheduled_posts-Writes :
      (t : String) (i : Read.ListInput)
      → Keeps (OnCalls (Writes ws)) (Read.page_scheduled_posts s env t i)
  unfolding Read.page_scheduled_posts
  page_scheduled_posts-Writes t i = search (reading_rules, request-reads)

  pub page_ratings-Writes :
      (t : String) (i : Read.ListInput) → Keeps (OnCalls (Writes ws)) (Read.page_ratings s env t i)
  unfolding Read.page_ratings
  page_ratings-Writes t i = search (reading_rules, request-reads)

  pub page_post_comments-Writes :
      (t : String) (i : Read.ObjectListInput)
      → Keeps (OnCalls (Writes ws)) (Read.page_post_comments s env t i)
  unfolding Read.page_post_comments
  page_post_comments-Writes t i = search (reading_rules, request-reads)

  pub ig_media_comments-Writes :
      (t : String) (i : Read.ObjectListInput)
      → Keeps (OnCalls (Writes ws)) (Read.ig_media_comments s env t i)
  unfolding Read.ig_media_comments
  ig_media_comments-Writes t i = search (reading_rules, request-reads)

  pub page_post_insights-Writes :
      (t : String) (i : Read.ObjectInsightsInput)
      → Keeps (OnCalls (Writes ws)) (Read.page_post_insights s env t i)
  unfolding Read.page_post_insights
  page_post_insights-Writes t i = search (reading_rules, request-reads)

  pub ig_media_insights-Writes :
      (t : String) (i : Read.ObjectInsightsInput)
      → Keeps (OnCalls (Writes ws)) (Read.ig_media_insights s env t i)
  unfolding Read.ig_media_insights
  ig_media_insights-Writes t i = search (reading_rules, request-reads)

  pub ig_stories-Writes : (t id : String) → Keeps (OnCalls (Writes ws)) (Read.ig_stories s env t id)
  unfolding Read.ig_stories
  ig_stories-Writes t id = search (reading_rules, request-reads)

  pub ig_follower_demographics-Writes :
      (t id breakdown : String)
      → Keeps (OnCalls (Writes ws)) (Read.ig_follower_demographics s env t id breakdown)
  unfolding Read.ig_follower_demographics
  ig_follower_demographics-Writes t id breakdown = search (reading_rules, request-reads)
