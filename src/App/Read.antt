-- ===== src/App/Read.antt =====
-- The reading tools of internal/app, one file each: every one resolves a page of the tenant, bounds
-- what the caller asked for, and makes one call with the page's own token.
use meta_mcp.Prelude.{not, String, List, [], ◌∷◌, contains, is_blank, ℤ}
use meta_mcp.Domain.Errors.{Error, text, wrap}
use meta_mcp.Domain.Metrics.{
  InsightSet, Post, Comment, ScheduledPost, PageRatings, Media, Breakdown,
}
use meta_mcp.Exec.{pure, lift, stop_if, ◌>>=◌, ◌>>◌, or_return}
use meta_mcp.World.{Env, Action, Call, request}
use meta_mcp.Store.Tenants.{tenant_by_id}
use meta_mcp.Store.Pages.{list_pages}
use meta_mcp.App.Service.{
  Service, PageView, to_page_views, clamp_limit, metrics_or_default, page, ig_page, owner_page,
  owner_ig_page, sync_pages,
}
use meta_mcp.App.Window.{optional_day, date_window}

pub record PageInsightsInput : Type 0 where
  pub page_id : String
  pub since : String
  pub until : String
  pub metrics : List String

pub record ListInput : Type 0 where
  pub page_id : String
  pub since : String
  pub limit : ℤ

pub record ObjectListInput : Type 0 where
  pub object_id : String
  pub page_id : String
  pub limit : ℤ

pub record ObjectInsightsInput : Type 0 where
  pub object_id : String
  pub page_id : String
  pub metrics : List String

abbrev pub default_page_metrics : List String
default_page_metrics =
    "page_post_engagements" ∷ "page_daily_follows" ∷ "page_follows" ∷ "page_views_total" ∷ []

abbrev pub default_ig_metrics : List String
default_ig_metrics =
    "reach" ∷ "views" ∷ "profile_views" ∷ "accounts_engaged" ∷ "total_interactions"
    ∷ "follower_count" ∷ []

abbrev pub default_post_metrics : List String
default_post_metrics =
    "post_clicks" ∷ "post_reactions_by_type_total" ∷ "post_reactions_like_total"
    ∷ "post_video_views" ∷ []

abbrev pub default_ig_media_metrics : List String
default_ig_media_metrics =
    "reach" ∷ "views" ∷ "likes" ∷ "comments" ∷ "saved" ∷ "shares" ∷ "total_interactions" ∷ []

abbrev pub allowed_breakdowns : List String
allowed_breakdowns = "city" ∷ "country" ∷ "age" ∷ "gender" ∷ []

module _ (s : Service) (env : Env) where
  unfoldable pub list_pages_tool : String → Action Error (List PageView)
  list_pages_tool tenant_id = do
    pages ← or_return (list_pages env tenant_id) (wrap "liste des pages")
    pure (to_page_views s pages)

  unfoldable pub sync_pages_tool : String → Action Error (List PageView)
  sync_pages_tool tenant_id = do
    tenant ← tenant_by_id env tenant_id
    pages ← sync_pages env tenant.id tenant.user_token
    pure (to_page_views s pages)

  unfoldable pub page_insights : String → PageInsightsInput → Action Error InsightSet
  page_insights tenant_id i = do
    p ← page env tenant_id i.page_id
    range ← date_window s.formats env i.since i.until
    request env.meta.insights (
        Call.page_insights p.page_token p.page_id
          (metrics_or_default i.metrics default_page_metrics) range.start range.end)

  unfoldable pub ig_account_insights : String → PageInsightsInput → Action Error InsightSet
  ig_account_insights tenant_id i = do
    p ← ig_page env tenant_id i.page_id
    range ← date_window s.formats env i.since i.until
    request env.meta.insights (
        Call.ig_account_insights p.page_token p.ig_user_id
          (metrics_or_default i.metrics default_ig_metrics) range.start range.end)

  unfoldable pub page_posts : String → ListInput → Action Error (List Post)
  page_posts tenant_id i = do
    p ← page env tenant_id i.page_id
    since ← lift (optional_day s.formats i.since "since")
    request env.meta.posts
        (Call.page_posts p.page_token p.page_id since (clamp_limit i.limit 25 100))

  unfoldable pub ig_media : String → ListInput → Action Error (List Media)
  ig_media tenant_id i = do
    p ← ig_page env tenant_id i.page_id
    since ← lift (optional_day s.formats i.since "since")
    request env.meta.media
        (Call.ig_media p.page_token p.ig_user_id since (clamp_limit i.limit 25 100))

  unfoldable pub page_scheduled_posts : String → ListInput → Action Error (List ScheduledPost)
  page_scheduled_posts tenant_id i = do
    p ← page env tenant_id i.page_id
    request env.meta.scheduled_posts
        (Call.scheduled_posts p.page_token p.page_id (clamp_limit i.limit 25 100))

  unfoldable pub page_ratings : String → ListInput → Action Error PageRatings
  page_ratings tenant_id i = do
    p ← page env tenant_id i.page_id
    request env.meta.ratings (Call.page_ratings p.page_token p.page_id (clamp_limit i.limit 25 100))

  unfoldable pub page_post_comments : String → ObjectListInput → Action Error (List Comment)
  page_post_comments tenant_id i = do
    p ← owner_page env tenant_id i.page_id i.object_id
    request env.meta.comments
        (Call.post_comments p.page_token i.object_id (clamp_limit i.limit 50 100))

  unfoldable pub ig_media_comments : String → ObjectListInput → Action Error (List Comment)
  ig_media_comments tenant_id i = do
    p ← owner_ig_page env tenant_id i.page_id i.object_id
    request env.meta.comments
        (Call.ig_media_comments p.page_token i.object_id (clamp_limit i.limit 50 100))

  unfoldable pub page_post_insights : String → ObjectInsightsInput → Action Error InsightSet
  page_post_insights tenant_id i = do
    stop_if (is_blank i.object_id) (text "post_id est obligatoire")
    p ← owner_page env tenant_id i.page_id i.object_id
    request env.meta.insights (
        Call.post_insights p.page_token i.object_id
          (metrics_or_default i.metrics default_post_metrics))

  unfoldable pub ig_media_insights : String → ObjectInsightsInput → Action Error InsightSet
  ig_media_insights tenant_id i = do
    stop_if (is_blank i.object_id) (text "media_id est obligatoire")
    p ← owner_ig_page env tenant_id i.page_id i.object_id
    request env.meta.insights (
        Call.ig_media_insights p.page_token i.object_id
          (metrics_or_default i.metrics default_ig_media_metrics))

  unfoldable pub ig_stories : String → String → Action Error (List Media)
  ig_stories tenant_id page_id = do
    p ← ig_page env tenant_id page_id
    request env.meta.media (Call.ig_stories p.page_token p.ig_user_id)

  unfoldable pub ig_follower_demographics : String → String → String → Action Error (List Breakdown)
  ig_follower_demographics tenant_id page_id breakdown = do
    stop_if (not (contains allowed_breakdowns breakdown))
        (text "breakdown doit valoir [city country age gender]")
    p ← ig_page env tenant_id page_id
    request env.meta.demographics
        (Call.ig_follower_demographics p.page_token p.ig_user_id breakdown)
