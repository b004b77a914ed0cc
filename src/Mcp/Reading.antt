-- ===== src/Mcp/Reading.antt =====
-- internal/adapters/mcpserver/tools_read.go and tools_insights.go: the tools that only read from Meta.
use meta_mcp.Prelude.{String, List, ℤ}
use meta_mcp.Domain.Errors.{Error}
use meta_mcp.Domain.Metrics.{
  InsightSet, Post, Comment, ScheduledPost, PageRatings, Media, Breakdown,
}
use meta_mcp.World.{Env, Action}
use meta_mcp.App.Service.{Service, PageView}
use meta_mcp.App.Read
use meta_mcp.App.Status.{ConnectionStatus, connection_status, reconnect_url}
use meta_mcp.App.Metadata.{InsightMeta, page_insights_metadata}
use meta_mcp.Mcp.Server.{Session, answering}

pub record PageInsightsArgs : Type 0 where
  pub page_id : String
  pub since : String
  pub until : String
  pub metrics : List String

pub record PageArgs : Type 0 where
  pub page_id : String

pub record PagePostsArgs : Type 0 where
  pub page_id : String
  pub since : String
  pub limit : ℤ

pub record PagePostCommentsArgs : Type 0 where
  pub post_id : String
  pub page_id : String
  pub limit : ℤ

pub record IgInsightsArgs : Type 0 where
  pub page_id : String
  pub since : String
  pub until : String
  pub metrics : List String

pub record IgDemographicsArgs : Type 0 where
  pub page_id : String
  pub breakdown : String

pub record IgMediaArgs : Type 0 where
  pub page_id : String
  pub since : String
  pub limit : ℤ

pub record IgMediaCommentsArgs : Type 0 where
  pub media_id : String
  pub page_id : String
  pub limit : ℤ

-- Of page_ratings and page_scheduled_posts.
pub record PageRatingsArgs : Type 0 where
  pub page_id : String
  pub limit : ℤ

pub record ScheduledPostsArgs : Type 0 where
  pub page_id : String
  pub limit : ℤ

pub record PostInsightsArgs : Type 0 where
  pub post_id : String
  pub page_id : String
  pub metrics : List String

pub record MediaInsightsArgs : Type 0 where
  pub media_id : String
  pub page_id : String
  pub metrics : List String

module _ (s : Service) (env : Env) (session : Session) where
  unfoldable pub tool_list_pages : Action Error (List PageView)
  tool_list_pages = answering session (Read.list_pages_tool s env)

  unfoldable pub tool_sync_pages : Action Error (List PageView)
  tool_sync_pages = answering session (Read.sync_pages_tool s env)

  unfoldable pub tool_page_insights : PageInsightsArgs → Action Error InsightSet
  tool_page_insights args = answering session (λ tenant. Read.page_insights s env tenant (record {
    page_id = args.page_id;
    since = args.since;
    until = args.until;
    metrics = args.metrics;
  }))

  unfoldable pub tool_page_insights_metadata : PageArgs → Action Error (List InsightMeta)
  tool_page_insights_metadata args =
      answering session (λ tenant. page_insights_metadata env tenant args.page_id)

  unfoldable pub tool_page_posts : PagePostsArgs → Action Error (List Post)
  tool_page_posts args = answering session (λ tenant.
      Read.page_posts s env tenant
        (record { page_id = args.page_id; since = args.since; limit = args.limit }))

  unfoldable pub tool_page_post_comments : PagePostCommentsArgs → Action Error (List Comment)
  tool_page_post_comments args = answering session (λ tenant.
      Read.page_post_comments s env tenant
        (record { object_id = args.post_id; page_id = args.page_id; limit = args.limit }))

  unfoldable pub tool_ig_account_insights : IgInsightsArgs → Action Error InsightSet
  tool_ig_account_insights args = answering session (λ tenant.
      Read.ig_account_insights s env tenant (record {
        page_id = args.page_id;
        since = args.since;
        until = args.until;
        metrics = args.metrics;
      }))

  unfoldable pub tool_ig_follower_demographics : IgDemographicsArgs → Action Error (List Breakdown)
  tool_ig_follower_demographics args =
      answering session
        (λ tenant. Read.ig_follower_demographics s env tenant args.page_id args.breakdown)

  unfoldable pub tool_ig_media : IgMediaArgs → Action Error (List Media)
  tool_ig_media args = answering session (λ tenant.
      Read.ig_media s env tenant
        (record { page_id = args.page_id; since = args.since; limit = args.limit }))

  unfoldable pub tool_ig_media_comments : IgMediaCommentsArgs → Action Error (List Comment)
  tool_ig_media_comments args = answering session (λ tenant.
      Read.ig_media_comments s env tenant
        (record { object_id = args.media_id; page_id = args.page_id; limit = args.limit }))

  unfoldable pub tool_reconnect_url : Action Error String
  tool_reconnect_url = answering session (λ tenant. reconnect_url s env)

  unfoldable pub tool_page_ratings : PageRatingsArgs → Action Error PageRatings
  tool_page_ratings args = answering session (λ tenant.
      Read.page_ratings s env tenant
        (record { page_id = args.page_id; since = ""; limit = args.limit }))

  unfoldable pub tool_connection_status : Action Error ConnectionStatus
  tool_connection_status = answering session (connection_status s env)

  unfoldable pub tool_page_post_insights : PostInsightsArgs → Action Error InsightSet
  tool_page_post_insights args = answering session (λ tenant.
      Read.page_post_insights s env tenant
        (record { object_id = args.post_id; page_id = args.page_id; metrics = args.metrics }))

  unfoldable pub tool_ig_media_insights : MediaInsightsArgs → Action Error InsightSet
  tool_ig_media_insights args = answering session (λ tenant.
      Read.ig_media_insights s env tenant
        (record { object_id = args.media_id; page_id = args.page_id; metrics = args.metrics }))

  unfoldable pub tool_ig_stories : PageArgs → Action Error (List Media)
  tool_ig_stories args = answering session (λ tenant. Read.ig_stories s env tenant args.page_id)

  unfoldable pub tool_page_scheduled_posts : ScheduledPostsArgs → Action Error (List ScheduledPost)
  tool_page_scheduled_posts args = answering session (λ tenant.
      Read.page_scheduled_posts s env tenant
        (record { page_id = args.page_id; since = ""; limit = args.limit }))
