-- ===== src/Mcp/Effects/Leave.antt =====
-- A call of a tool writes at Meta only with leave to.
use meta_mcp.Prelude.{◌≡◌, refl, Bool, false, not, ◌&&◌, List, keep, arith}
use meta_mcp.Exec.Keeps.{Keeps, keeps_rules}
use meta_mcp.World.{Env, World, Call}
use meta_mcp.World.Keeps.{OnCalls}
use meta_mcp.App.Service.{Service}
use meta_mcp.App.Tools.{WriteTool, confirmed}
use meta_mcp.App.Tools.Gate.{run_write-gate}
use meta_mcp.Mcp.Server.{Session, writing, moderating}
use meta_mcp.Mcp.Reading.{
  tool_list_pages, tool_sync_pages, tool_page_insights, tool_page_insights_metadata,
  tool_page_posts, tool_page_post_comments, tool_page_ratings, tool_ig_account_insights,
  tool_ig_follower_demographics, tool_ig_media, tool_ig_media_comments, tool_reconnect_url,
  tool_connection_status, tool_page_post_insights, tool_ig_media_insights, tool_ig_stories,
  tool_page_scheduled_posts,
}
use meta_mcp.Mcp.Writing.{
  tool_page_publish_post, tool_page_reply_comment, tool_ig_publish, tool_ig_reply_comment,
  tool_page_moderate_comment, tool_ig_moderate_comment, tool_page_delete_post,
  tool_page_cancel_scheduled_post, answering_write,
}
use meta_mcp.Mcp.Tools
use meta_mcp.Mcp.Tools.{
  ReadCall, DetailCall, WriteCall, ModerationCall, ToolCall, reading, detail, writes, moderates,
  tool_of, confirms, run_tool, run_read, run_detail, run_write_call, run_moderation, read_tool,
  detail_tool, write_tool, moderation_tool,
}
use meta_mcp.Mcp.Effects.{Writes, writes_at_meta, answering-Writes}
use meta_mcp.Mcp.Effects.Reads.{
  connection_status-Writes, ig_account_insights-Writes, ig_follower_demographics-Writes,
  ig_media-Writes, ig_media_comments-Writes, ig_media_insights-Writes, ig_stories-Writes,
  list_pages_tool-Writes, page_insights-Writes, page_insights_metadata-Writes,
  page_post_comments-Writes, page_post_insights-Writes, page_posts-Writes, page_ratings-Writes,
  page_scheduled_posts-Writes, reconnect_url-Writes, sync_pages_tool-Writes,
}

-- Not annotated as reading, and confirmed by the caller.
abbrev pub may_write : ToolCall → Bool
may_write x = not (tool_of x).annotations.read_only_hint && confirms x

-- No writing tool is annotated as reading.
write_tool-hint : (x : WriteCall) → (write_tool x).annotations.read_only_hint ≡ false
unfolding write_tool writing
write_tool-hint (Tools.page_publish_post args) = refl
write_tool-hint (Tools.page_reply_comment args) = refl
write_tool-hint (Tools.ig_publish args) = refl
write_tool-hint (Tools.ig_reply_comment args) = refl

moderation_tool-hint : (x : ModerationCall) → (moderation_tool x).annotations.read_only_hint ≡ false
unfolding moderation_tool moderating
moderation_tool-hint (Tools.page_moderate_comment args) = refl
moderation_tool-hint (Tools.ig_moderate_comment args) = refl
moderation_tool-hint (Tools.page_delete_post args) = refl
moderation_tool-hint (Tools.page_cancel_scheduled_post args) = refl

module _ {ws : List Call} (s : Service) (env : Env) (session : Session) where
  run_read-Writes : (x : ReadCall) → Keeps (OnCalls (Writes ws)) (run_read s env session x)
  unfolding tool_list_pages tool_sync_pages tool_page_insights tool_page_insights_metadata
      tool_page_posts tool_page_post_comments tool_page_ratings tool_ig_account_insights
      tool_ig_follower_demographics tool_ig_media tool_ig_media_comments tool_reconnect_url
  run_read-Writes Tools.list_pages = search (keeps_rules, answering-Writes, list_pages_tool-Writes)
  run_read-Writes Tools.sync_pages = search (keeps_rules, answering-Writes, sync_pages_tool-Writes)
  run_read-Writes (Tools.page_insights args) =
      search (keeps_rules, answering-Writes, page_insights-Writes)
  run_read-Writes (Tools.page_insights_metadata args) =
      search (keeps_rules, answering-Writes, page_insights_metadata-Writes)
  run_read-Writes (Tools.page_posts args) =
      search (keeps_rules, answering-Writes, page_posts-Writes)
  run_read-Writes (Tools.page_post_comments args) =
      search (keeps_rules, answering-Writes, page_post_comments-Writes)
  run_read-Writes (Tools.page_ratings args) =
      search (keeps_rules, answering-Writes, page_ratings-Writes)
  run_read-Writes (Tools.ig_account_insights args) =
      search (keeps_rules, answering-Writes, ig_account_insights-Writes)
  run_read-Writes (Tools.ig_follower_demographics args) =
      search (keeps_rules, answering-Writes, ig_follower_demographics-Writes)
  run_read-Writes (Tools.ig_media args) = search (keeps_rules, answering-Writes, ig_media-Writes)
  run_read-Writes (Tools.ig_media_comments args) =
      search (keeps_rules, answering-Writes, ig_media_comments-Writes)
  run_read-Writes Tools.reconnect_url = search (keeps_rules, answering-Writes, reconnect_url-Writes)

  run_detail-Writes : (x : DetailCall) → Keeps (OnCalls (Writes ws)) (run_detail s env session x)
  unfolding tool_connection_status tool_page_post_insights tool_ig_media_insights tool_ig_stories
      tool_page_scheduled_posts
  run_detail-Writes Tools.connection_status =
      search (keeps_rules, answering-Writes, connection_status-Writes)
  run_detail-Writes (Tools.page_post_insights args) =
      search (keeps_rules, answering-Writes, page_post_insights-Writes)
  run_detail-Writes (Tools.ig_media_insights args) =
      search (keeps_rules, answering-Writes, ig_media_insights-Writes)
  run_detail-Writes (Tools.ig_stories args) =
      search (keeps_rules, answering-Writes, ig_stories-Writes)
  run_detail-Writes (Tools.page_scheduled_posts args) =
      search (keeps_rules, answering-Writes, page_scheduled_posts-Writes)

  answering_write-gate :
      (x : WriteTool)
      → confirmed x ≡ false
      → Keeps (OnCalls (Writes ws)) (answering_write s env session x)
  answering_write-gate x e = answering-Writes session _ (λ t. run_write-gate s env t x e)

  run_write_call-gate :
      (x : WriteCall)
      → confirms (writes x) ≡ false
      → Keeps (OnCalls (Writes ws)) (run_write_call s env session x)
  unfolding tool_page_publish_post tool_page_reply_comment tool_ig_publish tool_ig_reply_comment
  run_write_call-gate (Tools.page_publish_post args) e = search (keeps_rules, answering_write-gate)
  run_write_call-gate (Tools.page_reply_comment args) e = search (keeps_rules, answering_write-gate)
  run_write_call-gate (Tools.ig_publish args) e = search (keeps_rules, answering_write-gate)
  run_write_call-gate (Tools.ig_reply_comment args) e = search (keeps_rules, answering_write-gate)

  run_moderation-gate :
      (x : ModerationCall)
      → confirms (moderates x) ≡ false
      → Keeps (OnCalls (Writes ws)) (run_moderation s env session x)
  unfolding tool_page_moderate_comment tool_ig_moderate_comment tool_page_delete_post
      tool_page_cancel_scheduled_post
  run_moderation-gate (Tools.page_moderate_comment args) e =
      search (keeps_rules, answering_write-gate)
  run_moderation-gate (Tools.ig_moderate_comment args) e =
      search (keeps_rules, answering_write-gate)
  run_moderation-gate (Tools.page_delete_post args) e = search (keeps_rules, answering_write-gate)
  run_moderation-gate (Tools.page_cancel_scheduled_post args) e =
      search (keeps_rules, answering_write-gate)

  run_tool-Keeps :
      (x : ToolCall) → may_write x ≡ false → Keeps (OnCalls (Writes ws)) (run_tool s env session x)
  run_tool-Keeps (reading x) e = run_read-Writes x
  run_tool-Keeps (detail x) e = run_detail-Writes x
  run_tool-Keeps (writes x) e = run_write_call-gate x (ground (arith, write_tool-hint x))
  run_tool-Keeps (moderates x) e = run_moderation-gate x (ground (arith, moderation_tool-hint x))

-- A call of a tool makes a writing call at Meta, one that publishes, replies, hides or deletes, only
-- where the tool is not annotated as reading and the caller passed `confirm=true`. In any other case
-- the writing calls in the log are those that were there before, whatever the tool answers.
pub run_tool-reads :
    (s : Service) (env : Env) (session : Session) (x : ToolCall) (w : World)
    → may_write x ≡ false
    → keep writes_at_meta (run_tool s env session x w).1.calls ≡ keep writes_at_meta w.calls
run_tool-reads s env session x w e =
    let kept =
      (run_tool-Keeps {ws = keep writes_at_meta w.calls} s env session x e).at w
        (record { holds = refl }) in
    kept.holds
