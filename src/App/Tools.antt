-- ===== src/App/Tools.antt =====
-- The writing tools together, as `internal/adapters/mcpserver/tools_write.go` dispatches them.
pub mod Gate
pub mod Scope
use meta_mcp.Prelude.{Bool, String}
use meta_mcp.Domain.Errors.{Error}
use meta_mcp.Exec.{Result, pure, ◌>>=◌, ◌>>◌}
use meta_mcp.World.{Env, Action}
use meta_mcp.App.Service.{Service}
use meta_mcp.App.Publish.{PublishPostInput, PublishPostOutput, publish_post}
use meta_mcp.App.IgPublish.{IgPublishInput, IgPublishOutput, ig_publish}
use meta_mcp.App.Comments.{
  ReplyCommentInput, ReplyCommentOutput, ModerateCommentInput, ModerateCommentOutput,
  reply_to_comment, ig_reply_to_comment, moderate_comment, ig_moderate_comment,
}
use meta_mcp.App.Removal.{RemovalInput, RemovalOutput, page_delete_post, page_cancel_scheduled_post}

-- A call of a writing tool.
pub data WriteTool : Type 0 where
  page_publish_post : PublishPostInput → WriteTool
  ig_publish_tool : IgPublishInput → WriteTool
  page_reply_comment ig_reply_comment : ReplyCommentInput → WriteTool
  page_moderate_comment ig_moderate_comment_tool : ModerateCommentInput → WriteTool
  delete_post cancel_scheduled_post : RemovalInput → WriteTool

pub data WriteOutput : Type 0 where
  published : PublishPostOutput → WriteOutput
  ig_published : IgPublishOutput → WriteOutput
  replied : ReplyCommentOutput → WriteOutput
  moderated : ModerateCommentOutput → WriteOutput
  removed : RemovalOutput → WriteOutput

abbrev pub confirmed : WriteTool → Bool
confirmed (page_publish_post i) = i.confirm
confirmed (ig_publish_tool i) = i.confirm
confirmed (page_reply_comment i) = i.confirm
confirmed (ig_reply_comment i) = i.confirm
confirmed (page_moderate_comment i) = i.confirm
confirmed (ig_moderate_comment_tool i) = i.confirm
confirmed (delete_post i) = i.confirm
confirmed (cancel_scheduled_post i) = i.confirm

module _ (s : Service) (env : Env) (tenant_id : String) where
  unfoldable pub run_write : WriteTool → Action Error WriteOutput
  run_write (page_publish_post i) = do out ← publish_post s env tenant_id i; pure (published out)
  run_write (ig_publish_tool i) = do out ← ig_publish s env tenant_id i; pure (ig_published out)
  run_write (page_reply_comment i) = do out ← reply_to_comment env tenant_id i; pure (replied out)
  run_write (ig_reply_comment i) = do out ← ig_reply_to_comment env tenant_id i; pure (replied out)
  run_write (page_moderate_comment i) = do
    out ← moderate_comment env tenant_id i
    pure (moderated out)
  run_write (ig_moderate_comment_tool i) = do
    out ← ig_moderate_comment env tenant_id i
    pure (moderated out)
  run_write (delete_post i) = do out ← page_delete_post env tenant_id i; pure (removed out)
  run_write (cancel_scheduled_post i) = do
    out ← page_cancel_scheduled_post env tenant_id i
    pure (removed out)
