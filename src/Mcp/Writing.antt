-- ===== src/Mcp/Writing.antt =====
-- internal/adapters/mcpserver/tools_write.go: the tools that create, hide or delete at Meta. Each
-- handler calls its own use case; `run_write` is all of them.
use meta_mcp.Prelude.{Bool, String, List}
use meta_mcp.Domain.Errors.{Error}
use meta_mcp.World.{Env, Action}
use meta_mcp.App.Service.{Service}
use meta_mcp.App.Tools.{
  WriteTool, WriteOutput, run_write, page_publish_post, ig_publish_tool, page_reply_comment,
  ig_reply_comment, page_moderate_comment, ig_moderate_comment_tool, delete_post,
  cancel_scheduled_post,
}
use meta_mcp.Mcp.Server.{Session, answering}

pub record PublishPostArgs : Type 0 where
  pub page_id : String
  pub message : String
  pub link : String
  pub photo_url : String
  pub scheduled_at : String
  pub confirm : Bool

pub record ReplyCommentArgs : Type 0 where
  pub comment_id : String
  pub message : String
  pub page_id : String
  pub confirm : Bool

pub record IgPublishArgs : Type 0 where
  pub page_id : String
  pub media_type : String
  pub image_url : String
  pub video_url : String
  pub children : List String
  pub caption : String
  pub confirm : Bool

pub record ModerateCommentArgs : Type 0 where
  pub comment_id : String
  pub action : String
  pub page_id : String
  pub confirm : Bool

pub record CancelScheduledPostArgs : Type 0 where
  pub post_id : String
  pub page_id : String
  pub confirm : Bool

pub record DeletePostArgs : Type 0 where
  pub post_id : String
  pub page_id : String
  pub confirm : Bool

module _ (s : Service) (env : Env) (session : Session) where
  -- The use case on its input.
  abbrev pub answering_write : WriteTool → Action Error WriteOutput
  answering_write x = answering session (λ tenant. run_write s env tenant x)

  unfoldable pub tool_page_publish_post : PublishPostArgs → Action Error WriteOutput
  tool_page_publish_post args = answering_write (
      page_publish_post (record {
        page_id = args.page_id;
        message = args.message;
        link = args.link;
        photo_url = args.photo_url;
        scheduled_at = args.scheduled_at;
        confirm = args.confirm;
      }))

  unfoldable pub tool_page_reply_comment : ReplyCommentArgs → Action Error WriteOutput
  tool_page_reply_comment args = answering_write (
      page_reply_comment (record {
        comment_id = args.comment_id;
        page_id = args.page_id;
        message = args.message;
        confirm = args.confirm;
      }))

  unfoldable pub tool_ig_publish : IgPublishArgs → Action Error WriteOutput
  tool_ig_publish args = answering_write (
      ig_publish_tool (record {
        page_id = args.page_id;
        media_type = args.media_type;
        image_url = args.image_url;
        video_url = args.video_url;
        children = args.children;
        caption = args.caption;
        confirm = args.confirm;
      }))

  unfoldable pub tool_ig_reply_comment : ReplyCommentArgs → Action Error WriteOutput
  tool_ig_reply_comment args = answering_write (
      ig_reply_comment (record {
        comment_id = args.comment_id;
        page_id = args.page_id;
        message = args.message;
        confirm = args.confirm;
      }))

  unfoldable pub tool_page_moderate_comment : ModerateCommentArgs → Action Error WriteOutput
  tool_page_moderate_comment args = answering_write (
      page_moderate_comment (record {
        comment_id = args.comment_id;
        action = args.action;
        page_id = args.page_id;
        confirm = args.confirm;
      }))

  unfoldable pub tool_ig_moderate_comment : ModerateCommentArgs → Action Error WriteOutput
  tool_ig_moderate_comment args = answering_write (
      ig_moderate_comment_tool (record {
        comment_id = args.comment_id;
        action = args.action;
        page_id = args.page_id;
        confirm = args.confirm;
      }))

  unfoldable pub tool_page_cancel_scheduled_post :
      CancelScheduledPostArgs → Action Error WriteOutput
  tool_page_cancel_scheduled_post args = answering_write (
      cancel_scheduled_post
        (record { post_id = args.post_id; page_id = args.page_id; confirm = args.confirm }))

  unfoldable pub tool_page_delete_post : DeletePostArgs → Action Error WriteOutput
  tool_page_delete_post args = answering_write (
      delete_post
        (record { post_id = args.post_id; page_id = args.page_id; confirm = args.confirm }))
