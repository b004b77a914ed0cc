-- ===== src/App/Tools/Gate.antt =====
-- Nothing is written without `confirm=true`.
use meta_mcp.Prelude.{◌≡◌, refl, false, String, List, Option, none, some}
use meta_mcp.Domain.Errors.{Error}
use meta_mcp.Exec.Keeps.{Keeps, keeps_rules}
use meta_mcp.World.{Env, World, Call}
use meta_mcp.World.Keeps.{OnCalls, calls_rules}
use meta_mcp.App.Service.{Service}
use meta_mcp.App.Service.Calls.{page_calls}
use meta_mcp.App.Publish.{PublishPostInput, publish_post, build_publish_request, stop_with}
use meta_mcp.App.IgPublish.{IgPublishInput, ig_publish}
use meta_mcp.App.Comments.{
  ReplyCommentInput, ModerateCommentInput, reply_to_comment, ig_reply_to_comment, moderate_comment,
  ig_moderate_comment,
}
use meta_mcp.App.Removal.{RemovalInput, page_delete_post, page_cancel_scheduled_post}
use meta_mcp.App.Tools.{
  WriteTool, page_publish_post, ig_publish_tool, page_reply_comment, ig_reply_comment,
  page_moderate_comment, ig_moderate_comment_tool, delete_post, cancel_scheduled_post, confirmed,
  run_write,
}

module _ {Q : List Call → Type 0} (s : Service) (env : Env) (t : String) where
  stop_with-calls : (o : Option Error) → Keeps (OnCalls Q) (stop_with o)
  stop_with-calls none = search keeps_rules
  stop_with-calls (some e) = search keeps_rules

  build_publish_request-calls :
      (i : PublishPostInput) → Keeps (OnCalls Q) (build_publish_request s env i)
  unfolding build_publish_request
  build_publish_request-calls i = search (keeps_rules, calls_rules, stop_with-calls) depth 12

  publish_post-gate :
      (i : PublishPostInput) → i.confirm ≡ false → Keeps (OnCalls Q) (publish_post s env t i)
  unfolding publish_post
  publish_post-gate i e = rw e (search (keeps_rules, page_calls, build_publish_request-calls))

  ig_publish-gate :
      (i : IgPublishInput) → i.confirm ≡ false → Keeps (OnCalls Q) (ig_publish s env t i)
  unfolding ig_publish
  ig_publish-gate i e = rw e (search (keeps_rules, page_calls))

  reply-gate :
      (i : ReplyCommentInput) → i.confirm ≡ false → Keeps (OnCalls Q) (reply_to_comment env t i)
  unfolding reply_to_comment
  reply-gate i e = rw e (search (keeps_rules, page_calls))

  ig_reply-gate :
      (i : ReplyCommentInput) → i.confirm ≡ false → Keeps (OnCalls Q) (ig_reply_to_comment env t i)
  unfolding ig_reply_to_comment
  ig_reply-gate i e = rw e (search (keeps_rules, page_calls))

  moderate_comment-gate :
      (i : ModerateCommentInput) → i.confirm ≡ false → Keeps (OnCalls Q) (moderate_comment env t i)
  unfolding moderate_comment
  moderate_comment-gate i e = rw e (search (keeps_rules, page_calls) depth 8)

  ig_moderate_comment-gate :
      (i : ModerateCommentInput)
      → i.confirm ≡ false
      → Keeps (OnCalls Q) (ig_moderate_comment env t i)
  unfolding ig_moderate_comment
  ig_moderate_comment-gate i e = rw e (search (keeps_rules, page_calls) depth 8)

  delete_post-gate :
      (i : RemovalInput) → i.confirm ≡ false → Keeps (OnCalls Q) (page_delete_post env t i)
  unfolding page_delete_post
  delete_post-gate i e = rw e (search (keeps_rules, page_calls))

  cancel_scheduled_post-gate :
      (i : RemovalInput)
      → i.confirm ≡ false
      → Keeps (OnCalls Q) (page_cancel_scheduled_post env t i)
  unfolding page_cancel_scheduled_post
  cancel_scheduled_post-gate i e = rw e (search (keeps_rules, page_calls))

  pub run_write-gate :
      (x : WriteTool) → confirmed x ≡ false → Keeps (OnCalls Q) (run_write s env t x)
  unfolding run_write
  run_write-gate (page_publish_post i) e = search (keeps_rules, publish_post-gate i e)
  run_write-gate (ig_publish_tool i) e = search (keeps_rules, ig_publish-gate i e)
  run_write-gate (page_reply_comment i) e = search (keeps_rules, reply-gate i e)
  run_write-gate (ig_reply_comment i) e = search (keeps_rules, ig_reply-gate i e)
  run_write-gate (page_moderate_comment i) e = search (keeps_rules, moderate_comment-gate i e)
  run_write-gate (ig_moderate_comment_tool i) e = search (keeps_rules, ig_moderate_comment-gate i e)
  run_write-gate (delete_post i) e = search (keeps_rules, delete_post-gate i e)
  run_write-gate (cancel_scheduled_post i) e = search (keeps_rules, cancel_scheduled_post-gate i e)

-- A writing tool that is called without `confirm`, for any tenant and input, makes no call to Meta,
-- whether it answers with a preview or with an error.
pub run_write-without_confirm :
    (s : Service) (env : Env) (t : String) (x : WriteTool) (w : World)
    → confirmed x ≡ false
    → (run_write s env t x w).1.calls ≡ w.calls
run_write-without_confirm s env t x w e =
    let kept =
      (run_write-gate {Q = λ cs. cs ≡ w.calls} s env t x e).at w (record { holds = refl }) in
    kept.holds
