-- ===== src/App/Comments.antt =====
-- internal/app: page_reply_comment.go, ig_reply_comment.go and moderate_comment.go.
use Prim.Native.String
use meta_mcp.Prelude.{
  Bool, true, false, not, String, List, [], ◌∷◌, ◌==◌, contains, trim_space, is_blank, to_lower,
  if◌then◌else◌,
}
use meta_mcp.Domain.Errors.{Error, text}
use meta_mcp.Domain.Entities.{Page}
use meta_mcp.Exec.{pure, stop_if, ◌>>=◌, ◌>>◌}
use meta_mcp.World.{Env, Action, Call, request}
use meta_mcp.App.Service.{owner_page, owner_ig_page}
use meta_mcp.App.Publish.{preview_notice}

pub record ReplyCommentInput : Type 0 where
  pub comment_id : String
  pub page_id : String
  pub message : String
  pub confirm : Bool

pub record ReplyCommentOutput : Type 0 where
  pub preview : Bool
  pub reply_id : String
  pub comment_id : String
  pub page_id : String
  pub page_name : String
  pub message : String
  pub notice : String

pub record ModerateCommentInput : Type 0 where
  pub comment_id : String
  pub page_id : String
  pub action : String
  pub confirm : Bool

pub record ModerateCommentOutput : Type 0 where
  pub preview : Bool
  pub done : Bool
  pub comment_id : String
  pub action : String
  pub page_id : String
  pub page_name : String
  pub notice : String

abbrev pub allowed_moderation_actions : List String
allowed_moderation_actions = "hide" ∷ "unhide" ∷ "delete" ∷ []

reply_output : ReplyCommentInput → Page → ReplyCommentOutput
reply_output i p = record {
  preview = false;
  reply_id = "";
  comment_id = i.comment_id;
  page_id = p.page_id;
  page_name = p.name;
  message = trim_space i.message;
  notice = "";
}

module _ (env : Env) where
  unfoldable pub reply_to_comment : String → ReplyCommentInput → Action Error ReplyCommentOutput
  unfolding reply_output
  reply_to_comment tenant_id i = do
    stop_if (is_blank i.message) (text "message est obligatoire")
    p ← owner_page env tenant_id i.page_id i.comment_id
    let out = reply_output i p
    if not i.confirm then pure (record out { preview = true; notice = preview_notice }) else do
      reply_id ←
          request env.meta.created_id
            (Call.reply_to_comment p.page_token i.comment_id (trim_space i.message))
      pure (record out { reply_id = reply_id })

  unfoldable pub ig_reply_to_comment : String → ReplyCommentInput → Action Error ReplyCommentOutput
  unfolding reply_output
  ig_reply_to_comment tenant_id i = do
    stop_if (is_blank i.message) (text "message est obligatoire")
    p ← owner_ig_page env tenant_id i.page_id i.comment_id
    let out = reply_output i p
    if not i.confirm then pure (record out { preview = true; notice = preview_notice }) else do
      reply_id ←
          request env.meta.created_id
            (Call.ig_reply_to_comment p.page_token i.comment_id (trim_space i.message))
      pure (record out { reply_id = reply_id })

  moderation_output : ModerateCommentInput → String → Page → ModerateCommentOutput
  moderation_output i action p = record {
    preview = false;
    done = false;
    comment_id = i.comment_id;
    action = action;
    page_id = p.page_id;
    page_name = p.name;
    notice = "";
  }

  moderation_notice : String → String
  moderation_notice action =
      if action == "delete"
      then String.◌++◌ preview_notice " La suppression est définitive et irréversible."
      else preview_notice

  unfoldable pub moderation_call : Page → String → String → Bool → Action Error (Unit {0})
  moderation_call p comment_id action instagram =
      if action == "delete"
      then request env.meta.done (Call.delete_object p.page_token comment_id)
      else request env.meta.done
          (Call.set_comment_hidden p.page_token comment_id (action == "hide") instagram)

  unfoldable pub moderate : Page → ModerateCommentInput → Bool → Action Error ModerateCommentOutput
  unfolding moderation_output moderation_notice
  moderate p i instagram = do
    stop_if (is_blank i.comment_id) (text "comment_id est obligatoire")
    let action = to_lower (trim_space i.action)
    stop_if (not (contains allowed_moderation_actions action))
        (text "action doit valoir [hide unhide delete]")
    let out = moderation_output i action p
    if not i.confirm
        then pure (record out { preview = true; notice = moderation_notice action })
        else do moderation_call p i.comment_id action instagram; pure (record out { done = true })

  unfoldable pub moderate_comment :
      String → ModerateCommentInput → Action Error ModerateCommentOutput
  unfolding moderate
  moderate_comment tenant_id i = do
    p ← owner_page env tenant_id i.page_id i.comment_id
    moderate p i false

  unfoldable pub ig_moderate_comment :
      String → ModerateCommentInput → Action Error ModerateCommentOutput
  unfolding moderate
  ig_moderate_comment tenant_id i = do
    p ← owner_ig_page env tenant_id i.page_id i.comment_id
    moderate p i true
