-- ===== src/App/Publish.antt =====
-- internal/app/page_publish_post.go: publishing on a Facebook Page.
use meta_mcp.Prelude.{
  Bool, true, false, not, ◌&&◌, String, ◌==◌, trim_space, if◌then◌else◌, Option, none, some,
}
use meta_mcp.Domain.Time.{zero_time}
use meta_mcp.Domain.Errors.{Error, text}
use meta_mcp.Domain.Entities.{Page, PublishPostRequest, is_photo, is_scheduled}
use meta_mcp.Exec.{pure, raise, lift, stop_if, ◌>>=◌, ◌>>◌}
use meta_mcp.World.{Env, Action, Call, ask, reading, request}
use meta_mcp.App.Service.{Service, Formats, page}
use meta_mcp.App.Window.{parse_schedule, validate_https_url}

abbrev pub preview_notice : String
preview_notice =
    "Aperçu uniquement, rien n'a été publié. Montrez ce contenu à l'utilisateur et attendez son accord explicite, puis rappelez le même outil avec confirm=true."

pub record PublishPostInput : Type 0 where
  pub page_id : String
  pub message : String
  pub link : String
  pub photo_url : String
  pub scheduled_at : String
  pub confirm : Bool

pub record PublishPostOutput : Type 0 where
  pub preview : Bool
  pub post_id : String
  pub page_id : String
  pub page_name : String
  pub kind : String
  pub message : String
  pub link : String
  pub photo_url : String
  pub scheduled_at : String
  pub notice : String

abbrev pub stop_with : Option Error → Action Error (Unit {0})
stop_with none = pure tt
stop_with (some e) = raise e

-- An absent URL is not validated.
abbrev pub check_url : Formats → String → String → Option Error
check_url f raw field = if raw == "" then none else validate_https_url f raw field

abbrev pub trimmed_request : PublishPostInput → PublishPostRequest
trimmed_request i = record {
  message = trim_space i.message;
  link = trim_space i.link;
  photo_url = trim_space i.photo_url;
  scheduled_at = zero_time;
}

module _ (s : Service) (env : Env) where
  unfoldable pub schedule_request : PublishPostRequest → String → Action Error PublishPostRequest
  schedule_request req scheduled_at = if scheduled_at == "" then pure req else do
    now ← ask (reading env.now)
    when ← lift (parse_schedule s.formats scheduled_at now)
    pure (record req { scheduled_at = when })

  unfoldable pub build_publish_request : PublishPostInput → Action Error PublishPostRequest
  unfolding schedule_request
  build_publish_request i = do
    let req = trimmed_request i
    stop_if (req.message == "" && req.link == "" && req.photo_url == "")
        (text "fournissez au moins message, link ou photo_url")
    stop_if (not (req.photo_url == "") && not (req.link == ""))
        (text "link et photo_url s'excluent: une photo ne porte pas de lien")
    stop_with (check_url s.formats req.link "link")
    stop_with (check_url s.formats req.photo_url "photo_url")
    schedule_request req i.scheduled_at

  publish_output : Page → PublishPostRequest → PublishPostOutput
  publish_output p req = record {
    preview = false;
    post_id = "";
    page_id = p.page_id;
    page_name = p.name;
    kind = if is_photo req then "photo" else "feed";
    message = req.message;
    link = req.link;
    photo_url = req.photo_url;
    scheduled_at = if is_scheduled req then s.formats.format_rfc3339 req.scheduled_at else "";
    notice = "";
  }

  unfoldable pub publish_post : String → PublishPostInput → Action Error PublishPostOutput
  unfolding publish_output
  publish_post tenant_id i = do
    p ← page env tenant_id i.page_id
    req ← build_publish_request i
    let out = publish_output p req
    if not i.confirm then pure (record out { preview = true; notice = preview_notice }) else do
      post_id ← request env.meta.created_id (Call.publish_post p.page_token p.page_id req)
      pure (record out { post_id = post_id })
