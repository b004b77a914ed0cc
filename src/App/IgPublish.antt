-- ===== src/App/IgPublish.antt =====
-- internal/app/ig_publish.go: publishing on Instagram.
pub mod Shapes
use Prim.Native.String
use meta_mcp.Prelude.{
  ℕ, zero, suc, ◌+◌, Bool, true, false, not, ◌&&◌, ◌||◌, String, List, [], ◌∷◌, ◌==◌, ltb, length,
  trim_space, to_upper, decimal, if◌then◌else◌, Option, none, some,
}
use meta_mcp.Domain.Errors.{Error, text}
use meta_mcp.Domain.Entities.{Page, IgPublishRequest}
use meta_mcp.Exec.{Result, ok, err, pure, raise, lift, stop_if, ◌>>=◌, ◌>>◌}
use meta_mcp.World.{Env, Action, Call, request}
use meta_mcp.App.Service.{Service, Formats, ig_page}
use meta_mcp.App.Window.{validate_https_url, or_refuse}
use meta_mcp.App.Publish.{preview_notice}

abbrev pub min_carousel_items : ℕ
min_carousel_items = 2

abbrev pub max_carousel_items : ℕ
max_carousel_items = 10

pub record IgPublishInput : Type 0 where
  pub page_id : String
  pub media_type : String
  pub image_url : String
  pub video_url : String
  pub caption : String
  pub children : List String
  pub confirm : Bool

pub record IgPublishOutput : Type 0 where
  pub preview : Bool
  pub media_id : String
  pub page_id : String
  pub ig_username : String
  pub media_type : String
  pub image_url : String
  pub video_url : String
  pub children : List String
  pub caption : String
  pub notice : String

abbrev pub media_type_or_image : String → String
media_type_or_image t = if t == "" then "IMAGE" else t

abbrev pub trimmed_ig_request : IgPublishInput → IgPublishRequest
trimmed_ig_request i = record {
  media_type = media_type_or_image (to_upper (trim_space i.media_type));
  image_url = trim_space i.image_url;
  video_url = trim_space i.video_url;
  caption = trim_space i.caption;
  children = [];
}

module _ (f : Formats) where
  -- One image or one video, and no caption.
  unfoldable pub stories_request : IgPublishRequest → Result Error IgPublishRequest
  stories_request req =
      if req.image_url == "" && req.video_url == ""
      then err (text "image_url ou video_url est obligatoire pour media_type=STORIES")
      else if not (req.image_url == "") && not (req.video_url == "")
      then err (text "une story porte soit image_url, soit video_url, pas les deux")
      else or_refuse
          (if not (req.video_url == "")
            then validate_https_url f req.video_url "video_url"
            else validate_https_url f req.image_url "image_url")
          (ok (record req { caption = "" }))

  unfoldable pub image_request : IgPublishRequest → Result Error IgPublishRequest
  image_request req =
      if req.image_url == ""
      then err (text "image_url est obligatoire pour media_type=IMAGE")
      else or_refuse (validate_https_url f req.image_url "image_url") (ok req)

  unfoldable pub reels_request : IgPublishRequest → Result Error IgPublishRequest
  reels_request req =
      if req.video_url == ""
      then err (text "video_url est obligatoire pour media_type=REELS")
      else or_refuse (validate_https_url f req.video_url "video_url") (ok req)

  pub child_field : ℕ → String
  child_field i = String.◌++◌ "children[" (String.◌++◌ (decimal i) "]")

  -- `i` is the index of the next child in the caller's list; blank ones are left out.
  unfoldable pub collect_child :
      String → Result Error (List String) → Option Error → Result Error (List String)
  collect_child child rest (some e) = err e
  collect_child child (err e) none = err e
  collect_child child (ok cs) none = ok (child ∷ cs)

  unfoldable pub carousel_children : ℕ → List String → Result Error (List String)
  unfolding collect_child child_field
  carousel_children i [] = ok []
  carousel_children i (raw ∷ raws) =
      let rest = carousel_children (i + 1) raws in
      let child = trim_space raw in
      if child == ""
      then rest
      else collect_child child rest (validate_https_url f child (child_field i))

  unfoldable pub carousel_request : IgPublishRequest → List String → Result Error IgPublishRequest
  unfolding carousel_children
  carousel_request req raws = elim (carousel_children 0 raws) [
    | err e ↦ err e
    | ok children ↦
        if ltb (length children) min_carousel_items || ltb max_carousel_items (length children)
        then err (text "un carrousel demande entre 2 et 10 URLs dans children")
        else ok (record req { children = children })
  ]

  -- The `switch` on the media type.
  unfoldable pub checked_ig_request : IgPublishRequest → List String → Result Error IgPublishRequest
  unfolding stories_request image_request reels_request carousel_request
  checked_ig_request req raws =
      if req.media_type == "STORIES"
      then stories_request req
      else if req.media_type == "IMAGE"
      then image_request req
      else if req.media_type == "REELS"
      then reels_request req
      else if req.media_type == "CAROUSEL"
      then carousel_request req raws
      else err (text "media_type doit valoir IMAGE, REELS, CAROUSEL ou STORIES")

  unfoldable pub build_ig_publish_request : IgPublishInput → Result Error IgPublishRequest
  unfolding checked_ig_request
  build_ig_publish_request i = checked_ig_request (trimmed_ig_request i) i.children

module _ (s : Service) (env : Env) where
  ig_output : Page → IgPublishRequest → IgPublishOutput
  ig_output p req = record {
    preview = false;
    media_id = "";
    page_id = p.page_id;
    ig_username = p.ig_username;
    media_type = req.media_type;
    image_url = req.image_url;
    video_url = req.video_url;
    children = req.children;
    caption = req.caption;
    notice = "";
  }

  unfoldable pub ig_publish : String → IgPublishInput → Action Error IgPublishOutput
  unfolding ig_output
  ig_publish tenant_id i = do
    p ← ig_page env tenant_id i.page_id
    req ← lift (build_ig_publish_request s.formats i)
    let out = ig_output p req
    if not i.confirm then pure (record out { preview = true; notice = preview_notice }) else do
      media_id ← request env.meta.created_id (Call.ig_publish p.page_token p.ig_user_id req)
      pure (record out { media_id = media_id })
