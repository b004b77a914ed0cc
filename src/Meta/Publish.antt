-- ===== src/Meta/Publish.antt =====
-- internal/adapters/meta/publish.go and the writes of moderate.go.
pub mod Polling
pub mod Budget
use Prim.Native.String
use meta_mcp.Prelude.{
  ℕ, zero, suc, ◌+◌, ◌*◌, Bool, true, false, not, ◌&&◌, String, List, [], ◌∷◌, ◌==◌, eqb, ltb,
  decimal, join, if◌then◌else◌,
}
use meta_mcp.Domain.Time.{Duration, second, unix}
use meta_mcp.Domain.Errors.{Error, text, wrap}
use meta_mcp.Domain.Entities.{PublishPostRequest, IgPublishRequest, is_photo, is_scheduled}
use meta_mcp.Exec.{Result, ok, err, pure, raise, lift, stop_if, ◌>>=◌, ◌>>◌, or_return}
use meta_mcp.Meta.Wire.{Params, NetEnv, Talk}
use meta_mcp.Meta.Client.{Wire, Client, set, get, post, wait}
use meta_mcp.Meta.Items.{Decoders, ContainerStatus, first_non_empty}

infixr 65 ◌^^◌
abbrev ◌^^◌ : String → String → String
a ^^ b = String.◌++◌ a b

abbrev pub default_poll_delay : Duration
default_poll_delay = 2 * second

abbrev pub max_poll_attempts : ℕ
max_poll_attempts = 30

abbrev pub set_if : Bool → String → String → Params → Params
set_if b key value ps = if b then set key value ps else ps

module _ (w : Wire) (d : Decoders) (c : Client) (env : NetEnv) where
  post_path : String → PublishPostRequest → String
  post_path page_id req = if is_photo req then page_id ^^ "/photos" else page_id ^^ "/feed"

  content_params : PublishPostRequest → Params
  content_params req =
      if is_photo req
      then set_if (not (req.message == "")) "caption" req.message (set "url" req.photo_url [])
      else set_if (not (req.link == "")) "link" req.link (set "message" req.message [])

  unfoldable pub post_params : PublishPostRequest → Params
  unfolding content_params
  post_params req =
      if is_scheduled req
      then set "scheduled_publish_time" (w.format_unix req.scheduled_at)
          (set "published" "false" (content_params req))
      else content_params req

  unfoldable pub publish_post : String → String → PublishPostRequest → Talk String
  unfolding post_path
  publish_post page_token page_id req = do
    body ←
        or_return (post w c env page_token (post_path page_id req) (post_params req) d.id_body)
          (wrap "publication sur la page")
    stop_if (first_non_empty body.post_id body.id == "")
        (text "publication sur la page: Meta n'a renvoyé aucun identifiant")
    pure (first_non_empty body.post_id body.id)

  -- A POST that answers with the id of what it made.
  unfoldable pub created : String → String → String → Params → String → Talk String
  created token path what ps nothing = do
    body ← or_return (post w c env token path ps d.id_body) (wrap what)
    stop_if (body.id == "") (text nothing)
    pure body.id

  unfoldable pub reply_to_comment : String → String → String → Talk String
  reply_to_comment page_token comment_id message =
      created page_token (comment_id ^^ "/comments") "réponse au commentaire"
        (("message", message) ∷ []) "réponse au commentaire: Meta n'a renvoyé aucun identifiant"

  unfoldable pub ig_reply_to_comment : String → String → String → Talk String
  ig_reply_to_comment page_token comment_id message =
      created page_token (comment_id ^^ "/replies") "réponse au commentaire Instagram"
        (("message", message) ∷ [])
        "réponse au commentaire Instagram: Meta n'a renvoyé aucun identifiant"

  abbrev pub item_text : ℕ → String
  item_text i = "création de l'élément " ^^ decimal (i + 1) ^^ " du carrousel"

  -- The containers of the slides, from number `i` on.
  unfoldable pub create_carousel_items : String → String → ℕ → List String → Talk (List String)
  create_carousel_items page_token ig_user_id i [] = pure []
  create_carousel_items page_token ig_user_id i (url ∷ urls) = do
    id ←
        created page_token (ig_user_id ^^ "/media") (item_text i)
          (("image_url", url) ∷ ("is_carousel_item", "true") ∷ [])
          (item_text i ^^ ": aucun identifiant renvoyé")
    ids ← create_carousel_items page_token ig_user_id (i + 1) urls
    pure (id ∷ ids)

  -- The parameters of the container. The slides of a carousel are made first.
  unfoldable pub container_params : String → String → IgPublishRequest → Talk Params
  container_params page_token ig_user_id req =
      let caption = set_if (not (req.caption == "")) "caption" req.caption [] in
      if req.media_type == "STORIES"
      then pure (
          ("media_type", "STORIES")
          ∷ (if not (req.video_url == "")
              then ("video_url", req.video_url)
              else ("image_url", req.image_url))
          ∷ [])
      else if req.media_type == "REELS"
      then pure (set "video_url" req.video_url (set "media_type" "REELS" caption))
      else if req.media_type == "CAROUSEL"
      then (do
        ids ← create_carousel_items page_token ig_user_id 0 req.children
        pure (set "children" (join "," ids) (set "media_type" "CAROUSEL" caption)))
      else pure (set "image_url" req.image_url caption)

  unfoldable pub create_ig_container : String → String → IgPublishRequest → Talk String
  create_ig_container page_token ig_user_id req = do
    ps ← container_params page_token ig_user_id req
    created page_token (ig_user_id ^^ "/media") "création du conteneur Instagram" ps
        "création du conteneur Instagram: aucun identifiant renvoyé"

  unfoldable pub poll_delay : Duration
  poll_delay =
      if ltb 0 c.retry_delay && ltb c.retry_delay default_poll_delay
      then c.retry_delay
      else default_poll_delay

  abbrev pub unfinished : Error
  unfinished =
      text "le média Instagram n'a pas fini d'être traité par Meta, réessayez dans quelques minutes"

  -- With `later` attempts left after this one.
  unfoldable pub poll : String → String → ℕ → Talk (Unit {0})
  poll page_token container_id zero = raise unfinished
  poll page_token container_id (suc later) = do
    s ←
        or_return
          (get w c env page_token container_id (("fields", "status_code,status") ∷ [])
            d.container_status)
          (wrap "suivi du conteneur Instagram")
    if s.status_code == "FINISHED"
        then pure tt
        else if s.status_code == "ERROR"
        then raise (text ("Meta a rejeté le média Instagram: " ^^ s.status))
        else if s.status_code == "EXPIRED"
        then raise (text "le conteneur Instagram a expiré avant d'être publié")
        else if eqb later 0
        then raise unfinished
        else do wait w c env poll_delay; poll page_token container_id later

  unfoldable pub wait_for_ig_container : String → String → Talk (Unit {0})
  wait_for_ig_container page_token container_id = poll page_token container_id max_poll_attempts

  unfoldable pub ig_publish : String → String → IgPublishRequest → Talk String
  ig_publish page_token ig_user_id req = do
    container_id ← create_ig_container page_token ig_user_id req
    wait_for_ig_container page_token container_id
    created page_token (ig_user_id ^^ "/media_publish") "publication Instagram"
        (("creation_id", container_id) ∷ [])
        "publication Instagram: Meta n'a renvoyé aucun identifiant"

  abbrev pub show_bool : Bool → String
  show_bool b = if b then "true" else "false"

  unfoldable pub set_comment_hidden : String → String → Bool → Bool → Talk (Unit {0})
  set_comment_hidden page_token comment_id hidden instagram = do
    or_return
        (post w c env page_token comment_id
          ((if instagram then "hide" else "is_hidden", show_bool hidden) ∷ []) d.success_body)
        (wrap "modération du commentaire")
    pure tt

  unfoldable pub delete_object : String → String → Talk (Unit {0})
  delete_object page_token object_id = do
    or_return (post w c env page_token object_id (("method", "delete") ∷ []) d.success_body)
        (wrap "suppression")
    pure tt
