-- ===== src/Meta/Listing.antt =====
-- internal/adapters/meta/graph.go and moderate.go: the lists.
use Prim.Native.String
use meta_mcp.Prelude.{ℕ, ◌||◌, String, List, [], ◌∷◌, eqb, ltb, decimal, map, if◌then◌else◌}
use meta_mcp.Domain.Time.{Time}
use meta_mcp.Domain.Errors.{Error, wrap, as_graph_error}
use meta_mcp.Domain.Metrics.{Post, Comment, Media, PageRatings, ScheduledPost}
use meta_mcp.Exec.{Result, ok, err, pure, raise, lift, ◌>>=◌, attempt, or_return}
use meta_mcp.Meta.Wire.{Params, NetEnv, Talk, Raw}
use meta_mcp.Meta.Client.{Wire, Client, set, unix_params, collect, get}
use meta_mcp.Meta.Items.{
  Decoders, RatingSummary, decode_all, to_post, to_comment, to_media, to_story, to_scheduled,
  to_recommendations,
}
use meta_mcp.Meta.Insights.{coded, is_unsupported}

infixr 65 ◌^^◌
abbrev ◌^^◌ : String → String → String
a ^^ b = String.◌++◌ a b

abbrev pub graph_max_page_size : ℕ
graph_max_page_size = 100

unfoldable pub page_size : ℕ → ℕ
page_size limit =
    if eqb limit 0 || ltb graph_max_page_size limit then graph_max_page_size else limit

abbrev pub post_fields_plain : String
post_fields_plain = "id,message,created_time,permalink_url"

abbrev pub post_fields : String
post_fields =
    "id,message,created_time,permalink_url,insights.metric(post_clicks,post_reactions_by_type_total)"

abbrev pub comment_fields : String
comment_fields = "id,from{name},message,created_time"

abbrev pub ig_comment_fields : String
ig_comment_fields = "id,username,text,timestamp"

abbrev pub page_rating_fields : String
page_rating_fields = "overall_star_rating,rating_count"

abbrev pub rating_fields : String
rating_fields = "created_time,recommendation_type,rating,review_text,reviewer{name}"

abbrev pub ig_media_fields_plain : String
ig_media_fields_plain =
    "id,caption,media_type,media_product_type,timestamp,permalink,like_count,comments_count"

abbrev pub ig_media_fields : String
ig_media_fields =
    "id,caption,media_type,media_product_type,timestamp,permalink,like_count,comments_count,insights.metric(reach,views,saved,shares,total_interactions)"

abbrev pub scheduled_post_fields : String
scheduled_post_fields = "id,message,created_time,scheduled_publish_time"

abbrev pub ig_story_fields : String
ig_story_fields = "id,media_type,media_product_type,timestamp,caption,permalink"

abbrev pub code_deprecated : ℕ
code_deprecated = 12

abbrev pub ratings_unavailable : String
ratings_unavailable =
    "Meta ne sert plus la liste des avis sur cette version de l'API (édition retirée depuis la v22.0) ; seuls la note moyenne et le nombre d'avis restent lisibles."

module _ (w : Wire) (d : Decoders) (c : Client) (env : NetEnv) where
  abbrev pub listing : String → ℕ → Params
  listing fields limit = ("fields", fields) ∷ ("limit", decimal (page_size limit)) ∷ []

  -- The list without its numbers, where Meta refuses a metric of the expansion.
  unfoldable pub plain_instead :
      String → String → String → Params → ℕ → String → Result Error (List Raw) → Talk (List Raw)
  plain_instead what token path ps limit plain (ok items) = pure items
  plain_instead what token path ps limit plain (err e) =
      if is_unsupported e
      then or_return (collect w c env token path (set "fields" plain ps) limit) (wrap what)
      else raise (wrap what e)

  unfoldable pub collect_or_plain : String → String → String → Params → ℕ → String → Talk (List Raw)
  collect_or_plain what token path ps limit plain = do
    first ← attempt (collect w c env token path ps limit)
    plain_instead what token path ps limit plain first

  unfoldable pub page_posts : String → String → Time → ℕ → Talk (List Post)
  page_posts page_token page_id since limit = do
    items ←
        collect_or_plain "publications de la page" page_token (page_id ^^ "/posts")
          (unix_params w (listing post_fields limit) since 0) limit post_fields_plain
    decoded ← lift (decode_all "décodage d'une publication" d.post_item items)
    pure (map (to_post d) decoded)

  unfoldable pub comments : String → String → String → ℕ → String → Talk (List Comment)
  comments token path fields limit what = do
    items ← or_return (collect w c env token path (listing fields limit) limit) (wrap what)
    decoded ← lift (decode_all "décodage d'un commentaire" d.comment_item items)
    pure (map to_comment decoded)

  unfoldable pub post_comments : String → String → ℕ → Talk (List Comment)
  post_comments page_token post_id limit =
      comments page_token (post_id ^^ "/comments") comment_fields limit
        "commentaires de la publication"

  unfoldable pub ig_media_comments : String → String → ℕ → Talk (List Comment)
  ig_media_comments page_token media_id limit =
      comments page_token (media_id ^^ "/comments") ig_comment_fields limit "commentaires du média"

  unfoldable pub ig_media : String → String → Time → ℕ → Talk (List Media)
  ig_media page_token ig_user_id since limit = do
    items ←
        collect_or_plain "médias Instagram" page_token (ig_user_id ^^ "/media")
          (unix_params w (listing ig_media_fields limit) since 0) limit ig_media_fields_plain
    decoded ← lift (decode_all "décodage d'un média" d.media_item items)
    pure (map (to_media d) decoded)

  unfoldable pub ig_stories : String → String → Talk (List Media)
  ig_stories page_token ig_user_id = do
    items ←
        or_return
          (collect w c env page_token (ig_user_id ^^ "/stories") (("fields", ig_story_fields) ∷ [])
            0)
          (wrap "stories Instagram")
    decoded ← lift (decode_all "décodage d'une story" d.media_item items)
    pure (map (to_story d) decoded)

  unfoldable pub scheduled_posts : String → String → ℕ → Talk (List ScheduledPost)
  scheduled_posts page_token page_id limit = do
    items ←
        or_return
          (collect w c env page_token (page_id ^^ "/scheduled_posts")
            (listing scheduled_post_fields limit) limit)
          (wrap "publications programmées")
    decoded ← lift (decode_all "décodage d'une publication programmée" d.scheduled_item items)
    pure (map (to_scheduled d) decoded)

  abbrev pub summary_only : String → RatingSummary → PageRatings
  summary_only page_id s = record {
    page_id = page_id;
    overall_star_rating = s.overall_star_rating;
    rating_count = s.rating_count;
    recommendations = [];
    recommendations_unavailable = "";
  }

  -- What a refused or a read list of reviews gives.
  unfoldable pub with_reviews : PageRatings → Result Error (List Raw) → Result Error PageRatings
  with_reviews out (err e) =
      if coded code_deprecated (as_graph_error e)
      then ok (record out { recommendations_unavailable = ratings_unavailable })
      else err (wrap "avis de la page" e)
  with_reviews out (ok items) = elim (decode_all "décodage d'un avis" d.rating_item items) [
    | err e ↦ err e
    | ok decoded ↦ ok (record out { recommendations = to_recommendations decoded })
  ]

  unfoldable pub page_ratings : String → String → ℕ → Talk PageRatings
  page_ratings page_token page_id limit = do
    summary ←
        or_return
          (get w c env page_token page_id (("fields", page_rating_fields) ∷ []) d.rating_summary)
          (wrap "note de la page")
    items ←
        attempt
          (collect w c env page_token (page_id ^^ "/ratings") (listing rating_fields limit) limit)
    lift (with_reviews (summary_only page_id summary) items)
