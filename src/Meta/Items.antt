-- ===== src/Meta/Items.antt =====
-- internal/adapters/meta: what Meta's JSON objects hold, and what the client makes of them.
use meta_mcp.Prelude.{
  ℕ, ◌+◌, Bool, String, List, [], ◌∷◌, ◌++◌, Option, none, some, ◌==◌, join, if◌then◌else◌, map,
}
use meta_mcp.Crypto.{Bytes}
use meta_mcp.Domain.Errors.{Error, wrap}
use meta_mcp.Domain.Entities.{MetaUser}
use meta_mcp.Domain.Metrics.{
  Insight, InsightValue, Post, Comment, Media, Breakdown, Recommendation, ScheduledPost,
}
use meta_mcp.Exec.{Result, ok, err}
use meta_mcp.Meta.Wire.{Raw}

pub record BreakdownResult : Type 0 where
  pub dimension_values : List String
  pub value : ℕ

-- `total_value` is "" where Meta sent none; `breakdowns` has the results of each breakdown.
pub record InsightItem : Type 0 where
  pub name : String
  pub period : String
  pub title : String
  pub values : List InsightValue
  pub total_value : Raw
  pub breakdowns : List (List BreakdownResult)

pub record PostItem : Type 0 where
  pub id : String
  pub message : String
  pub created_time : String
  pub permalink_url : String
  pub insights : List InsightItem

pub record CommentItem : Type 0 where
  pub id : String
  pub from_name : String
  pub username : String
  pub message : String
  pub text : String
  pub created_time : String
  pub timestamp : String

pub record MediaItem : Type 0 where
  pub id : String
  pub caption : String
  pub media_type : String
  pub product_type : String
  pub timestamp : String
  pub permalink : String
  pub like_count : ℕ
  pub comments_count : ℕ
  pub insights : List InsightItem

pub record RatingItem : Type 0 where
  pub created_time : String
  pub recommendation_type : String
  pub rating : ℕ
  pub review_text : String
  pub reviewer_name : String

pub record RatingSummary : Type 0 where
  pub overall_star_rating : String
  pub rating_count : ℕ

-- `scheduled_publish_time` is a text, a number of seconds, or something else.
pub data ScheduledValue : Type 0 where
  as_text : String → ScheduledValue
  as_seconds : ℕ → ScheduledValue
  as_other : ScheduledValue

pub record ScheduledItem : Type 0 where
  pub id : String
  pub message : String
  pub created_time : String
  pub scheduled_publish_time : ScheduledValue

pub record AccountItem : Type 0 where
  pub id : String
  pub name : String
  pub access_token : String
  pub instagram_id : String
  pub instagram_username : String

pub record IdBody : Type 0 where
  pub id : String
  pub post_id : String

pub record ContainerStatus : Type 0 where
  pub status_code : String
  pub status : String

pub record TokenBody : Type 0 where
  pub access_token : String
  pub token_type : String
  pub expires_in : ℕ

pub record DebugBody : Type 0 where
  pub is_valid : Bool
  pub expires_at : ℕ
  pub data_access : ℕ
  pub scopes : List String
  pub error_message : String

-- `json.Unmarshal` into each type.
pub record Decoders : Type 0 where
  pub insight_item : Raw → Result Error InsightItem
  pub post_item : Raw → Result Error PostItem
  pub comment_item : Raw → Result Error CommentItem
  pub media_item : Raw → Result Error MediaItem
  pub rating_item : Raw → Result Error RatingItem
  pub scheduled_item : Raw → Result Error ScheduledItem
  pub account_item : Raw → Result Error AccountItem
  pub number : Raw → Option ℕ
  pub by_type : Raw → Option (List ℕ)
  pub rating_summary : Bytes → Result Error RatingSummary
  pub id_body : Bytes → Result Error IdBody
  pub container_status : Bytes → Result Error ContainerStatus
  pub success_body : Bytes → Result Error Bool
  pub token_body : Bytes → Result Error TokenBody
  pub debug_body : Bytes → Result Error DebugBody
  pub meta_user : Bytes → Result Error MetaUser
  -- `time.Unix(secs, 0).UTC().Format(time.RFC3339)`
  pub rfc3339 : ℕ → String

-- The loops that decode a list: the first item that does not decode ends them.
unfoldable pub decode_all :
    {A : Type 0} → String → (Raw → Result Error A) → List Raw → Result Error (List A)
decode_all what f [] = ok []
decode_all what f (raw ∷ raws) = elim (f raw) [
  | err e ↦ err (wrap what e)
  | ok a ↦ elim (decode_all what f raws) [ err e ↦ err e | ok as_list ↦ ok (a ∷ as_list) ]
]

-- The total where there is no series.
insight_values : List InsightValue → Raw → List InsightValue
insight_values [] total = if total == "" then [] else record { end_time = ""; value = total } ∷ []
insight_values (v ∷ vs) total = v ∷ vs

unfoldable pub to_insight : InsightItem → Insight
unfolding insight_values
to_insight i = record {
  metric = i.name;
  period = i.period;
  title = i.title;
  values = insight_values i.values i.total_value;
}

abbrev pub first_non_empty : String → String → String
first_non_empty a b = if a == "" then b else a

unfoldable pub to_comment : CommentItem → Comment
to_comment i = record {
  comment_id = i.id;
  from = i.from_name;
  username = i.username;
  message = first_non_empty i.message i.text;
  created_time = first_non_empty i.created_time i.timestamp;
}

unfoldable pub sum : List ℕ → ℕ
sum [] = 0
sum (x ∷ xs) = x + sum xs

-- The first value of the series, or the total where it is empty.
abbrev pub metric_raw : List InsightValue → Raw → Raw
metric_raw [] total = total
metric_raw (v ∷ vs) total = v.value

to_recommendation : RatingItem → Recommendation
to_recommendation i = record {
  created_time = i.created_time;
  kind = i.recommendation_type;
  rating = i.rating;
  review_text = i.review_text;
  reviewer = i.reviewer_name;
}

module _ (d : Decoders) where
  number_or_sum : Raw → Option ℕ → Option (List ℕ) → ℕ
  number_or_sum raw (some n) by_type = n
  number_or_sum raw none (some ns) = sum ns
  number_or_sum raw none none = 0

  unfoldable pub first_metric_value : InsightItem → ℕ
  unfolding number_or_sum
  first_metric_value i =
      let raw = metric_raw i.values i.total_value in
      if raw == "" then 0 else number_or_sum raw (d.number raw) (d.by_type raw)

  -- The value of the last insight of this name: the loop assigns at each one.
  unfoldable pub metric_of : String → List InsightItem → ℕ → ℕ
  metric_of name [] found = found
  metric_of name (i ∷ is_list) found =
      metric_of name is_list (if i.name == name then first_metric_value i else found)

  unfoldable pub to_post : PostItem → Post
  to_post i = record {
    post_id = i.id;
    created_time = i.created_time;
    message = i.message;
    permalink = i.permalink_url;
    clicks = metric_of "post_clicks" i.insights 0;
    reactions = metric_of "post_reactions_by_type_total" i.insights 0;
    video_views = metric_of "post_video_views" i.insights 0;
  }

  unfoldable pub to_media : MediaItem → Media
  to_media i = record {
    media_id = i.id;
    kind = i.media_type;
    product_type = i.product_type;
    timestamp = i.timestamp;
    caption = i.caption;
    permalink = i.permalink;
    like_count = i.like_count;
    comments_count = i.comments_count;
    reach = metric_of "reach" i.insights 0;
    views = metric_of "views" i.insights 0;
    saved = metric_of "saved" i.insights 0;
    shares = metric_of "shares" i.insights 0;
    total_interactions = metric_of "total_interactions" i.insights 0;
  }

  unfoldable pub to_story : MediaItem → Media
  to_story i = record {
    media_id = i.id;
    kind = i.media_type;
    product_type = i.product_type;
    timestamp = i.timestamp;
    caption = i.caption;
    permalink = i.permalink;
    like_count = 0;
    comments_count = 0;
    reach = 0;
    views = 0;
    saved = 0;
    shares = 0;
    total_interactions = 0;
  }

  unfoldable pub scheduled_time : ScheduledValue → String
  scheduled_time (as_text s) = s
  scheduled_time (as_seconds n) = d.rfc3339 n
  scheduled_time as_other = ""

  unfoldable pub to_scheduled : ScheduledItem → ScheduledPost
  to_scheduled i = record {
    post_id = i.id;
    message = i.message;
    created_time = i.created_time;
    scheduled_at = scheduled_time i.scheduled_publish_time;
  }

to_breakdown : BreakdownResult → Breakdown
to_breakdown r = record { key = join " / " r.dimension_values; value = r.value }

unfoldable pub breakdowns_of : List (List BreakdownResult) → List Breakdown
unfolding to_breakdown
breakdowns_of [] = []
breakdowns_of (rs ∷ rest) = map to_breakdown rs ++ breakdowns_of rest

unfoldable pub all_breakdowns : List InsightItem → List Breakdown
all_breakdowns [] = []
all_breakdowns (i ∷ is_list) = breakdowns_of i.breakdowns ++ all_breakdowns is_list

unfoldable pub to_recommendations : List RatingItem → List Recommendation
unfolding to_recommendation
to_recommendations is_list = map to_recommendation is_list
