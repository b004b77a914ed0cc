-- ===== src/Domain/Metrics.antt =====
-- internal/domain/metrics.go: the reading results. Raw JSON values and Meta's star rating, a float,
-- are kept as the text that Meta sent.
use meta_mcp.Prelude.{ℕ, String, List}

pub record InsightValue : Type 0 where
  pub end_time : String
  pub value : String

pub record Insight : Type 0 where
  pub metric : String
  pub period : String
  pub title : String
  pub values : List InsightValue

pub record InsightSet : Type 0 where
  pub insights : List Insight
  pub rejected : List String

pub record Post : Type 0 where
  pub post_id : String
  pub created_time : String
  pub message : String
  pub permalink : String
  pub clicks : ℕ
  pub reactions : ℕ
  pub video_views : ℕ

pub record Recommendation : Type 0 where
  pub created_time : String
  pub kind : String
  pub rating : ℕ
  pub review_text : String
  pub reviewer : String

pub record PageRatings : Type 0 where
  pub page_id : String
  pub overall_star_rating : String
  pub rating_count : ℕ
  pub recommendations : List Recommendation
  pub recommendations_unavailable : String

pub record Comment : Type 0 where
  pub comment_id : String
  pub from : String
  pub username : String
  pub message : String
  pub created_time : String

pub record Media : Type 0 where
  pub media_id : String
  pub kind : String
  pub product_type : String
  pub timestamp : String
  pub caption : String
  pub permalink : String
  pub like_count : ℕ
  pub comments_count : ℕ
  pub reach : ℕ
  pub views : ℕ
  pub saved : ℕ
  pub shares : ℕ
  pub total_interactions : ℕ

pub record Breakdown : Type 0 where
  pub key : String
  pub value : ℕ

pub record ScheduledPost : Type 0 where
  pub post_id : String
  pub message : String
  pub created_time : String
  pub scheduled_at : String
