-- ===== src/Meta/Port.antt =====
-- The port `domain.GraphClient` (World) as internal/adapters/meta implements it: each call of the port is
-- one use of the client, with a network of its own at each step.
use meta_mcp.Prelude.{ℕ, String, List}
use meta_mcp.Domain.Errors.{Error, text}
use meta_mcp.Exec.{Result, err}
use meta_mcp.World.{Call, GraphClient}
use meta_mcp.Meta.Wire.{NetEnv, Talk, idle}
use meta_mcp.Meta.Client.{Wire, Client}
use meta_mcp.Meta.Items.{Decoders}
use meta_mcp.Meta.Insights.{
  page_insights, ig_account_insights, post_insights, ig_media_insights, ig_follower_demographics,
}
use meta_mcp.Meta.Listing.{
  page_posts, post_comments, ig_media_comments, ig_media, ig_stories, scheduled_posts, page_ratings,
}
use meta_mcp.Meta.Identity.{exchange_code, exchange_long_lived_token, debug_token, me, accounts}
use meta_mcp.Meta.Publish.{
  publish_post, reply_to_comment, ig_reply_to_comment, ig_publish, set_comment_hidden,
  delete_object,
}
use meta_mcp.Domain.Metrics.{
  InsightSet, Post, Comment, Media, ScheduledPost, PageRatings, Breakdown,
}
use meta_mcp.Domain.Entities.{LongLivedToken, MetaUser, Page, TokenStatus}

-- The result of one use of the client.
abbrev pub ran : {A : Type 0} → Talk A → Result Error A
ran m = (m idle).0

-- No method of the port: the call's constructor belongs to another one.
abbrev other_method : Error
other_method = text "other method"

module _ (w : Wire) (d : Decoders) (c : Client) (nets : ℕ → NetEnv) where
  run_insights : NetEnv → Call → Result Error InsightSet
  unfolding page_insights ig_account_insights post_insights ig_media_insights
  run_insights env (Call.page_insights token id metrics since until) =
      ran (page_insights w d c env token id metrics since until)
  run_insights env (Call.ig_account_insights token id metrics since until) =
      ran (ig_account_insights w d c env token id metrics since until)
  run_insights env (Call.post_insights token id metrics) =
      ran (post_insights w d c env token id metrics)
  run_insights env (Call.ig_media_insights token id metrics) =
      ran (ig_media_insights w d c env token id metrics)
  run_insights env _ = err other_method

  run_posts : NetEnv → Call → Result Error (List Post)
  run_posts env (Call.page_posts token id since limit) =
      ran (page_posts w d c env token id since limit)
  run_posts env _ = err other_method

  run_comments : NetEnv → Call → Result Error (List Comment)
  run_comments env (Call.post_comments token id limit) =
      ran (post_comments w d c env token id limit)
  run_comments env (Call.ig_media_comments token id limit) =
      ran (ig_media_comments w d c env token id limit)
  run_comments env _ = err other_method

  run_media : NetEnv → Call → Result Error (List Media)
  run_media env (Call.ig_media token id since limit) = ran (ig_media w d c env token id since limit)
  run_media env (Call.ig_stories token id) = ran (ig_stories w d c env token id)
  run_media env _ = err other_method

  run_created : NetEnv → Call → Result Error String
  run_created env (Call.publish_post token id req) = ran (publish_post w d c env token id req)
  run_created env (Call.reply_to_comment token id message) =
      ran (reply_to_comment w d c env token id message)
  run_created env (Call.ig_reply_to_comment token id message) =
      ran (ig_reply_to_comment w d c env token id message)
  run_created env (Call.ig_publish token id req) = ran (ig_publish w d c env token id req)
  run_created env _ = err other_method

  run_done : NetEnv → Call → Result Error (Unit {0})
  run_done env (Call.set_comment_hidden token id hidden instagram) =
      ran (set_comment_hidden w d c env token id hidden instagram)
  run_done env (Call.delete_object token id) = ran (delete_object w d c env token id)
  run_done env _ = err other_method

  run_exchange_code : NetEnv → Call → Result Error String
  run_exchange_code env (Call.exchange_code code redirect_uri) =
      ran (exchange_code w d c env code redirect_uri)
  run_exchange_code env _ = err other_method

  run_long_lived : NetEnv → Call → Result Error LongLivedToken
  run_long_lived env (Call.exchange_long_lived_token token) =
      ran (exchange_long_lived_token w d c env token)
  run_long_lived env _ = err other_method

  run_me : NetEnv → Call → Result Error MetaUser
  run_me env (Call.me token) = ran (me w d c env token)
  run_me env _ = err other_method

  run_accounts : NetEnv → Call → Result Error (List Page)
  run_accounts env (Call.accounts token) = ran (accounts w d c env token)
  run_accounts env _ = err other_method

  run_debug : NetEnv → Call → Result Error TokenStatus
  run_debug env (Call.debug_token token) = ran (debug_token w d c env token)
  run_debug env _ = err other_method

  run_scheduled : NetEnv → Call → Result Error (List ScheduledPost)
  run_scheduled env (Call.scheduled_posts token id limit) =
      ran (scheduled_posts w d c env token id limit)
  run_scheduled env _ = err other_method

  run_ratings : NetEnv → Call → Result Error PageRatings
  run_ratings env (Call.page_ratings token id limit) = ran (page_ratings w d c env token id limit)
  run_ratings env _ = err other_method

  run_demographics : NetEnv → Call → Result Error (List Breakdown)
  run_demographics env (Call.ig_follower_demographics token id breakdown) =
      ran (ig_follower_demographics w d c env token id breakdown)
  run_demographics env _ = err other_method

  -- `var _ domain.GraphClient = (*Client)(nil)`
  unfoldable pub graph_client : GraphClient
  unfolding run_insights run_posts run_comments run_media run_created run_done run_exchange_code
      run_long_lived run_me run_accounts run_debug run_scheduled run_ratings run_demographics
  graph_client = record {
    exchange_code = λ n call. run_exchange_code (nets n) call;
    exchange_long_lived_token = λ n call. run_long_lived (nets n) call;
    me = λ n call. run_me (nets n) call;
    accounts = λ n call. run_accounts (nets n) call;
    debug_token = λ n call. run_debug (nets n) call;
    insights = λ n call. run_insights (nets n) call;
    posts = λ n call. run_posts (nets n) call;
    comments = λ n call. run_comments (nets n) call;
    scheduled_posts = λ n call. run_scheduled (nets n) call;
    ratings = λ n call. run_ratings (nets n) call;
    demographics = λ n call. run_demographics (nets n) call;
    media = λ n call. run_media (nets n) call;
    created_id = λ n call. run_created (nets n) call;
    done = λ n call. run_done (nets n) call;
  }
