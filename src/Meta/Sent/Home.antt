-- ===== src/Meta/Sent/Home.antt =====
-- Where the tokens go, and which calls only read.
use meta_mcp.Prelude.{ℕ, trim_left_char, ◌≡◌, refl, false, String, List, [], All, arith}
use meta_mcp.Exec.{ok}
use meta_mcp.Exec.Keeps.{Keeps}
use meta_mcp.World.{Call}
use meta_mcp.Meta.Wire.{
  Method, get_method, post_method, Params, Sent, NetEnv, Talk, idle, Answer, answered, ListBody,
}
use meta_mcp.Meta.Client.{Wire, Client, built, credentials, endpoint, ◌^^◌}
use meta_mcp.Meta.Items.{Decoders}
use meta_mcp.Meta.Insights
use meta_mcp.Meta.Listing
use meta_mcp.Meta.Identity
use meta_mcp.Meta.Publish
use meta_mcp.Meta.Sent.{Sends}
use meta_mcp.Meta.Sent.Reads
use meta_mcp.Meta.Sent.Reads.{Named}
use meta_mcp.Meta.Sent.Writes
use meta_mcp.Mcp.Effects.{writes_at_meta}

-- The requests of one use of the client, last first.
abbrev pub sent_by : {A : Type 0} → Talk A → List Sent
sent_by m = (m idle).1.sent

-- A request to an endpoint of the configured host and version; or a GET, with no parameter of the
-- client's, of the address that Meta named as the next page in its answer to such a request.
pub data StaysHome (w : Wire) (c : Client) (env : NetEnv) : Sent → Type 0 where
  home :
      {r : Sent} (path : String)
      → r.url ≡ c.graph_base ^^ "/" ^^ c.version ^^ "/" ^^ path
      → StaysHome w c env r
  named :
      {r : Sent} (q : Sent) (at : ℕ) (answer : Answer) (page : ListBody)
      → StaysHome w c env q
      → env.wire at q ≡ answered answer
      → w.list_body answer.body ≡ ok page
      → r.method ≡ get_method
      → r.url ≡ page.next
      → r.params ≡ []
      → StaysHome w c env r

module _ (w : Wire) (d : Decoders) (c : Client) (env : NetEnv) where
  -- The requests that a call of the port sends.
  abbrev pub requests : Call → List Sent
  requests (Call.exchange_code code uri) = sent_by (Identity.exchange_code w d c env code uri)
  requests (Call.exchange_long_lived_token token) =
      sent_by (Identity.exchange_long_lived_token w d c env token)
  requests (Call.me token) = sent_by (Identity.me w d c env token)
  requests (Call.accounts token) = sent_by (Identity.accounts w d c env token)
  requests (Call.debug_token token) = sent_by (Identity.debug_token w d c env token)
  requests (Call.page_insights token id metrics since until) =
      sent_by (Insights.page_insights w d c env token id metrics since until)
  requests (Call.ig_account_insights token id metrics since until) =
      sent_by (Insights.ig_account_insights w d c env token id metrics since until)
  requests (Call.page_posts token id since limit) =
      sent_by (Listing.page_posts w d c env token id since limit)
  requests (Call.ig_media token id since limit) =
      sent_by (Listing.ig_media w d c env token id since limit)
  requests (Call.post_comments token id limit) =
      sent_by (Listing.post_comments w d c env token id limit)
  requests (Call.scheduled_posts token id limit) =
      sent_by (Listing.scheduled_posts w d c env token id limit)
  requests (Call.page_ratings token id limit) =
      sent_by (Listing.page_ratings w d c env token id limit)
  requests (Call.ig_media_comments token id limit) =
      sent_by (Listing.ig_media_comments w d c env token id limit)
  requests (Call.post_insights token id metrics) =
      sent_by (Insights.post_insights w d c env token id metrics)
  requests (Call.ig_media_insights token id metrics) =
      sent_by (Insights.ig_media_insights w d c env token id metrics)
  requests (Call.ig_follower_demographics token id breakdown) =
      sent_by (Insights.ig_follower_demographics w d c env token id breakdown)
  requests (Call.ig_stories token id) = sent_by (Listing.ig_stories w d c env token id)
  requests (Call.publish_post token id req) = sent_by (Publish.publish_post w d c env token id req)
  requests (Call.reply_to_comment token id message) =
      sent_by (Publish.reply_to_comment w d c env token id message)
  requests (Call.ig_reply_to_comment token id message) =
      sent_by (Publish.ig_reply_to_comment w d c env token id message)
  requests (Call.set_comment_hidden token id hidden instagram) =
      sent_by (Publish.set_comment_hidden w d c env token id hidden instagram)
  requests (Call.delete_object token id) = sent_by (Publish.delete_object w d c env token id)
  requests (Call.ig_publish token id req) = sent_by (Publish.ig_publish w d c env token id req)

  abbrev pub IsGet : Sent → Type 0
  IsGet q = q.method ≡ get_method

  home-StaysHome :
      (m : Method) (path token : String) (ps : Params)
      → StaysHome w c env (built w c env m (endpoint w c env path) token ps)
  unfolding built endpoint
  home-StaysHome get_method path token ps = home (trim_left_char b'/' path) refl
  home-StaysHome post_method path token ps = home (trim_left_char b'/' path) refl

  bare-StaysHome :
      (url : String)
      → Named w c env (StaysHome w c env) url
      → StaysHome w c env (built w c env get_method url "" [])
  unfolding built credentials
  bare-StaysHome url from =
      named from.came.asked from.came.at from.came.answer from.page from.came.good from.came.got
        (rw from.came.same from.listed) refl from.same refl

  built-IsGet : (url token : String) (ps : Params) → IsGet (built w c env get_method url token ps)
  unfolding built
  built-IsGet url token ps = refl

  of_run : {A : Type 0} {P : Sent → Type 0} {m : Talk A} → Keeps (Sends P) m → All P (sent_by m)
  of_run kept = (kept.at idle (record { holds = tt })).holds

  -- Every request of a call of the port goes to an endpoint of the configured host and version; or it
  -- is a GET of the address that Meta named as the next page in its answer to such a request, or to
  -- a request got in the same way, and then the client adds no parameter to that address.
  pub requests-StaysHome : (x : Call) → All (StaysHome w c env) (requests x)
  requests-StaysHome (Call.exchange_code code uri) = of_run (
      Reads.exchange_code-Sends w d c env {P = StaysHome w c env} (home-StaysHome get_method)
        bare-StaysHome code uri)
  requests-StaysHome (Call.exchange_long_lived_token token) = of_run (
      Reads.exchange_long_lived_token-Sends w d c env {P = StaysHome w c env}
        (home-StaysHome get_method) bare-StaysHome token)
  requests-StaysHome (Call.me token) = of_run (
      Reads.me-Sends w d c env {P = StaysHome w c env} (home-StaysHome get_method) bare-StaysHome
        token)
  requests-StaysHome (Call.accounts token) = of_run (
      Reads.accounts-Sends w d c env {P = StaysHome w c env} (home-StaysHome get_method)
        bare-StaysHome token)
  requests-StaysHome (Call.debug_token token) = of_run (
      Reads.debug_token-Sends w d c env {P = StaysHome w c env} (home-StaysHome get_method)
        bare-StaysHome token)
  requests-StaysHome (Call.page_insights token id metrics since until) = of_run (
      Reads.page_insights-Sends w d c env {P = StaysHome w c env} (home-StaysHome get_method)
        bare-StaysHome token id metrics since until)
  requests-StaysHome (Call.ig_account_insights token id metrics since until) = of_run (
      Reads.ig_account_insights-Sends w d c env {P = StaysHome w c env} (home-StaysHome get_method)
        bare-StaysHome token id metrics since until)
  requests-StaysHome (Call.page_posts token id since limit) = of_run (
      Reads.page_posts-Sends w d c env {P = StaysHome w c env} (home-StaysHome get_method)
        bare-StaysHome token id since limit)
  requests-StaysHome (Call.ig_media token id since limit) = of_run (
      Reads.ig_media-Sends w d c env {P = StaysHome w c env} (home-StaysHome get_method)
        bare-StaysHome token id since limit)
  requests-StaysHome (Call.post_comments token id limit) = of_run (
      Reads.post_comments-Sends w d c env {P = StaysHome w c env} (home-StaysHome get_method)
        bare-StaysHome token id limit)
  requests-StaysHome (Call.scheduled_posts token id limit) = of_run (
      Reads.scheduled_posts-Sends w d c env {P = StaysHome w c env} (home-StaysHome get_method)
        bare-StaysHome token id limit)
  requests-StaysHome (Call.page_ratings token id limit) = of_run (
      Reads.page_ratings-Sends w d c env {P = StaysHome w c env} (home-StaysHome get_method)
        bare-StaysHome token id limit)
  requests-StaysHome (Call.ig_media_comments token id limit) = of_run (
      Reads.ig_media_comments-Sends w d c env {P = StaysHome w c env} (home-StaysHome get_method)
        bare-StaysHome token id limit)
  requests-StaysHome (Call.post_insights token id metrics) = of_run (
      Reads.post_insights-Sends w d c env {P = StaysHome w c env} (home-StaysHome get_method)
        bare-StaysHome token id metrics)
  requests-StaysHome (Call.ig_media_insights token id metrics) = of_run (
      Reads.ig_media_insights-Sends w d c env {P = StaysHome w c env} (home-StaysHome get_method)
        bare-StaysHome token id metrics)
  requests-StaysHome (Call.ig_follower_demographics token id breakdown) = of_run (
      Reads.ig_follower_demographics-Sends w d c env {P = StaysHome w c env}
        (home-StaysHome get_method) bare-StaysHome token id breakdown)
  requests-StaysHome (Call.ig_stories token id) = of_run (
      Reads.ig_stories-Sends w d c env {P = StaysHome w c env} (home-StaysHome get_method)
        bare-StaysHome token id)
  requests-StaysHome (Call.publish_post token id req) =
      of_run
        (Writes.publish_post-Sends w d c env {P = StaysHome w c env} home-StaysHome token id req)
  requests-StaysHome (Call.reply_to_comment token id message) = of_run (
      Writes.reply_to_comment-Sends w d c env {P = StaysHome w c env} home-StaysHome token id
        message)
  requests-StaysHome (Call.ig_reply_to_comment token id message) = of_run (
      Writes.ig_reply_to_comment-Sends w d c env {P = StaysHome w c env} home-StaysHome token id
        message)
  requests-StaysHome (Call.set_comment_hidden token id hidden instagram) = of_run (
      Writes.set_comment_hidden-Sends w d c env {P = StaysHome w c env} home-StaysHome token id
        hidden instagram)
  requests-StaysHome (Call.delete_object token id) =
      of_run (Writes.delete_object-Sends w d c env {P = StaysHome w c env} home-StaysHome token id)
  requests-StaysHome (Call.ig_publish token id req) =
      of_run (Writes.ig_publish-Sends w d c env {P = StaysHome w c env} home-StaysHome token id req)

  -- A call that does not write at Meta sends GET requests only.
  pub requests-IsGet : (x : Call) → writes_at_meta x ≡ false → All IsGet (requests x)
  requests-IsGet (Call.exchange_code code uri) e = of_run (
      Reads.exchange_code-Sends w d c env {P = IsGet} (λ path. built-IsGet (endpoint w c env path))
        (λ url from. built-IsGet url "" []) code uri)
  requests-IsGet (Call.exchange_long_lived_token token) e = of_run (
      Reads.exchange_long_lived_token-Sends w d c env {P = IsGet}
        (λ path. built-IsGet (endpoint w c env path)) (λ url from. built-IsGet url "" []) token)
  requests-IsGet (Call.me token) e = of_run (
      Reads.me-Sends w d c env {P = IsGet} (λ path. built-IsGet (endpoint w c env path))
        (λ url from. built-IsGet url "" []) token)
  requests-IsGet (Call.accounts token) e = of_run (
      Reads.accounts-Sends w d c env {P = IsGet} (λ path. built-IsGet (endpoint w c env path))
        (λ url from. built-IsGet url "" []) token)
  requests-IsGet (Call.debug_token token) e = of_run (
      Reads.debug_token-Sends w d c env {P = IsGet} (λ path. built-IsGet (endpoint w c env path))
        (λ url from. built-IsGet url "" []) token)
  requests-IsGet (Call.page_insights token id metrics since until) e = of_run (
      Reads.page_insights-Sends w d c env {P = IsGet} (λ path. built-IsGet (endpoint w c env path))
        (λ url from. built-IsGet url "" []) token id metrics since until)
  requests-IsGet (Call.ig_account_insights token id metrics since until) e = of_run (
      Reads.ig_account_insights-Sends w d c env {P = IsGet}
        (λ path. built-IsGet (endpoint w c env path)) (λ url from. built-IsGet url "" []) token id
        metrics since until)
  requests-IsGet (Call.page_posts token id since limit) e = of_run (
      Reads.page_posts-Sends w d c env {P = IsGet} (λ path. built-IsGet (endpoint w c env path))
        (λ url from. built-IsGet url "" []) token id since limit)
  requests-IsGet (Call.ig_media token id since limit) e = of_run (
      Reads.ig_media-Sends w d c env {P = IsGet} (λ path. built-IsGet (endpoint w c env path))
        (λ url from. built-IsGet url "" []) token id since limit)
  requests-IsGet (Call.post_comments token id limit) e = of_run (
      Reads.post_comments-Sends w d c env {P = IsGet} (λ path. built-IsGet (endpoint w c env path))
        (λ url from. built-IsGet url "" []) token id limit)
  requests-IsGet (Call.scheduled_posts token id limit) e = of_run (
      Reads.scheduled_posts-Sends w d c env {P = IsGet}
        (λ path. built-IsGet (endpoint w c env path)) (λ url from. built-IsGet url "" []) token id
        limit)
  requests-IsGet (Call.page_ratings token id limit) e = of_run (
      Reads.page_ratings-Sends w d c env {P = IsGet} (λ path. built-IsGet (endpoint w c env path))
        (λ url from. built-IsGet url "" []) token id limit)
  requests-IsGet (Call.ig_media_comments token id limit) e = of_run (
      Reads.ig_media_comments-Sends w d c env {P = IsGet}
        (λ path. built-IsGet (endpoint w c env path)) (λ url from. built-IsGet url "" []) token id
        limit)
  requests-IsGet (Call.post_insights token id metrics) e = of_run (
      Reads.post_insights-Sends w d c env {P = IsGet} (λ path. built-IsGet (endpoint w c env path))
        (λ url from. built-IsGet url "" []) token id metrics)
  requests-IsGet (Call.ig_media_insights token id metrics) e = of_run (
      Reads.ig_media_insights-Sends w d c env {P = IsGet}
        (λ path. built-IsGet (endpoint w c env path)) (λ url from. built-IsGet url "" []) token id
        metrics)
  requests-IsGet (Call.ig_follower_demographics token id breakdown) e = of_run (
      Reads.ig_follower_demographics-Sends w d c env {P = IsGet}
        (λ path. built-IsGet (endpoint w c env path)) (λ url from. built-IsGet url "" []) token id
        breakdown)
  requests-IsGet (Call.ig_stories token id) e = of_run (
      Reads.ig_stories-Sends w d c env {P = IsGet} (λ path. built-IsGet (endpoint w c env path))
        (λ url from. built-IsGet url "" []) token id)
  requests-IsGet (Call.publish_post token id req) e = absurd (ground arith)
  requests-IsGet (Call.reply_to_comment token id message) e = absurd (ground arith)
  requests-IsGet (Call.ig_reply_to_comment token id message) e = absurd (ground arith)
  requests-IsGet (Call.set_comment_hidden token id hidden instagram) e = absurd (ground arith)
  requests-IsGet (Call.delete_object token id) e = absurd (ground arith)
  requests-IsGet (Call.ig_publish token id req) e = absurd (ground arith)
