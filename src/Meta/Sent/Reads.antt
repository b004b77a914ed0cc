-- ===== src/Meta/Sent/Reads.antt =====
-- The requests of the reading methods.
use meta_mcp.Prelude.{
  ◌==◌, take, length, leb, ◌&&◌, ltb, ◌≡◌, refl, ◌+◌, ◌++◌, ℕ, zero, suc, String, List, [], ◌∷◌,
}
use meta_mcp.Crypto.{Bytes}
use meta_mcp.Domain.Errors.{Error}
use meta_mcp.Domain.Time.{Time}
use meta_mcp.Domain.Metrics.{InsightSet}
use meta_mcp.Exec.{Result, ok, err}
use meta_mcp.Exec.Keeps.{Keeps, Keeps-bind, Keeps-bind_ok, Keeps-if, Keeps-pure, keeps_rules}
use meta_mcp.Meta.Wire.{get_method, Params, Sent, NetEnv, Raw, ListBody}
use meta_mcp.Meta.Client.{
  Wire, Client, built, endpoint, get, fetch_page, collect_from, collect, max_pages,
}
use meta_mcp.Meta.Items.{Decoders}
use meta_mcp.Meta.Insights
use meta_mcp.Meta.Insights.{insights, one_by_one, fall_back, insights_with_fallback, ig_part}
use meta_mcp.Meta.Listing
use meta_mcp.Meta.Listing.{plain_instead, collect_or_plain, comments}
use meta_mcp.Meta.Identity
use meta_mcp.Meta.Identity.{time_now}
use meta_mcp.Meta.Sent.{Sends, Came, call-Sends, decoding-Sends, call-Came, decoding-ok}

-- The address of the next page in an answer to a request with `P`.
pub record Named (w : Wire) (c : Client) (env : NetEnv) (P : Sent → Type 0) (url : String)
    : Type 0 where
  pub body : Bytes
  pub came : Came w c env P body
  pub page : ListBody
  pub listed : w.list_body body ≡ ok page
  pub same : url ≡ page.next

module _ (w : Wire) (d : Decoders) (c : Client) (env : NetEnv) {P : Sent → Type 0}
    (home : (path token : String) (ps : Params)
      → P (built w c env get_method (endpoint w c env path) token ps))
    (bare : (url : String) → Named w c env P url → P (built w c env get_method url "" [])) where
  pub get-Sends :
      {A : Type 0} (token path : String) (ps : Params) (decode : Bytes → Result Error A)
      → Keeps (Sends P) (get w c env token path ps decode)
  unfolding get
  get-Sends token path ps decode = search (
    keeps_rules,
    call-Sends w c env {P = P} get_method (endpoint w c env path) token ps (home path token ps),
    decoding-Sends,
  )

  fetch_page-Sends :
      (token path : String) (ps : Params) → Keeps (Sends P) (fetch_page w c env token path ps)
  unfolding fetch_page
  fetch_page-Sends token path ps =
      Keeps-bind _ _
        (call-Sends w c env {P = P} get_method (endpoint w c env path) token ps
          (home path token ps))
        (λ body.
          Keeps-bind _ _ (decoding-Sends w c env _ (w.list_body body))
            (λ page. Keeps-pure page.items))

  collect_from-Sends :
      (limit rounds page : ℕ) (items : List Raw) (body : Bytes)
      → Came w c env P body
      → Keeps (Sends P) (collect_from w c env limit rounds page items body)
  unfolding collect_from
  collect_from-Sends limit zero page items body came = search keeps_rules
  collect_from-Sends limit (suc rounds) page items body came =
      Keeps-bind_ok _ _ (decoding-Sends w c env _ (w.list_body body)) (λ n read e.
        let named : Named w c env P read.next = record {
          body = body;
          came = came;
          page = read;
          listed = decoding-ok w c env _ _ n e;
          same = refl;
        } in
        let good = bare read.next named in
        let more = items ++ read.items in
        Keeps-if (ltb 0 limit && leb limit (length more)) _ _ (Keeps-pure (take limit more)) (
          Keeps-if (read.next == "") _ _ (Keeps-pure more) (
            Keeps-bind_ok _ _ (call-Sends w c env {P = P} get_method read.next "" [] good)
              (λ m next_body e'.
                collect_from-Sends limit rounds (page + 1) more next_body
                  (call-Came w c env P get_method read.next "" [] good m e')))))

  pub collect-Sends :
      (token path : String) (ps : Params) (limit : ℕ)
      → Keeps (Sends P) (collect w c env token path ps limit)
  unfolding collect
  collect-Sends token path ps limit =
      Keeps-bind_ok _ _
        (call-Sends w c env {P = P} get_method (endpoint w c env path) token ps
          (home path token ps))
        (λ n body e. collect_from-Sends limit max_pages 0 [] body (
          call-Came w c env P get_method (endpoint w c env path) token ps (home path token ps) n e))

  insights-Sends :
      (token path : String) (base : Params) (metrics : List String)
      → Keeps (Sends P) (insights w d c env token path base metrics)
  unfolding insights
  insights-Sends token path base metrics = search (keeps_rules, fetch_page-Sends)

  one_by_one-Sends :
      (token path : String) (base : Params) (metrics : List String) (out : InsightSet)
      → Keeps (Sends P) (one_by_one w d c env token path base metrics out)
  unfolding one_by_one
  one_by_one-Sends token path base [] out = search keeps_rules
  one_by_one-Sends token path base (metric ∷ metrics) out =
      search (keeps_rules, insights-Sends, one_by_one-Sends token path base metrics)

  fall_back-Sends :
      (token path : String) (base : Params) (metrics : List String) (r : Result Error InsightSet)
      → Keeps (Sends P) (fall_back w d c env token path base metrics r)
  unfolding fall_back
  fall_back-Sends token path base metrics (ok set) = search keeps_rules
  fall_back-Sends token path base metrics (err e) = search (keeps_rules, one_by_one-Sends)

  insights_with_fallback-Sends :
      (token path : String) (base : Params) (metrics : List String)
      → Keeps (Sends P) (insights_with_fallback w d c env token path base metrics)
  unfolding insights_with_fallback
  insights_with_fallback-Sends token path base metrics =
      search (keeps_rules, insights-Sends, fall_back-Sends)

  ig_part-Sends :
      (token path : String) (base : Params) (metrics : List String)
      → Keeps (Sends P) (ig_part w d c env token path base metrics)
  unfolding ig_part
  ig_part-Sends token path base metrics = search (keeps_rules, insights_with_fallback-Sends)

  plain_instead-Sends :
      (what token path : String) (ps : Params) (limit : ℕ) (plain : String)
      (r : Result Error (List Raw))
      → Keeps (Sends P) (plain_instead w d c env what token path ps limit plain r)
  unfolding plain_instead
  plain_instead-Sends what token path ps limit plain (ok items) = search keeps_rules
  plain_instead-Sends what token path ps limit plain (err e) = search (keeps_rules, collect-Sends)

  collect_or_plain-Sends :
      (what token path : String) (ps : Params) (limit : ℕ) (plain : String)
      → Keeps (Sends P) (collect_or_plain w d c env what token path ps limit plain)
  unfolding collect_or_plain
  collect_or_plain-Sends what token path ps limit plain =
      search (keeps_rules, collect-Sends, plain_instead-Sends)

  comments-Sends :
      (token path fields : String) (limit : ℕ) (what : String)
      → Keeps (Sends P) (comments w d c env token path fields limit what)
  unfolding comments
  comments-Sends token path fields limit what = search (keeps_rules, collect-Sends)

  time_now-Sends : Keeps (Sends P) (time_now w d c env)
  unfolding time_now
  time_now-Sends = record { at = λ n all. record { holds = all.holds } }

  pub page_insights-Sends :
      (token id : String) (metrics : List String) (since until : Time)
      → Keeps (Sends P) (Insights.page_insights w d c env token id metrics since until)
  unfolding Insights.page_insights
  page_insights-Sends token id metrics since until =
      search (keeps_rules, insights_with_fallback-Sends)

  pub ig_account_insights-Sends :
      (token id : String) (metrics : List String) (since until : Time)
      → Keeps (Sends P) (Insights.ig_account_insights w d c env token id metrics since until)
  unfolding Insights.ig_account_insights
  ig_account_insights-Sends token id metrics since until = search (keeps_rules, ig_part-Sends)

  pub post_insights-Sends :
      (token id : String) (metrics : List String)
      → Keeps (Sends P) (Insights.post_insights w d c env token id metrics)
  unfolding Insights.post_insights
  post_insights-Sends token id metrics = search (keeps_rules, insights_with_fallback-Sends)

  pub ig_media_insights-Sends :
      (token id : String) (metrics : List String)
      → Keeps (Sends P) (Insights.ig_media_insights w d c env token id metrics)
  unfolding Insights.ig_media_insights
  ig_media_insights-Sends token id metrics = search (keeps_rules, insights_with_fallback-Sends)

  pub ig_follower_demographics-Sends :
      (token id breakdown : String)
      → Keeps (Sends P) (Insights.ig_follower_demographics w d c env token id breakdown)
  unfolding Insights.ig_follower_demographics
  ig_follower_demographics-Sends token id breakdown = search (keeps_rules, fetch_page-Sends)

  pub page_posts-Sends :
      (token id : String) (since : Time) (limit : ℕ)
      → Keeps (Sends P) (Listing.page_posts w d c env token id since limit)
  unfolding Listing.page_posts
  page_posts-Sends token id since limit = search (keeps_rules, collect_or_plain-Sends)

  pub ig_media-Sends :
      (token id : String) (since : Time) (limit : ℕ)
      → Keeps (Sends P) (Listing.ig_media w d c env token id since limit)
  unfolding Listing.ig_media
  ig_media-Sends token id since limit = search (keeps_rules, collect_or_plain-Sends)

  pub post_comments-Sends :
      (token id : String) (limit : ℕ)
      → Keeps (Sends P) (Listing.post_comments w d c env token id limit)
  unfolding Listing.post_comments
  post_comments-Sends token id limit = search (keeps_rules, comments-Sends)

  pub ig_media_comments-Sends :
      (token id : String) (limit : ℕ)
      → Keeps (Sends P) (Listing.ig_media_comments w d c env token id limit)
  unfolding Listing.ig_media_comments
  ig_media_comments-Sends token id limit = search (keeps_rules, comments-Sends)

  pub ig_stories-Sends :
      (token id : String) → Keeps (Sends P) (Listing.ig_stories w d c env token id)
  unfolding Listing.ig_stories
  ig_stories-Sends token id = search (keeps_rules, collect-Sends)

  pub scheduled_posts-Sends :
      (token id : String) (limit : ℕ)
      → Keeps (Sends P) (Listing.scheduled_posts w d c env token id limit)
  unfolding Listing.scheduled_posts
  scheduled_posts-Sends token id limit = search (keeps_rules, collect-Sends)

  pub page_ratings-Sends :
      (token id : String) (limit : ℕ)
      → Keeps (Sends P) (Listing.page_ratings w d c env token id limit)
  unfolding Listing.page_ratings
  page_ratings-Sends token id limit = search (keeps_rules, get-Sends, collect-Sends)

  pub exchange_code-Sends :
      (code uri : String) → Keeps (Sends P) (Identity.exchange_code w d c env code uri)
  unfolding Identity.exchange_code
  exchange_code-Sends code uri = search (keeps_rules, get-Sends)

  pub exchange_long_lived_token-Sends :
      (token : String) → Keeps (Sends P) (Identity.exchange_long_lived_token w d c env token)
  unfolding Identity.exchange_long_lived_token
  exchange_long_lived_token-Sends token = search (keeps_rules, get-Sends)

  pub debug_token-Sends : (token : String) → Keeps (Sends P) (Identity.debug_token w d c env token)
  unfolding Identity.debug_token
  debug_token-Sends token = search (keeps_rules, get-Sends)

  pub me-Sends : (token : String) → Keeps (Sends P) (Identity.me w d c env token)
  unfolding Identity.me
  me-Sends token = search (keeps_rules, get-Sends)

  pub accounts-Sends : (token : String) → Keeps (Sends P) (Identity.accounts w d c env token)
  unfolding Identity.accounts
  accounts-Sends token = search (keeps_rules, collect-Sends, time_now-Sends)
