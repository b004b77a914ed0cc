-- ===== src/Meta/Insights.antt =====
-- internal/adapters/meta/graph.go and moderate.go: the insights.
pub mod Rejects
use Prim.Native.String
use meta_mcp.Prelude.{
  ℕ, Bool, true, false, not, ◌&&◌, ◌||◌, String, List, [], ◌∷◌, ◌++◌, Option, none, some, ◌==◌, eqb,
  ltb, length, keep, join, map, if◌then◌else◌,
}
use meta_mcp.Domain.Time.{Time}
use meta_mcp.Domain.Errors.{Error, GraphError, wrap, as_graph_error}
use meta_mcp.Domain.Metrics.{Insight, InsightSet, Breakdown}
use meta_mcp.Exec.{Result, ok, err, pure, raise, lift, ◌>>=◌, ◌>>◌, attempt, or_return}
use meta_mcp.Meta.Wire.{Params, NetEnv, Talk, Raw}
use meta_mcp.Meta.Client.{Wire, Client, set, unix_params, fetch_page}
use meta_mcp.Meta.Items.{Decoders, InsightItem, decode_all, to_insight, all_breakdowns}

abbrev pub code_unsupported_metric : ℕ
code_unsupported_metric = 100

-- `ge, ok := AsGraphError(err); ok && ge.Code == code`
abbrev pub coded : ℕ → Option GraphError → Bool
coded code none = false
coded code (some e) = eqb e.code code

unfoldable pub is_unsupported : Error → Bool
is_unsupported e = coded code_unsupported_metric (as_graph_error e)

abbrev pub no_insights : InsightSet
no_insights = record { insights = []; rejected = [] }

abbrev pub merged : InsightSet → InsightSet → InsightSet
merged a b = record { insights = a.insights ++ b.insights; rejected = a.rejected ++ b.rejected }

abbrev pub is_time_series : String → Bool
is_time_series metric = metric == "follower_count"

module _ (w : Wire) (d : Decoders) (c : Client) (env : NetEnv) where
  unfoldable pub decode_insights : List Raw → Result Error (List Insight)
  decode_insights items = elim (decode_all "décodage d'une métrique" d.insight_item items) [
    | err e ↦ err e
    | ok decoded ↦ ok (map to_insight decoded)
  ]

  unfoldable pub insights : String → String → Params → List String → Talk InsightSet
  insights token path base metrics = do
    items ← fetch_page w c env token path (set "metric" (join "," metrics) base)
    decoded ← lift (decode_insights items)
    pure (record { insights = decoded; rejected = [] })

  -- The set after one metric of the loop: only an unsupported metric is skipped.
  unfoldable pub one_more : InsightSet → String → Result Error InsightSet → Result Error InsightSet
  one_more out metric (ok one) = ok (record out { insights = out.insights ++ one.insights })
  one_more out metric (err e) =
      if is_unsupported e then ok (record out { rejected = out.rejected ++ metric ∷ [] }) else err e

  -- One request for each metric.
  unfoldable pub one_by_one : String → String → Params → List String → InsightSet → Talk InsightSet
  one_by_one token path base [] out = pure out
  one_by_one token path base (metric ∷ metrics) out = do
    one ← attempt (insights token path base (metric ∷ []))
    next ← lift (one_more out metric one)
    one_by_one token path base metrics next

  -- After the request for all of them.
  unfoldable pub fall_back :
      String → String → Params → List String → Result Error InsightSet → Talk InsightSet
  fall_back token path base metrics (ok set) = pure set
  fall_back token path base metrics (err e) =
      if is_unsupported e then one_by_one token path base metrics no_insights else raise e

  abbrev pub is_empty : List String → Bool
  is_empty [] = true
  is_empty (m ∷ ms) = false

  unfoldable pub insights_with_fallback : String → String → Params → List String → Talk InsightSet
  insights_with_fallback token path base metrics = if is_empty metrics then pure no_insights else do
    batch ← attempt (insights token path base metrics)
    fall_back token path base metrics batch

  unfoldable pub page_insights : String → String → List String → Time → Time → Talk InsightSet
  page_insights page_token page_id metrics since until =
      or_return
        (insights_with_fallback page_token (String.◌++◌ page_id "/insights")
          (unix_params w (("period", "day") ∷ []) since until) metrics)
        (wrap "statistiques de la page")

  -- One of the two requests for the account's metrics.
  unfoldable pub ig_part : String → String → Params → List String → Talk InsightSet
  ig_part page_token path base metrics =
      if is_empty metrics
      then pure no_insights
      else or_return (insights_with_fallback page_token path base metrics)
          (wrap "statistiques Instagram")

  unfoldable pub ig_account_insights : String → String → List String → Time → Time → Talk InsightSet
  ig_account_insights page_token ig_user_id metrics since until = do
    totals ←
        ig_part page_token (String.◌++◌ ig_user_id "/insights")
          (unix_params w (("period", "day") ∷ ("metric_type", "total_value") ∷ []) since until)
          (keep (λ m. not (is_time_series m)) metrics)
    series ←
        ig_part page_token (String.◌++◌ ig_user_id "/insights")
          (unix_params w (("period", "day") ∷ []) since until) (keep is_time_series metrics)
    pure (merged totals series)

  unfoldable pub post_insights : String → String → List String → Talk InsightSet
  post_insights page_token post_id metrics =
      or_return (insights_with_fallback page_token (String.◌++◌ post_id "/insights") [] metrics)
        (wrap "statistiques de la publication")

  unfoldable pub ig_media_insights : String → String → List String → Talk InsightSet
  ig_media_insights page_token media_id metrics =
      or_return (insights_with_fallback page_token (String.◌++◌ media_id "/insights") [] metrics)
        (wrap "statistiques du média")

  unfoldable pub ig_follower_demographics : String → String → String → Talk (List Breakdown)
  ig_follower_demographics page_token ig_user_id breakdown = do
    items ←
        or_return
          (fetch_page w c env page_token (String.◌++◌ ig_user_id "/insights") (
            ("metric", "follower_demographics")
            ∷ ("period", "lifetime")
            ∷ ("metric_type", "total_value")
            ∷ ("breakdown", breakdown)
            ∷ []))
          (wrap "démographie des abonnés")
    decoded ← lift (decode_all "décodage de la démographie" d.insight_item items)
    pure (all_breakdowns decoded)
