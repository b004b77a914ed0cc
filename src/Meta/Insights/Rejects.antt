-- ===== src/Meta/Insights/Rejects.antt =====
-- What the fallback of the insights tolerates.
use meta_mcp.Prelude.{◌≢◌, some, ◌≡◌, false, String, List, [], ◌∷◌, inl, inr, Bool-cases, arith}
use meta_mcp.Meta.Insights.{no_insights, insights, one_more}
use meta_mcp.Exec.{Result, ok, err, ◌>>=◌, attempt, lift}
use meta_mcp.Meta.Wire.{Params, Net, NetEnv}
use meta_mcp.Meta.Client.{Client, Wire}
use meta_mcp.Meta.Items.{Decoders}
use meta_mcp.Meta.Insights.{is_unsupported, fall_back, one_by_one, insights_with_fallback}
use meta_mcp.Domain.Errors.{as_graph_error, GraphError, Error}
use meta_mcp.Domain.Metrics.{InsightSet}
use meta_mcp.Exec.Run.{Result-cases}

module _ (w : Wire) (d : Decoders) (c : Client) (env : NetEnv) where
  one_more-error :
      (out : InsightSet) (metric : String) (r : Result Error InsightSet) {e : Error}
      → one_more w d c env out metric r ≡ err e
      → is_unsupported e ≡ false
  unfolding one_more
  one_more-error out metric (ok one) {e} h = ground arith
  one_more-error out metric (err x) {e} h = elim (Bool-cases (is_unsupported x)) [
    | inl yes_x ↦ ground arith
    | inr no_x ↦ let same : x ≡ e = ground arith in rw (← same) no_x
  ]

  one_by_one-error :
      (token path : String) (base : Params) (metrics : List String) (out : InsightSet) (n : Net)
      {e : Error}
      → (one_by_one w d c env token path base metrics out n).0 ≡ err e
      → is_unsupported e ≡ false
  unfolding one_by_one attempt lift ◌>>=◌
  one_by_one-error token path base [] out n {e} h = ground arith
  one_by_one-error token path base (metric ∷ metrics) out n {e} h =
      let asked = insights w d c env token path base (metric ∷ []) n in
      elim (Result-cases (one_more w d c env out metric asked.0)) [
        | inl (x, bad) ↦ one_more-error out metric asked.0 {e = e} (ground arith)
        | inr (next, good) ↦
            one_by_one-error token path base metrics next asked.1 {e = e} (ground arith)
      ]

  rejected_never :
      (token path : String) (base : Params) (metrics : List String) (n : Net) {e : Error}
      → (insights_with_fallback w d c env token path base metrics n).0 ≡ err e
      → is_unsupported e ≡ false
  unfolding insights_with_fallback fall_back attempt ◌>>=◌
  rejected_never token path base [] n {e} h = ground arith
  rejected_never token path base (metric ∷ metrics) n {e} h =
      let asked = insights w d c env token path base (metric ∷ metrics) n in
      elim (Result-cases asked.0) [
        | inr (set, good) ↦ absurd (ground arith)
        | inl (x, bad) ↦ elim (Bool-cases (is_unsupported x)) [
          | inl yes_x ↦
              one_by_one-error token path base (metric ∷ metrics) no_insights asked.1 {e = e}
                (ground arith)
          | inr no_x ↦ let same : x ≡ e = ground arith in rw (← same) no_x
        ]
      ]

  -- Reading insights never fails because of an unsupported metric: a Graph error that comes out,
  -- wrapped or not, has another code than 100.
  pub insights_with_fallback-error :
      (token path : String) (base : Params) (metrics : List String) (n : Net) {e : Error}
      {ge : GraphError}
      → (insights_with_fallback w d c env token path base metrics n).0 ≡ err e
      → as_graph_error e ≡ some ge
      → ge.code ≢ 100
  unfolding is_unsupported
  insights_with_fallback-error token path base metrics n {e} {ge} h found hundred =
      let other = rejected_never token path base metrics n {e = e} h in ground arith
