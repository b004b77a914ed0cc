-- ===== src/Tests/Calling.antt =====
-- The theorems on the client for Meta at concrete inputs.
use text.Mathlib.TextLemmas.{cons-ne-nil}
use meta_mcp.Prelude.{
  ◌≢◌, ℕ, ◌+◌, ◌*◌, All, trim_left_char, ◌≡◌, ◌⊎◌, refl, arith, true, String, [], ◌∷◌, none, some,
  length, eqb, ◌==◌, if◌then◌else◌,
}
use meta_mcp.Crypto.{Bytes}
use meta_mcp.Domain.Errors.{is_rate_limit, graph, Error, GraphError, as_graph_error}
use meta_mcp.Domain.Entities.{IgPublishRequest}
use meta_mcp.Exec.{ok, err, ◌>>=◌, or_return, attempt}
use meta_mcp.Meta.Wire.{Net, NetEnv, Talk, ListBody, Exchange, answered, get_method, idle}
use meta_mcp.Meta.Client.{
  enveloped, graph_error_from, Wire, Client, call, call_once, get, post, fetch_page, is_success,
  received, built, collect, endpoint, settled, again,
}
use meta_mcp.Meta.Client.Paging.{collect-limit_to, Pages}
use meta_mcp.Meta.Client.Budget.{collect-Spends, Spends}
use meta_mcp.Meta.Client.Retry.{WaitsFor, IsLimited, call-retry, IsLimited, WaitsFor, waited}
use meta_mcp.Meta.Items.{Decoders, ContainerStatus}
use meta_mcp.Meta.Insights.{
  one_by_one, one_more, is_unsupported, insights_with_fallback, insights, fall_back,
}
use meta_mcp.Meta.Insights.Rejects.{insights_with_fallback-error}
use meta_mcp.World.{Call}
use meta_mcp.Meta.Sent.Home.{requests, requests-StaysHome, requests-IsGet, StaysHome, IsGet}
use meta_mcp.Meta.Publish.{
  ig_publish, create_ig_container, container_params, created, poll, wait_for_ig_container,
}
use meta_mcp.Meta.Publish.Budget.{ig_publish-Spends}
use meta_mcp.Meta.Publish.Polling.{ig_publish-finished, asked_status, publish_container}
use meta_mcp.Domain.Time.{Duration}

abbrev first_page : ListBody
first_page = record { items = "a" ∷ "b" ∷ []; next = "next" }

abbrev last_page : ListBody
last_page = record { items = "c" ∷ []; next = "" }

-- Bodies of one byte hold the first page, others the last one.
abbrev wire : Wire
wire = record {
  text = λ b. "";
  error_envelope = λ b. none;
  list_body = λ b. if eqb (length b) 1 then ok first_page else ok last_page;
  atoi = λ s. none;
  format_unix = λ t. "";
  hmac_hex = λ k s. "";
}

abbrev client : Client
client = record {
  graph_base = "https://graph.example";
  dialog_base = "https://www.example";
  version = "v26.0";
  app_id = "app";
  app_secret = "";
  redirect_uri = "https://mcp.example/meta/callback";
  scopes = "";
  retry_delay = 60;
}

abbrev good : Bytes → Exchange
good body = answered (record { status = 200; body = body; retry_after = "" })

-- Meta answers the address "next" with two bytes, and any other with one.
abbrev two_pages : NetEnv
two_pages = record {
  wire = λ n q. if q.url == "next" then good (2 ∷ 2 ∷ []) else good (1 ∷ []);
  done = λ n. none;
  now = λ n. 0;
}

first_call :
    call wire client two_pages get_method (endpoint wire client two_pages "list") "" [] idle ≡ (
      ok (1 ∷ []),
      (call wire client two_pages get_method (endpoint wire client two_pages "list") "" [] idle).1,
    )
unfolding call call_once received built settled endpoint attempt ◌>>=◌ trim_left_char is_success
first_call = refl

next_call :
    (n : Net)
    → (net : Net) × (call wire client two_pages get_method "next" "" [] n ≡ (ok (2 ∷ 2 ∷ []), net))
unfolding call call_once received built settled attempt ◌>>=◌ is_success
next_call n = ((call wire client two_pages get_method "next" "" [] n).1, refl)

both_pages : Pages wire client two_pages (1 ∷ []) ("a" ∷ "b" ∷ "c" ∷ []) 2
both_pages =
    Pages.more first_page refl (cons-ne-nil "n" "ext") next_call (Pages.last last_page refl refl)
      refl

collect-limit_to_example :
    (collect wire client two_pages "" "list" [] 2 idle).0 ≡ ok ("a" ∷ "b" ∷ [])
collect-limit_to_example =
    collect-limit_to wire client two_pages "" "list" [] 2 idle first_call both_pages (omega arith)

collect-Spends_example : Spends 102 (collect wire client two_pages "" "list" [] 2)
collect-Spends_example = collect-Spends wire client two_pages "" "list" [] 2

-- The first request is refused for a rate limit, the others are answered.
abbrev busy : NetEnv
busy = record {
  wire = λ n q.
      if eqb n 0
      then answered (record { status = 429; body = []; retry_after = "" })
      else good (1 ∷ []);
  done = λ n. none;
  now = λ n. 0;
}

abbrev limited_call : Talk Bytes
limited_call = call_once wire client busy get_method "u" "" []

call-retry_example :
    ((call wire client busy get_method "u" "" [] idle ≡ limited_call idle)
      × (((body : Bytes) × ((limited_call idle).0 ≡ ok body))
          ⊎ ((e : Error) × ((limited_call idle).0 ≡ err e)
              × ((ge : GraphError) → ¬ IsLimited e ge))))
    ⊎ ((e : Error) × (ge : GraphError) × (t : Duration) × ((limited_call idle).0 ≡ err e)
        × IsLimited e ge
        × WaitsFor 60 ge t
        × (((x : Error) × (busy.done (limited_call idle).1.step ≡ some x)
              × ((call wire client busy get_method "u" "" [] idle).0 ≡ err x))
            ⊎ ((busy.done (limited_call idle).1.step ≡ none)
                × (call wire client busy get_method "u" "" [] idle
                    ≡ limited_call (waited t (limited_call idle).1)))))
call-retry_example = call-retry wire client busy get_method "u" "" [] idle

abbrev down : Error
down = Error.no_rows

abbrev decoders : Decoders
decoders = record {
  insight_item = λ r. err down;
  post_item = λ r. err down;
  comment_item = λ r. err down;
  media_item = λ r. err down;
  rating_item = λ r. err down;
  scheduled_item = λ r. err down;
  account_item = λ r. err down;
  number = λ r. none;
  by_type = λ r. none;
  rating_summary = λ b. err down;
  id_body = λ b. ok (record { id = "x"; post_id = "" });
  container_status = λ b. ok (record { status_code = "FINISHED"; status = "" });
  success_body = λ b. ok true;
  token_body = λ b. err down;
  debug_body = λ b. err down;
  meta_user = λ b. err down;
  rfc3339 = λ n. "";
}

abbrev story : IgPublishRequest
story = record {
  media_type = "STORIES";
  image_url = "https://desk.example/a";
  video_url = "";
  children = [];
  caption = "";
}

-- The story is published: its container is made, its status is FINISHED, and it gets an id.
published : (ig_publish wire decoders client two_pages "pa" "ig1" story idle).0 ≡ ok "x"
unfolding ig_publish ◌>>=◌ create_ig_container container_params created or_return post get call
    attempt settled call_once received built endpoint trim_left_char is_success
    wait_for_ig_container poll
published = refl

ig_publish-finished_example :
    (container_id : String) × (m : Net) × (s : ContainerStatus) × ((create_ig_container wire
        decoders client two_pages "pa" "ig1" story idle).0
      ≡ ok container_id)
    × ((asked_status wire decoders client two_pages "pa" container_id m).0 ≡ ok s)
    × (s.status_code ≡ "FINISHED")
    × (ig_publish wire decoders client two_pages "pa" "ig1" story idle
        ≡ publish_container wire decoders client two_pages "pa" "ig1" container_id
            (asked_status wire decoders client two_pages "pa" container_id m).1)
ig_publish-finished_example =
    ig_publish-finished wire decoders client two_pages "pa" "ig1" story idle published

-- Meta refuses the first request with code 100, and the next one with code 190.
abbrev with_code : ℕ → GraphError
with_code code = record {
  http_status = 400;
  code = code;
  subcode = 0;
  kind = "";
  message = "no";
  trace_id = "";
  retry_after = 0;
}

abbrev refusing : NetEnv
refusing = record {
  wire = λ n q.
      answered (record { status = 400; body = if eqb n 0 then [] else n ∷ []; retry_after = "" });
  done = λ n. none;
  now = λ n. 0;
}

abbrev code_wire : Wire
code_wire = record wire {
  error_envelope = λ b. some (record {
    message = "no";
    kind = "";
    code = if eqb (length b) 0 then 100 else 190;
    subcode = 0;
    trace_id = "";
  });
}

refused :
    (insights_with_fallback code_wire decoders client refusing "pa" "p1/insights" []
      ("reach" ∷ [])
      idle).0
    ≡ err (graph (with_code 190))
unfolding insights_with_fallback ◌>>=◌ attempt fall_back insights fetch_page call settled call_once
    received again as_graph_error is_unsupported is_success is_rate_limit graph_error_from enveloped
    one_by_one one_more
refused = refl

insights_with_fallback-error_example : (with_code 190).code ≢ 100
unfolding as_graph_error
insights_with_fallback-error_example =
    insights_with_fallback-error code_wire decoders client refusing "pa" "p1/insights" []
      ("reach" ∷ []) idle refused refl

abbrev listed : Call
listed = Call.post_comments "pa" "p1_1" 50

requests-StaysHome_example :
    All (StaysHome wire client two_pages) (requests wire decoders client two_pages listed)
requests-StaysHome_example = requests-StaysHome wire decoders client two_pages listed

requests-IsGet_example :
    All (IsGet wire decoders client two_pages) (requests wire decoders client two_pages listed)
requests-IsGet_example = requests-IsGet wire decoders client two_pages listed refl

ig_publish-Spends_example :
    Spends
      (2 * length story.children + 64)
      (ig_publish wire decoders client two_pages "pa" "ig1" story)
ig_publish-Spends_example = ig_publish-Spends wire decoders client two_pages "pa" "ig1" story
