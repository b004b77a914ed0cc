-- ===== src/Meta/Client.antt =====
-- internal/adapters/meta/client.go: one request, the retry, and paging.
pub mod Budget
pub mod Retry
pub mod Paging
use Prim.Native.String
use meta_mcp.Prelude.{
  ℕ, zero, suc, ◌+◌, ◌*◌, ◌%◌, ◌^◌, Bool, true, false, not, ◌&&◌, ◌||◌, String, List, [], ◌∷◌, ◌++◌,
  Option, none, some, ◌==◌, ltb, leb, eqb, length, take, keep, is_some, cut, decimal,
  trim_left_char, trim_right_char, if◌then◌else◌, ℤ, pos, negsuc,
}
use meta_mcp.Crypto.{Bytes}
use meta_mcp.Domain.Time.{Time, Duration, second, is_zero, unix, epoch}
use meta_mcp.Domain.Errors.{Error, GraphError, graph, wrap, as_graph_error, is_rate_limit}
use meta_mcp.Exec.{Result, ok, err, pure, raise, lift, ◌>>=◌, ◌>>◌, attempt}
use meta_mcp.Meta.Wire.{
  Method, get_method, post_method, Params, Sent, Answer, Exchange, unbuilt, unanswered, unread,
  answered, NetEnv, Net, Talk, Raw, ErrorEnvelope, ListBody,
}

infixr 65 ◌^^◌
abbrev pub ◌^^◌ : String → String → String
a ^^ b = String.◌++◌ a b

-- What the standard library reads and computes for the client.
pub record Wire : Type 0 where
  -- the text of these bytes
  pub text : Bytes → String
  pub error_envelope : Bytes → Option ErrorEnvelope
  pub list_body : Bytes → Result Error ListBody
  -- `strconv.Atoi`, and `strconv.FormatInt` of a Unix time
  pub atoi : String → Option ℤ
  pub format_unix : Time → String
  -- the HMAC-SHA256 of a text under a key, in hexadecimal
  pub hmac_hex : String → String → String

pub record Client : Type 0 where
  pub graph_base : String
  pub dialog_base : String
  pub version : String
  pub app_id : String
  pub app_secret : String
  pub redirect_uri : String
  pub scopes : String
  pub retry_delay : Duration

abbrev pub default_retry_delay : Duration
default_retry_delay = 60 * second

abbrev pub max_pages : ℕ
max_pages = 50

abbrev pub max_error_body : ℕ
max_error_body = 300

abbrev pub or_default : String → String → String
or_default v default = if v == "" then default else v

-- `NewClient`, less the HTTP client itself.
unfoldable pub new_client : Client → Client
new_client o = record o {
  graph_base = trim_right_char b'/' (or_default o.graph_base "https://graph.facebook.com");
  dialog_base = trim_right_char b'/' (or_default o.dialog_base "https://www.facebook.com");
  version = or_default o.version "v26.0";
  retry_delay = if eqb o.retry_delay 0 then default_retry_delay else o.retry_delay;
}

-- `params.Set`
unfoldable pub set : String → String → Params → Params
set key value ps = (key, value) ∷ keep (λ p. not (p.0 == key)) ps

-- A product of seconds and nanoseconds wraps at 64 bits; one that comes out negative is used by the
-- caller like 0.
unfoldable pub seconds_int64 : ℕ → Duration
seconds_int64 secs = let d = (secs * second) % 2 ^ 64 in if ltb d (2 ^ 63) then d else 0

unfoldable pub retry_after : Option ℤ → Duration
retry_after (some (pos secs)) = seconds_int64 secs
retry_after _ = 0

module _ (w : Wire) where
  unfoldable pub truncate : Bytes → String
  truncate body =
      if leb (length body) max_error_body
      then w.text body
      else w.text (take max_error_body body) ^^ "…"

  -- The envelope's fields where it has a message, else the start of the body.
  unfoldable pub enveloped : Answer → Option ErrorEnvelope → GraphError
  enveloped a none = record {
    http_status = a.status;
    code = 0;
    subcode = 0;
    kind = "";
    message = truncate a.body;
    trace_id = "";
    retry_after = if a.retry_after == "" then 0 else retry_after (w.atoi a.retry_after);
  }
  enveloped a (some e) = record {
    http_status = a.status;
    code = e.code;
    subcode = e.subcode;
    kind = e.kind;
    message = e.message;
    trace_id = e.trace_id;
    retry_after = if a.retry_after == "" then 0 else retry_after (w.atoi a.retry_after);
  }

  abbrev pub with_message : Option ErrorEnvelope → Option ErrorEnvelope
  with_message none = none
  with_message (some e) = if e.message == "" then none else some e

  unfoldable pub graph_error_from : Answer → GraphError
  graph_error_from a = enveloped a (with_message (w.error_envelope a.body))

  -- `unixParams`
  unfoldable pub unix_params : Params → Time → Time → Params
  unix_params ps since until =
      let with_since = if is_zero since then ps else set "since" (w.format_unix since) ps in
      if is_zero until then with_since else set "until" (w.format_unix until) with_since

module _ (w : Wire) (c : Client) (env : NetEnv) where
  unfoldable pub endpoint : String → String
  endpoint path = c.graph_base ^^ "/" ^^ c.version ^^ "/" ^^ trim_left_char b'/' path

  unfoldable pub credentials : String → Params → Params
  credentials token ps =
      if token == ""
      then ps
      else if c.app_secret == ""
      then set "access_token" token ps
      else set "appsecret_proof" (w.hmac_hex c.app_secret token) (set "access_token" token ps)

  unfoldable pub built : Method → String → String → Params → Sent
  built get_method url token ps = record {
    method = get_method;
    url = url;
    sep = if is_some (cut url b'?') then "&" else "?";
    params = credentials token ps;
  }
  built post_method url token ps = record {
    method = post_method;
    url = url;
    sep = "";
    params = credentials token ps;
  }

  unfoldable pub is_success : ℕ → Bool
  is_success status = leb 200 status && ltb status 300

  -- What comes of the exchange, and the requests that were sent.
  unfoldable pub received : Sent → Exchange → Net → Result Error Bytes × Net
  received q (unbuilt e) n =
      (err (wrap "construction de la requête Meta" e), record n { step = suc n.step })
  received q (unanswered e) n =
      (err (wrap "appel de l'API Meta" e), record n { sent = q ∷ n.sent; step = suc n.step })
  received q (unread e) n =
      (err (wrap "lecture de la réponse Meta" e), record n { sent = q ∷ n.sent; step = suc n.step })
  received q (answered a) n = (
    if is_success a.status then ok a.body else err (graph (graph_error_from w a)),
    record n { sent = q ∷ n.sent; step = suc n.step },
  )

  unfoldable pub call_once : Method → String → String → Params → Talk Bytes
  call_once m url token ps n =
      received (built m url token ps) (env.wire n.step (built m url token ps)) n

  -- `select` on the context and the timer
  unfoldable pub wait : Duration → Talk (Unit {0})
  wait d n = elim (env.done n.step) [
    | some e ↦ (err e, record n { step = suc n.step })
    | none ↦ (ok tt, record n { waits = d ∷ n.waits; step = suc n.step })
  ]

  abbrev pub delay_of : GraphError → Duration
  delay_of e = if eqb e.retry_after 0 then c.retry_delay else e.retry_after

  -- After a first failure: a single retry, for a rate limit only.
  unfoldable pub again : Method → String → String → Params → Error → Option GraphError → Talk Bytes
  again m url token ps e none = raise e
  again m url token ps e (some ge) =
      if is_rate_limit ge then (do wait (delay_of ge); call_once m url token ps) else raise e

  unfoldable pub settled : Method → String → String → Params → Result Error Bytes → Talk Bytes
  settled m url token ps (ok body) = pure body
  settled m url token ps (err e) = again m url token ps e (as_graph_error e)

  unfoldable pub call : Method → String → String → Params → Talk Bytes
  call m url token ps = do first ← attempt (call_once m url token ps); settled m url token ps first

  abbrev pub decoding : {A : Type 0} → String → Result Error A → Talk A
  decoding what (ok a) = pure a
  decoding what (err e) = raise (wrap what e)

  -- `get` and `post`, with the decoding of the type that the caller passes
  unfoldable pub get : {A : Type 0} → String → String → Params → (Bytes → Result Error A) → Talk A
  get token path ps decode = do
    body ← call get_method (endpoint path) token ps
    decoding "décodage de la réponse Meta" (decode body)

  unfoldable pub post : {A : Type 0} → String → String → Params → (Bytes → Result Error A) → Talk A
  post token path ps decode = do
    body ← call post_method (endpoint path) token ps
    decoding "décodage de la réponse Meta" (decode body)

  unfoldable pub fetch_page : String → String → Params → Talk (List Raw)
  fetch_page token path ps = do
    body ← call get_method (endpoint path) token ps
    page ← decoding "décodage de la réponse" (w.list_body body)
    pure page.items

  -- The loop from page `page` on, with `rounds` rounds left. `limit` 0 is no limit.
  unfoldable pub collect_from : ℕ → ℕ → ℕ → List Raw → Bytes → Talk (List Raw)
  collect_from limit zero page items body = pure items
  collect_from limit (suc rounds) page items body = do
    read ← decoding ("décodage de la page " ^^ decimal page) (w.list_body body)
    let more = items ++ read.items
    if ltb 0 limit && leb limit (length more)
        then pure (take limit more)
        else if read.next == ""
        then pure more
        else do
          next_body ← call get_method read.next "" []
          collect_from limit rounds (page + 1) more next_body

  unfoldable pub collect : String → String → Params → ℕ → Talk (List Raw)
  collect token path ps limit = do
    body ← call get_method (endpoint path) token ps
    collect_from limit max_pages 0 [] body
