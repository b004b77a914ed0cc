-- ===== src/Domain/Errors.antt =====
-- internal/domain/errors.go: the sentinel errors, the Graph API error and how a client sees it.
use meta_mcp.Prelude.{
  ℕ, Bool, true, false, ◌||◌, Option, none, some, String, eqb, decimal, if◌then◌else◌,
}
use Prim.Native.String

-- Meta's codes are natural numbers. `RetryAfter` is in nanoseconds.
pub record GraphError : Type 0 where
  pub http_status : ℕ
  pub code : ℕ
  pub subcode : ℕ
  pub kind : String
  pub message : String
  pub trace_id : String
  pub retry_after : ℕ

-- A Go error value: a sentinel, a Graph error, a text (`errors.New`), or a text that wraps another
-- error (`fmt.Errorf` with `%w`). `no_rows` is `sql.ErrNoRows`, `driver` an error of the database.
pub data Error : Type 0 where
  not_found unknown_page no_instagram reauthorize forbidden_user no_rows : Error
  graph : GraphError → Error
  text : String → Error
  driver : String → Error
  wrap : String → Error → Error

-- `errors.Is(err, domain.ErrNotFound)`
unfoldable pub is_not_found : Error → Bool
is_not_found not_found = true
is_not_found (wrap _ e) = is_not_found e
is_not_found _ = false

-- `errors.Is(err, sql.ErrNoRows)`
unfoldable pub is_no_rows : Error → Bool
is_no_rows no_rows = true
is_no_rows (wrap _ e) = is_no_rows e
is_no_rows _ = false

-- `errors.Is(err, domain.ErrReauthorize)`
unfoldable pub is_reauthorize : Error → Bool
is_reauthorize reauthorize = true
is_reauthorize (wrap _ e) = is_reauthorize e
is_reauthorize _ = false

-- `errors.Is(err, domain.ErrForbiddenUser)`
unfoldable pub is_forbidden_user : Error → Bool
is_forbidden_user forbidden_user = true
is_forbidden_user (wrap _ e) = is_forbidden_user e
is_forbidden_user _ = false

-- `AsGraphError`
unfoldable pub as_graph_error : Error → Option GraphError
as_graph_error (graph e) = some e
as_graph_error (wrap _ e) = as_graph_error e
as_graph_error _ = none

unfoldable pub is_auth : GraphError → Bool
is_auth e =
    if eqb e.code 190 || eqb e.code 102 || eqb e.code 10 || eqb e.code 200
    then true
    else eqb e.http_status 401

unfoldable pub is_rate_limit : GraphError → Bool
is_rate_limit e =
    if eqb e.code 4 || eqb e.code 17 || eqb e.code 32 || eqb e.code 613
    then true
    else eqb e.http_status 429

abbrev pub reauthorize_text : String
reauthorize_text = "autorisation expirée, utilisez reconnect_url"

abbrev pub quota_text : String
quota_text = "quota Meta atteint, réessayez dans quelques minutes"

abbrev pub meta_text : GraphError → String
meta_text e =
    String.◌++◌ "erreur Meta (code " (String.◌++◌ (decimal e.code) (String.◌++◌ ") : " e.message))

unfoldable pub user_message : GraphError → String
unfolding is_auth is_rate_limit
user_message e =
    if is_auth e then reauthorize_text else if is_rate_limit e then quota_text else meta_text e
