-- ===== src/Tests/Serving.antt =====
-- The theorems on the tools, the login and the sweep at concrete inputs.
use meta_mcp.App.Service.{Service, Formats}
use meta_mcp.Exec.{ok, ◌>>=◌, or_return}
use meta_mcp.Prelude.{
  List, arith, trim_space, to_upper, All, ◌↔◌, ◌*◌, length, ◌-◌, Bool, ◌+◌, String, [], some, none,
  true, false, refl, ◌≡◌, ◌≢◌, ◌⊎◌, ◌≤◌, ◌<◌, ◌==◌, if◌then◌else◌,
}
use meta_mcp.World.{World, tick, request, Call, sql, ask}
use meta_mcp.App.Window.{validate_https_url, parse_schedule, date_window, DateRange}
use meta_mcp.App.IgPublish.{build_ig_publish_request, IgPublishInput}
use meta_mcp.Domain.Entities.{Tenant, MetaUser, IgPublishRequest}
use meta_mcp.App.IgPublish.Shapes.{build_ig_publish_request-IsPublishable, IsPublishable}
use meta_mcp.App.Refresh.{
  refresh_expiring_tokens, RefreshReport, window_or_default, recheck_interval,
}
use meta_mcp.App.Refresh.Renewal.{Attempts}
use meta_mcp.App.Tools.{ig_publish_tool, run_write, WriteTool}
use meta_mcp.App.Login.{complete}
use meta_mcp.Tests.Fixtures.{stored, running, parse_test_url, quiet_env, noon}
use meta_mcp.Domain.Time.{second, minute, day, Time}
use meta_mcp.App.Refresh.Counts.{refresh_expiring_tokens-settled}
use meta_mcp.App.Tools.Gate.{run_write-without_confirm}
use meta_mcp.App.Window.Range.{parse_schedule_iff, date_window-ordered}
use meta_mcp.App.Tools.Scope.{run_write-own_calls, IsOwnCall}
use meta_mcp.App.Login.Allowed.{complete-allowed}
use meta_mcp.Store.Tenants.{upsert_tenant, tenants_due_for_token_refresh}
use meta_mcp.Crypto.{encrypt, decrypt}

-- The dates of the tests.
abbrev pub formats : Formats
formats = record {
  parse_rfc3339 = λ s. if s == "soon" then some (noon + day) else none;
  parse_day = λ s. if s == "today" then some noon else none;
  format_rfc3339 = λ t. "";
  parse_url = parse_test_url;
  query_escape = λ s. s;
}

abbrev pub tools : Service
tools = record { public_url = "https://mcp.example"; required_scopes = []; formats = formats }

abbrev photo : IgPublishInput
photo = record {
  page_id = "p1";
  media_type = "image";
  image_url = "https://desk.example/cb";
  video_url = "";
  caption = "";
  children = [];
  confirm = false;
}

abbrev preview : WriteTool
preview = ig_publish_tool photo

abbrev confirmed_photo : WriteTool
confirmed_photo = ig_publish_tool (record photo { confirm = true })

run_write-without_confirm_example : (run_write tools quiet_env "t1" preview running).1.calls ≡ []
run_write-without_confirm_example =
    run_write-without_confirm tools quiet_env "t1" preview running refl

run_write-own_calls_example :
    ((run_write tools quiet_env "t1" confirmed_photo running).1.db ≡ stored)
    × All
        (IsOwnCall quiet_env "t1" stored)
        (run_write tools quiet_env "t1" confirmed_photo running).1.calls
run_write-own_calls_example = run_write-own_calls tools quiet_env "t1" confirmed_photo running refl

abbrev photo_request : IgPublishRequest
photo_request = record {
  media_type = "IMAGE";
  image_url = "https://desk.example/cb";
  video_url = "";
  caption = "";
  children = [];
}

built : build_ig_publish_request formats photo ≡ ok photo_request
unfolding build_ig_publish_request validate_https_url to_upper trim_space
built = refl

build_ig_publish_request-IsPublishable_example : IsPublishable formats photo_request
build_ig_publish_request-IsPublishable_example =
    build_ig_publish_request-IsPublishable formats photo built

-- Only Anna may log in.
abbrev only_anna : String → Bool
only_anna id = id == "u1"

complete-allowed_example :
    ((complete quiet_env only_anna "code" "uri" running).1.db ≡ stored)
    ⊎ ((u : MetaUser) × (c : Call) × (quiet_env.meta.me 2 c ≡ ok u) × (only_anna u.id ≡ true))
complete-allowed_example = complete-allowed quiet_env only_anna "code" "uri" running

abbrev one_renewed : RefreshReport
one_renewed = record { checked = 1; refreshed = 1; expired = [] }

swept_once : (refresh_expiring_tokens quiet_env 0 running).0 ≡ (one_renewed, none)
unfolding refresh_expiring_tokens ask sql ◌>>=◌ or_return tenants_due_for_token_refresh decrypt
    request upsert_tenant encrypt
swept_once = refl

refresh_expiring_tokens-settled_example :
    (ts : List Tenant) × (before : World) × (done : List Tenant) × (tenants_due_for_token_refresh
        quiet_env
        (noon + window_or_default quiet_env 0)
        (noon - recheck_interval)
        (tick running)
      ≡ (ok ts, before))
    × Attempts quiet_env ts before done one_renewed.expired
    × (one_renewed.checked ≡ length ts)
    × (one_renewed.refreshed ≡ length done)
refresh_expiring_tokens-settled_example =
    refresh_expiring_tokens-settled quiet_env 0 running swept_once

abbrev last_month : DateRange
last_month = record { start = noon - 28 * day; end = noon }

windowed : (date_window formats quiet_env "" "" running).0 ≡ ok last_month
unfolding date_window ask ◌>>=◌
windowed = refl

date_window-ordered_example :
    (last_month.start < last_month.end)
    × (◌≡◌ {A = String} "" "" → last_month.end ≡ noon)
    × (◌≢◌ {A = String} "" ""
        → (d : Time) × (formats.parse_day "" ≡ some d) × (last_month.end ≡ d + day - second))
    × (◌≡◌ {A = String} "" "" → last_month.start + 28 * day ≡ last_month.end)
    × (◌≢◌ {A = String} "" "" → formats.parse_day "" ≡ some last_month.start)
date_window-ordered_example =
    date_window-ordered formats quiet_env "" "" running (omega arith) (λ d e. ground arith) windowed

parse_schedule_iff_example : (parse_schedule formats "soon" noon ≡ ok (noon + day)) ↔ (
    (formats.parse_rfc3339 "soon" ≡ some (noon + day))
    × (noon + 10 * minute ≤ noon + day)
    × (noon + day ≤ noon + 180 * day))
parse_schedule_iff_example = parse_schedule_iff formats "soon" noon (noon + day)
