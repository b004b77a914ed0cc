-- ===== src/App/Window.antt =====
-- internal/app/service.go and page_publish_post.go: dates, the reporting window, the schedule, and the
-- URLs that a caller passes on to Meta.
pub mod Range
use Prim.Native.String
use meta_mcp.Prelude.{
  ◌/◌, ℕ, ◌+◌, ◌-◌, ◌*◌, Bool, true, false, not, String, Option, none, some, ◌==◌, ltb, decimal,
  if◌then◌else◌,
}
use meta_mcp.Domain.Time.{Time, Duration, zero_time, second, minute, day}
use meta_mcp.Domain.Errors.{Error, text}
use meta_mcp.Exec.{Result, ok, err, pure, raise, lift, stop_if, ◌>>=◌, ◌>>◌}
use meta_mcp.World.{Env, Action, ask, reading}
use meta_mcp.App.Service.{Formats}

abbrev pub default_window_days : ℕ
default_window_days = 28

unfoldable pub parse_day : Formats → String → String → Result Error Time
parse_day f value name = elim (f.parse_day value) [
  | none ↦ err (text (String.◌++◌ name " doit être au format AAAA-MM-JJ"))
  | some d ↦ ok d
]

-- The zero time for an absent bound.
unfoldable pub optional_day : Formats → String → String → Result Error Time
unfolding parse_day
optional_day f value name = if value == "" then ok zero_time else parse_day f value name

-- The last second of the day, or `now`.
unfoldable pub window_end : Formats → Time → String → Result Error Time
unfolding parse_day
window_end f now until =
    if until == ""
    then ok now
    else elim (parse_day f until "until") [ err e ↦ err e | ok d ↦ ok (d + day - second) ]

-- `end.AddDate(0, 0, -defaultWindowDays)`: `end` is the present or a day that was parsed, which is of
-- year 0 at the earliest, so the subtraction does not stop at 0.
unfoldable pub window_start : Formats → Time → String → Result Error Time
unfolding parse_day
window_start f end since =
    if since == "" then ok (end - default_window_days * day) else parse_day f since "since"

pub record DateRange : Type 0 where
  pub start : Time
  pub end : Time

module _ (f : Formats) (env : Env) where
  unfoldable pub date_window : String → String → Action Error DateRange
  unfolding window_end window_start
  date_window since until = do
    now ← ask (reading env.now)
    end ← lift (window_end f now until)
    start ← lift (window_start f end since)
    stop_if (not (ltb start end)) (text "since doit être antérieur à until")
    pure (record { start = start; end = end })

abbrev pub min_schedule : Duration
min_schedule = 10 * minute

abbrev pub max_schedule : Duration
max_schedule = 180 * day

-- `when.Sub(now) < min` is `when < now + min`, also where the difference is negative.
unfoldable pub parse_schedule : Formats → String → Time → Result Error Time
parse_schedule f value now = elim (f.parse_rfc3339 value) [
  | none ↦ err (text "scheduled_at doit être une date ISO 8601, par exemple 2026-09-10T09:00:00Z")
  | some when ↦
      if ltb when (now + min_schedule)
      then err (
          text (
            String.◌++◌ "scheduled_at doit être au moins "
              (String.◌++◌ (decimal (min_schedule / minute)) " minutes dans le futur")))
      else if ltb (now + max_schedule) when
      then err (text "scheduled_at ne peut pas dépasser six mois")
      else ok when
]

-- `none` where the URL is accepted.
unfoldable pub validate_https_url : Formats → String → String → Option Error
validate_https_url f raw field = elim (f.parse_url raw) [
  | none ↦ some (text (String.◌++◌ field " n'est pas une URL valide"))
  | some u ↦
      if u.host == ""
      then some (text (String.◌++◌ field " n'est pas une URL valide"))
      else if not (u.scheme == "https")
      then some (text (String.◌++◌ field " doit être une URL https"))
      else none
]

abbrev pub or_refuse : {A : Type 0} → Option Error → Result Error A → Result Error A
or_refuse (some e) r = err e
or_refuse none r = r
