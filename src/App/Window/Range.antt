-- ===== src/App/Window/Range.antt =====
-- The bounds of the reporting window and of a schedule.
use meta_mcp.App.Window.{DateRange, parse_day}
use meta_mcp.Prelude.{
  ◌≡◌, ◌<◌, ◌≤◌, ◌↔◌, ◌≢◌, ◌+◌, ◌-◌, ◌*◌, String, some, Option-cases, inl, inr, arith, eq_iff,
}
use meta_mcp.App.Window.{window_start, window_end, parse_schedule, date_window}
use meta_mcp.App.Service.{Formats}
use meta_mcp.Domain.Time.{second, minute, day, Time}
use meta_mcp.Exec.{◌>>=◌, ok}
use meta_mcp.World.{World, Env, ask}

-- Where the present and the day of `until` are at least 28 days after the first time of the model, a
-- reporting window that is returned begins before it ends. Its end is the present where `until` is
-- absent, and else the last second of that day; 28 days after its start is its end where `since` is
-- absent, and else its start is the start of that day.
pub date_window-ordered :
    (f : Formats) (env : Env) (since until : String) (w : World) {r : DateRange}
    → 28 * day ≤ env.now w.step
    → ((d : Time) → f.parse_day until ≡ some d → 28 * day ≤ d)
    → (date_window f env since until w).0 ≡ ok r
    → (r.start < r.end)
      × (until ≡ "" → r.end ≡ env.now w.step)
      × (until ≢ "" → (d : Time) × (f.parse_day until ≡ some d) × (r.end ≡ d + day - second))
      × (since ≡ "" → r.start + 28 * day ≡ r.end)
      × (since ≢ "" → f.parse_day since ≡ some r.start)
unfolding date_window window_end window_start parse_day ask ◌>>=◌
date_window-ordered f env since until w {r} now_late day_late h = (
  ground arith,
  λ e. ground (arith, eq_iff until ""),
  λ ne. elim (Option-cases (f.parse_day until)) [
    | inl bad ↦ absurd (ground (arith, eq_iff until ""))
    | inr (d, good) ↦ (d, good, ground (arith, eq_iff until ""))
  ],
  λ e. elim (Option-cases (f.parse_day until)) [
    | inl bad ↦ ground (arith, eq_iff since "")
    | inr (d, good) ↦ let late = day_late d good in ground (arith, eq_iff since "")
  ],
  λ ne. ground (arith, eq_iff since ""),
)

-- A schedule is accepted exactly where it is a date in RFC 3339 from ten minutes to 180 days ahead.
pub parse_schedule_iff :
    (f : Formats) (value : String) (now t : Time)
    → (parse_schedule f value now ≡ ok t)
      ↔ ((f.parse_rfc3339 value ≡ some t) × (now + 10 * minute ≤ t) × (t ≤ now + 180 * day))
unfolding parse_schedule
parse_schedule_iff f value now t = ground arith
