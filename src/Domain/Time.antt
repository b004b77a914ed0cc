-- ===== src/Domain/Time.antt =====
-- Go's `time.Time` in UTC, as nanoseconds since the start of the year -1, two years before the zero
-- time: `time.Parse` reads years from 0 on, and the window of 28 days before such a day is a time too.
-- Seconds of an INTEGER column are Unix seconds. They are held shifted by `epoch`, so that a time
-- before 1970 stays a natural number; the number 0 of a column is `epoch`.
use meta_mcp.Prelude.{ℕ, ◌+◌, ◌*◌, ◌/◌, Bool, eqb}

abbrev pub Time : Type 0
Time = ℕ

abbrev pub Duration : Type 0
Duration = ℕ

abbrev pub second : Duration
second = 1_000_000_000

abbrev pub minute : Duration
minute = 60 * second

abbrev pub hour : Duration
hour = 60 * minute

abbrev pub day : Duration
day = 24 * hour

-- `time.Time{}`, the start of year 1: 365 days of the year -1 and 366 of the year 0.
abbrev pub zero_time : Time
zero_time = 731 * day

-- 1970-01-01T00:00:00Z in seconds: 62_135_596_800 after year 1.
abbrev pub epoch : ℕ
epoch = 62_135_596_800 + 731 * 86_400

abbrev pub is_zero : Time → Bool
is_zero t = eqb t zero_time

-- `t.Unix()`
abbrev pub unix : Time → ℕ
unix t = t / second

-- `time.Unix(sec, 0).UTC()`
abbrev pub of_unix : ℕ → Time
of_unix sec = sec * second
