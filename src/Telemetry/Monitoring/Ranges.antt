-- ===== src/Telemetry/Monitoring/Ranges.antt =====
-- internal/telemetry/monitoring.go: the window and the buckets of a range. The calendar is the one of Go's time library.
use pogu.Prelude.{ℕ, ◌+◌, Text, codes}

pub data Range : Type 0 where
  daily monthly yearly : Range

-- Of the server's location: the year, month and day of a time, its hour, the time at an hour of a date, and AddDate by
-- years, months and days, on and back.
pub record Calendar : Type 0 where
  pub date : ℕ → ℕ × ℕ × ℕ
  pub hour : ℕ → ℕ
  pub time_at : ℕ → ℕ → ℕ → ℕ → ℕ
  pub add_date : ℕ → ℕ → ℕ → ℕ → ℕ
  pub sub_date : ℕ → ℕ → ℕ → ℕ → ℕ

abbrev pub one_hour : ℕ
one_hour = 3600000000000

pub record Window : Type 0 where
  pub start : ℕ
  pub end_ : ℕ
  pub prev_start : ℕ

module _ (c : Calendar) where
  unfoldable pub window : Range → ℕ → Window
  window yearly now =
      let (y, _, _) = c.date now in
      let start = c.time_at y 1 1 0 in
      record { start = start; end_ = now; prev_start = c.sub_date 1 0 0 start }
  window monthly now =
      let (y, m, _) = c.date now in
      let start = c.time_at y m 1 0 in
      record { start = start; end_ = now; prev_start = c.sub_date 0 1 0 start }
  window daily now =
      let (y, m, d) = c.date now in
      let start = c.time_at y m d 0 in
      record { start = start; end_ = now; prev_start = c.sub_date 0 0 1 start }

  unfoldable pub bucketize : Range → ℕ → ℕ
  bucketize yearly t = let (y, m, _) = c.date t in c.time_at y m 1 0
  bucketize monthly t = let (y, m, d) = c.date t in c.time_at y m d 0
  bucketize daily t = let (y, m, d) = c.date t in c.time_at y m d (c.hour t)

  unfoldable pub next_bucket : ℕ → Range → ℕ
  next_bucket t yearly = c.add_date 0 1 0 t
  next_bucket t monthly = c.add_date 0 0 1 t
  next_bucket t daily = t + one_hour

abbrev pub interval : Range → Text
interval yearly = codes "month"
interval monthly = codes "day"
interval daily = codes "hour"
