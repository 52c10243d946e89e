-- ===== src/Timer/Clock.antt =====
-- What cronexpr.go uses of time.Time: an instant to the second, by its calendar date and clock
-- time in a location without changes of its offset, a whole number of hours from UTC, so that
-- Truncate(time.Hour) sets the minute and the second to 0. Years start at 1.
pub mod Order
pub mod Units
use czx.Base.{
  ℕ, zero, suc, ◌+◌, ◌-◌, ◌*◌, ◌/◌, ◌%◌, ◌≤◌, ◌<◌, Bool, true, false, not, ◌&&◌, ◌||◌, ltb, leb,
  ◌==◌, if◌then◌else◌,
}

pub record Time : Type 0 where
  pub year : ℕ
  pub month : ℕ
  pub day : ℕ
  pub hour : ℕ
  pub minute : ℕ
  pub second : ℕ

unfoldable pub is_leap : ℕ → Bool
is_leap y = (y % 4 == 0) && (not (y % 100 == 0) || y % 400 == 0)

-- The days of a month.
unfoldable pub days_in : ℕ → ℕ → ℕ
unfolding is_leap
days_in y m =
    if m == 2
    then (if is_leap y then 29 else 28)
    else if (m == 4) || (m == 6) || (m == 9) || (m == 11)
    then 30
    else 31

unfoldable pub days_before : ℕ → ℕ → ℕ
unfolding days_in
days_before y zero = 0
days_before y (suc zero) = 0
days_before y (suc (suc m)) = days_before y (suc m) + days_in y (suc m)

-- `t.Weekday()`, 0 for Sunday. The first day of year 1 was a Monday.
unfoldable pub weekday : Time → ℕ
unfolding days_before
weekday t =
    let p = t.year - 1 in
    (p * 365 + p / 4 - p / 100 + p / 400 + days_before t.year t.month + t.day) % 7

abbrev next_month : Time → Time
next_month t =
    if t.month == 12
    then record t { year = t.year + 1; month = 1 }
    else record t { month = t.month + 1 }

-- A day past the end of the month is one of the next.
abbrev normal_date : Time → Time
normal_date t =
    let over = t.day - days_in t.year t.month in
    if leb t.day (days_in t.year t.month) then t else record (next_month t) { day = over }

-- `t.AddDate(0, 1, 0)`
unfoldable pub add_month : Time → Time
unfolding days_in
add_month t = normal_date (next_month t)

-- `t.AddDate(0, 0, 1)`
unfoldable pub add_day : Time → Time
unfolding days_in
add_day t = normal_date (record t { day = t.day + 1 })

-- `t.Add(time.Hour)`
unfoldable pub add_hour : Time → Time
unfolding add_day
add_hour t =
    if ltb (t.hour + 1) 24 then record t { hour = t.hour + 1 } else add_day (record t { hour = 0 })

-- `t.Add(time.Minute)`
unfoldable pub add_minute : Time → Time
unfolding add_hour
add_minute t =
    if ltb (t.minute + 1) 60
    then record t { minute = t.minute + 1 }
    else add_hour (record t { minute = 0 })

-- `t.Add(time.Second)`
unfoldable pub add_second : Time → Time
unfolding add_minute
add_second t =
    if ltb (t.second + 1) 60
    then record t { second = t.second + 1 }
    else add_minute (record t { second = 0 })

-- `time.Date(t.Year(), t.Month(), 1, 0, 0, 0, 0, t.Location())`
unfoldable pub month_start : Time → Time
month_start t = record t { day = 1; hour = 0; minute = 0; second = 0 }

-- `time.Date(t.Year(), t.Month(), t.Day(), 0, 0, 0, 0, t.Location())`
unfoldable pub day_start : Time → Time
day_start t = record t { hour = 0; minute = 0; second = 0 }

-- `t.Truncate(time.Hour)`
unfoldable pub hour_start : Time → Time
hour_start t = record t { minute = 0; second = 0 }

-- `t.Truncate(time.Minute)`
unfoldable pub minute_start : Time → Time
minute_start t = record t { second = 0 }
