-- ===== src/Timer/Next/Agree.antt =====
-- What the tests of Next say of two times that agree down to a unit, and the starts of units.
use czx.Base.{◌≡◌, refl, sym, ap, Bool, true, false, arith, if◌then◌else◌}
use czx.Timer.Word.{has_bit}
use czx.Timer.Cron.{CronExpr}
use czx.Timer.Clock.{Time, month_start, day_start, hour_start, minute_start}
use czx.Timer.Clock.Order.{IsTime, bounds, month_rank, day_rank, hour_rank, minute_rank, rank}
use czx.Timer.Clock.Units.{IsMonthStart, IsDayStart, IsHourStart, IsMinuteStart, same_month}
use czx.Timer.Next.{match_day}
use czx.Timer.Next.Lowered.{match_day-date}

-- A time whose smaller units are at their start is that start.
pub month_start_self : (t : Time) → IsMonthStart t → month_start t ≡ t
unfolding month_start
month_start_self t s = cc (s.0, s.1, s.2, s.3)

pub day_start_self : (t : Time) → IsDayStart t → day_start t ≡ t
unfolding day_start
day_start_self t s = cc (s.0, s.1, s.2)

pub hour_start_self : (t : Time) → IsHourStart t → hour_start t ≡ t
unfolding hour_start
hour_start_self t s = cc (s.0, s.1)

pub minute_start_self : (t : Time) → IsMinuteStart t → minute_start t ≡ t
unfolding minute_start
minute_start_self t s = cc s

pub from_start :
    (b : Bool) (t start : Time) → (b ≡ true → start ≡ t) → (if b then t else start) ≡ start
from_start true t start h = sym (h refl)
from_start false t start h = refl

-- The fields of times that agree up to a unit.
same_day :
    (t u : Time)
    → IsTime t
    → IsTime u
    → day_rank u ≡ day_rank t
    → (u.year ≡ t.year) × (u.month ≡ t.month) × (u.day ≡ t.day)
same_day t u v w e = (
  omega (arith, bounds v, bounds w),
  omega (arith, bounds v, bounds w),
  omega (arith, bounds v, bounds w),
)

same_hour :
    (t u : Time)
    → IsTime t
    → IsTime u
    → hour_rank u ≡ hour_rank t
    → (day_rank u ≡ day_rank t) × (u.hour ≡ t.hour)
same_hour t u v w e = (omega (arith, bounds v, bounds w), omega (arith, bounds v, bounds w))

same_minute :
    (t u : Time)
    → IsTime t
    → IsTime u
    → minute_rank u ≡ minute_rank t
    → (hour_rank u ≡ hour_rank t) × (u.minute ≡ t.minute)
same_minute t u v w e = (omega (arith, bounds v, bounds w), omega (arith, bounds v, bounds w))

same_second :
    (t u : Time)
    → IsTime t
    → IsTime u
    → rank u ≡ rank t
    → (minute_rank u ≡ minute_rank t) × (u.second ≡ t.second)
same_second t u v w e = (omega (arith, bounds v, bounds w), omega (arith, bounds v, bounds w))

-- What has been met depends on the units above only.
pub month_met :
    (e : CronExpr) (t u : Time)
    → IsTime t
    → IsTime u
    → month_rank u ≡ month_rank t
    → has_bit e.month u.month ≡ has_bit e.month t.month
month_met e t u v w same = ap (has_bit e.month) (same_month t u v w same).1

pub day_met :
    (e : CronExpr) (t u : Time)
    → IsTime t
    → IsTime u
    → day_rank u ≡ day_rank t
    → (u.year ≡ t.year)
      × (has_bit e.month u.month ≡ has_bit e.month t.month)
      × (match_day e u ≡ match_day e t)
day_met e t u v w same =
    let s = same_day t u v w same in
    (s.0, ap (has_bit e.month) s.1, match_day-date e t u s.0 s.1 s.2)

pub hour_met :
    (e : CronExpr) (t u : Time)
    → IsTime t
    → IsTime u
    → hour_rank u ≡ hour_rank t
    → (u.year ≡ t.year)
      × (has_bit e.month u.month ≡ has_bit e.month t.month)
      × (match_day e u ≡ match_day e t)
      × (has_bit e.hour u.hour ≡ has_bit e.hour t.hour)
hour_met e t u v w same =
    let s = same_hour t u v w same in
    let d = day_met e t u v w s.0 in (d.0, d.1, d.2, ap (has_bit e.hour) s.1)

pub minute_met :
    (e : CronExpr) (t u : Time)
    → IsTime t
    → IsTime u
    → minute_rank u ≡ minute_rank t
    → (u.year ≡ t.year)
      × (has_bit e.month u.month ≡ has_bit e.month t.month)
      × (match_day e u ≡ match_day e t)
      × (has_bit e.hour u.hour ≡ has_bit e.hour t.hour)
      × (has_bit e.min u.minute ≡ has_bit e.min t.minute)
minute_met e t u v w same =
    let s = same_minute t u v w same in
    let h = hour_met e t u v w s.0 in (h.0, h.1, h.2, h.3, ap (has_bit e.min) s.1)

pub second_met :
    (e : CronExpr) (t u : Time)
    → IsTime t
    → IsTime u
    → rank u ≡ rank t
    → has_bit e.sec u.second ≡ has_bit e.sec t.second
second_met e t u v w same = ap (has_bit e.sec) (same_second t u v w same).1
