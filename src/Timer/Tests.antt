-- ===== src/Timer/Tests.antt =====
-- Runs and instances of the theorems on cron expressions.
use Prim.Native.Char.{code}
use Prim.Native.String.{String}
use czx.Base.{ℕ, List, [], ◌∷◌, ◌≡◌, refl, ok, arith}
use czx.Timer.Text.{fields, split, atoi}
use czx.Timer.Word.{shl, complement, has_bit}
use czx.Timer.Clock.{
  Time, days_in, weekday, add_second, add_month, month_start, day_start, hour_start, minute_start,
}
use czx.Timer.Cron.Field.{IsCalm, wanted, parse_cron_field-wanted}
use czx.Timer.Next.Found.{Answers, next-Answers}
use czx.Timer.Clock.Order.{IsTime}
use czx.Timer.Next.{next, found, zero_time}
use czx.Timer.Cron.{add_steps, parse_term, parse_cron_field, new_cron_expr, CronExpr}

-- The codes of a text's characters.
abbrev codes : String → List ℕ
codes String.[] = []
codes (String.◌∷◌ c s) = code c ∷ codes s

thirds : parse_cron_field (codes "*/20,5-7,59") 0 59 ≡ ok 576461851816100065
unfolding parse_cron_field split atoi add_steps shl complement
thirds = refl

wraps : parse_cron_field (codes "5/9223372036854775807") 0 59 ≡ ok 42
unfolding parse_cron_field split atoi add_steps shl complement
wraps = refl

abbrev at_time : ℕ → ℕ → ℕ → ℕ → ℕ → ℕ → Time
at_time y mo d h mi s = record { year = y; month = mo; day = d; hour = h; minute = mi; second = s }

-- "0 15 10 * * 1-5"
abbrev weekdays : CronExpr
weekdays = record { sec = 1; min = 32768; hour = 1024; dom = 4294967294; month = 8190; dow = 62 }

weekdays_read : new_cron_expr (codes "15 10 * * 1-5") ≡ ok weekdays
unfolding new_cron_expr fields split atoi add_steps shl complement
weekdays_read = refl

-- From a Friday to the Monday of the next month.
after_friday : next weekdays (at_time 2025 1 31 10 15 0) ≡ found (at_time 2025 2 3 10 15 0)
unfolding next add_second add_month month_start day_start hour_start minute_start weekday has_bit
    shl
after_friday = refl

-- A leap day is further away than the end of the next year.
abbrev leap_days : CronExpr
leap_days = record { sec = 1; min = 1; hour = 1; dom = 536870912; month = 4; dow = 127 }

no_leap_day : next leap_days (at_time 2025 1 1 0 0 0) ≡ zero_time
unfolding next add_second add_month month_start day_start hour_start minute_start weekday has_bit
    shl
no_leap_day = refl

friday : IsTime (at_time 2025 1 31 10 15 0)
unfolding days_in
friday = record {
  year_pos = omega arith;
  month_pos = omega arith;
  month_le = omega arith;
  day_pos = omega arith;
  day_le = omega arith;
  hour_lt = omega arith;
  minute_lt = omega arith;
  second_lt = omega arith;
}

next-Answers_example :
    Answers weekdays (at_time 2025 1 31 10 15 0) (next weekdays (at_time 2025 1 31 10 15 0))
next-Answers_example = next-Answers weekdays (at_time 2025 1 31 10 15 0) friday

thirds-IsCalm : IsCalm (split b',' (codes "*/20,5-7,59")) 0 59
unfolding split parse_term atoi
thirds-IsCalm = (omega arith, (omega arith, (omega arith, tt)))

parse_cron_field-wanted_example :
    has_bit 576461851816100065 40 ≡ wanted (split b',' (codes "*/20,5-7,59")) 0 59 40
parse_cron_field-wanted_example =
    parse_cron_field-wanted (codes "*/20,5-7,59") 0 59 576461851816100065 40 (omega arith)
      (omega arith) thirds-IsCalm thirds
