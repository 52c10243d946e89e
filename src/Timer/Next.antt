-- ===== src/Timer/Next.antt =====
-- cronexpr.go: matchDay and Next. A step is one test of a loop of Next, with what follows it; the
-- phase is the loop. `zero_time` is the zero time.Time, and `stuck` stands for fuel that ran out.
pub mod Invariant
pub mod Lowered
pub mod Agree
pub mod Advance
pub mod Found
use czx.Base.{ℕ, zero, suc, ◌+◌, ◌-◌, ◌*◌, Bool, true, false, ◌&&◌, ◌||◌, ltb, ◌==◌, if◌then◌else◌}
use czx.Timer.Word.{has_bit}
use czx.Timer.Cron.{CronExpr}
use czx.Timer.Clock.{
  Time, weekday, add_month, add_day, add_hour, add_minute, add_second, month_start, day_start,
  hour_start, minute_start,
}

-- `e.dom == 0xfffffffe` and `e.dow == 0x7f`: every bit that the field can have.
unfoldable pub match_day : CronExpr → Time → Bool
match_day e t =
    if e.dom == 4294967294
    then has_bit e.dow (weekday t)
    else if e.dow == 127
    then has_bit e.dom t.day
    else has_bit e.dow (weekday t) || has_bit e.dom t.day

pub data Phase : Type 0 where
  at_year at_month at_day at_hour at_minute at_second : Phase

pub record Search : Type 0 where
  pub phase : Phase
  pub init : Bool
  pub t : Time

pub data Answer : Type 0 where
  found : Time → Answer
  zero_time : Answer
  stuck : Answer

-- What a step does: it goes on or it returns.
pub data Move : Type 0 where
  goes : Search → Move
  returns : Answer → Move

abbrev search : Phase → Bool → Time → Search
search p b t = record { phase = p; init = b; t = t }

-- Behind an advance: to `retry`, or to the loop's test.
abbrev pub again : Bool → Phase → Time → Move
again wrapped p t = if wrapped then goes (search at_year true t) else goes (search p true t)

-- The bodies of the loops. Before the first advance the smaller units are set to their starts.
unfoldable pub advance_month : Search → Move
advance_month s =
    let t = add_month (if s.init then s.t else month_start s.t) in again (t.month == 1) at_month t

unfoldable pub advance_day : Search → Move
advance_day s =
    let t = add_day (if s.init then s.t else day_start s.t) in again (t.day == 1) at_day t

unfoldable pub advance_hour : Search → Move
advance_hour s =
    let t = add_hour (if s.init then s.t else hour_start s.t) in again (t.hour == 0) at_hour t

unfoldable pub advance_minute : Search → Move
advance_minute s =
    let t = add_minute (if s.init then s.t else minute_start s.t) in
    again (t.minute == 0) at_minute t

unfoldable pub advance_second : Search → Move
advance_second s = let t = add_second s.t in again (t.second == 0) at_second t

-- On to the next loop.
abbrev on : Search → Phase → Move
on s p = goes (record s { phase = p })

-- The loop's test: on to the next loop, or its body.
abbrev pub test : Bool → Move → Move → Move
test met next body = if met then next else body

unfoldable pub step : CronExpr → ℕ → Search → Move
unfolding match_day advance_month advance_day advance_hour advance_minute advance_second
step e year s = elim s.phase [
  | at_year ↦ if ltb (year + 1) s.t.year then returns zero_time else on s at_month
  | at_month ↦ test (has_bit e.month s.t.month) (on s at_day) (advance_month s)
  | at_day ↦ test (match_day e s.t) (on s at_hour) (advance_day s)
  | at_hour ↦ test (has_bit e.hour s.t.hour) (on s at_minute) (advance_hour s)
  | at_minute ↦ test (has_bit e.min s.t.minute) (on s at_second) (advance_minute s)
  | at_second ↦ test (has_bit e.sec s.t.second) (returns (found s.t)) (advance_second s)
]

unfoldable pub run : ℕ → CronExpr → ℕ → Search → Answer
unfolding step
run zero e year s = stuck
run (suc fuel) e year s = elim (step e year s) [ goes s' ↦ run fuel e year s' | returns a ↦ a ]

-- More steps than there are phases and times up to the end of the year after the next.
unfoldable pub steps_for : ℕ → ℕ
steps_for year = (year + 4) * 232243200 + 7

unfoldable pub next : CronExpr → Time → Answer
unfolding run steps_for
next e now =
    let t = add_second now in
    run (steps_for t.year) e t.year (record { phase = at_year; init = false; t = t })
