-- ===== src/Timer/Next/Advance.antt =====
-- The bodies of the loops of Next keep what holds at the tests.
use mathlib.Core.Path.{subst}
use czx.Base.{ℕ, ◌+◌, ◌≤◌, ◌≡◌, sym, ap, ◌∙◌, Bool, true, false, arith, ◌==◌}
use czx.Timer.Word.{has_bit}
use czx.Timer.Cron.{CronExpr}
use czx.Timer.Clock.{
  Time, add_month, add_day, add_hour, add_minute, add_second, month_start, day_start, hour_start,
  minute_start,
}
use czx.Timer.Clock.Order.{
  IsTime, month_after, day_after, hour_after, minute_after, month_after-IsNextUnit,
}
use czx.Timer.Clock.Units.{
  same_month, day_after-IsNextUnit, hour_after-IsNextUnit, minute_after-IsNextUnit,
  add_second-IsNextUnit, month_after-year, day_after-year, hour_after-year, minute_after-year,
  add_second-year,
}
use czx.Timer.Next.{
  match_day, Phase, at_month, at_day, at_hour, at_minute, at_second, Search, again, advance_month,
  advance_day, advance_hour, advance_minute, advance_second,
}
use czx.Timer.Next.Invariant.{Passed, IsSound, IsGood, steps_left, again-IsGood}
use czx.Timer.Next.Agree.{
  month_start_self, day_start_self, hour_start_self, minute_start_self, from_start, month_met,
  day_met, hour_met, minute_met, second_met,
}
use czx.Timer.Next.Lowered.{
  month_after-IsLowered, day_after-IsLowered, hour_after-IsLowered, minute_after-IsLowered,
  add_second-IsLowered,
}

-- The search in the loop of a phase.
abbrev pub in_loop : Phase → Bool → Time → Search
in_loop p b t = record { phase = p; init = b; t = t }

advance_month-again :
    (b : Bool) (t : Time)
    → (b ≡ true → month_start t ≡ t)
    → advance_month (in_loop at_month b t)
      ≡ again ((month_after t).month == 1) at_month (month_after t)
unfolding advance_month
advance_month-again b t h =
    ap (λ u. again ((add_month u).month == 1) at_month (add_month u))
      (from_start b t (month_start t) h)

advance_day-again :
    (b : Bool) (t : Time)
    → (b ≡ true → day_start t ≡ t)
    → advance_day (in_loop at_day b t) ≡ again ((day_after t).day == 1) at_day (day_after t)
unfolding advance_day
advance_day-again b t h =
    ap (λ u. again ((add_day u).day == 1) at_day (add_day u)) (from_start b t (day_start t) h)

advance_hour-again :
    (b : Bool) (t : Time)
    → (b ≡ true → hour_start t ≡ t)
    → advance_hour (in_loop at_hour b t) ≡ again ((hour_after t).hour == 0) at_hour (hour_after t)
unfolding advance_hour
advance_hour-again b t h =
    ap (λ u. again ((add_hour u).hour == 0) at_hour (add_hour u)) (from_start b t (hour_start t) h)

advance_minute-again :
    (b : Bool) (t : Time)
    → (b ≡ true → minute_start t ≡ t)
    → advance_minute (in_loop at_minute b t)
      ≡ again ((minute_after t).minute == 0) at_minute (minute_after t)
unfolding advance_minute
advance_minute-again b t h =
    ap (λ u. again ((add_minute u).minute == 0) at_minute (add_minute u))
      (from_start b t (minute_start t) h)

pub advance_month-IsGood :
    (e : CronExpr) (t0 : Time) (y : ℕ) (b : Bool) (t : Time)
    → IsSound e t0 y (in_loop at_month b t)
    → has_bit e.month t.month ≡ false
    → IsGood e t0 y (steps_left y (in_loop at_month b t)) (advance_month (in_loop at_month b t))
advance_month-IsGood e t0 y b t sound miss =
    let v : IsTime t = sound.is_time in
    let near : t.year ≤ y + 1 = sound.passed in
    let n = month_after-IsNextUnit t v in
    subst (IsGood e t0 y (steps_left y (in_loop at_month b t)))
      (sym (advance_month-again b t (λ i. month_start_self t ((sound.lowered i).month miss))))
      (again-IsGood e t0 y (in_loop at_month b t) sound near n (omega (arith, month_after-year t v))
        (λ u w same. ground (arith, month_met e t u v w same)) (month_after-IsLowered e t v)
        (λ same. omega arith))

pub advance_day-IsGood :
    (e : CronExpr) (t0 : Time) (y : ℕ) (b : Bool) (t : Time)
    → IsSound e t0 y (in_loop at_day b t)
    → match_day e t ≡ false
    → IsGood e t0 y (steps_left y (in_loop at_day b t)) (advance_day (in_loop at_day b t))
advance_day-IsGood e t0 y b t sound miss =
    let v : IsTime t = sound.is_time in
    let met : Passed e y at_day t = sound.passed in
    let n = day_after-IsNextUnit t v in
    subst (IsGood e t0 y (steps_left y (in_loop at_day b t)))
      (sym (advance_day-again b t (λ i. day_start_self t ((sound.lowered i).day miss))))
      (again-IsGood e t0 y (in_loop at_day b t) sound met.0 n
        (omega (arith, met.0, day_after-year t v))
        (λ u w same. ground (arith, day_met e t u v w same)) (day_after-IsLowered e t v met.1)
        (λ same. (
          omega (arith, met.0, same_month t (day_after t) v n.is_time same),
          month_met e t (day_after t) v n.is_time same ∙ met.1,
        )))

pub advance_hour-IsGood :
    (e : CronExpr) (t0 : Time) (y : ℕ) (b : Bool) (t : Time)
    → IsSound e t0 y (in_loop at_hour b t)
    → has_bit e.hour t.hour ≡ false
    → IsGood e t0 y (steps_left y (in_loop at_hour b t)) (advance_hour (in_loop at_hour b t))
advance_hour-IsGood e t0 y b t sound miss =
    let v : IsTime t = sound.is_time in
    let met : Passed e y at_hour t = sound.passed in
    let n = hour_after-IsNextUnit t v in
    subst (IsGood e t0 y (steps_left y (in_loop at_hour b t)))
      (sym (advance_hour-again b t (λ i. hour_start_self t ((sound.lowered i).hour miss))))
      (again-IsGood e t0 y (in_loop at_hour b t) sound met.0 n
        (omega (arith, met.0, hour_after-year t v))
        (λ u w same. ground (arith, hour_met e t u v w same))
        (hour_after-IsLowered e t v met.1 met.2)
        (λ same.
          let d = day_met e t (hour_after t) v n.is_time same in
          (omega (arith, met.0, d.0), d.1 ∙ met.1, d.2 ∙ met.2)))

pub advance_minute-IsGood :
    (e : CronExpr) (t0 : Time) (y : ℕ) (b : Bool) (t : Time)
    → IsSound e t0 y (in_loop at_minute b t)
    → has_bit e.min t.minute ≡ false
    → IsGood e t0 y (steps_left y (in_loop at_minute b t)) (advance_minute (in_loop at_minute b t))
advance_minute-IsGood e t0 y b t sound miss =
    let v : IsTime t = sound.is_time in
    let met : Passed e y at_minute t = sound.passed in
    let n = minute_after-IsNextUnit t v in
    subst (IsGood e t0 y (steps_left y (in_loop at_minute b t)))
      (sym (advance_minute-again b t (λ i. minute_start_self t ((sound.lowered i).minute miss))))
      (again-IsGood e t0 y (in_loop at_minute b t) sound met.0 n
        (omega (arith, met.0, minute_after-year t v))
        (λ u w same. ground (arith, minute_met e t u v w same))
        (minute_after-IsLowered e t v met.1 met.2 met.3)
        (λ same.
          let h = hour_met e t (minute_after t) v n.is_time same in
          (omega (arith, met.0, h.0), h.1 ∙ met.1, h.2 ∙ met.2, h.3 ∙ met.3)))

pub advance_second-IsGood :
    (e : CronExpr) (t0 : Time) (y : ℕ) (b : Bool) (t : Time)
    → IsSound e t0 y (in_loop at_second b t)
    → has_bit e.sec t.second ≡ false
    → IsGood e t0 y (steps_left y (in_loop at_second b t)) (advance_second (in_loop at_second b t))
unfolding advance_second
advance_second-IsGood e t0 y b t sound miss =
    let v : IsTime t = sound.is_time in
    let met : Passed e y at_second t = sound.passed in
    let n = add_second-IsNextUnit t v in
    again-IsGood e t0 y (in_loop at_second b t) sound met.0 n
      (omega (arith, met.0, add_second-year t v))
      (λ u w same. ground (arith, second_met e t u v w same))
      (add_second-IsLowered e t v met.1 met.2 met.3 met.4)
      (λ same.
        let m = minute_met e t (add_second t) v n.is_time same in
        (omega (arith, met.0, m.0), m.1 ∙ met.1, m.2 ∙ met.2, m.3 ∙ met.3, m.4 ∙ met.4))
