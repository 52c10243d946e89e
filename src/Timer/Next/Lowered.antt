-- ===== src/Timer/Next/Lowered.antt =====
-- Behind an advance the units below one that does not match are at their start, if those above the
-- unit advanced matched.
use mathlib.Core.Path.{subst}
use czx.Base.{ℕ, ◌+◌, ◌≡◌, refl, sym, ap, ◌∙◌, ◌⊎◌, inl, inr, Bool, true, false}
use czx.Timer.Word.{has_bit}
use czx.Timer.Cron.{CronExpr}
use czx.Timer.Clock.{Time, weekday, add_second}
use czx.Timer.Clock.Order.{
  time, IsTime, month_rank, month_after, day_after, hour_after, minute_after, hour_after_within,
  hour_after_last, minute_after_within, minute_after_last, second_after_within, second_after_last,
}
use czx.Timer.Clock.Units.{
  last_of, same_month, month_after-IsMonthStart, day_after-IsDayStart, day_after-IsNextUnit,
}
use czx.Timer.Next.{match_day}
use czx.Timer.Next.Invariant.{IsLowered}

unmatched : {b : Bool} {P : Type 0} → b ≡ true → b ≡ false → P
unmatched p q = absurd (cc)

abbrev on_date : CronExpr → ℕ → ℕ → ℕ → Bool
on_date e y m d = match_day e (time y m d 0 0 0)

match_day-on_date : (e : CronExpr) (t : Time) → match_day e t ≡ on_date e t.year t.month t.day
unfolding match_day weekday
match_day-on_date e t = refl

pub match_day-date :
    (e : CronExpr) (t u : Time)
    → u.year ≡ t.year
    → u.month ≡ t.month
    → u.day ≡ t.day
    → match_day e u ≡ match_day e t
match_day-date e t u p q r = cc (match_day-on_date e t, match_day-on_date e u, p, q, r)

pub month_after-IsLowered : (e : CronExpr) (t : Time) → IsTime t → IsLowered e (month_after t)
month_after-IsLowered e t v =
    let s = month_after-IsMonthStart t v in
    record { month = λ h. s; day = λ h. (s.1, s.2, s.3); hour = λ h. (s.2, s.3); minute = λ h. s.3 }

pub day_after-IsLowered :
    (e : CronExpr) (t : Time)
    → IsTime t
    → has_bit e.month t.month ≡ true
    → IsLowered e (day_after t)
day_after-IsLowered e t v met =
    let s = day_after-IsDayStart t v in
    record {
      month = λ h. (first h (day_after-IsNextUnit t v).kept, s.0, s.1, s.2);
      day = λ h. s;
      hour = λ h. (s.1, s.2);
      minute = λ h. s.2;
    }
  where
    first :
        has_bit e.month (day_after t).month ≡ false
        → ((day_after t).day ≡ 1) ⊎ (month_rank (day_after t) ≡ month_rank t)
        → (day_after t).day ≡ 1
    first h (inl starts) = starts
    first h (inr same) = unmatched met (
        sym (
          ap (has_bit e.month)
            (same_month t (day_after t) v (day_after-IsNextUnit t v).is_time same).1)
        ∙ h)

pub hour_after-IsLowered :
    (e : CronExpr) (t : Time)
    → IsTime t
    → has_bit e.month t.month ≡ true
    → match_day e t ≡ true
    → IsLowered e (hour_after t)
hour_after-IsLowered e t v met day_met = elim (last_of t.hour 23) [
  | inl h ↦ subst (IsLowered e) (sym (hour_after_within t h)) (record {
    month = unmatched met;
    day = λ m.
        unmatched day_met (
          sym (match_day-date e t (time t.year t.month t.day (t.hour + 1) 0 0) refl refl refl) ∙ m);
    hour = λ m. (refl, refl);
    minute = λ m. refl;
  })
  | inr h ↦ subst (IsLowered e) (sym (hour_after_last t v h)) (day_after-IsLowered e t v met)
]

pub minute_after-IsLowered :
    (e : CronExpr) (t : Time)
    → IsTime t
    → has_bit e.month t.month ≡ true
    → match_day e t ≡ true
    → has_bit e.hour t.hour ≡ true
    → IsLowered e (minute_after t)
minute_after-IsLowered e t v met day_met hour_met = elim (last_of t.minute 59) [
  | inl h ↦ subst (IsLowered e) (sym (minute_after_within t h)) (record {
    month = unmatched met;
    day = λ m. unmatched day_met (
        sym (match_day-date e t (time t.year t.month t.day t.hour (t.minute + 1) 0) refl refl refl)
        ∙ m);
    hour = unmatched hour_met;
    minute = λ m. refl;
  })
  | inr h ↦
      subst (IsLowered e) (sym (minute_after_last t h)) (hour_after-IsLowered e t v met day_met)
]

pub add_second-IsLowered :
    (e : CronExpr) (t : Time)
    → IsTime t
    → has_bit e.month t.month ≡ true
    → match_day e t ≡ true
    → has_bit e.hour t.hour ≡ true
    → has_bit e.min t.minute ≡ true
    → IsLowered e (add_second t)
add_second-IsLowered e t v met day_met hour_met minute_met = elim (last_of t.second 59) [
  | inl h ↦ subst (IsLowered e) (sym (second_after_within t h)) (record {
    month = unmatched met;
    day = λ m. unmatched day_met (
        sym (
          match_day-date e t (time t.year t.month t.day t.hour t.minute (t.second + 1)) refl refl
            refl)
        ∙ m);
    hour = unmatched hour_met;
    minute = unmatched minute_met;
  })
  | inr h ↦
      subst (IsLowered e) (sym (second_after_last t h))
        (minute_after-IsLowered e t v met day_met hour_met)
]
