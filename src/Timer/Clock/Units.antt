-- ===== src/Timer/Clock/Units.antt =====
-- The start of the next day, hour, minute and second, as the first time of another unit.
use mathlib.Core.Path.{subst}
use czx.Base.{ℕ, ◌+◌, ◌≤◌, ◌<◌, ◌≡◌, refl, sym, ◌⊎◌, inl, inr, arith}
use czx.Timer.Clock.{Time, days_in, add_second}
use czx.Timer.Clock.Order.{
  time, IsTime, IsNextUnit, bounds, month_rank, day_rank, hour_rank, minute_rank, rank, month_after,
  day_after, hour_after, minute_after, month_after_within, month_after_last, day_after_within,
  day_after_last, hour_after_within, hour_after_last, minute_after_within, minute_after_last,
  second_after_within, second_after_last, month_after-IsNextUnit, at_end,
}

-- The units below a month, a day, an hour and a minute, at their start.
abbrev pub IsMonthStart : Time → Type 0
IsMonthStart t = (t.day ≡ 1) × (t.hour ≡ 0) × (t.minute ≡ 0) × (t.second ≡ 0)

abbrev pub IsDayStart : Time → Type 0
IsDayStart t = (t.hour ≡ 0) × (t.minute ≡ 0) × (t.second ≡ 0)

abbrev pub IsHourStart : Time → Type 0
IsHourStart t = (t.minute ≡ 0) × (t.second ≡ 0)

abbrev pub IsMinuteStart : Time → Type 0
IsMinuteStart t = t.second ≡ 0

-- The cases of a unit: within the outer one, or at its end.
month_end : (t : Time) → IsTime t → (t.month < 12) ⊎ (t.month ≡ 12)
month_end t v = ground (arith, v.month_le)

day_end :
    (t : Time) → IsTime t → (t.day < days_in t.year t.month) ⊎ (t.day ≡ days_in t.year t.month)
day_end t v = ground (arith, v.day_le)

pub last_of : (n k : ℕ) → (n < k) ⊎ (k ≤ n)
last_of n k = ground arith

pub month_after-IsMonthStart : (t : Time) → IsTime t → IsMonthStart (month_after t)
month_after-IsMonthStart t v = elim (month_end t v) [
  | inl h ↦ subst IsMonthStart (sym (month_after_within t v h)) (refl, refl, refl, refl)
  | inr h ↦ subst IsMonthStart (sym (month_after_last t v h)) (refl, refl, refl, refl)
]

month_start_day : (t : Time) → IsMonthStart t → IsDayStart t
month_start_day t s = (s.1, s.2, s.3)

pub day_after-IsDayStart : (t : Time) → IsTime t → IsDayStart (day_after t)
day_after-IsDayStart t v = elim (day_end t v) [
  | inl h ↦ subst IsDayStart (sym (day_after_within t v h)) (refl, refl, refl)
  | inr h ↦
      subst IsDayStart (sym (day_after_last t v h))
        (month_start_day (month_after t) (month_after-IsMonthStart t v))
]

pub hour_after-IsHourStart : (t : Time) → IsTime t → IsHourStart (hour_after t)
hour_after-IsHourStart t v = elim (last_of t.hour 23) [
  | inl h ↦ subst IsHourStart (sym (hour_after_within t h)) (refl, refl)
  | inr h ↦
      let s = day_after-IsDayStart t v in subst IsHourStart (sym (hour_after_last t v h)) (s.1, s.2)
]

pub minute_after-IsMinuteStart : (t : Time) → IsTime t → IsMinuteStart (minute_after t)
minute_after-IsMinuteStart t v = elim (last_of t.minute 59) [
  | inl h ↦ subst IsMinuteStart (sym (minute_after_within t h)) refl
  | inr h ↦ subst IsMinuteStart (sym (minute_after_last t h)) ((hour_after-IsHourStart t v).1)
]

pub same_month :
    (t u : Time)
    → IsTime t
    → IsTime u
    → month_rank u ≡ month_rank t
    → (u.year ≡ t.year) × (u.month ≡ t.month)
same_month t u v w e = (omega (arith, bounds v, bounds w), omega (arith, bounds v, bounds w))

-- Behind the month's last day there is none in the month.
last_day :
    (t u : Time)
    → IsTime t
    → IsTime u
    → t.day ≡ days_in t.year t.month
    → month_rank u ≡ month_rank t
    → rank t ≤ rank u
    → day_rank u ≡ day_rank t
last_day t u v w end e p =
    let same = same_month t u v w e in
    let days : days_in u.year u.month ≡ days_in t.year t.month = cc (same.0, same.1) in
    omega (arith, bounds v, bounds w, w.day_le)

same_day-IsTime :
    (t : Time) (h mi s : ℕ)
    → IsTime t
    → h < 24
    → mi < 60
    → s < 60
    → IsTime (time t.year t.month t.day h mi s)
same_day-IsTime t h mi s v p q r = record {
  year_pos = v.year_pos;
  month_pos = v.month_pos;
  month_le = v.month_le;
  day_pos = v.day_pos;
  day_le = v.day_le;
  hour_lt = p;
  minute_lt = q;
  second_lt = r;
}

pub day_after-IsNextUnit :
    (t : Time) → IsTime t → IsNextUnit day_rank month_rank (λ t. t.day) 1 t (day_after t)
day_after-IsNextUnit t v = elim (day_end t v) [
  | inl h ↦ subst (IsNextUnit _ _ _ 1 t) (sym (day_after_within t v h)) (record {
    is_time = record {
      year_pos = v.year_pos;
      month_pos = v.month_pos;
      month_le = v.month_le;
      day_pos = omega arith;
      day_le = omega arith;
      hour_lt = omega arith;
      minute_lt = omega arith;
      second_lt = omega arith;
    };
    is_later = omega (arith, bounds v);
    between = λ u w p q. omega (arith, bounds v, bounds w);
    kept = inr refl;
  })
  | inr h ↦ subst (IsNextUnit _ _ _ 1 t) (sym (day_after_last t v h)) (
      at_end (month_after-IsNextUnit t v) ((month_after-IsMonthStart t v).0)
        (λ u w same p. last_day t u v w h same p))
]

pub hour_after-IsNextUnit :
    (t : Time) → IsTime t → IsNextUnit hour_rank day_rank (λ t. t.hour) 0 t (hour_after t)
hour_after-IsNextUnit t v = elim (last_of t.hour 23) [
  | inl h ↦ subst (IsNextUnit _ _ _ 0 t) (sym (hour_after_within t h)) (record {
    is_time = same_day-IsTime t _ _ _ v (omega arith) (omega arith) (omega arith);
    is_later = omega (arith, bounds v);
    between = λ u w p q. omega (arith, bounds v, bounds w);
    kept = inr refl;
  })
  | inr h ↦ subst (IsNextUnit _ _ _ 0 t) (sym (hour_after_last t v h)) (
      at_end (day_after-IsNextUnit t v) ((day_after-IsDayStart t v).0)
        (λ u w same p. omega (arith, bounds v, bounds w)))
]

pub minute_after-IsNextUnit :
    (t : Time) → IsTime t → IsNextUnit minute_rank hour_rank (λ t. t.minute) 0 t (minute_after t)
minute_after-IsNextUnit t v = elim (last_of t.minute 59) [
  | inl h ↦ subst (IsNextUnit _ _ _ 0 t) (sym (minute_after_within t h)) (record {
    is_time = same_day-IsTime t _ _ _ v v.hour_lt (omega arith) (omega arith);
    is_later = omega (arith, bounds v);
    between = λ u w p q. omega (arith, bounds v, bounds w);
    kept = inr refl;
  })
  | inr h ↦ subst (IsNextUnit _ _ _ 0 t) (sym (minute_after_last t h)) (
      at_end (hour_after-IsNextUnit t v) ((hour_after-IsHourStart t v).0)
        (λ u w same p. omega (arith, bounds v, bounds w)))
]

pub add_second-IsNextUnit :
    (t : Time) → IsTime t → IsNextUnit rank minute_rank (λ t. t.second) 0 t (add_second t)
add_second-IsNextUnit t v = elim (last_of t.second 59) [
  | inl h ↦ subst (IsNextUnit _ _ _ 0 t) (sym (second_after_within t h)) (record {
    is_time = same_day-IsTime t _ _ _ v v.hour_lt v.minute_lt (omega arith);
    is_later = omega (arith, bounds v);
    between = λ u w p q. omega (arith, bounds v, bounds w);
    kept = inr refl;
  })
  | inr h ↦ subst (IsNextUnit _ _ _ 0 t) (sym (second_after_last t h)) (
      at_end (minute_after-IsNextUnit t v) (minute_after-IsMinuteStart t v)
        (λ u w same p. omega (arith, bounds v, bounds w)))
]

-- The start of the next unit is at most one year on.
pub month_after-year : (t : Time) → IsTime t → (month_after t).year ≤ t.year + 1
month_after-year t v = elim (month_end t v) [
  | inl h ↦ subst (λ u. u.year ≤ t.year + 1) (sym (month_after_within t v h)) (omega arith)
  | inr h ↦ subst (λ u. u.year ≤ t.year + 1) (sym (month_after_last t v h)) (omega arith)
]

pub day_after-year : (t : Time) → IsTime t → (day_after t).year ≤ t.year + 1
day_after-year t v = elim (day_end t v) [
  | inl h ↦ subst (λ u. u.year ≤ t.year + 1) (sym (day_after_within t v h)) (omega arith)
  | inr h ↦ subst (λ u. u.year ≤ t.year + 1) (sym (day_after_last t v h)) (month_after-year t v)
]

pub hour_after-year : (t : Time) → IsTime t → (hour_after t).year ≤ t.year + 1
hour_after-year t v = elim (last_of t.hour 23) [
  | inl h ↦ subst (λ u. u.year ≤ t.year + 1) (sym (hour_after_within t h)) (omega arith)
  | inr h ↦ subst (λ u. u.year ≤ t.year + 1) (sym (hour_after_last t v h)) (day_after-year t v)
]

pub minute_after-year : (t : Time) → IsTime t → (minute_after t).year ≤ t.year + 1
minute_after-year t v = elim (last_of t.minute 59) [
  | inl h ↦ subst (λ u. u.year ≤ t.year + 1) (sym (minute_after_within t h)) (omega arith)
  | inr h ↦ subst (λ u. u.year ≤ t.year + 1) (sym (minute_after_last t h)) (hour_after-year t v)
]

pub add_second-year : (t : Time) → IsTime t → (add_second t).year ≤ t.year + 1
add_second-year t v = elim (last_of t.second 59) [
  | inl h ↦ subst (λ u. u.year ≤ t.year + 1) (sym (second_after_within t h)) (omega arith)
  | inr h ↦ subst (λ u. u.year ≤ t.year + 1) (sym (second_after_last t h)) (minute_after-year t v)
]
