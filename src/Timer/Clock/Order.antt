-- ===== src/Timer/Clock/Order.antt =====
-- The order of times, unit by unit, and the start of the next month, day, hour, minute and second.
use czx.Base.{ℕ, ◌+◌, ◌*◌, ◌≤◌, ◌<◌, ◌≡◌, refl, sym, ◌⊎◌, inl, inr, false, arith, ltb, Bool-cases}
use mathlib.Core.Path.{subst}
use czx.Timer.Clock.{
  Time, days_in, add_month, add_day, add_hour, add_minute, add_second, month_start, day_start,
  hour_start, minute_start,
}

pub record IsTime (t : Time) : Type 0 where
  pub year_pos : 1 ≤ t.year
  pub month_pos : 1 ≤ t.month
  pub month_le : t.month ≤ 12
  pub day_pos : 1 ≤ t.day
  pub day_le : t.day ≤ days_in t.year t.month
  pub hour_lt : t.hour < 24
  pub minute_lt : t.minute < 60
  pub second_lt : t.second < 60

abbrev pub month_rank : Time → ℕ
month_rank t = t.year * 12 + t.month

abbrev pub day_rank : Time → ℕ
day_rank t = month_rank t * 32 + t.day

abbrev pub hour_rank : Time → ℕ
hour_rank t = day_rank t * 24 + t.hour

abbrev pub minute_rank : Time → ℕ
minute_rank t = hour_rank t * 60 + t.minute

-- Times are ordered as these numbers.
abbrev pub rank : Time → ℕ
rank t = minute_rank t * 60 + t.second

pub days_in-bounds : (y m : ℕ) → (28 ≤ days_in y m) × (days_in y m ≤ 31)
unfolding days_in
days_in-bounds y m = ground arith

-- `later` is the first time behind `t` of another unit, as `unit` numbers them: no time between
-- the two is of another one; and it is of the same outer unit unless its `field` starts anew.
pub record IsNextUnit (unit outer field : Time → ℕ) (least : ℕ) (t later : Time) : Type 0 where
  pub is_time : IsTime later
  pub is_later : rank t < rank later
  pub between : (u : Time) → IsTime u → rank t ≤ rank u → rank u < rank later → unit u ≡ unit t
  pub kept : (field later ≡ least) ⊎ (outer later ≡ outer t)

-- The starts of the next units.
abbrev pub month_after : Time → Time
month_after t = add_month (month_start t)

abbrev pub day_after : Time → Time
day_after t = add_day (day_start t)

abbrev pub hour_after : Time → Time
hour_after t = add_hour (hour_start t)

abbrev pub minute_after : Time → Time
minute_after t = add_minute (minute_start t)

abbrev pub time : ℕ → ℕ → ℕ → ℕ → ℕ → ℕ → Time
time y mo d h mi s = record { year = y; month = mo; day = d; hour = h; minute = mi; second = s }

pub month_after_within :
    (t : Time) → IsTime t → t.month < 12 → month_after t ≡ time t.year (t.month + 1) 1 0 0 0
unfolding add_month month_start
month_after_within t v h = ground (arith, days_in-bounds t.year (t.month + 1))

pub month_after_last :
    (t : Time) → IsTime t → t.month ≡ 12 → month_after t ≡ time (t.year + 1) 1 1 0 0 0
unfolding add_month month_start
month_after_last t v h = ground (arith, days_in-bounds (t.year + 1) 1)

pub day_after_within :
    (t : Time)
    → IsTime t
    → t.day < days_in t.year t.month
    → day_after t ≡ time t.year t.month (t.day + 1) 0 0 0
unfolding add_day day_start
day_after_within t v h = ground arith

pub day_after_last :
    (t : Time) → IsTime t → t.day ≡ days_in t.year t.month → day_after t ≡ month_after t
unfolding add_day day_start add_month month_start
day_after_last t v h =
    ground (arith, days_in-bounds t.year (t.month + 1), days_in-bounds (t.year + 1) 1)

pub hour_after_within :
    (t : Time) → t.hour < 23 → hour_after t ≡ time t.year t.month t.day (t.hour + 1) 0 0
unfolding add_hour hour_start
hour_after_within t h = ground arith

pub hour_after_last : (t : Time) → IsTime t → 23 ≤ t.hour → hour_after t ≡ day_after t
unfolding add_hour hour_start day_start
hour_after_last t v h = ground arith

pub minute_after_within :
    (t : Time) → t.minute < 59 → minute_after t ≡ time t.year t.month t.day t.hour (t.minute + 1) 0
unfolding add_minute minute_start
minute_after_within t h = ground arith

pub minute_after_last : (t : Time) → 59 ≤ t.minute → minute_after t ≡ hour_after t
unfolding add_minute minute_start hour_start
minute_after_last t h = ground arith

pub second_after_within :
    (t : Time)
    → t.second < 59
    → add_second t ≡ time t.year t.month t.day t.hour t.minute (t.second + 1)
unfolding add_second
second_after_within t h = ground arith

pub second_after_last : (t : Time) → 59 ≤ t.second → add_second t ≡ minute_after t
unfolding add_second minute_start
second_after_last t h = ground arith

-- What is needed of a time for the comparisons.
abbrev pub IsBounded : Time → Type 0
IsBounded t =
    (1 ≤ t.month)
    × (t.month ≤ 12)
    × (1 ≤ t.day)
    × (t.day ≤ 31)
    × (t.hour < 24)
    × (t.minute < 60)
    × (t.second < 60)

pub bounds : {t : Time} → IsTime t → IsBounded t
bounds {t} v = (
  v.month_pos,
  v.month_le,
  v.day_pos,
  omega (arith, v.day_le, days_in-bounds t.year t.month),
  v.hour_lt,
  v.minute_lt,
  v.second_lt,
)

month_start-IsTime : (y m : ℕ) → 1 ≤ y → 1 ≤ m → m ≤ 12 → IsTime (time y m 1 0 0 0)
month_start-IsTime y m p q r = record {
  year_pos = p;
  month_pos = q;
  month_le = r;
  day_pos = omega arith;
  day_le = omega (arith, days_in-bounds y m);
  hour_lt = omega arith;
  minute_lt = omega arith;
  second_lt = omega arith;
}

pub month_after-IsNextUnit :
    (t : Time) → IsTime t → IsNextUnit month_rank (λ t. t.year) (λ t. t.month) 1 t (month_after t)
month_after-IsNextUnit t v = elim (Bool-cases (ltb t.month 12)) [
  | inl h ↦ subst (IsNextUnit _ _ _ 1 t) (sym (month_after_within t v (ground arith))) (record {
    is_time = month_start-IsTime _ _ v.year_pos (omega arith) (ground arith);
    is_later = omega (arith, bounds v);
    between = λ u w p q. omega (arith, bounds v, bounds w);
    kept = inr refl;
  })
  | inr h ↦
      subst (IsNextUnit _ _ _ 1 t) (sym (month_after_last t v (ground (arith, v.month_le))))
        (record {
          is_time = month_start-IsTime _ _ (omega arith) (omega arith) (omega arith);
          is_later = omega (arith, bounds v);
          between = λ u w p q. omega (arith, bounds v, bounds w, is_last h);
          kept = inl refl;
        })
]
  where
    is_last : ltb t.month 12 ≡ false → 12 ≤ t.month
    is_last h = ground arith

-- Where an outer unit's next start is that of the unit: the unit is at its end.
pub at_end :
    {unit outer field outer_outer outer_field : Time → ℕ} {least outer_least : ℕ} {t later : Time}
    → IsNextUnit outer outer_outer outer_field outer_least t later
    → field later ≡ least
    → ((u : Time) → IsTime u → outer u ≡ outer t → rank t ≤ rank u → unit u ≡ unit t)
    → IsNextUnit unit outer field least t later
at_end n started same = record {
  is_time = n.is_time;
  is_later = n.is_later;
  between = λ u w p q. same u w (n.between u w p q) p;
  kept = inl started;
}
