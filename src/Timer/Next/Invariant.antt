-- ===== src/Timer/Next/Invariant.antt =====
-- What holds at each test of Next: nothing before the time reached matches.
use czx.Base.{
  ℕ, ◌+◌, ◌-◌, ◌*◌, ◌≤◌, ◌<◌, ◌≡◌, ◌⊎◌, inl, inr, Bool, true, false, ◌&&◌, arith, ltb, ◌==◌,
  Bool-cases, if_cases,
}
use czx.Timer.Word.{has_bit}
use czx.Timer.Cron.{CronExpr}
use czx.Timer.Clock.{Time}
use czx.Timer.Clock.Order.{IsTime, IsNextUnit, bounds, rank}
use czx.Timer.Clock.Units.{IsMonthStart, IsDayStart, IsHourStart, IsMinuteStart}
use czx.Timer.Next.{
  match_day, Phase, at_year, at_month, at_day, at_hour, at_minute, at_second, Search, Answer, found,
  zero_time, stuck, Move, goes, returns, again,
}

-- A time that the expression stands for.
abbrev pub matches : CronExpr → Time → Bool
matches e t =
    has_bit e.month t.month
    && match_day e t
    && has_bit e.hour t.hour
    && has_bit e.min t.minute
    && has_bit e.sec t.second

-- Where a unit does not match, those below it are at their start.
pub record IsLowered (e : CronExpr) (t : Time) : Type 0 where
  pub month : has_bit e.month t.month ≡ false → IsMonthStart t
  pub day : match_day e t ≡ false → IsDayStart t
  pub hour : has_bit e.hour t.hour ≡ false → IsHourStart t
  pub minute : has_bit e.min t.minute ≡ false → IsMinuteStart t

-- The tests that have been met where the loop of a phase begins.
abbrev pub Passed : CronExpr → ℕ → Phase → Time → Type 0
Passed e y at_year t = Unit {0}
Passed e y at_month t = t.year ≤ y + 1
Passed e y at_day t = (t.year ≤ y + 1) × (has_bit e.month t.month ≡ true)
Passed e y at_hour t = (t.year ≤ y + 1) × (has_bit e.month t.month ≡ true) × (match_day e t ≡ true)
Passed e y at_minute t =
    (t.year ≤ y + 1)
    × (has_bit e.month t.month ≡ true)
    × (match_day e t ≡ true)
    × (has_bit e.hour t.hour ≡ true)
Passed e y at_second t =
    (t.year ≤ y + 1)
    × (has_bit e.month t.month ≡ true)
    × (match_day e t ≡ true)
    × (has_bit e.hour t.hour ≡ true)
    × (has_bit e.min t.minute ≡ true)

-- No time from `t0` on and before `t` matches.
abbrev pub IsSkipped : CronExpr → Time → Time → Type 0
IsSkipped e t0 t = (u : Time) → IsTime u → rank t0 ≤ rank u → rank u < rank t → matches e u ≡ false

pub record IsSound (e : CronExpr) (t0 : Time) (y : ℕ) (s : Search) : Type 0 where
  pub is_time : IsTime s.t
  pub begun : rank t0 ≤ rank s.t
  pub skipped : IsSkipped e t0 s.t
  pub lowered : s.init ≡ true → IsLowered e s.t
  pub passed : Passed e y s.phase s.t
  pub near : s.t.year ≤ y + 2

-- What an answer tells of the times from `t0` on; no answer is stuck.
abbrev pub Tells : CronExpr → Time → ℕ → Answer → Type 0
Tells e t0 y (found r) = IsTime r × (rank t0 ≤ rank r) × (matches e r ≡ true) × IsSkipped e t0 r
Tells e t0 y zero_time =
    (u : Time) → IsTime u → rank t0 ≤ rank u → u.year ≤ y + 1 → matches e u ≡ false
Tells e t0 y stuck = ⊥

abbrev pub left_of : Phase → ℕ
left_of at_year = 6
left_of at_month = 5
left_of at_day = 4
left_of at_hour = 3
left_of at_minute = 2
left_of at_second = 1

-- Steps that may be left: every one makes it less.
abbrev pub steps_left : ℕ → Search → ℕ
steps_left y s = ((y + 4) * 33177600 - rank s.t) * 7 + left_of s.phase

abbrev pub IsGood : CronExpr → Time → ℕ → ℕ → Move → Type 0
IsGood e t0 y n (goes s) = IsSound e t0 y s × (steps_left y s < n)
IsGood e t0 y n (returns a) = Tells e t0 y a

year_le : (t u : Time) → IsTime t → IsTime u → rank t ≤ rank u → t.year ≤ u.year
year_le t u v w p = omega (arith, bounds v, bounds w)

rank_bound : (t : Time) (y : ℕ) → IsTime t → t.year ≤ y + 2 → rank t < (y + 4) * 33177600
rank_bound t y v h = omega (arith, bounds v)

left_of-bounds : (p : Phase) → (1 ≤ left_of p) × (left_of p ≤ 6)
left_of-bounds at_year = (omega arith, omega arith)
left_of-bounds at_month = (omega arith, omega arith)
left_of-bounds at_day = (omega arith, omega arith)
left_of-bounds at_hour = (omega arith, omega arith)
left_of-bounds at_minute = (omega arith, omega arith)
left_of-bounds at_second = (omega arith, omega arith)

-- An advance of a unit that does not match keeps the invariant.
pub again-IsGood :
    {unit outer field : Time → ℕ} {least : ℕ} {later : Time} (e : CronExpr) (t0 : Time) (y : ℕ)
    (s : Search)
    → IsSound e t0 y s
    → s.t.year ≤ y + 1
    → IsNextUnit unit outer field least s.t later
    → later.year ≤ y + 2
    → ((u : Time) → IsTime u → unit u ≡ unit s.t → matches e u ≡ false)
    → IsLowered e later
    → (outer later ≡ outer s.t → Passed e y s.phase later)
    → IsGood e t0 y (steps_left y s) (again (field later == least) s.phase later)
again-IsGood {outer = outer} {field = field} {least = least} {later = later} e t0 y s sound near n
      near' missed lowered kept =
    if_cases (IsGood e t0 y (steps_left y s)) (field later == least) _ _
      (λ wrapped. (sound_at at_year tt, fewer at_year))
      (λ same_outer. (sound_at s.phase (kept (outer_kept same_outer n.kept)), fewer s.phase))
  where
    skipped : IsSkipped e t0 later
    skipped u w p q = elim (Bool-cases (ltb (rank u) (rank s.t))) [
      | inl before ↦ sound.skipped u w p (ground arith)
      | inr from ↦ missed u w (n.between u w (ground arith) q)
    ]

    sound_at :
        (p : Phase)
        → Passed e y p later
        → IsSound e t0 y (record { phase = p; init = true; t = later })
    sound_at p passed = record {
      is_time = n.is_time;
      begun = omega (arith, sound.begun, n.is_later);
      skipped = skipped;
      lowered = λ h. lowered;
      passed = passed;
      near = near';
    }

    fewer :
        (p : Phase) → steps_left y (record { phase = p; init = true; t = later }) < steps_left y s
    fewer p = omega (
      arith,
      n.is_later,
      rank_bound later y n.is_time near',
      left_of-bounds p,
      left_of-bounds s.phase,
    )

    outer_kept :
        (field later == least) ≡ false
        → (field later ≡ least) ⊎ (outer later ≡ outer s.t)
        → outer later ≡ outer s.t
    outer_kept differs (inl starts) = absurd (ground arith)
    outer_kept differs (inr same) = same
