-- ===== src/Timer/Next/Found.antt =====
-- The answer of Next.
use czx.Base.{ℕ, zero, suc, ◌+◌, ◌-◌, ◌*◌, ◌≤◌, ◌<◌, ◌≡◌, Bool, true, false, arith, ltb, if_cases}
use czx.Timer.Word.{has_bit}
use czx.Timer.Cron.{CronExpr}
use czx.Timer.Clock.{Time, add_second}
use czx.Timer.Clock.Order.{IsTime, bounds, rank}
use czx.Timer.Clock.Units.{add_second-IsNextUnit}
use czx.Timer.Next.{
  match_day, Phase, at_year, at_month, at_day, at_hour, at_minute, at_second, Search, Answer, found,
  zero_time, stuck, Move, goes, returns, step, run, steps_for, next,
}
use czx.Timer.Next.Invariant.{matches, Passed, IsSound, Tells, steps_left, IsGood}
use czx.Timer.Next.Advance.{
  in_loop, advance_month-IsGood, advance_day-IsGood, advance_hour-IsGood, advance_minute-IsGood,
  advance_second-IsGood,
}

-- A test that is met leaves the time as it is.
met-IsSound :
    (e : CronExpr) (t0 : Time) (y : ℕ) (p q : Phase) (b : Bool) (t : Time)
    → IsSound e t0 y (in_loop p b t)
    → Passed e y q t
    → IsSound e t0 y (in_loop q b t)
met-IsSound e t0 y p q b t sound passed = record {
  is_time = sound.is_time;
  begun = sound.begun;
  skipped = sound.skipped;
  lowered = sound.lowered;
  passed = passed;
  near = sound.near;
}

step_at-IsGood :
    (e : CronExpr) (t0 : Time) (y : ℕ) (p : Phase) (b : Bool) (t : Time)
    → IsSound e t0 y (in_loop p b t)
    → IsGood e t0 y (steps_left y (in_loop p b t)) (step e y (in_loop p b t))
unfolding step
step_at-IsGood e t0 y at_year b t sound =
    if_cases (IsGood e t0 y (steps_left y (in_loop at_year b t))) (ltb (y + 1) t.year) _ _
      (λ past u w from near. sound.skipped u w from (year_lt u t w sound.is_time (ground arith)))
      (λ near. (met-IsSound e t0 y at_year at_month b t sound (ground arith), omega arith))
  where
    year_lt : (u t : Time) → IsTime u → IsTime t → u.year < t.year → rank u < rank t
    year_lt u t v w h = omega (arith, bounds v, bounds w)
step_at-IsGood e t0 y at_month b t sound =
    let met : Passed e y at_month t = sound.passed in
    if_cases (IsGood e t0 y (steps_left y (in_loop at_month b t))) (has_bit e.month t.month) _ _
      (λ h. (met-IsSound e t0 y at_month at_day b t sound (met, h), omega arith))
      (λ h. advance_month-IsGood e t0 y b t sound h)
step_at-IsGood e t0 y at_day b t sound =
    let met : Passed e y at_day t = sound.passed in
    if_cases (IsGood e t0 y (steps_left y (in_loop at_day b t))) (match_day e t) _ _
      (λ h. (met-IsSound e t0 y at_day at_hour b t sound (met.0, met.1, h), omega arith))
      (λ h. advance_day-IsGood e t0 y b t sound h)
step_at-IsGood e t0 y at_hour b t sound =
    let met : Passed e y at_hour t = sound.passed in
    if_cases (IsGood e t0 y (steps_left y (in_loop at_hour b t))) (has_bit e.hour t.hour) _ _
      (λ h. (met-IsSound e t0 y at_hour at_minute b t sound (met.0, met.1, met.2, h), omega arith))
      (λ h. advance_hour-IsGood e t0 y b t sound h)
step_at-IsGood e t0 y at_minute b t sound =
    let met : Passed e y at_minute t = sound.passed in
    if_cases (IsGood e t0 y (steps_left y (in_loop at_minute b t))) (has_bit e.min t.minute) _ _
      (λ h. (
        met-IsSound e t0 y at_minute at_second b t sound (met.0, met.1, met.2, met.3, h),
        omega arith,
      ))
      (λ h. advance_minute-IsGood e t0 y b t sound h)
step_at-IsGood e t0 y at_second b t sound =
    let met : Passed e y at_second t = sound.passed in
    if_cases (IsGood e t0 y (steps_left y (in_loop at_second b t))) (has_bit e.sec t.second) _ _
      (λ h. (sound.is_time, sound.begun, ground (arith, met.1, met.2, met.3, met.4), sound.skipped))
      (λ h. advance_second-IsGood e t0 y b t sound h)

step-IsGood :
    (e : CronExpr) (t0 : Time) (y : ℕ) (s : Search)
    → IsSound e t0 y s
    → IsGood e t0 y (steps_left y s) (step e y s)
step-IsGood e t0 y s sound = step_at-IsGood e t0 y s.phase s.init s.t sound

after_move :
    (e : CronExpr) (t0 : Time) (y n : ℕ) (k : Search → Answer) (m : Move)
    → IsGood e t0 y n m
    → ((s : Search) → IsSound e t0 y s → steps_left y s < n → Tells e t0 y (k s))
    → Tells e t0 y (elim m [ goes s ↦ k s | returns a ↦ a ])
after_move e t0 y n k (goes s) good go_on = go_on s good.0 good.1
after_move e t0 y n k (returns a) good go_on = good

run-Tells :
    (fuel : ℕ) (e : CronExpr) (t0 : Time) (y : ℕ) (s : Search)
    → IsSound e t0 y s
    → steps_left y s < fuel
    → Tells e t0 y (run fuel e y s)
unfolding run
run-Tells zero e t0 y s sound enough = absurd (omega arith)
run-Tells (suc fuel) e t0 y s sound enough =
    after_move e t0 y (steps_left y s) (λ s'. run fuel e y s') (step e y s)
      (step-IsGood e t0 y s sound) (λ s' sound' less. run-Tells fuel e t0 y s' sound' (omega arith))

-- What the answer of Next tells of the times behind `now`.
abbrev pub Answers : CronExpr → Time → Answer → Type 0
Answers e now (found r) =
    IsTime r
    × (rank now < rank r)
    × (matches e r ≡ true)
    × ((u : Time) → IsTime u → rank now < rank u → rank u < rank r → matches e u ≡ false)
Answers e now zero_time =
    (u : Time)
    → IsTime u
    → rank now < rank u
    → u.year ≤ (add_second now).year + 1
    → matches e u ≡ false
Answers e now stuck = ⊥

reached :
    (now u : Time) → IsTime now → IsTime u → rank now < rank u → rank (add_second now) ≤ rank u
reached now u v w p = ground (arith, (add_second-IsNextUnit now v).between u w (omega arith))

answers :
    (e : CronExpr) (now : Time)
    → IsTime now
    → (a : Answer) → Tells e (add_second now) (add_second now).year a
    → Answers e now a
answers e now v (found r) h = (
  h.0,
  omega (arith, (add_second-IsNextUnit now v).is_later, h.1),
  h.2,
  λ u w p q. h.3 u w (reached now u v w p) q,
)
answers e now v zero_time h = λ u w p q. h u w (reached now u v w p) q
answers e now v stuck h = h

-- From a time with a date of the calendar, Next returns. It answers with the first such time
-- behind `now` that matches the expression; or with the zero time, and then none behind `now`
-- matches up to the end of the year after that of the next second.
pub next-Answers : (e : CronExpr) (now : Time) → IsTime now → Answers e now (next e now)
unfolding next
next-Answers e now v =
    let n = add_second-IsNextUnit now v in
    answers e now v _ (
      run-Tells (steps_for (add_second now).year) e (add_second now) (add_second now).year
        (in_loop at_year false (add_second now))
        (record {
          is_time = n.is_time;
          begun = omega arith;
          skipped = λ u w p q. absurd (omega arith);
          lowered = λ h. absurd (cc h);
          passed = tt;
          near = omega arith;
        })
        (enough (add_second now).year (rank (add_second now))))
  where
    enough : (y r : ℕ) → ((y + 4) * 33177600 - r) * 7 + 6 < (y + 4) * 232243200 + 7
    enough y r = omega arith
