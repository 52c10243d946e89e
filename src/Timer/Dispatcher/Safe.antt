-- ===== src/Timer/Dispatcher/Safe.antt =====
-- What a step does to the timers whose exec is about to launch a callback.
use czx.Base.{
  ℕ, zero, suc, ◌≡◌, ◌≢◌, refl, ap, ◌∙◌, inl, inr, true, false, List, [], ◌∷◌, ◌++◌, arith, ltb,
  ◌==◌, if◌then◌else◌, length, get_or, set, Bool-cases,
}
use czx.Timer.Dispatcher.{
  Place, armed, disarmed, selecting, queued, handed, ready, executed, Timer, Dispatcher, nowhere,
  timer, move, disarm, stop_timer, is_ready,
}
use czx.Timer.Dispatcher.Places.{place_of, risk, risk_of, get_or-set, changed_to, set_out}

-- A timer that moves with no risk leaves the others as they are.
pub move-risk :
    (d : Dispatcher) (i j : ℕ) (q : Place)
    → place_of d i ≢ disarmed
    → risk q (timer d i).has_cb ≡ 0
    → risk_of (timer d j) ≡ 0
    → risk_of (timer (move d i q) j) ≡ 0
move-risk d i j q ne none' before =
    ground (arith, changed_to risk_of d i j (record (timer d i) { place = q }) ne)

risk-disarm : (p : Place) → is_ready p ≡ false → risk (disarm p) false ≡ 0
risk-disarm armed h = refl
risk-disarm disarmed h = refl
risk-disarm selecting h = refl
risk-disarm queued h = refl
risk-disarm handed h = refl
risk-disarm ready h = absurd (cc h)
risk-disarm executed h = refl

abbrev stopped_timer : Timer → Timer
stopped_timer t = record { place = disarm t.place; has_cb = false }

-- Stop of a timer whose exec has not found its callback yet, or is done.
pub stop_risk :
    (d : Dispatcher) (i j : ℕ)
    → is_ready (place_of d i) ≡ false
    → risk_of (timer d j) ≡ 0
    → risk_of (timer (stop_timer d i) j) ≡ 0
unfolding stop_timer
stop_risk d i j h before = elim (Bool-cases (ltb i (length d.timers))) [
  | inl within ↦ ground (
    arith,
    risk-disarm (place_of d i) h,
    risk_if (get_or-set d.timers i j (stopped_timer (timer d i)) (ground arith)),
  )
  | inr beyond ↦
      ap (λ us. risk_of (get_or us j nowhere))
        (set_out d.timers i (stopped_timer (timer d i)) (ground arith))
      ∙ before
]
  where
    risk_if :
        get_or (set d.timers i (stopped_timer (timer d i))) j nowhere
          ≡ (if i == j then stopped_timer (timer d i) else timer d j)
        → risk_of (get_or (set d.timers i (stopped_timer (timer d i))) j nowhere)
          ≡ (if i == j then risk_of (stopped_timer (timer d i)) else risk_of (timer d j))
    risk_if e = elim (Bool-cases (i == j)) [
      | inl same ↦ rw same (ap risk_of (rw same at e))
      | inr other ↦ rw other (ap risk_of (rw other at e))
    ]

-- A new timer is none of these.
pub made_risk :
    (ts : List Timer) (j : ℕ)
    → risk_of (get_or (ts ++ (record { place = armed; has_cb = true } ∷ [])) j nowhere)
      ≡ risk_of (get_or ts j nowhere)
made_risk [] zero = refl
made_risk [] (suc j) = refl
made_risk (t ∷ ts) zero = refl
made_risk (t ∷ ts) (suc j) = made_risk ts j
