-- ===== src/Timer/Dispatcher/Steps.antt =====
-- Any steps of a dispatcher.
use czx.Base.{
  ◌≡◌, ◌⊎◌, inl, inr, Bool, true, false, ◌||◌, List, [], ◌∷◌, arith, Outcome, blocked, panics,
  steps,
}
use czx.Timer.Dispatcher.{Dispatcher, Event, step, run}
use czx.Timer.Dispatcher.Places.{IsPlaced, IsSafe}
use czx.Timer.Dispatcher.Good.{is_hazard, IsGood, step-IsGood}

-- Whether one of them was taken.
unfoldable pub hazards : Dispatcher → List Event → Bool
unfolding step
hazards d [] = false
hazards d (e ∷ es) =
    is_hazard d e
    || (elim (step d e) [ blocked ↦ hazards d es | panics ↦ false | steps d' ↦ hazards d' es ])

abbrev pub IsRun : Bool → Outcome Dispatcher → Type 0
IsRun hazard blocked = ⊥
IsRun hazard panics = hazard ≡ true
IsRun hazard (steps d) = IsPlaced d

-- A hazard may have been before the steps.
widen : (o : Outcome Dispatcher) (a b : Bool) → (a ≡ true → b ≡ true) → IsRun a o → IsRun b o
widen blocked a b w h = h
widen panics a b w h = w h
widen (steps d) a b w h = h

after_step :
    (past : Bool) (d : Dispatcher) (e : Event) (es : List Event) (o : Outcome Dispatcher)
    → (IsSafe d ⊎ (past ≡ true))
    → IsGood d e o
    → IsRun (past || hazards d es) (run d es)
    → ((d' : Dispatcher)
        → IsPlaced d'
        → (IsSafe d' ⊎ ((past || is_hazard d e) ≡ true))
        → IsRun ((past || is_hazard d e) || hazards d' es) (run d' es))
    → IsRun
        (past
          || (is_hazard d e
              || (elim o [ blocked ↦ hazards d es | panics ↦ false | steps d' ↦ hazards d' es ])))
        (elim o [ blocked ↦ run d es | panics ↦ panics | steps d' ↦ run d' es ])
after_step past d e es blocked c good same next =
    widen (run d es) (past || hazards d es) _ (λ h. ground (arith, h)) same
after_step past d e es panics (inl safe) good same next = absurd (good safe)
after_step past d e es panics (inr was) good same next = ground (arith, was)
after_step past d e es (steps d') c good same next =
    widen (run d' es) ((past || is_hazard d e) || hazards d' es) _ (λ h. ground (arith, h))
      (next d' good.0 (still c))
  where
    still : (IsSafe d ⊎ (past ≡ true)) → IsSafe d' ⊎ ((past || is_hazard d e) ≡ true)
    still (inl safe) = elim (good.1 safe) [ inl s ↦ inl s | inr h ↦ inr (ground (arith, h)) ]
    still (inr was) = inr (ground (arith, was))

run-IsRun :
    (es : List Event) (past : Bool) (d : Dispatcher)
    → IsPlaced d
    → (IsSafe d ⊎ (past ≡ true))
    → IsRun (past || hazards d es) (run d es)
unfolding run hazards
run-IsRun [] past d placed c = placed
run-IsRun (e ∷ es) past d placed c =
    after_step past d e es (step d e) c (step-IsGood d e placed) (run-IsRun es past d placed c)
      (λ d' placed' c'. run-IsRun es (past || is_hazard d e) d' placed' c')

-- From a dispatcher whose channel is open, in which each timer is where its place says and no exec is
-- about to launch a callback that is gone, whatever steps its goroutines take in whatever order: they
-- panic only if Stop was among them to its end, or a Stop of a timer between the two times that exec
-- reads its callback. Else each timer is once in the channel if its place is there, and in no other
-- case; and its callback was launched at most once, and only if exec is done with it.
pub dispatcher_run-IsRun :
    (es : List Event) (d : Dispatcher) → IsPlaced d → IsSafe d → IsRun (hazards d es) (run d es)
dispatcher_run-IsRun es d placed safe = run-IsRun es false d placed (inl safe)
