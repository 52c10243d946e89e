-- ===== src/Timer/Dispatcher/Good.antt =====
-- What one step of a dispatcher keeps.
use czx.Base.{
  ℕ, ◌≤◌, ◌≡◌, ◌≢◌, refl, ◌∙◌, ◌⊎◌, inl, inr, Bool, true, false, not, List, [], ◌∷◌, arith, Outcome,
  blocked, panics, steps, if_cases, Bool-cases,
}
use czx.Timer.Dispatcher.{
  Place, armed, disarmed, selecting, queued, handed, ready, executed, Starter, looping, draining,
  off, returned, Dispatcher, timer, move, only, is_selecting, is_armed, is_handed, is_ready,
  after_func, stop_timer, test_cb, launch_cb, fire, send_timer, see_done, receive, turn, meet,
  is_free, Event, makes, stops_timer, fires, sends, sees_done, meets, tests, launches, starts,
  takes, sees_stop, begins_stop, finishes_stop, step,
}
use czx.Timer.Dispatcher.Places.{place_of, risk, IsPlaced, IsSafe, in_channel, may_run}
use czx.Timer.Dispatcher.Placed.{
  move-IsPlaced, send-IsPlaced, receive-IsPlaced, launch-IsPlaced, stop-IsPlaced,
  after_func-IsPlaced, received_place,
}
use czx.Timer.Dispatcher.Safe.{move-risk, stop_risk, made_risk}

-- The steps behind which a panic may come: the end of Stop, which closes the channel, and Stop of a
-- timer whose exec has found its callback and has not launched it yet.
abbrev pub is_hazard : Dispatcher → Event → Bool
is_hazard d finishes_stop = true
is_hazard d (stops_timer i) = is_ready (timer d i).place
is_hazard d e = false

abbrev pub IsGood : Dispatcher → Event → Outcome Dispatcher → Type 0
IsGood d e blocked = Unit {0}
IsGood d e panics = IsSafe d → ⊥
IsGood d e (steps d') = IsPlaced d' × (IsSafe d → IsSafe d' ⊎ (is_hazard d e ≡ true))

only-IsGood :
    (d d' : Dispatcher) (e : Event) (b : Bool)
    → (b ≡ true → IsGood d e (steps d'))
    → IsGood d e (only b d')
only-IsGood d d' e true h = h refl
only-IsGood d d' e false h = tt

armed_lem : (p : Place) → is_armed p ≡ true → p ≡ armed
armed_lem armed h = refl
armed_lem disarmed h = absurd (cc h)
armed_lem selecting h = absurd (cc h)
armed_lem queued h = absurd (cc h)
armed_lem handed h = absurd (cc h)
armed_lem ready h = absurd (cc h)
armed_lem executed h = absurd (cc h)

selecting_lem : (p : Place) → is_selecting p ≡ true → p ≡ selecting
selecting_lem selecting h = refl
selecting_lem disarmed h = absurd (cc h)
selecting_lem armed h = absurd (cc h)
selecting_lem queued h = absurd (cc h)
selecting_lem handed h = absurd (cc h)
selecting_lem ready h = absurd (cc h)
selecting_lem executed h = absurd (cc h)

handed_lem : (p : Place) → is_handed p ≡ true → p ≡ handed
handed_lem handed h = refl
handed_lem disarmed h = absurd (cc h)
handed_lem armed h = absurd (cc h)
handed_lem selecting h = absurd (cc h)
handed_lem queued h = absurd (cc h)
handed_lem ready h = absurd (cc h)
handed_lem executed h = absurd (cc h)

ready_lem : (p : Place) → is_ready p ≡ true → p ≡ ready
ready_lem ready h = refl
ready_lem disarmed h = absurd (cc h)
ready_lem armed h = absurd (cc h)
ready_lem selecting h = absurd (cc h)
ready_lem queued h = absurd (cc h)
ready_lem handed h = absurd (cc h)
ready_lem executed h = absurd (cc h)

move-IsSafe :
    (d : Dispatcher) (i : ℕ) (q : Place)
    → place_of d i ≢ disarmed
    → risk q (timer d i).has_cb ≡ 0
    → IsSafe d
    → IsSafe (move d i q)
move-IsSafe d i q ne none' (open', safe) = (open', λ j. move-risk d i j q ne none' (safe j))

receive-IsGood :
    (d : Dispatcher) (is : List ℕ) (empty : Outcome Dispatcher)
    → IsPlaced d
    → d.chan_timer ≡ is
    → IsGood d takes empty
    → IsGood d takes (receive d is empty)
unfolding receive
receive-IsGood d [] empty placed e h =
    if_cases (IsGood d takes) d.chan_closed _ _
      (λ closed (open', safe). absurd (cc (closed, open'))) (λ open'. h)
receive-IsGood d (i ∷ is) empty placed e h = (
  receive-IsPlaced d i is placed e,
  λ safe. inl (move-IsSafe d i handed (received_place d i is placed e) refl safe),
)

turn-IsGood : (d : Dispatcher) (s : Starter) → IsPlaced d → IsGood d takes (turn d s)
turn-IsGood d looping placed = receive-IsGood d d.chan_timer blocked placed refl tt
turn-IsGood d draining placed =
    receive-IsGood d d.chan_timer (steps (record d { starter = returned })) placed refl
      (placed, λ safe. inl safe)
turn-IsGood d off placed = tt
turn-IsGood d returned placed = tt

send-IsGood : (d : Dispatcher) (i : ℕ) → IsPlaced d → IsGood d (sends i) (send_timer d i)
unfolding send_timer
send-IsGood d i placed =
    if_cases (IsGood d (sends i)) (not (is_selecting (timer d i).place)) _ _ (λ elsewhere. tt)
      (λ here.
        if_cases (IsGood d (sends i)) d.chan_closed _ _
          (λ closed (open', safe). absurd (cc (closed, open')))
          (λ open'. only-IsGood d _ (sends i) _ (λ room.
            let e = selecting_lem (place_of d i) (ground arith) in
            let ne : place_of d i ≢ disarmed = λ h. absurd (cc (e, h)) in
            (send-IsPlaced d i placed e ne, λ safe. inl (move-IsSafe d i queued ne refl safe)))))

-- A step of one timer between places of which neither is in the channel.
moves-IsGood :
    (d : Dispatcher) (ev : Event) (i : ℕ) (p q : Place)
    → IsPlaced d
    → place_of d i ≡ p
    → place_of d i ≢ disarmed
    → in_channel p ≡ in_channel q
    → may_run p ≤ may_run q
    → risk q (timer d i).has_cb ≡ 0
    → IsGood d ev (steps (move d i q))
moves-IsGood d ev i p q placed e ne same more none' =
    (move-IsPlaced d i p q placed e ne same more, λ safe. inl (move-IsSafe d i q ne none' safe))

test-IsGood : (d : Dispatcher) (i : ℕ) → IsPlaced d → IsGood d (tests i) (test_cb d i)
unfolding test_cb
test-IsGood d i placed = only-IsGood d _ (tests i) _ (λ h.
    let e = handed_lem (place_of d i) h in
    let ne : place_of d i ≢ disarmed = λ g. absurd (cc (e, g)) in
    if_cases (λ (d' : Dispatcher). IsGood d (tests i) (steps d')) (timer d i).has_cb _ _
      (λ has. moves-IsGood d (tests i) i handed ready placed e ne refl (omega arith) (rw has refl))
      (λ gone.
        let (p, s) =
          moves-IsGood d (tests i) i handed executed placed e ne refl (omega arith) refl in
        (p, λ safe. s safe)))

launch-IsGood : (d : Dispatcher) (i : ℕ) → IsPlaced d → IsGood d (launches i) (launch_cb d i)
unfolding launch_cb
launch-IsGood d i placed =
    if_cases (IsGood d (launches i)) (not (is_ready (timer d i).place)) _ _ (λ elsewhere. tt)
      (λ here.
        let e = ready_lem (place_of d i) (ground arith) in
        let ne : place_of d i ≢ disarmed = λ g. absurd (cc (e, g)) in
        if_cases (IsGood d (launches i)) (timer d i).has_cb _ _
          (λ has.
            (launch-IsPlaced d i placed e ne, λ safe. inl (move-IsSafe d i executed ne refl safe)))
          (λ gone (open', safe). at_risk (timer d i).place (timer d i).has_cb e gone (safe i)))
  where
    at_risk : (p : Place) (b : Bool) → p ≡ ready → b ≡ false → risk p b ≡ 0 → ⊥
    at_risk p b e g h = let it : risk p b ≡ 1 = rw (e, g) refl in omega (arith, it)

stop-IsGood :
    (d : Dispatcher) (i : ℕ) → IsPlaced d → IsGood d (stops_timer i) (steps (stop_timer d i))
stop-IsGood d i placed =
    (stop-IsPlaced d i placed, λ safe. either safe (Bool-cases (is_ready (place_of d i))))
  where
    either :
        IsSafe d
        → ((is_ready (place_of d i) ≡ true) ⊎ (is_ready (place_of d i) ≡ false))
        → IsSafe (stop_timer d i) ⊎ (is_ready (place_of d i) ≡ true)
    either safe (inl between) = inr between
    either (open', safe) (inr h) = inl (unfold stop_timer in open', λ j. stop_risk d i j h (safe j))

-- Each step keeps the timers in their places, and none panics in a safe dispatcher.
pub step-IsGood : (d : Dispatcher) (e : Event) → IsPlaced d → IsGood d e (step d e)
unfolding step
step-IsGood d makes placed = (
  after_func-IsPlaced d placed,
  λ (open', safe). inl (unfold after_func in (open', λ j. made_risk d.timers j ∙ safe j)),
)
step-IsGood d (stops_timer i) placed = stop-IsGood d i placed
step-IsGood d (fires i) placed =
    unfold fire in
    only-IsGood d _ (fires i) _ (λ h.
      let e = armed_lem (place_of d i) h in
      let ne : place_of d i ≢ disarmed = λ g. absurd (cc (e, g)) in
      moves-IsGood d (fires i) i armed selecting placed e ne refl (omega arith) refl)
step-IsGood d (sends i) placed = send-IsGood d i placed
step-IsGood d (sees_done i) placed =
    unfold see_done in
    only-IsGood d _ (sees_done i) _ (λ h.
      let e = selecting_lem (place_of d i) (ground (arith, h)) in
      let ne : place_of d i ≢ disarmed = λ g. absurd (cc (e, g)) in
      moves-IsGood d (sees_done i) i selecting handed placed e ne refl (omega arith) refl)
step-IsGood d (meets i) placed =
    unfold meet in
    only-IsGood d _ (meets i) _ (λ h.
      let e = selecting_lem (place_of d i) (ground (arith, h)) in
      let ne : place_of d i ≢ disarmed = λ g. absurd (cc (e, g)) in
      moves-IsGood d (meets i) i selecting handed placed e ne refl (omega arith) refl)
step-IsGood d (tests i) placed = test-IsGood d i placed
step-IsGood d (launches i) placed = launch-IsGood d i placed
step-IsGood d starts placed = only-IsGood d _ starts _ (λ h. (placed, λ safe. inl safe))
step-IsGood d takes placed =
    if_cases (IsGood d takes) (is_free d.busy) _ _ (λ free. turn-IsGood d d.starter placed)
      (λ busy. tt)
step-IsGood d sees_stop placed = only-IsGood d _ sees_stop _ (λ h. (placed, λ safe. inl safe))
step-IsGood d begins_stop placed = only-IsGood d _ begins_stop _ (λ h. (placed, λ safe. inl safe))
step-IsGood d finishes_stop placed =
    only-IsGood d _ finishes_stop _ (λ h. (placed, λ safe. inr refl))
