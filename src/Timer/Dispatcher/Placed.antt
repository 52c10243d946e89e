-- ===== src/Timer/Dispatcher/Placed.antt =====
-- Every step leaves the timers of a dispatcher at their places.
use czx.Base.{
  ℕ, zero, suc, ◌≤◌, ◌≡◌, ◌≢◌, refl, sym, ap, ◌∙◌, inl, inr, true, false, List, [], ◌∷◌, ◌++◌,
  arith, ltb, ◌==◌, if◌then◌else◌, length, get_or, set, Bool-cases,
}
use czx.Timer.Dispatcher.{
  Place, armed, disarmed, selecting, queued, handed, ready, executed, Timer, Dispatcher, nowhere,
  timer, move, after_func, disarm, stop_timer, finish, take_timer,
}
use czx.Timer.Dispatcher.Places.{
  count, count-append, in_channel, may_run, place_of, IsPlaced, get_or-set, changed_to, at_place,
  set_out, same_index,
}

-- A move between places that are the same to the channel, and no step back to where nothing ran.
pub move-IsPlaced :
    (d : Dispatcher) (i : ℕ) (p q : Place)
    → IsPlaced d
    → place_of d i ≡ p
    → place_of d i ≢ disarmed
    → in_channel p ≡ in_channel q
    → may_run p ≤ may_run q
    → IsPlaced (move d i q)
move-IsPlaced d i p q placed e ne same more j = ground (
  arith,
  changed_to (λ t. in_channel t.place) d i j (record (timer d i) { place = q }) ne,
  changed_to (λ t. may_run t.place) d i j (record (timer d i) { place = q }) ne,
  placed j,
  at_place d i p placed e,
  ap (λ k. count k d.chan_timer) {x = i} {y = j},
  ap (λ k. count k d.launched) {x = i} {y = j},
)

pub send-IsPlaced :
    (d : Dispatcher) (i : ℕ)
    → IsPlaced d
    → place_of d i ≡ selecting
    → place_of d i ≢ disarmed
    → IsPlaced (record (move d i queued) { chan_timer = d.chan_timer ++ (i ∷ []) })
send-IsPlaced d i placed e ne j = ground (
  arith,
  changed_to (λ t. in_channel t.place) d i j (record (timer d i) { place = queued }) ne,
  changed_to (λ t. may_run t.place) d i j (record (timer d i) { place = queued }) ne,
  count-append j d.chan_timer i,
  placed j,
  at_place d i selecting placed e,
  ap (λ k. count k d.chan_timer) {x = i} {y = j},
  ap (λ k. count k d.launched) {x = i} {y = j},
)

pub launch-IsPlaced :
    (d : Dispatcher) (i : ℕ)
    → IsPlaced d
    → place_of d i ≡ ready
    → place_of d i ≢ disarmed
    → IsPlaced (finish d i (d.launched ++ (i ∷ [])))
launch-IsPlaced d i placed e ne j = ground (
  arith,
  changed_to (λ t. in_channel t.place) d i j (record (timer d i) { place = executed }) ne,
  changed_to (λ t. may_run t.place) d i j (record (timer d i) { place = executed }) ne,
  count-append j d.launched i,
  placed j,
  at_place d i ready placed e,
  ap (λ k. count k d.chan_timer) {x = i} {y = j},
  ap (λ k. count k d.launched) {x = i} {y = j},
)

queued_in : (p : Place) (n : ℕ) → in_channel p ≡ suc n → (p ≡ queued) × (n ≡ 0)
queued_in armed n h = absurd (omega arith)
queued_in disarmed n h = absurd (omega arith)
queued_in selecting n h = absurd (omega arith)
queued_in queued n h = (refl, omega arith)
queued_in handed n h = absurd (omega arith)
queued_in ready n h = absurd (omega arith)
queued_in executed n h = absurd (omega arith)

-- A timer that is received was in the channel.
queued_at :
    (d : Dispatcher) (i : ℕ) (is : List ℕ)
    → IsPlaced d
    → d.chan_timer ≡ i ∷ is
    → (place_of d i ≡ queued) × (count i is ≡ 0)
queued_at d i is placed e =
    queued_in (place_of d i) (count i is) (sym (placed i).0 ∙ at_head counted)
  where
    counted : count i d.chan_timer ≡ (if i == i then suc (count i is) else count i is)
    counted = unfold count in ap (count i) e

    at_head :
        count i d.chan_timer ≡ (if i == i then suc (count i is) else count i is)
        → count i d.chan_timer ≡ suc (count i is)
    at_head c = ground (arith, c)

pub received_place :
    (d : Dispatcher) (i : ℕ) (is : List ℕ)
    → IsPlaced d
    → d.chan_timer ≡ i ∷ is
    → place_of d i ≢ disarmed
received_place d i is placed e h = let (q, none') = queued_at d i is placed e in absurd (cc (q, h))

-- A timer that is received is in the channel, and nowhere else.
pub receive-IsPlaced :
    (d : Dispatcher) (i : ℕ) (is : List ℕ)
    → IsPlaced d
    → d.chan_timer ≡ i ∷ is
    → IsPlaced (take_timer (record d { chan_timer = is }) i)
receive-IsPlaced d i is placed e j =
    let first = queued_at d i is placed e in
    let ne = received_place d i is placed e in
    ground (
      arith,
      changed_to (λ t. in_channel t.place) d i j (record (timer d i) { place = handed }) ne,
      changed_to (λ t. may_run t.place) d i j (record (timer d i) { place = handed }) ne,
      counted j,
      placed j,
      first.1,
      at_place d i queued placed first.0,
      ap (λ k. count k is) {x = i} {y = j},
      ap (λ k. count k d.launched) {x = i} {y = j},
    )
  where
    counted : (j : ℕ) → count j d.chan_timer ≡ (if i == j then suc (count j is) else count j is)
    counted j = unfold count in ap (count j) e

disarm_same :
    (p : Place) → (in_channel (disarm p) ≡ in_channel p) × (may_run (disarm p) ≡ may_run p)
disarm_same armed = (refl, refl)
disarm_same disarmed = (refl, refl)
disarm_same selecting = (refl, refl)
disarm_same queued = (refl, refl)
disarm_same handed = (refl, refl)
disarm_same ready = (refl, refl)
disarm_same executed = (refl, refl)

abbrev stopped_timer : Timer → Timer
stopped_timer t = record { place = disarm t.place; has_cb = false }

-- A timer that is stopped stays in the channel, or run, if it was.
stopped_same :
    (f : Place → ℕ) (ts : List Timer) (i j : ℕ)
    → ((p : Place) → f (disarm p) ≡ f p)
    → f (get_or (set ts i (stopped_timer (get_or ts i nowhere))) j nowhere).place
      ≡ f (get_or ts j nowhere).place
stopped_same f ts i j h = elim (Bool-cases (ltb i (length ts))) [
  | inl within ↦ elim (Bool-cases (i == j)) [
    | inl same ↦
        ap (λ u. f u.place)
          (rw same at (get_or-set ts i j (stopped_timer (get_or ts i nowhere)) (ground arith)))
        ∙ h (get_or ts i nowhere).place
        ∙ same_index (λ k. f (get_or ts k nowhere).place) i j same
    | inr other ↦
        ap (λ u. f u.place)
          (rw other at (get_or-set ts i j (stopped_timer (get_or ts i nowhere)) (ground arith)))
  ]
  | inr beyond ↦
      ap (λ us. f (get_or us j nowhere).place)
        (set_out ts i (stopped_timer (get_or ts i nowhere)) (ground arith))
]

pub stop-IsPlaced : (d : Dispatcher) (i : ℕ) → IsPlaced d → IsPlaced (stop_timer d i)
unfolding stop_timer
stop-IsPlaced d i placed j = ground (
  arith,
  placed j,
  stopped_same in_channel d.timers i j (λ p. (disarm_same p).0),
  stopped_same may_run d.timers i j (λ p. (disarm_same p).1),
)

-- A new timer is in no channel and has not run.
made_same :
    (f : Place → ℕ) (ts : List Timer) (j : ℕ)
    → f armed ≡ f disarmed
    → f (get_or (ts ++ (record { place = armed; has_cb = true } ∷ [])) j nowhere).place
      ≡ f (get_or ts j nowhere).place
made_same f [] zero h = h
made_same f [] (suc j) h = refl
made_same f (t ∷ ts) zero h = refl
made_same f (t ∷ ts) (suc j) h = made_same f ts j h

pub after_func-IsPlaced : (d : Dispatcher) → IsPlaced d → IsPlaced (after_func d)
unfolding after_func
after_func-IsPlaced d placed j =
    ground
      (arith, placed j, made_same in_channel d.timers j refl, made_same may_run d.timers j refl)
