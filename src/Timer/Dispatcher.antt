-- ===== src/Timer/Dispatcher.antt =====
-- timer/timer.go: the dispatcher of timers, as steps of the runtime's timers, of the goroutine of Start
-- and of Stop. A timer is a number, its index among those made; a callback is launched when `go t.cb()`
-- runs. Nothing guards `t.cb`, so exec reads it in two steps, and Timer.Stop may come between them:
-- `go` on a nil function is a panic, as is a nil timer received from the closed channel. Timer.Stop is
-- one step: it stops the runtime's timer first, and a timer on which that has an effect has no other
-- step before its callback is cleared. Start runs once.
pub mod Places
pub mod Placed
pub mod Safe
pub mod Good
pub mod Steps
mod Tests
use czx.Base.{
  ℕ, zero, suc, ◌+◌, Option, none, some, Bool, true, false, not, ◌&&◌, List, [], ◌∷◌, ◌++◌, ltb,
  ◌==◌, if◌then◌else◌, length, get_or, set, Outcome, blocked, panics, steps,
}

-- Where a timer is: it has not fired, it is stopped before that, its goroutine is in the select of
-- AfterFunc, it is in the channel, it has been handed to exec, exec has found its callback, or exec is
-- done with it.
pub data Place : Type 0 where
  armed disarmed selecting queued handed ready executed : Place

pub record Timer : Type 0 where
  pub place : Place
  pub has_cb : Bool

-- The goroutine of Start.
pub data Starter : Type 0 where
  off looping draining returned : Starter

-- The goroutine of Stop, behind its sync.Once.
pub data Stopper : Type 0 where
  idle waiting ended : Stopper

-- `busy` is the timer that the goroutine of Start runs exec on.
pub record Dispatcher : Type 0 where
  pub timers : List Timer
  pub chan_timer : List ℕ
  pub cap : ℕ
  pub chan_closed : Bool
  pub done : Bool
  pub starter : Starter
  pub busy : Option ℕ
  pub stopper : Stopper
  pub launched : List ℕ

unfoldable pub new_dispatcher : ℕ → Dispatcher
new_dispatcher l = record {
  timers = [];
  chan_timer = [];
  cap = l;
  chan_closed = false;
  done = false;
  starter = off;
  busy = none;
  stopper = idle;
  launched = [];
}

abbrev pub nowhere : Timer
nowhere = record { place = disarmed; has_cb = false }

abbrev pub timer : Dispatcher → ℕ → Timer
timer d i = get_or d.timers i nowhere

abbrev pub move : Dispatcher → ℕ → Place → Dispatcher
move d i p = record d { timers = set d.timers i (record (timer d i) { place = p }) }

-- AfterFunc
unfoldable pub after_func : Dispatcher → Dispatcher
after_func d = record d { timers = d.timers ++ (record { place = armed; has_cb = true } ∷ []) }

abbrev pub disarm : Place → Place
disarm armed = disarmed
disarm p = p

-- Timer.Stop
unfoldable pub stop_timer : Dispatcher → ℕ → Dispatcher
stop_timer d i = record d {
  timers = set d.timers i (record { place = disarm (timer d i).place; has_cb = false });
}

abbrev pub only {ℓ} : {A : Type ℓ} → Bool → A → Outcome A
only b a = if b then steps a else blocked

abbrev pub is_selecting : Place → Bool
is_selecting selecting = true
is_selecting p = false

abbrev pub is_armed : Place → Bool
is_armed armed = true
is_armed p = false

abbrev pub is_handed : Place → Bool
is_handed handed = true
is_handed p = false

abbrev pub is_ready : Place → Bool
is_ready ready = true
is_ready p = false

-- Start goes on, where it ran exec on this timer.
abbrev pub freed : ℕ → Option ℕ → Option ℕ
freed i none = none
freed i (some j) = if i == j then none else some j

-- The end of exec, with what was launched.
abbrev pub finish : Dispatcher → ℕ → List ℕ → Dispatcher
finish d i launched = record (move d i executed) { busy = freed i d.busy; launched = launched }

-- `t.cb != nil` of exec
unfoldable pub test_cb : Dispatcher → ℕ → Outcome Dispatcher
test_cb d i =
    only (is_handed (timer d i).place)
      (if (timer d i).has_cb then move d i ready else finish d i d.launched)

-- `go t.cb()` of exec, which reads `t.cb` again
unfoldable pub launch_cb : Dispatcher → ℕ → Outcome Dispatcher
launch_cb d i =
    if not (is_ready (timer d i).place)
    then blocked
    else if (timer d i).has_cb
    then steps (finish d i (d.launched ++ (i ∷ [])))
    else panics

-- The runtime's timer fires.
unfoldable pub fire : Dispatcher → ℕ → Outcome Dispatcher
fire d i = only (is_armed (timer d i).place) (move d i selecting)

-- `case disp.chanTimer <- t`
unfoldable pub send_timer : Dispatcher → ℕ → Outcome Dispatcher
send_timer d i =
    if not (is_selecting (timer d i).place)
    then blocked
    else if d.chan_closed
    then panics
    else only (ltb (length d.chan_timer) d.cap)
        (record (move d i queued) { chan_timer = d.chan_timer ++ (i ∷ []) })

-- `case <-disp.done` of AfterFunc
unfoldable pub see_done : Dispatcher → ℕ → Outcome Dispatcher
see_done d i = only (is_selecting (timer d i).place && d.done) (move d i handed)

abbrev pub is_running : Starter → Bool
is_running looping = true
is_running draining = true
is_running s = false

abbrev pub is_free : Option ℕ → Bool
is_free none = true
is_free (some i) = false

-- The goroutine of Start takes a timer for exec.
abbrev pub take_timer : Dispatcher → ℕ → Dispatcher
take_timer d i = record (move d i handed) { busy = some i }

-- Receives a timer from the buffer; `empty` is what happens on an empty, open channel.
unfoldable pub receive : Dispatcher → List ℕ → Outcome Dispatcher → Outcome Dispatcher
receive d [] empty = if d.chan_closed then panics else empty
receive d (i ∷ is) empty = steps (take_timer (record d { chan_timer = is }) i)

abbrev pub turn : Dispatcher → Starter → Outcome Dispatcher
turn d looping = receive d d.chan_timer blocked
turn d draining = receive d d.chan_timer (steps (record d { starter = returned }))
turn d s = blocked

-- Without a buffer a send and a receive happen at once.
unfoldable pub meet : Dispatcher → ℕ → Outcome Dispatcher
meet d i =
    only
      (is_selecting (timer d i).place
        && not d.chan_closed
        && d.cap == 0
        && is_running d.starter
        && is_free d.busy)
      (take_timer d i)

abbrev pub is_looping : Starter → Bool
is_looping looping = true
is_looping s = false

abbrev pub is_off : Starter → Bool
is_off off = true
is_off s = false

abbrev pub is_idle : Stopper → Bool
is_idle idle = true
is_idle s = false

abbrev pub is_waiting : Stopper → Bool
is_waiting waiting = true
is_waiting s = false

pub data Event : Type 0 where
  makes : Event
  stops_timer fires sends sees_done meets tests launches : ℕ → Event
  starts takes sees_stop : Event
  begins_stop finishes_stop : Event

unfoldable pub step : Dispatcher → Event → Outcome Dispatcher
unfolding after_func stop_timer fire send_timer see_done receive meet test_cb launch_cb
step d makes = steps (after_func d)
step d (stops_timer i) = steps (stop_timer d i)
step d (fires i) = fire d i
step d (sends i) = send_timer d i
step d (sees_done i) = see_done d i
step d (meets i) = meet d i
step d (tests i) = test_cb d i
step d (launches i) = launch_cb d i
step d starts = only (is_off d.starter) (record d { starter = looping })
step d takes = if is_free d.busy then turn d d.starter else blocked
step d sees_stop =
    only (is_looping d.starter && is_free d.busy && d.done) (record d { starter = draining })
step d begins_stop = only (is_idle d.stopper) (record d { done = true; stopper = waiting })
step d finishes_stop =
    only (is_waiting d.stopper && not (is_running d.starter))
      (record d { chan_closed = true; stopper = ended })

-- The steps one after the other; one that is not ready is not taken.
unfoldable pub run : Dispatcher → List Event → Outcome Dispatcher
unfolding step
run d [] = steps d
run d (e ∷ es) = elim (step d e) [ blocked ↦ run d es | panics ↦ panics | steps d' ↦ run d' es ]
