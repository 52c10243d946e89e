-- ===== src/Container/Xchan.antt =====
-- container/cqueue/xchan.go: a channel with a growing buffer between a bounded input and a bounded
-- output channel, moved by one worker goroutine. The worker waits in `select`: a step names the case
-- that fires, and is refused where that case is not ready.
mod Tests
pub mod Order
pub mod Complete
mod Buffer
use czx.Base.{
  ℕ, suc, ◌<◌, Bool, true, false, not, ◌&&◌, List, [], ◌∷◌, ◌++◌, Option, none, some, if◌then◌else◌,
}
use czx.Base.Int.{ℤ, pos, negsuc, to_nat}
use czx.Container.Ring
use czx.Container.Ring.{RingBuffer}
use czx.Base.{ltb}

pub data Mode : Type 0 where
  -- in the main loop; in `drain`; returned, with `out` closed
  running draining stopped : Mode

-- `input` holds what was sent on `in` and not yet received, blocked senders included, in order.
-- `out` holds all that was ever sent on the output channel, and `sent` all that was sent on `in`.
pub record Xchan {ℓ} (T : Type ℓ) : Type ℓ where
  pub bufsize : ℤ
  pub sent : List T
  pub input : List T
  pub in_closed : Bool
  pub buffer : RingBuffer T
  pub out : List T
  pub mode : Mode
  pub cancelled : Bool

-- The case of the worker's `select`: the context is done, a receive on `in` (with whether `out` is
-- ready for the inner `select`), or a send on `out`.
pub data Select : Type 0 where
  ctx_done : Select
  receive : Bool → Select
  send : Select

pub data Event {ℓ} (T : Type ℓ) : Type ℓ where
  produce : T → Event T
  close_in : Event T
  work : Select → Event T

module _ {ℓ} {T : Type ℓ} (z : T) where
  -- `x.buffer.Cap() > x.conf.Bufsize`
  abbrev exceeds : ℕ → ℤ → Bool
  exceeds n (pos m) = ltb m n
  exceeds n (negsuc m) = true

  pub new_xchan : ℤ → Xchan T
  new_xchan bufsize = record {
    bufsize = bufsize;
    sent = [];
    input = [];
    in_closed = false;
    buffer = Ring.new_ring_buffer z bufsize;
    out = [];
    mode = running;
    cancelled = false;
  }

  abbrev cancel : Xchan T → Xchan T
  cancel x = record x { mode = stopped; cancelled = true }

  -- `case out <- val: x.buffer.Pop()`
  abbrev pub give : Xchan T → T → Xchan T
  give x v = record x { out = x.out ++ (v ∷ []); buffer = (Ring.pop z x.buffer).1 }

  -- The main loop with an empty buffer.
  pub idle_step : Xchan T → Select → Option (Xchan T)
  idle_step x ctx_done = some (cancel x)
  idle_step x (receive out_ready) = elim x.input [
    | [] ↦ if x.in_closed then some (record x { mode = stopped }) else none
    | v ∷ rest ↦
        if out_ready
        then some (record x { input = rest; out = x.out ++ (v ∷ []) })
        else some (record x { input = rest; buffer = Ring.write z x.buffer v })
  ]
  idle_step x send = none

  -- After a value was given out of the buffer: `Reset` if it is empty and has grown.
  pub settle : Xchan T → Xchan T
  settle x =
      if Ring.is_empty z x.buffer && exceeds (Ring.cap_of z x.buffer) x.bufsize
      then record x { buffer = Ring.reset z x.buffer }
      else x

  -- The main loop with the value `val` at the front of the buffer.
  pub busy_step : Xchan T → T → Select → Option (Xchan T)
  busy_step x val ctx_done = some (cancel x)
  busy_step x val (receive out_ready) = elim x.input [
    | [] ↦ if x.in_closed then some (record x { mode = draining }) else none
    | v ∷ rest ↦ some (record x { input = rest; buffer = Ring.write z x.buffer v })
  ]
  busy_step x val send = some (settle (give x val))

  pub main_step : Xchan T → Select → Option (Xchan T)
  main_step x c =
      if Ring.is_empty z x.buffer
      then idle_step x c
      else (elim (Ring.peek z x.buffer) [ none ↦ some x | some val ↦ busy_step x val c ])

  -- A round of `drain`, which waits in a `select` with no receive.
  pub drain_round : Xchan T → T → Select → Option (Xchan T)
  drain_round x val ctx_done = some (cancel x)
  drain_round x val (receive out_ready) = none
  drain_round x val send = some (give x val)

  pub drain_step : Xchan T → Select → Option (Xchan T)
  drain_step x c =
      if Ring.is_empty z x.buffer
      then some (record x { buffer = Ring.reset z x.buffer; mode = stopped })
      else (elim (Ring.peek z x.buffer) [
        | none ↦ some (record x { mode = stopped })
        | some val ↦ drain_round x val c
      ])

  pub worker : Mode → Xchan T → Select → Option (Xchan T)
  worker running x c = main_step x c
  worker draining x c = drain_step x c
  worker stopped x c = none

  -- A send on a closed channel, or a second close, panics: no step.
  pub step : Xchan T → Event T → Option (Xchan T)
  step x (produce v) =
      if x.in_closed
      then none
      else some (record x { input = x.input ++ (v ∷ []); sent = x.sent ++ (v ∷ []) })
  step x close_in = if x.in_closed then none else some (record x { in_closed = true })
  step x (work c) = worker x.mode x c

  pub run : Xchan T → List (Event T) → Option (Xchan T)
  run x [] = some x
  run x (e ∷ es) = elim (step x e) [ none ↦ none | some x' ↦ run x' es ]
