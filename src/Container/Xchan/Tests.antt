-- ===== src/Container/Xchan/Tests.antt =====
-- A short life of the channel: two values through the buffer and one past it.
use czx.Base.{ℕ, true, false, List, [], ◌∷◌, ◌++◌, some, refl, ◌≡◌, arith, replicate}
use czx.Base.Int.{pos}
use czx.Container.Ring
use czx.Container.Ring.{
  RingBuffer, new_ring_buffer, len, is_empty, cap_of, peek, pop, read, write, reset,
}
use czx.Container.Ring.Inv.{IsValid}
use czx.Container.Ring.Refine.{contents}
use czx.Container.Xchan.{
  Xchan, Event, produce, close_in, work, receive, send, draining, stopped, new_xchan, step, run,
  worker, main_step, idle_step, busy_step, settle, drain_step, drain_round,
}
use czx.Container.Xchan.Order.{pending, delivers_in_order}
use czx.Container.Xchan.Complete.{delivers_everything, drain_ends}

abbrev life : List (Event ℕ)
life =
    produce 1
    ∷ produce 2
    ∷ produce 3
    ∷ work (receive true)
    ∷ work (receive false)
    ∷ work (receive true)
    ∷ close_in
    ∷ work (receive false)
    ∷ work send
    ∷ work send
    ∷ work send
    ∷ []

abbrev ended : Xchan ℕ
ended = record {
  bufsize = pos 2;
  sent = 1 ∷ 2 ∷ 3 ∷ [];
  input = [];
  in_closed = true;
  buffer = record { buf = 0 ∷ 0 ∷ []; init = 2; size = 2; r = 0; w = 0 };
  out = 1 ∷ 2 ∷ 3 ∷ [];
  mode = stopped;
  cancelled = false;
}

life_ends : run 0 (new_xchan 0 (pos 2)) life ≡ some ended
unfolding run step worker main_step idle_step busy_step settle drain_step drain_round new_xchan
    Ring.new_ring_buffer Ring.is_empty Ring.peek Ring.pop Ring.write Ring.reset Ring.cap_of Ring.len
    Ring.read Ring.grow Ring.copy_loop
life_ends = refl

delivers_in_order_example : ended.sent ≡ ended.out ++ pending 0 ended
delivers_in_order_example = delivers_in_order 0 (pos 2) life {y = ended} life_ends

delivers_everything_example : ended.out ≡ ended.sent
delivers_everything_example = delivers_everything 0 (pos 2) life {y = ended} life_ends refl refl

abbrev draining_two : Xchan ℕ
draining_two = record {
  bufsize = pos 2;
  sent = 1 ∷ 2 ∷ 3 ∷ [];
  input = [];
  in_closed = true;
  buffer = record { buf = 3 ∷ 0 ∷ 2 ∷ []; init = 2; size = 3; r = 2; w = 1 };
  out = 1 ∷ [];
  mode = draining;
  cancelled = false;
}

two-IsValid : IsValid draining_two.buffer
two-IsValid = record { sized = refl; started = omega arith; r_in = omega arith; w_in = omega arith }

drain_ends_example :
    (y : Xchan ℕ) × (run 0 draining_two (replicate 3 (work send)) ≡ some y)
    × (y.mode ≡ stopped)
    × (y.out ≡ draining_two.out ++ contents 0 draining_two.buffer)
unfolding Ring.len
drain_ends_example = drain_ends 0 2 draining_two two-IsValid refl refl
