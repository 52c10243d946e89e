-- ===== src/Container/Queue/Tests.antt =====
-- A queue of numbers on slices that double, and two goroutines asleep in WaitPop.
use Prim.Native.Nat.{max}
use czx.Base.{ℕ, ◌*◌, ◌≡◌, false, List, [], ◌∷◌, some, refl, arith, leb, ◌==◌, OnSome}
use czx.Base.Int.{pos, negsuc}
use czx.Container.Queue.{Growth, Queue, new_queue}
use czx.Container.Queue.Refine.{
  Call, pushes, pops, waits, closes, shrinks, deletes, batches, view, run, run_spec, calls_refine,
}
use czx.Container.Queue.Waiters
use czx.Container.Queue.Waiters.{Waiters, Served, Stands, one_waiter-Served, two_waiters_stranded}

-- The larger of the double and of what is needed.
abbrev doubling : Growth
doubling = record {
  next_cap = λ old needed. max (old * 2) needed;
  needed-le = λ old needed. omega arith;
}

abbrev pair : Queue ℕ
pair = record {
  queue = 4 ∷ 9 ∷ [];
  cap = 6;
  max_capacity = pos 3;
  recycler = some (λ n c. leb (n * 2) c);
  closed = false;
}

abbrev calls : List (Call ℕ)
calls =
    pushes (1 ∷ 2 ∷ [])
    ∷ pushes (3 ∷ [])
    ∷ pops
    ∷ waits
    ∷ batches (pos 1)
    ∷ deletes (λ n. n == 2)
    ∷ waits
    ∷ batches (negsuc 0)
    ∷ shrinks
    ∷ closes
    ∷ waits
    ∷ []

calls_refine_example : run doubling pair calls ≡ run_spec (view pair) calls
calls_refine_example = calls_refine doubling calls pair

abbrev one_asleep : Waiters ℕ
one_asleep = record { q = new_queue (pos 0); asleep = 1; awake = 0 }

one_asleep-Served : Served doubling one_asleep
unfolding new_queue
one_asleep-Served = record { reason = λ _. (refl, refl) }

one_waiter-Served_example :
    OnSome (Served doubling) (Waiters.step doubling one_asleep (Waiters.pushes (5 ∷ [])))
one_waiter-Served_example =
    one_waiter-Served doubling one_asleep (Waiters.pushes (5 ∷ [])) (omega arith) one_asleep-Served

abbrev two_asleep : Waiters ℕ
two_asleep = record { q = new_queue (pos 0); asleep = 2; awake = 0 }

two_asleep-Stands : Stands doubling two_asleep [] 2 0
unfolding new_queue
two_asleep-Stands = record {
  opened = refl;
  holds = refl;
  roomy = refl;
  sleepers = refl;
  watchers = refl;
}

two_waiters_stranded_example :
    (t : Waiters ℕ) × (Waiters.run doubling two_asleep
        (Waiters.pushes (5 ∷ []) ∷ Waiters.pushes (6 ∷ []) ∷ Waiters.turn ∷ [])
      ≡ some t)
    × Stands doubling t (6 ∷ []) 1 0
two_waiters_stranded_example = two_waiters_stranded doubling two_asleep 0 5 6 two_asleep-Stands
