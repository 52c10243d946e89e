-- ===== src/Container/Priority/Tests.antt =====
-- A priority queue of numbers on slices that double.
use Prim.Native.Nat.{max}
use mathlib.Core.List.{Perm}
use czx.Base.{
  ℕ, zero, suc, ◌*◌, ◌≡◌, ◌⊎◌, ◌||◌, true, false, List, [], ◌∷◌, some, refl, arith, length, leb,
  map,
}
use czx.Base.Int.{pos, negsuc}
use czx.Container.Queue.{Growth}
use czx.Container.Heap.{Item, before}
use czx.Container.Heap.Order.{Heaped}
use czx.Container.Priority.{PriorityQueue, PriorityItem, push}
use czx.Container.Priority.Order.{IsOrdered, Pushed, is_full, push-Pushed}
use czx.Container.Priority.Calls.{
  Call, pushes, pops, awaits, peeks, clears, shrinks, closes, run_from, calls-IsOrdered,
}
use czx.Container.Priority.Drain
use czx.Container.Priority.Drain.{Ascends, pops-Ascends}

abbrev doubling : Growth
doubling = record {
  next_cap = λ old needed. max (old * 2) needed;
  needed-le = λ old needed. omega arith;
}

abbrev start : PriorityQueue ℕ
start = record {
  items = [];
  cap = 0;
  max_cap = pos 3;
  recycler = some (λ n c. leb (n * 2) c);
  closed = false;
}

abbrev zeroth : Item ℕ
zeroth = record { value = 0; priority = pos 0; timestamp = pos 0 }

abbrev entry : ℕ → PriorityItem ℕ
entry n = record { value = n; priority = negsuc n }

start-IsOrdered : IsOrdered zeroth start
start-IsOrdered = record { heaped = λ c h k. absurd (omega arith); within = λ h. omega arith }

abbrev calls : List (Call ℕ)
calls =
    pushes (entry 4) (pos 1)
    ∷ pushes (entry 9) (pos 1)
    ∷ peeks
    ∷ pushes (entry 9) (pos 0)
    ∷ pushes (entry 7) (pos 5)
    ∷ pops
    ∷ awaits
    ∷ shrinks
    ∷ pops
    ∷ pops
    ∷ clears
    ∷ closes
    ∷ awaits
    ∷ []

calls-IsOrdered_example :
    (pq : PriorityQueue ℕ) × (run_from doubling (some start) calls ≡ some pq) × IsOrdered zeroth pq
calls-IsOrdered_example = calls-IsOrdered doubling zeroth calls start start-IsOrdered

push-Pushed_example :
    ((start.closed || is_full start.max_cap (length start.items) ≡ true)
      × (push doubling start (entry 5) (pos 1) ≡ some (false, start)))
    ⊎ ((start.closed || is_full start.max_cap (length start.items) ≡ false)
        × ((pq : PriorityQueue ℕ) × (push doubling start (entry 5) (pos 1) ≡ some (true, pq))
            × Pushed zeroth start (entry 5) (pos 1) pq))
push-Pushed_example = push-Pushed doubling zeroth start (entry 5) (pos 1) start-IsOrdered

abbrev three : PriorityQueue ℕ
three = record start {
  items =
      record { value = 9; priority = negsuc 9; timestamp = pos 1 }
      ∷ record { value = 4; priority = negsuc 4; timestamp = pos 1 }
      ∷ record { value = 7; priority = negsuc 9; timestamp = pos 5 }
      ∷ [];
  cap = 4;
}

three-Heaped : Heaped zeroth 3 three.items
unfolding before
three-Heaped zero p h = absurd (omega arith)
three-Heaped (suc zero) p h = refl
three-Heaped (suc (suc zero)) p h = refl
three-Heaped (suc (suc (suc c))) p h = absurd (omega arith)

three-IsOrdered : IsOrdered zeroth three
three-IsOrdered = record { heaped = three-Heaped; within = λ h. omega arith }

pops-Ascends_example :
    (xs : List (Item ℕ)) × (pq : PriorityQueue ℕ) × (Drain.pops 3 three
      ≡ some (map (λ (x : Item ℕ). x.value) xs, pq))
    × Perm three.items xs
    × Ascends xs
    × (pq.items ≡ [])
pops-Ascends_example = pops-Ascends zeroth 3 three three-IsOrdered refl
