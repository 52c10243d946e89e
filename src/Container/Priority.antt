-- ===== src/Container/Priority.antt =====
-- container/cqueue/priority_queue.go: the locked priority queue. Each method runs under the mutex, so a
-- call is one step; `now` is what time.Now().UnixMilli() gives it. A slice's capacity is kept for the
-- recycler; `append` grows it by the parameter `Growth`. The zero value that comes with `false` is none.
mod Tests
pub mod Order
pub mod Calls
pub mod Drain
use czx.Base.{
  ℕ, suc, ◌+◌, ◌-◌, Bool, true, false, not, ◌&&◌, List, [], ◌∷◌, ◌++◌, Option, none, some, ltb, leb,
  ◌==◌, if◌then◌else◌, length, get_elem?,
}
use czx.Base.Int.{ℤ, geb, is_nonpos}
use czx.Container.Queue.{Growth, Recycler, search_from}
use czx.Container.Heap.{Item, heap_push, heap_pop}

pub record PriorityQueue {ℓ} (T : Type ℓ) : Type ℓ where
  pub items : List (Item T)
  pub cap : ℕ
  pub max_cap : ℤ
  pub recycler : Option Recycler
  pub closed : Bool

pub record PriorityItem {ℓ} (T : Type ℓ) : Type ℓ where
  pub value : T
  pub priority : ℤ

-- What WaitPop does at its next look at the queue.
pub data Waited {ℓ} (T : Type ℓ) : Type ℓ where
  refused waits : Waited T
  takes : T → PriorityQueue T → Waited T

module _ {ℓ} {T : Type ℓ} where
  pub new_priority_queue : ℤ → PriorityQueue T
  new_priority_queue max_capacity = record {
    items = [];
    cap = 0;
    max_cap = max_capacity;
    recycler = none;
    closed = false;
  }

  pub with_recycler : PriorityQueue T → Recycler → PriorityQueue T
  with_recycler pq r = record pq { recycler = some r }

  pub close : PriorityQueue T → PriorityQueue T
  close pq = record pq { closed = true }

  abbrev pub clip : PriorityQueue T → PriorityQueue T
  clip pq = record pq { cap = length pq.items }

  abbrev pub asked : Option Recycler → PriorityQueue T → PriorityQueue T
  asked none pq = pq
  asked (some r) pq = if r (length pq.items) pq.cap then clip pq else pq

  -- shrink: where the recycler asks for it.
  abbrev pub shrink_if_asked : PriorityQueue T → PriorityQueue T
  shrink_if_asked pq = asked pq.recycler pq

  pub len : PriorityQueue T → ℕ
  len pq = length pq.items

  abbrev pub with_items : PriorityQueue T → List (Item T) → PriorityQueue T
  with_items pq q = record pq { items = q }

  -- Push: `none` is a panic, else whether the value was taken.
  pub push : Growth → PriorityQueue T → PriorityItem T → ℤ → Option (Bool × PriorityQueue T)
  push g pq x now =
      let needed = length pq.items + 1 in
      let grown = if leb needed pq.cap then pq.cap else g.next_cap pq.cap needed in
      let added =
        heap_push pq.items (record { value = x.value; priority = x.priority; timestamp = now }) in
      if pq.closed
      then some (false, pq)
      else if not (is_nonpos pq.max_cap) && geb (length pq.items) pq.max_cap
      then some (false, pq)
      else (elim added [ none ↦ none | some q ↦ some (true, record pq { items = q; cap = grown }) ])

  -- The end of Pop and WaitPop: heap.Pop and the shrink.
  abbrev pub took : PriorityQueue T → Option (Item T × List (Item T)) → Option (T × PriorityQueue T)
  took pq none = none
  took pq (some (x, q)) = some (x.value, shrink_if_asked (with_items pq q))

  abbrev pub take_first : PriorityQueue T → Option (T × PriorityQueue T)
  take_first pq = took pq (heap_pop pq.items)

  pub pop : PriorityQueue T → Option (Option T × PriorityQueue T)
  pop pq =
      let taken = take_first pq in
      if length pq.items == 0
      then some (none, shrink_if_asked pq)
      else (elim taken [ none ↦ none | some (v, pq') ↦ some (some v, pq') ])

  pub wait_pop : PriorityQueue T → Option (Waited T)
  wait_pop pq =
      let taken = take_first pq in
      if pq.closed
      then some refused
      else if length pq.items == 0
      then some waits
      else (elim taken [ none ↦ none | some (v, pq') ↦ some (takes v pq') ])

  abbrev pub seen : PriorityQueue T → Option (Item T) → Option T × PriorityQueue T
  seen pq none = (none, shrink_if_asked pq)
  seen pq (some x) = (some x.value, pq)

  pub peek : PriorityQueue T → Option T × PriorityQueue T
  peek pq = seen pq (get_elem? pq.items 0)

  pub search_func : PriorityQueue T → (T → Bool) → Option T
  search_func pq fn = elim (search_from (λ (x : Item T). fn x.value) 0 pq.items) [
    | none ↦ none
    | some i ↦ elim (get_elem? pq.items i) [ none ↦ none | some x ↦ some x.value ]
  ]

  pub clear : PriorityQueue T → PriorityQueue T
  clear pq = shrink_if_asked (with_items pq [])

  pub shrink : PriorityQueue T → PriorityQueue T
  shrink pq = if pq.cap == length pq.items then pq else clip pq
