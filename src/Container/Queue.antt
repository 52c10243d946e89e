-- ===== src/Container/Queue.antt =====
-- container/cqueue/queue.go, with Search of utils/xslices/xslices.go: a locked first-in first-out
-- queue. Each method runs under the queue's mutex, so a call is one step.
-- The capacity of the slice is part of the state: `append` takes what the runtime's growth gives,
-- which is the parameter `Growth`. A nil slice is the empty list at capacity 0.
mod Tests
pub mod Refine
pub mod Search
pub mod Waiters
use Prim.Native.Nat.{min}
use czx.Base.{
  ℕ, zero, suc, ◌+◌, ◌-◌, ◌≤◌, Bool, true, false, not, ◌&&◌, List, [], ◌∷◌, ◌++◌, Option, none,
  some, ltb, leb, ◌==◌, if◌then◌else◌, length, get_elem?, take, drop, Result, ok, err,
}
use czx.Base.Int.{ℤ, pos, negsuc, geb, is_nonpos}

-- The capacity that `append` gives a slice that has to grow, from the old one and the length needed.
pub record Growth : Type 0 where
  pub next_cap : ℕ → ℕ → ℕ
  pub needed-le : (old needed : ℕ) → needed ≤ next_cap old needed

-- recycler.Recycler: whether to shrink at a length and a capacity.
abbrev pub Recycler : Type 0
Recycler = ℕ → ℕ → Bool

pub record Queue {ℓ} (T : Type ℓ) : Type ℓ where
  pub queue : List T
  pub cap : ℕ
  pub max_capacity : ℤ
  pub recycler : Option Recycler
  pub closed : Bool

pub data PushError : Type 0 where
  queue_closed : PushError
  queue_full : ℤ → PushError

pub data BatchError : Type 0 where
  -- a slice bound out of range
  panic : BatchError

-- What a call of WaitPop does before it returns or waits.
pub data Wait {ℓ} (T : Type ℓ) : Type ℓ where
  refused : Wait T
  blocks : Wait T
  takes : T → Queue T → Wait T

module _ {ℓ} {T : Type ℓ} where
  pub new_queue : ℤ → Queue T
  new_queue max_cap = record {
    queue = [];
    cap = 0;
    max_capacity = max_cap;
    recycler = none;
    closed = false;
  }

  pub with_recycler : Queue T → Recycler → Queue T
  with_recycler q r = record q { recycler = some r }

  pub close : Queue T → Queue T
  close q = if q.closed then q else record q { closed = true }

  -- `slices.Clip`
  abbrev pub clip : Queue T → Queue T
  clip q = record q { cap = length q.queue }

  -- `q.queue = nil`
  abbrev pub make_nil : Queue T → Queue T
  make_nil q = record q { queue = []; cap = 0 }

  pub shrink_if_asked : Queue T → Queue T
  shrink_if_asked q = elim q.recycler [
    | none ↦ q
    | some r ↦ if r (length q.queue) q.cap then clip q else q
  ]

  -- `slices.DeleteFunc` on the elements
  pub keep_unless : (T → Bool) → List T → List T
  keep_unless fn [] = []
  keep_unless fn (x ∷ xs) = if fn x then keep_unless fn xs else x ∷ keep_unless fn xs

  pub delete_func : Queue T → (T → Bool) → Bool × Queue T
  delete_func q fn =
      if length q.queue == 0
      then (false, shrink_if_asked q)
      else (true, shrink_if_asked (record q { queue = keep_unless fn q.queue }))

  -- The loop of xslices.Search from index `i` on.
  pub search_from : (T → Bool) → ℕ → List T → Option ℕ
  search_from f i [] = none
  search_from f i (x ∷ xs) = if f x then some i else search_from f (i + 1) xs

  -- `q.queue[index]` where the index was found
  abbrev pub pick : List T → Option ℕ → Option T
  pick xs none = none
  pick xs (some i) = get_elem? xs i

  pub search_func : Queue T → (T → Bool) → Option T
  search_func q fn = if length q.queue == 0 then none else pick q.queue (search_from fn 0 q.queue)

  pub len : Queue T → ℕ
  len q = length q.queue

  pub is_empty : Queue T → Bool
  is_empty q = length q.queue == 0

  pub peek : Queue T → Option T
  peek q = get_elem? q.queue 0

  -- `q.queue = q.queue[1:]`
  abbrev pub slice_off : Queue T → List T → Queue T
  slice_off q rest = record q { queue = rest; cap = q.cap - 1 }

  pub pop : Queue T → Option T × Queue T
  pop q = elim q.queue [
    | [] ↦ (none, make_nil q)
    | x ∷ rest ↦
        let q' = slice_off q rest in
        if length rest == 0 then (some x, make_nil q') else (some x, shrink_if_asked q')
  ]

  -- `blocks` stands for `q.cond.Wait()`, which gives the lock up until the queue is signalled.
  pub wait_pop : Queue T → Wait T
  wait_pop q = if q.closed then refused else (elim q.queue [
    | [] ↦ blocks
    | x ∷ rest ↦
        let q' = slice_off q rest in
        takes x (shrink_if_asked (if length rest == 0 then make_nil q' else q'))
  ])

  abbrev batch_of : Queue T → ℕ → Option (List T) × Queue T
  batch_of q n =
      let q' = record q { queue = drop n q.queue; cap = q.cap - n } in
      if length q'.queue == 0
      then (some (take n q.queue), make_nil q')
      else (some (take n q.queue), shrink_if_asked q')

  -- A negative bound panics.
  pub pop_batch : Queue T → ℤ → Result BatchError (Option (List T) × Queue T)
  pop_batch q n = if length q.queue == 0 then ok (none, make_nil q) else (elim n [
    | pos k ↦ ok (batch_of q (if ltb (length q.queue) k then length q.queue else k))
    | negsuc k ↦ err panic
  ])

  pub clear : Queue T → Queue T
  clear q = make_nil q

  pub shrink : Queue T → Queue T
  shrink q =
      if length q.queue == 0 then make_nil q else if q.cap == length q.queue then q else clip q

module _ {ℓ} {T : Type ℓ} (g : Growth) where
  -- `append(q.queue, data...)`
  abbrev pub append_all : Queue T → List T → Queue T
  append_all q xs =
      let needed = length q.queue + length xs in
      record q {
        queue = q.queue ++ xs;
        cap = if leb needed q.cap then q.cap else g.next_cap q.cap needed;
      }

  pub push : Queue T → List T → Result PushError (Queue T)
  push q xs =
      if q.closed
      then err queue_closed
      else if not (is_nonpos q.max_capacity) && geb (length q.queue) q.max_capacity
      then err (queue_full q.max_capacity)
      else ok (append_all q xs)
