-- ===== src/Container/Heap.antt =====
-- container/cqueue/priority_queue.go: the items of the priority queue, with the operations of its
-- heap.Interface, and Push and Pop of Go's container/heap on them. An index out of range is a panic,
-- `none`. The field `index` of an item, which nothing reads, is not kept.
pub mod Order
pub mod Up
pub mod Down
pub mod Laws
use czx.Base.{
  ℕ, zero, suc, ◌+◌, ◌-◌, ◌*◌, ◌/◌, Bool, true, false, ◌&&◌, List, [], ◌∷◌, ◌++◌, Option, none,
  some, ltb, ◌==◌, if◌then◌else◌, length, get_elem?, set, take,
}
use czx.Base.Int.{ℤ, pos_part, neg_part}

-- item: what the queue stores.
pub record Item {ℓ} (T : Type ℓ) : Type ℓ where
  pub value : T
  pub priority : ℤ
  pub timestamp : ℤ

-- `a < b` and `a == b` of `int` and `int64`
abbrev pub ltz : ℤ → ℤ → Bool
ltz a b = ltb (pos_part a + neg_part b) (pos_part b + neg_part a)

abbrev pub eqz : ℤ → ℤ → Bool
eqz a b = pos_part a + neg_part b == pos_part b + neg_part a

infixl 5 ◌>>=◌
abbrev ◌>>=◌ {ℓ κ} : {A : Type ℓ} {B : Type κ} → Option A → (A → Option B) → Option B
none >>= f = none
some a >>= f = f a

-- `i := (j - 1) / 2`, where Go's division gives 0 for 0 too
abbrev pub parent : ℕ → ℕ
parent j = (j - 1) / 2

module _ {ℓ} {T : Type ℓ} where
  -- Less, of two items.
  unfoldable pub before : Item T → Item T → Bool
  before x y =
      if eqz x.priority y.priority then ltz x.timestamp y.timestamp else ltz x.priority y.priority

  pub less : List (Item T) → ℕ → ℕ → Option Bool
  less q i j = do x ← get_elem? q i; y ← get_elem? q j; some (before x y)

  pub swap : List (Item T) → ℕ → ℕ → Option (List (Item T))
  swap q i j = do y ← get_elem? q j; x ← get_elem? q i; some (set (set q i y) j x)

  -- The methods Push and Pop of heap.Interface.
  abbrev pub push_item : List (Item T) → Item T → List (Item T)
  push_item q x = q ++ (x ∷ [])

  pub pop_item : List (Item T) → Option (Item T × List (Item T))
  pop_item q = do x ← get_elem? q (length q - 1); some (x, take (length q - 1) q)

  -- The loop of heap's `up`, with fuel.
  pub up_loop : ℕ → List (Item T) → ℕ → Option (List (Item T))
  up_loop zero q j = none
  up_loop (suc k) q j =
      let rise = swap q (parent j) j >>= λ q'. up_loop k q' (parent j) in
      let test = less q j (parent j) >>= λ smaller. if smaller then rise else some q in
      if parent j == j then some q else test

  -- `j`, or the right child where there is one below `n` that is smaller
  pub child : List (Item T) → ℕ → ℕ → Option ℕ
  child q n j =
      let right = less q (j + 1) j >>= λ smaller. some (if smaller then j + 1 else j) in
      if ltb (j + 1) n then right else some j

  -- The loop of heap's `down` on the first `n` items, with fuel.
  pub down_loop : ℕ → List (Item T) → ℕ → ℕ → Option (List (Item T))
  down_loop zero q i n = none
  down_loop (suc k) q i n =
      let sink = λ (j : ℕ). swap q i j >>= λ q'. down_loop k q' j n in
      let test = λ (j : ℕ). less q j i >>= λ smaller. if smaller then sink j else some q in
      if ltb (2 * i + 1) n then child q n (2 * i + 1) >>= test else some q

  -- heap.Push
  pub heap_push : List (Item T) → Item T → Option (List (Item T))
  heap_push q x = up_loop (length q + 1) (push_item q x) (length q)

  -- heap.Pop, which panics on no items
  pub heap_pop : List (Item T) → Option (Item T × List (Item T))
  heap_pop q =
      if length q == 0
      then none
      else swap q 0 (length q - 1) >>= λ a.
          down_loop (length q) a 0 (length q - 1) >>= λ b. pop_item b
