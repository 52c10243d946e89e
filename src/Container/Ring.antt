-- ===== src/Container/Ring.antt =====
-- container/ringbuffer/ringbuffer.go: a growing ring of elements between a read and a write index.
-- A method that changes the buffer returns the new one beside its result. Indices stay below the
-- length of the slice, so `int` does not overflow on them.
mod Tests
pub mod Window
pub mod Inv
pub mod Refine
pub mod Script
use czx.Base.{
  ℕ, zero, suc, ◌+◌, ◌-◌, ◌*◌, ◌/◌, ◌%◌, Bool, List, Option, none, some, ltb, leb, ◌==◌,
  if◌then◌else◌, get_or, set, replicate,
}
use czx.Base.Int.{ℤ, is_nonpos, to_nat}

-- `init` and `size` are slice lengths; `zero_value` is the zero value of T.
pub record RingBuffer {ℓ} (T : Type ℓ) : Type ℓ where
  pub buf : List T
  pub init : ℕ
  pub size : ℕ
  pub r : ℕ
  pub w : ℕ

abbrev pub default_capacity : ℕ
default_capacity = 1024

module _ {ℓ} {T : Type ℓ} (zero_value : T) where
  -- `make([]T, n)`
  abbrev pub make_slice : ℕ → List T
  make_slice n = replicate n zero_value

  -- `rb.buf[i]`
  abbrev pub at_index : List T → ℕ → T
  at_index b i = get_or b i zero_value

  unfoldable pub new_ring_buffer : ℤ → RingBuffer T
  new_ring_buffer capacity =
      let n = if is_nonpos capacity then default_capacity else to_nat capacity in
      record { buf = make_slice n; init = n; size = n; r = 0; w = 0 }

  unfoldable pub len : RingBuffer T → ℕ
  len rb = if leb rb.r rb.w then rb.w - rb.r else rb.size - rb.r + rb.w

  unfoldable pub is_empty : RingBuffer T → Bool
  is_empty rb = rb.r == rb.w

  unfoldable pub cap_of : RingBuffer T → ℕ
  cap_of rb = rb.size

  unfoldable pub read : RingBuffer T → Option T × RingBuffer T
  read rb =
      if rb.r == rb.w
      then (none, rb)
      else (some (at_index rb.buf rb.r), record rb { r = (rb.r + 1) % rb.size })

  unfoldable pub pop : RingBuffer T → Option T × RingBuffer T
  pop rb = let (v, rb') = read rb in elim v [ none ↦ (none, rb') | some x ↦ (some x, rb') ]

  unfoldable pub peek : RingBuffer T → Option T
  peek rb = if rb.r == rb.w then none else some (at_index rb.buf rb.r)

  -- The loop of `grow`, from index `i` on with `k` rounds left.
  unfoldable pub copy_loop : RingBuffer T → ℕ → ℕ → List T → List T
  copy_loop rb zero i buf = buf
  copy_loop rb (suc k) i buf =
      copy_loop rb k (i + 1) (set buf i (at_index rb.buf ((rb.r + i) % rb.size)))

  abbrev pub grown_size : ℕ → ℕ
  grown_size n = if ltb n 1024 then n * 2 else n + n / 4

  unfoldable pub grow : RingBuffer T → RingBuffer T
  grow rb =
      let size = grown_size rb.size in
      let n = len rb in
      record rb { buf = copy_loop rb n 0 (make_slice size); size = size; r = 0; w = n }

  abbrev pub next_w : RingBuffer T → ℕ
  next_w rb = (rb.w + 1) % rb.size

  -- `rb.buf[rb.w] = data; rb.w = nextW`
  abbrev pub put : RingBuffer T → T → RingBuffer T
  put rb x = record rb { buf = set rb.buf rb.w x; w = next_w rb }

  unfoldable pub write : RingBuffer T → T → RingBuffer T
  write rb x = if next_w rb == rb.r then put (grow rb) x else put rb x

  unfoldable pub reset : RingBuffer T → RingBuffer T
  reset rb = record rb { buf = make_slice rb.init; size = rb.init; r = 0; w = 0 }
