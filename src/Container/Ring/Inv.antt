-- ===== src/Container/Ring/Inv.antt =====
-- The representation invariant of the ring buffer: every index that the code uses is in range.
use native.Mathlib.Decide.{ℕ_discrete}
use czx.Base.{
  ℕ, zero, suc, ◌+◌, ◌-◌, ◌%◌, ◌≤◌, ◌<◌, ◌≡◌, refl, ◌∙◌, List, arith, length, get_or, set,
  replicate, length-set, length-replicate, get_or-set_self, get_or-set_ne,
}
use czx.Base.Int.{ℤ, pos, negsuc}
use czx.Container.Ring.{
  RingBuffer, new_ring_buffer, len, read, pop, copy_loop, grown_size, grow, put, write, reset,
}
use czx.Container.Ring.Window.{slot_lem}

pub record IsValid {ℓ} {T : Type ℓ} (rb : RingBuffer T) : Type 0 where
  pub sized : length rb.buf ≡ rb.size
  pub started : 0 < rb.init
  pub r_in : rb.r < rb.size
  pub w_in : rb.w < rb.size

module _ {ℓ} {T : Type ℓ} (z : T) where
  pub len-lt-size : (rb : RingBuffer T) → IsValid rb → len z rb < rb.size
  unfolding len
  len-lt-size rb v = ground arith

  -- The write index lies `len` slots behind the read index.
  pub w-slot : (rb : RingBuffer T) → IsValid rb → rb.w ≡ (rb.r + len z rb) % rb.size
  unfolding len
  w-slot rb v = ground (
    arith,
    slot_lem rb.r (rb.w - rb.r) rb.size v.r_in,
    slot_lem rb.r (rb.size - rb.r + rb.w) rb.size v.r_in,
  )

  pub length-copy_loop :
      (rb : RingBuffer T) (k i : ℕ) (buf : List T) → length (copy_loop z rb k i buf) ≡ length buf
  unfolding copy_loop
  length-copy_loop rb zero i buf = refl
  length-copy_loop rb (suc k) i buf = ground (
    arith,
    length-copy_loop rb k (i + 1) (set buf i (get_or rb.buf ((rb.r + i) % rb.size) z)),
    length-set buf i (get_or rb.buf ((rb.r + i) % rb.size) z),
  )

  copy_loop_behind :
      (rb : RingBuffer T) (k i j : ℕ) (buf : List T)
      → j < i
      → get_or (copy_loop z rb k i buf) j z ≡ get_or buf j z
  unfolding copy_loop
  copy_loop_behind rb zero i j buf h = refl
  copy_loop_behind rb (suc k) i j buf h =
      let v = get_or rb.buf ((rb.r + i) % rb.size) z in
      copy_loop_behind rb k (i + 1) j (set buf i v) (omega arith)
      ∙ get_or-set_ne buf {i = i} {j = j} v z (omega arith)

  -- What the new slice of `grow` holds at an index that the loop writes.
  pub get_or-copy_loop :
      (rb : RingBuffer T) (k i j : ℕ) (buf : List T)
      → i + k ≤ length buf
      → i ≤ j
      → j < i + k
      → get_or (copy_loop z rb k i buf) j z ≡ get_or rb.buf ((rb.r + j) % rb.size) z
  unfolding copy_loop
  get_or-copy_loop rb zero i j buf h p q = absurd (omega arith)
  get_or-copy_loop rb (suc k) i j buf h p q =
      let v = get_or rb.buf ((rb.r + i) % rb.size) z in
      elim (ℕ_discrete i j) [
        | yes e ↦
            copy_loop_behind rb k (i + 1) j (set buf i v) (omega arith)
            ∙ rw (← e) (get_or-set_self buf i v z (omega arith))
        | no ne ↦
            get_or-copy_loop rb k (i + 1) j (set buf i v) (omega (arith, length-set buf i v))
              (omega arith) (omega arith)
      ]

  -- After `grow` there is room for one more element behind the `len` old ones.
  pub grow-IsValid :
      (rb : RingBuffer T)
      → IsValid rb
      → IsValid (grow z rb)
        × (len z rb + 1 < (grow z rb).size)
        × ((grow z rb).w ≡ len z rb)
        × ((grow z rb).r ≡ 0)
  unfolding grow
  grow-IsValid rb v =
      let n = len z rb in
      ground (
        arith,
        len-lt-size rb v,
        length-copy_loop rb n 0 (replicate (grown_size z rb.size) z),
        length-replicate (grown_size z rb.size) z,
      )

  put-IsValid : (rb : RingBuffer T) (x : T) → IsValid rb → IsValid (put z rb x)
  put-IsValid rb x v = ground (arith, length-set rb.buf rb.w x)

  pub write-IsValid : (rb : RingBuffer T) (x : T) → IsValid rb → IsValid (write z rb x)
  unfolding write
  write-IsValid rb x v = ground (
    arith,
    put-IsValid rb x v,
    grow-IsValid rb v,
    put-IsValid (grow z rb) x (grow-IsValid rb v).0,
  )

  pub read-IsValid : (rb : RingBuffer T) → IsValid rb → IsValid (read z rb).1
  unfolding read
  read-IsValid rb v = ground arith

  pub pop-read : (rb : RingBuffer T) → pop z rb ≡ read z rb
  unfolding pop read
  pop-read rb = ground arith

  pub reset-IsValid : (rb : RingBuffer T) → IsValid rb → IsValid (reset z rb)
  unfolding reset
  reset-IsValid rb v = ground (arith, length-replicate rb.init z)

  pub new-IsValid : (capacity : ℤ) → IsValid (new_ring_buffer z capacity)
  unfolding new_ring_buffer
  new-IsValid (pos n) = ground (arith, length-replicate n z, length-replicate 1024 z)
  new-IsValid (negsuc n) = record {
    sized = length-replicate 1024 z;
    started = omega arith;
    r_in = omega arith;
    w_in = omega arith;
  }
