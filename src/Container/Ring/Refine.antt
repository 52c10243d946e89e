-- ===== src/Container/Ring/Refine.antt =====
-- A valid ring buffer is an unbounded first-in first-out queue of its contents.
use native.Mathlib.Nat.{zero-add, add-zero, mod-add-mod, mod-eq_of_lt}
use mathlib.Core.Path.{ap₂}
use mathlib.Core.List.{head?, tail}
use czx.Base.{
  ℕ, suc, ◌+◌, ◌%◌, ◌≤◌, ◌<◌, ◌≡◌, refl, sym, ap, ◌∙◌, true, false, List, [], ◌∷◌, ◌++◌, arith,
  ◌==◌, length, get_or, replicate, length-replicate, get_or-set_self, get_or-set_ne, Bool-cases,
  inl, inr, some,
}
use czx.Base.Int.{ℤ}
use czx.Container.Ring.{
  RingBuffer, new_ring_buffer, len, is_empty, read, peek, grown_size, grow, next_w, put, write,
  reset,
}
use czx.Container.Ring.Window.{
  tabulate, tabulate_ext, tabulate_snoc, tabulate_shift, slot_lem, slots_ne,
}
use czx.Container.Ring.Inv.{IsValid, len-lt-size, w-slot, get_or-copy_loop, grow-IsValid}

module _ {ℓ} {T : Type ℓ} (z : T) where
  -- The element `k` places behind the read index.
  abbrev pub element : RingBuffer T → ℕ → T
  element rb k = get_or rb.buf ((rb.r + k) % rb.size) z

  -- The elements that a reader will get, in order.
  abbrev pub contents : RingBuffer T → List T
  contents rb = tabulate (element rb) 0 (len z rb)

  len-put :
      (rb : RingBuffer T) (x : T)
      → IsValid rb
      → len z rb + 1 < rb.size
      → len z (put z rb x) ≡ suc (len z rb)
  unfolding len
  len-put rb x v h = ground (arith, slot_lem rb.w 1 rb.size v.w_in)

  -- Only a ring with all slots but one taken has its next write index at the read index.
  room_lem :
      (rb : RingBuffer T) → IsValid rb → (next_w z rb == rb.r) ≡ false → len z rb + 1 < rb.size
  unfolding len
  room_lem rb v h = ground (arith, slot_lem rb.w 1 rb.size v.w_in)

  element-put :
      (rb : RingBuffer T) (x : T) (k : ℕ)
      → IsValid rb
      → k < len z rb
      → element (put z rb x) k ≡ element rb k
  element-put rb x k v h =
      get_or-set_ne rb.buf x z
        (rw (w-slot z rb v) (slots_ne rb.r k (len z rb) rb.size v.r_in (len-lt-size z rb v) h))

  contents-put :
      (rb : RingBuffer T) (x : T)
      → IsValid rb
      → len z rb + 1 < rb.size
      → contents (put z rb x) ≡ contents rb ++ (x ∷ [])
  contents-put rb x v h = rw (len-put rb x v h) (
      tabulate_snoc (element (put z rb x)) 0 (len z rb)
      ∙ ap₂ ◌++◌ (tabulate_ext _ _ 0 (len z rb) (λ k p q. element-put rb x k v (omega arith)))
          (ap (λ a. a ∷ []) last))
    where
      last : element (put z rb x) (0 + len z rb) ≡ x
      last = rw (zero-add, ← w-slot z rb v) (get_or-set_self rb.buf rb.w x z (omega arith))

  element-grow :
      (rb : RingBuffer T) (k : ℕ) → IsValid rb → k < len z rb → element (grow z rb) k ≡ element rb k
  unfolding grow
  element-grow rb k v h =
      let size = grown_size z rb.size in
      let room : len z rb + 1 < size = (grow-IsValid z rb v).1 in
      let e : (0 + k) % size ≡ k = rw zero-add (mod-eq_of_lt (omega arith)) in
      let fits : 0 + len z rb ≤ length (replicate size z) =
        omega (arith, length-replicate size z) in
      rw e
        (get_or-copy_loop z rb (len z rb) 0 k (replicate size z) fits (omega arith) (omega arith))

  grow-len : (rb : RingBuffer T) → IsValid rb → len z (grow z rb) ≡ len z rb
  unfolding len
  grow-len rb v = ground (arith, grow-IsValid z rb v)

  contents-grow : (rb : RingBuffer T) → IsValid rb → contents (grow z rb) ≡ contents rb
  contents-grow rb v =
      ap (tabulate (element (grow z rb)) 0) same
      ∙ tabulate_ext _ _ 0 (len z rb) (λ k p q. element-grow rb k v (omega arith))
    where
      same : len z (grow z rb) ≡ len z rb
      same = grow-len rb v

  write-full :
      (rb : RingBuffer T) (x : T)
      → (next_w z rb == rb.r) ≡ true
      → write z rb x ≡ put z (grow z rb) x
  unfolding write
  write-full rb x e = rw e

  write-room :
      (rb : RingBuffer T) (x : T) → (next_w z rb == rb.r) ≡ false → write z rb x ≡ put z rb x
  unfolding write
  write-room rb x e = rw e

  -- Write puts the element behind all others, growing the ring when it is full.
  pub contents-write :
      (rb : RingBuffer T) (x : T) → IsValid rb → contents (write z rb x) ≡ contents rb ++ (x ∷ [])
  contents-write rb x v = elim (Bool-cases (next_w z rb == rb.r)) [
    | inl full ↦
        let g = grow-IsValid z rb v in
        rw (write-full rb x full) (
          contents-put (grow z rb) x g.0 (omega (arith, grow-len rb v, g.1))
          ∙ ap (λ a. a ++ (x ∷ [])) (contents-grow rb v))
    | inr room ↦ rw (write-room rb x room) (contents-put rb x v (room_lem rb v room))
  ]

  pub len-zero : (rb : RingBuffer T) → IsValid rb → (rb.r == rb.w) ≡ (len z rb == 0)
  unfolding len
  len-zero rb v = ground arith

  abbrev advance : RingBuffer T → RingBuffer T
  advance rb = record rb { r = (rb.r + 1) % rb.size }

  len-advance :
      (rb : RingBuffer T)
      → IsValid rb
      → (rb.r == rb.w) ≡ false
      → len z rb ≡ suc (len z (advance rb))
  unfolding len
  len-advance rb v h = ground (arith, slot_lem rb.r 1 rb.size v.r_in)

  element-advance : (rb : RingBuffer T) (k : ℕ) → element (advance rb) k ≡ element rb (k + 1)
  element-advance rb k = let e : rb.r + 1 + k ≡ rb.r + (k + 1) = omega arith in rw (mod-add-mod, e)

  contents-advance :
      (rb : RingBuffer T)
      → IsValid rb
      → (rb.r == rb.w) ≡ false
      → contents rb ≡ get_or rb.buf rb.r z ∷ contents (advance rb)
  contents-advance rb v h = rw (len-advance rb v h) (
      ap₂ ◌∷◌ (rw (add-zero, mod-eq_of_lt v.r_in)) (
        sym (tabulate_shift (element rb) 0 (len z (advance rb)))
        ∙ tabulate_ext _ _ 0 (len z (advance rb)) (λ k p q. sym (element-advance rb k))))

  pub contents-empty : (rb : RingBuffer T) → IsValid rb → (rb.r == rb.w) ≡ true → contents rb ≡ []
  contents-empty rb v h =
      let e : len z rb ≡ 0 = ground (arith, len-zero rb v) in ap (tabulate (element rb) 0) e

  -- Read takes the first element of the contents, and reports a buffer with none.
  pub contents-read :
      (rb : RingBuffer T)
      → IsValid rb
      → ((read z rb).0 ≡ head? (contents rb)) × (contents (read z rb).1 ≡ tail (contents rb))
  unfolding read
  contents-read rb v = elim (Bool-cases (rb.r == rb.w)) [
    | inl none_left ↦ let e = contents-empty rb v none_left in rw (none_left, e) (refl, refl)
    | inr more ↦ let e = contents-advance rb v more in rw (more, e) (refl, refl)
  ]

  pub peek-read : (rb : RingBuffer T) → peek z rb ≡ (read z rb).0
  unfolding peek read
  peek-read rb = ground arith

  pub is_empty_lem : (rb : RingBuffer T) → is_empty z rb ≡ (rb.r == rb.w)
  unfolding is_empty
  is_empty_lem rb = refl

  pub peek-nonempty :
      (rb : RingBuffer T) → is_empty z rb ≡ false → peek z rb ≡ some (get_or rb.buf rb.r z)
  unfolding is_empty peek
  peek-nonempty rb e = rw e

  pub contents-reset : (rb : RingBuffer T) → contents (reset z rb) ≡ []
  unfolding reset len
  contents-reset rb = refl

  pub contents-new : (capacity : ℤ) → contents (new_ring_buffer z capacity) ≡ []
  unfolding new_ring_buffer len
  contents-new capacity = refl
