-- ===== src/Container/Ring/Script.antt =====
-- Any sequence of calls on a ring buffer answers as the same calls on a plain list.
use mathlib.Core.List.{head?, tail}
use czx.Base.{◌≡◌, refl, ap, ◌∙◌, List, [], ◌∷◌, ◌++◌, Option}
use czx.Base.Int.{ℤ}
use czx.Container.Ring.{RingBuffer, new_ring_buffer, read, pop, peek, write, reset}
use czx.Container.Ring.Inv.{
  IsValid, new-IsValid, write-IsValid, read-IsValid, reset-IsValid, pop-read,
}
use czx.Container.Ring.Refine.{
  contents, contents-new, contents-write, contents-read, contents-reset, peek-read,
}
use mathlib.Core.Path.{ap₂}

pub data Op {ℓ} (T : Type ℓ) : Type ℓ where
  writes : T → Op T
  reads pops peeks resets : Op T

-- The calls on a list whose first element is the oldest.
pub run_list {ℓ} : {T : Type ℓ} → List T → List (Op T) → List (Option T)
run_list q [] = []
run_list q (writes x ∷ ops) = run_list (q ++ (x ∷ [])) ops
run_list q (reads ∷ ops) = head? q ∷ run_list (tail q) ops
run_list q (pops ∷ ops) = head? q ∷ run_list (tail q) ops
run_list q (peeks ∷ ops) = head? q ∷ run_list q ops
run_list q (resets ∷ ops) = run_list [] ops

module _ {ℓ} {T : Type ℓ} (z : T) where
  -- The answers of the calls in turn.
  pub run : RingBuffer T → List (Op T) → List (Option T)
  run rb [] = []
  run rb (writes x ∷ ops) = run (write z rb x) ops
  run rb (reads ∷ ops) = let (v, rb') = read z rb in v ∷ run rb' ops
  run rb (pops ∷ ops) = let (v, rb') = pop z rb in v ∷ run rb' ops
  run rb (peeks ∷ ops) = peek z rb ∷ run rb ops
  run rb (resets ∷ ops) = run (reset z rb) ops

  -- From a valid ring buffer, any sequence of Write, Read, Pop, Peek and Reset gives the answers
  -- that an unbounded first-in first-out list gives from the buffer's contents.
  pub run_refines :
      (ops : List (Op T)) (rb : RingBuffer T)
      → IsValid rb
      → run rb ops ≡ run_list (contents z rb) ops
  unfolding run run_list
  run_refines [] rb v = refl
  run_refines (writes x ∷ ops) rb v =
      rw (← contents-write z rb x v) (run_refines ops (write z rb x) (write-IsValid z rb x v))
  run_refines (reads ∷ ops) rb v =
      let c = contents-read z rb v in
      rw (← c.0, ← c.1)
        (ap (◌∷◌ (read z rb).0) (run_refines ops (read z rb).1 (read-IsValid z rb v)))
  run_refines (pops ∷ ops) rb v =
      let c = contents-read z rb v in
      rw (pop-read z rb, ← c.0, ← c.1)
        (ap (◌∷◌ (read z rb).0) (run_refines ops (read z rb).1 (read-IsValid z rb v)))
  run_refines (peeks ∷ ops) rb v =
      ap₂ ◌∷◌ (peek-read z rb ∙ (contents-read z rb v).0) (run_refines ops rb v)
  run_refines (resets ∷ ops) rb v =
      run_refines ops (reset z rb) (reset-IsValid z rb v)
      ∙ ap (λ q. run_list q ops) (contents-reset z rb)

  -- A new buffer, of whatever capacity is asked for, starts such a history empty.
  pub run_new_refines :
      (capacity : ℤ) (ops : List (Op T)) → run (new_ring_buffer z capacity) ops ≡ run_list [] ops
  run_new_refines capacity ops =
      run_refines ops (new_ring_buffer z capacity) (new-IsValid z capacity)
      ∙ ap (λ q. run_list q ops) (contents-new z capacity)
