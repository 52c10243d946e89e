-- ===== src/Container/Priority/Calls.antt =====
-- container/cqueue/priority_queue.go: the heap order and the bound over any calls.
use czx.Base.{
  List-cases, get_elem?, ◌≡◌, refl, ap, ◌∙◌, true, List, [], ◌∷◌, Option, none, some, arith, ◌==◌,
  length, Bool-cases, inl, inr,
}
use czx.Base.Int.{ℤ}
use czx.Container.Queue.{Growth}
use czx.Container.Heap.{Item}
use czx.Container.Priority.{
  PriorityQueue, PriorityItem, Waited, takes, close, shrink_if_asked, with_items, push, pop,
  wait_pop, seen, peek, clear, shrink,
}
use czx.Container.Priority.Order.{
  IsOrdered, asked-Refills, Refills-IsOrdered, pop_lem, wait_pop_lem, push-Pushed,
}

-- The calls on one queue; a goroutine that waits in WaitPop looks at the queue at `awaits`.
pub data Call (T : Type 0) : Type 0 where
  pushes : PriorityItem T → ℤ → Call T
  pops awaits peeks clears shrinks closes : Call T

module _ {T : Type 0} where
  abbrev queue_of : {A : Type 0} → Option (A × PriorityQueue T) → Option (PriorityQueue T)
  queue_of none = none
  queue_of (some (a, pq)) = some pq

  abbrev queue_after : PriorityQueue T → Option (Waited T) → Option (PriorityQueue T)
  queue_after pq none = none
  queue_after pq (some (takes v pq')) = some pq'
  queue_after pq (some w) = some pq

  pub step : Growth → PriorityQueue T → Call T → Option (PriorityQueue T)
  step g pq (pushes x now) = queue_of (push g pq x now)
  step g pq pops = queue_of (pop pq)
  step g pq awaits = queue_after pq (wait_pop pq)
  step g pq peeks = some ((peek pq).1)
  step g pq clears = some (clear pq)
  step g pq shrinks = some (shrink pq)
  step g pq closes = some (close pq)

  abbrev pub run_from : Growth → Option (PriorityQueue T) → List (Call T) → Option (PriorityQueue T)
  run_from g none cs = none
  run_from g (some pq) [] = some pq
  run_from g (some pq) (c ∷ cs) = run_from g (step g pq c) cs

  clear-IsOrdered : (d : Item T) (pq : PriorityQueue T) → IsOrdered d pq → IsOrdered d (clear pq)
  unfolding clear
  clear-IsOrdered d pq v =
      Refills-IsOrdered d (with_items pq []) (clear pq)
        (asked-Refills pq.recycler (with_items pq []))
        (record { heaped = λ c h k. absurd (omega arith); within = λ h. omega arith })

  seen-IsOrdered :
      (d : Item T) (pq : PriorityQueue T) (r : Option (Item T))
      → IsOrdered d pq
      → IsOrdered d ((seen pq r).1)
  seen-IsOrdered d pq none v =
      Refills-IsOrdered d pq (shrink_if_asked pq) (asked-Refills pq.recycler pq) v
  seen-IsOrdered d pq (some x) v = v

  peek-IsOrdered : (d : Item T) (pq : PriorityQueue T) → IsOrdered d pq → IsOrdered d ((peek pq).1)
  unfolding peek
  peek-IsOrdered d pq v = seen-IsOrdered d pq (get_elem? pq.items 0) v

  shrink-IsOrdered : (d : Item T) (pq : PriorityQueue T) → IsOrdered d pq → IsOrdered d (shrink pq)
  unfolding shrink
  shrink-IsOrdered d pq v = elim (Bool-cases (pq.cap == length pq.items)) [
    | inl e ↦ rw e v
    | inr e ↦ rw e (record { heaped = v.heaped; within = v.within })
  ]

  Runs : Growth → Item T → Option (PriorityQueue T) → Type 0
  Runs g d r = (pq' : PriorityQueue T) × (r ≡ some pq') × IsOrdered d pq'

  pop_empty : (pq : PriorityQueue T) → pq.items ≡ [] → pop pq ≡ some (none, shrink_if_asked pq)
  unfolding pop
  pop_empty pq e =
      let empty : (length pq.items == 0) ≡ true = ground (arith, ap length e) in rw empty refl

  pops-Runs :
      (g : Growth) (d : Item T) (pq : PriorityQueue T) → IsOrdered d pq → Runs g d (step g pq pops)
  unfolding step Runs pop
  pops-Runs g d pq v = elim (List-cases pq.items) [
    | inl e ↦ (
      shrink_if_asked pq,
      ap queue_of (pop_empty pq e),
      Refills-IsOrdered d pq (shrink_if_asked pq) (asked-Refills pq.recycler pq) v,
    )
    | inr (x, q, e) ↦ let (pq', ran, t) = pop_lem d x q pq e v in (pq', ap queue_of ran, t.valid)
  ]

  awaits-Runs :
      (g : Growth) (d : Item T) (pq : PriorityQueue T)
      → IsOrdered d pq
      → Runs g d (step g pq awaits)
  unfolding step Runs wait_pop
  awaits-Runs g d pq v = elim (Bool-cases pq.closed) [
    | inl c ↦ (pq, rw c refl, v)
    | inr c ↦ elim (List-cases pq.items) [
      | inl e ↦ (pq, rw (c, e) refl, v)
      | inr (x, q, e) ↦
          let (pq', ran, t) = wait_pop_lem d x q pq e c v in (pq', ap (queue_after pq) ran, t.valid)
    ]
  ]

  step-Runs :
      (g : Growth) (d : Item T) (pq : PriorityQueue T) (c : Call T)
      → IsOrdered d pq
      → Runs g d (step g pq c)
  unfolding step Runs close
  step-Runs g d pq (pushes x now) v = elim (push-Pushed g d pq x now v) [
    | inl (f, ran) ↦ (pq, ap queue_of ran, v)
    | inr (f, (pq', ran, p)) ↦ (pq', ap queue_of ran, p.valid)
  ]
  step-Runs g d pq pops v = pops-Runs g d pq v
  step-Runs g d pq awaits v = awaits-Runs g d pq v
  step-Runs g d pq peeks v = (_, refl, peek-IsOrdered d pq v)
  step-Runs g d pq clears v = (_, refl, clear-IsOrdered d pq v)
  step-Runs g d pq shrinks v = (_, refl, shrink-IsOrdered d pq v)
  step-Runs g d pq closes v = (_, refl, record { heaped = v.heaped; within = v.within })

  -- From a queue in heap order and within its bound any calls run, none with a panic, and leave such a
  -- queue.
  pub calls-IsOrdered :
      (g : Growth) (d : Item T) (cs : List (Call T)) (pq : PriorityQueue T)
      → IsOrdered d pq
      → (pq' : PriorityQueue T) × (run_from g (some pq) cs ≡ some pq') × IsOrdered d pq'
  unfolding Runs
  calls-IsOrdered g d [] pq v = (pq, refl, v)
  calls-IsOrdered g d (c ∷ cs) pq v =
      let (pq1, ran, v1) = step-Runs g d pq c v in
      let (pq', rest, v') = calls-IsOrdered g d cs pq1 v1 in
      (pq', ap (λ t. run_from g t cs) ran ∙ rest, v')
