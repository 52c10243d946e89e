-- ===== src/Container/Priority/Drain.antt =====
-- container/cqueue/priority_queue.go: Pop called until the queue is empty.
use mathlib.Core.List.{Perm, Mem}
use mathlib.Core.List.Perm
use mathlib.Core.Path.{subst}
use czx.Base.{
  sym, ℕ, zero, suc, ◌≡◌, refl, ap, ◌∙◌, List, [], ◌∷◌, Option, none, some, arith, length, map,
  List-cases, inl, inr,
}
use czx.Container.Heap.{Item}
use czx.Container.Heap.Order.{Le}
use czx.Container.Priority.{PriorityQueue, pop}
use czx.Container.Priority.Order.{IsOrdered, pop_lem}

module _ {T : Type 0} where
  abbrev onto : T → Option (List T × PriorityQueue T) → Option (List T × PriorityQueue T)
  onto v none = none
  onto v (some (vs, pq)) = some (v ∷ vs, pq)

  -- What `Pop` gave, and where it gave a value what the calls `more` after it give.
  abbrev with_more :
      (PriorityQueue T → Option (List T × PriorityQueue T))
      → Option (Option T × PriorityQueue T)
      → Option (List T × PriorityQueue T)
  with_more more none = none
  with_more more (some (none, pq)) = some ([], pq)
  with_more more (some (some v, pq)) = onto v (more pq)

  -- Calls of Pop, `k` of them or up to the first that finds the queue empty.
  pub pops : ℕ → PriorityQueue T → Option (List T × PriorityQueue T)
  pops zero pq = some ([], pq)
  pops (suc k) pq = with_more (λ pq'. pops k pq') (pop pq)

  -- No item stands before one that is earlier in the list.
  pub data Ascends : List (Item T) → Type 0 where
    none_left : Ascends []
    first_then :
        {x : Item T} {xs : List (Item T)}
        → ((y : Item T) → Mem y xs → Le x y)
        → Ascends xs
        → Ascends (x ∷ xs)

  -- From a queue in heap order as many calls of Pop as it has items all return a value; they empty the
  -- queue, and give the values of its items in ascending order of priority, and of time for equal ones.
  pub pops-Ascends :
      (d : Item T) (n : ℕ) (pq : PriorityQueue T)
      → IsOrdered d pq
      → length pq.items ≡ n
      → (xs : List (Item T)) × (pq' : PriorityQueue T) × (pops n pq
          ≡ some (map (λ (x : Item T). x.value) xs, pq'))
        × Perm pq.items xs
        × Ascends xs
        × (pq'.items ≡ [])
  unfolding pops
  pops-Ascends d zero pq v e = elim (List-cases pq.items) [
    | inl none_here ↦
        ([], pq, refl, subst (λ t. Perm t []) (sym none_here) (Perm.refl []), none_left, none_here)
    | inr (x, q, here) ↦ let size = ap length here in absurd (omega arith)
  ]
  pops-Ascends d (suc n) pq v e = elim (List-cases pq.items) [
    | inl none_here ↦ let size = ap length none_here in absurd (omega arith)
    | inr (x, q, here) ↦
        let (pq1, ran, t) = pop_lem d x q pq here v in
        let p = t.popped in
        let size = p.size in
        let old = ap length here in
        let (xs, pq', rest, same, up, empty) = pops-Ascends d n pq1 t.valid (omega arith) in
        (
          x ∷ xs,
          pq',
          ap (with_more (λ pq'. pops n pq')) ran ∙ ap (onto x.value) rest,
          subst (λ t. Perm t (x ∷ xs)) (sym here) (Perm.trans p.same (Perm.cons x same)),
          first_then (λ y m. p.least y ((Perm.mem_iff same).1 m)) up,
          empty,
        )
  ]
