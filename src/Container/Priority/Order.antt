-- ===== src/Container/Priority/Order.antt =====
-- container/cqueue/priority_queue.go: Pop, WaitPop and Push keep the heap order and the bound.
use mathlib.Core.List.{Perm}
use mathlib.Core.Path.{subst}
use czx.Base.{
  ◌||◌, ◌⊎◌, ℕ, suc, ◌+◌, ◌≤◌, ◌≡◌, refl, ap, ◌∙◌, Bool, true, false, not, ◌&&◌, List, ◌∷◌, Option,
  none, some, arith, leb, ◌==◌, if◌then◌else◌, length, Bool-cases, inl, inr,
}
use czx.Base.Int.{ℤ, pos, negsuc, geb, is_nonpos, pos_part}
use czx.Container.Queue.{Growth, Recycler}
use czx.Container.Heap.{Item, heap_pop}
use czx.Container.Heap.Order.{Heaped}
use czx.Container.Heap.Laws.{heap_push_lem, heap_pop_lem, Popped}
use czx.Container.Priority.{
  PriorityQueue, PriorityItem, takes, asked, shrink_if_asked, with_items, push, took, take_first,
  pop, wait_pop,
}

-- `len(pq.items) >= pq.maxCap` where the queue has a bound
abbrev pub is_full : ℤ → ℕ → Bool
is_full z n = not (is_nonpos z) && geb n z

not_full : (z : ℤ) (n : ℕ) → is_full z n ≡ false → is_nonpos z ≡ false → suc n ≤ pos_part z
not_full (pos m) n f h = ground arith
not_full (negsuc m) n f h = absurd (ground arith)

module _ {T : Type 0} where
  pub record IsOrdered (d : Item T) (pq : PriorityQueue T) : Type 0 where
    pub heaped : Heaped d (length pq.items) pq.items
    pub within : is_nonpos pq.max_cap ≡ false → length pq.items ≤ pos_part pq.max_cap

  -- The same queue but for its capacity.
  pub record Refills (pq pq' : PriorityQueue T) : Type 0 where
    pub items_kept : pq'.items ≡ pq.items
    pub bound_kept : pq'.max_cap ≡ pq.max_cap
    pub closed_kept : pq'.closed ≡ pq.closed

  pub asked-Refills : (r : Option Recycler) (pq : PriorityQueue T) → Refills pq (asked r pq)
  asked-Refills none pq = record { items_kept = refl; bound_kept = refl; closed_kept = refl }
  asked-Refills (some r) pq = elim (Bool-cases (r (length pq.items) pq.cap)) [
    | inl e ↦ rw e (record { items_kept = refl; bound_kept = refl; closed_kept = refl })
    | inr e ↦ rw e (record { items_kept = refl; bound_kept = refl; closed_kept = refl })
  ]

  pub Refills-IsOrdered :
      (d : Item T) (pq pq' : PriorityQueue T) → Refills pq pq' → IsOrdered d pq → IsOrdered d pq'
  Refills-IsOrdered d pq pq' f v = record {
    heaped = rw f.items_kept v.heaped;
    within = rw (f.items_kept, f.bound_kept) v.within;
  }

  -- What `take_first` makes of a queue with the items `x ∷ q`.
  pub record Takes (d x : Item T) (q : List (Item T)) (pq pq' : PriorityQueue T) : Type 0 where
    pub popped : Popped d (x ∷ q) x pq'.items
    pub valid : IsOrdered d pq'
    pub bound_kept : pq'.max_cap ≡ pq.max_cap
    pub closed_kept : pq'.closed ≡ pq.closed

  pub take_first_lem :
      (d x : Item T) (q : List (Item T)) (pq : PriorityQueue T)
      → pq.items ≡ x ∷ q
      → IsOrdered d pq
      → (pq' : PriorityQueue T) × (take_first pq ≡ some (x.value, pq')) × Takes d x q pq pq'
  take_first_lem d x q pq e v =
      let (q', ran, p) = heap_pop_lem d x q (subst (λ t. Heaped d (length t) t) e v.heaped) in
      let size = p.size in
      let old = ap length e in
      let pq1 = with_items pq q' in
      let pq' = shrink_if_asked pq1 in
      let f = asked-Refills pq.recycler pq1 in
      let valid1 : IsOrdered d pq1 = record {
        heaped = p.ordered;
        within = λ h. let room = v.within h in omega arith;
      } in
      (
        pq',
        ap (took pq) (ap heap_pop e ∙ ran),
        record {
          popped = rw f.items_kept p;
          valid = Refills-IsOrdered d pq1 pq' f valid1;
          bound_kept = f.bound_kept;
          closed_kept = f.closed_kept;
        },
      )

  pub pop_lem :
      (d x : Item T) (q : List (Item T)) (pq : PriorityQueue T)
      → pq.items ≡ x ∷ q
      → IsOrdered d pq
      → (pq' : PriorityQueue T) × (pop pq ≡ some (some x.value, pq')) × Takes d x q pq pq'
  unfolding pop
  pop_lem d x q pq e v =
      let (pq', ran, t) = take_first_lem d x q pq e v in
      let some_items : (length pq.items == 0) ≡ false = ground (arith, ap length e) in
      (pq', rw (some_items, ran) refl, t)

  pub wait_pop_lem :
      (d x : Item T) (q : List (Item T)) (pq : PriorityQueue T)
      → pq.items ≡ x ∷ q
      → pq.closed ≡ false
      → IsOrdered d pq
      → (pq' : PriorityQueue T) × (wait_pop pq ≡ some (takes x.value pq')) × Takes d x q pq pq'
  unfolding wait_pop
  wait_pop_lem d x q pq e c v =
      let (pq', ran, t) = take_first_lem d x q pq e v in
      let some_items : (length pq.items == 0) ≡ false = ground (arith, ap length e) in
      (pq', rw (c, some_items, ran) refl, t)

  abbrev pub new_item : PriorityItem T → ℤ → Item T
  new_item x now = record { value = x.value; priority = x.priority; timestamp = now }

  -- What a `Push` that takes the value makes of the queue.
  pub record Pushed (d : Item T) (pq : PriorityQueue T) (x : PriorityItem T) (now : ℤ)
      (pq' : PriorityQueue T) : Type 0 where
    pub same : Perm pq'.items (new_item x now ∷ pq.items)
    pub valid : IsOrdered d pq'
    pub bound_kept : pq'.max_cap ≡ pq.max_cap
    pub closed_kept : pq'.closed ≡ pq.closed

  -- On a queue in heap order Push returns: it refuses the value and keeps the queue where that is closed
  -- or full, else it takes it, into a queue in heap order of the items and the new one.
  pub push-Pushed :
      (g : Growth) (d : Item T) (pq : PriorityQueue T) (x : PriorityItem T) (now : ℤ)
      → IsOrdered d pq
      → ((pq.closed || is_full pq.max_cap (length pq.items) ≡ true)
          × (push g pq x now ≡ some (false, pq)))
        ⊎ ((pq.closed || is_full pq.max_cap (length pq.items) ≡ false)
            × ((pq' : PriorityQueue T) × (push g pq x now ≡ some (true, pq'))
                × Pushed d pq x now pq'))
  unfolding push
  push-Pushed g d pq x now v = elim (Bool-cases pq.closed) [
    | inl c ↦ inl (ground arith, rw c refl)
    | inr c ↦ elim (Bool-cases (is_full pq.max_cap (length pq.items))) [
      | inl f ↦ inl (ground arith, rw (c, f) refl)
      | inr f ↦
          let (q, ran, h, same, size) = heap_push_lem d pq.items (new_item x now) v.heaped in
          let needed = length pq.items + 1 in
          inr (
            ground arith,
            (
              record pq {
                items = q;
                cap = if leb needed pq.cap then pq.cap else g.next_cap pq.cap needed;
              },
              simp (c, f, ran),
              record {
                same = same;
                valid = record {
                  heaped = h;
                  within = λ b. let room = not_full pq.max_cap (length pq.items) f b in omega arith;
                };
                bound_kept = refl;
                closed_kept = refl;
              },
            ),
          )
    ]
  ]
