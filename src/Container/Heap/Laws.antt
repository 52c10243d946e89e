-- ===== src/Container/Heap/Laws.antt =====
-- container/heap's Push and Pop: they keep the heap order, and Pop gives an item that no other stands
-- before.
use mathlib.Core.List.Perm
use mathlib.Core.Logic.Or
use mathlib.Core.Path.{subst}
use mathlib.Core.List.{Perm, Mem, mem-cons, not-mem-nil, perm_append_singleton}
use czx.Base.{
  ℕ, zero, suc, ◌+◌, ◌-◌, ◌<◌, ◌≡◌, refl, ap, sym, ◌∙◌, false, List, [], ◌∷◌, ◌++◌, some, arith,
  ◌==◌, length, get_or, take, length-append, length-take,
}
use czx.Container.Heap.{Item, swap, parent, push_item, pop_item, down_loop, heap_push, heap_pop}
use czx.Container.Heap.Order.{
  Le, Le-refl, Le_trans, swapped, get_or-swapped, length-swapped, swapped-perm, swap_lem,
  get_elem?-lt, Heaped,
}
use czx.Container.Heap.Up.{Rising, up_loop-Sifted}
use czx.Container.Heap.Down.{Sinking, down_loop-Sifted}

module _ {T : Type 0} where
  get_or-append :
      (q r : List (Item T)) (c : ℕ) (d : Item T) → c < length q → get_or (q ++ r) c d ≡ get_or q c d
  get_or-append [] r c d h = absurd (omega arith)
  get_or-append (x ∷ q) r zero d h = refl
  get_or-append (x ∷ q) r (suc c) d h = get_or-append q r c d (omega arith)

  get_or-take :
      (n : ℕ) (q : List (Item T)) (c : ℕ) (d : Item T)
      → c < n
      → get_or (take n q) c d ≡ get_or q c d
  get_or-take zero q c d h = absurd (omega arith)
  get_or-take (suc n) [] c d h = refl
  get_or-take (suc n) (x ∷ q) zero d h = refl
  get_or-take (suc n) (x ∷ q) (suc c) d h = get_or-take n q c d (omega arith)

  take-last :
      (n : ℕ) (q : List (Item T)) (d : Item T)
      → length q ≡ suc n
      → take n q ++ (get_or q n d ∷ []) ≡ q
  take-last zero (x ∷ []) d h = refl
  take-last (suc n) (x ∷ q) d h = ap (◌∷◌ x) (take-last n q d (omega arith))
  take-last n [] d h = absurd (omega arith)
  take-last zero (x ∷ y ∷ q) d h = absurd (omega arith)

  push-Rising :
      (d : Item T) (q : List (Item T)) (x : Item T)
      → Heaped d (length q) q
      → Rising d (push_item q x) (length q)
  push-Rising d q x v =
      let size = length-append q (x ∷ []) in
      record {
        inside = omega arith;
        others = λ c h k ne.
            let low : c < length q = omega arith in
            rw
              (
                get_or-append q (x ∷ []) c d low,
                get_or-append q (x ∷ []) (parent c) d (omega arith),
              )
              (v c h low);
        across = λ c h k e pos. absurd (omega arith);
      }

  -- On a heap heap.Push returns, and leaves a heap of the items and the new one.
  pub heap_push_lem :
      (d : Item T) (q : List (Item T)) (x : Item T)
      → Heaped d (length q) q
      → (q' : List (Item T)) × (heap_push q x ≡ some q')
        × Heaped d (length q') q'
        × Perm q' (x ∷ q)
        × (length q' ≡ suc (length q))
  unfolding heap_push
  heap_push_lem d q x v =
      let size = length-append q (x ∷ []) in
      let (q', ran, s) =
        up_loop-Sifted d (length q + 1) (length q + 1) (push_item q x) (length q) (omega arith)
          (omega arith) (push-Rising d q x v) in
      let size' = s.size in
      (
        q',
        ran,
        λ c h k. s.ordered c h (omega arith),
        Perm.trans s.same (perm_append_singleton x q),
        omega arith,
      )

  least_below :
      (d : Item T) (k : ℕ) (q : List (Item T)) (i : ℕ)
      → Heaped d (length q) q
      → i < k
      → i < length q
      → Le (get_or q 0 d) (get_or q i d)
  least_below d zero q i v f h = absurd (omega arith)
  least_below d (suc k) q zero v f h = Le-refl (get_or q 0 d)
  least_below d (suc k) q (suc i) v f h =
      Le_trans (get_or q 0 d) (get_or q (parent (suc i)) d) (get_or q (suc i) d)
        (least_below d k q (parent (suc i)) v (omega arith) (omega arith))
        (v (suc i) (omega arith) h)

  Le-prop : (x y : Item T) → IsProp (Le x y)
  Le-prop x y = hlevel

  mem-least :
      (d x y : Item T) (q : List (Item T))
      → ((c : ℕ) → c < length q → Le x (get_or q c d))
      → Mem y q
      → Le x y
  mem-least d x y [] h m = absurd (not-mem-nil m)
  mem-least d x y (z ∷ q) h m =
      Or.elim (Le-prop x y) (mem-cons.0 m) (λ e. rw e (h 0 (omega arith)))
        (λ r. mem-least d x y q (λ c k. h (suc c) (omega arith)) r)

  -- What heap.Pop makes of a heap: an item before which no other stands, and a heap of the rest.
  pub record Popped (d : Item T) (q : List (Item T)) (x : Item T) (q' : List (Item T))
      : Type 0 where
    pub ordered : Heaped d (length q') q'
    pub same : Perm q (x ∷ q')
    pub least : (y : Item T) → Mem y q' → Le x y
    pub size : length q ≡ suc (length q')

  root_mem :
      (d y x : Item T) (q : List (Item T))
      → Heaped d (length (x ∷ q)) (x ∷ q)
      → Mem y (x ∷ q)
      → Le x y
  root_mem d y x q v m =
      mem-least d x y (x ∷ q) (λ c h. least_below d (suc c) (x ∷ q) c v (omega arith) h) m

  top-Sinking :
      (d x y : Item T) (q : List (Item T))
      → Heaped d (length (x ∷ y ∷ q)) (x ∷ y ∷ q)
      → Sinking d (suc (length q)) (swapped (x ∷ y ∷ q) 0 (suc (length q)) d) 0
  top-Sinking d x y q v =
      let a = x ∷ y ∷ q in
      let n : ℕ = suc (length q) in
      let at = λ (c : ℕ). get_or-swapped a 0 n c d (omega arith) (omega arith) in
      record {
        others = λ c h k ne. ground (arith, at c, at (parent c), v c h);
        across = λ c h k e pos. absurd (omega arith);
      }

  -- heap.Pop where the loop of `down` gives `b`, whose last item is the first one of the heap.
  heap_pop-run :
      (d : Item T) (a b : List (Item T)) (n : ℕ)
      → length a ≡ suc n
      → 0 < n
      → down_loop (suc n) (swapped a 0 n d) 0 n ≡ some b
      → length b ≡ suc n
      → heap_pop a ≡ some (get_or b n d, take n b)
  unfolding heap_pop pop_item
  heap_pop-run d a b n size pos ran long =
      let test : (suc n == 0) ≡ false = ground arith in
      let less_one : suc n - 1 ≡ n = omega arith in
      rw
        (
          size,
          test,
          less_one,
          swap_lem a 0 n d (omega arith) (omega arith),
          ran,
          long,
          less_one,
          get_elem?-lt b n d (omega arith),
        )
        refl

  pop_two :
      (d x y : Item T) (q : List (Item T))
      → Heaped d (length (x ∷ y ∷ q)) (x ∷ y ∷ q)
      → (q' : List (Item T)) × (heap_pop (x ∷ y ∷ q) ≡ some (x, q')) × Popped d (x ∷ y ∷ q) x q'
  pop_two d x y q v =
      let a = x ∷ y ∷ q in
      let n : ℕ = suc (length q) in
      let size1 = length-swapped a 0 n d in
      let a1 = swapped a 0 n d in
      let (b, ran, s) =
        down_loop-Sifted d (suc n) n a1 0 (omega arith) (omega arith) (top-Sinking d x y q v) in
      let size = s.size in
      let long : length b ≡ suc n = omega arith in
      let last : get_or b n d ≡ x =
        s.beyond n (omega arith) ∙ ground (arith, get_or-swapped a 0 n n d) in
      let back : take n b ++ (x ∷ []) ≡ b =
        ap (λ t. take n b ++ (t ∷ [])) (sym last) ∙ take-last n b d long in
      let whole : Perm b a = Perm.trans s.same (swapped-perm a 0 n d (omega arith) (omega arith)) in
      let all : Perm a (x ∷ take n b) =
        Perm.trans (Perm.symm whole)
          (subst (λ t. Perm t (x ∷ take n b)) back (perm_append_singleton x (take n b))) in
      let cut = length-take n b in
      (
        take n b,
        heap_pop-run d a b n refl (omega arith) ran long ∙ ap (λ t. some (t, take n b)) last,
        record {
          ordered = λ c h k.
              rw (get_or-take n b c d (omega arith), get_or-take n b (parent c) d (omega arith))
                (s.ordered c h (omega arith));
          same = all;
          least = λ z m. root_mem d z x (y ∷ q) v ((Perm.mem_iff all).1 (mem-cons.1 (Or.inr m)));
          size = omega arith;
        },
      )

  -- heap.Pop on a heap with an item returns.
  pub heap_pop_lem :
      (d x : Item T) (q : List (Item T))
      → Heaped d (length (x ∷ q)) (x ∷ q)
      → (q' : List (Item T)) × (heap_pop (x ∷ q) ≡ some (x, q')) × Popped d (x ∷ q) x q'
  unfolding heap_pop pop_item swap down_loop
  heap_pop_lem d x [] v = (
    [],
    refl,
    record {
      ordered = λ c h k. absurd (omega arith);
      same = Perm.refl (x ∷ []);
      least = λ y m. absurd (not-mem-nil m);
      size = refl;
    },
  )
  heap_pop_lem d x (y ∷ q) v = pop_two d x y q v
