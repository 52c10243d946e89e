-- ===== src/Container/Heap/Order.antt =====
-- container/cqueue/priority_queue.go: the order of the items, and the heap order.
use mathlib.Core.List.Perm
use mathlib.Core.List.{Perm}
use czx.Base.{
  ℕ, zero, suc, ◌≤◌, ◌<◌, ◌≡◌, refl, ap, ◌∙◌, true, false, List, [], ◌∷◌, some, arith, ◌==◌,
  if◌then◌else◌, length, get_elem?, get_or, set, length-set,
}
use czx.Container.Heap.{Item, before, less, swap, parent}

module _ {T : Type 0} where
  -- `y` may not stand before `x`
  abbrev pub Le : Item T → Item T → Type 0
  Le x y = before y x ≡ false

  pub Le-refl : (x : Item T) → Le x x
  unfolding before
  Le-refl x = ground arith

  pub Le_of_before : (x y : Item T) → before x y ≡ true → Le x y
  unfolding before
  Le_of_before x y h = ground arith

  pub Le_trans : (x y z : Item T) → Le x y → Le y z → Le x z
  unfolding before
  Le_trans x y z h k = ground arith

  pub get_elem?-lt :
      (q : List (Item T)) (i : ℕ) (d : Item T) → i < length q → get_elem? q i ≡ some (get_or q i d)
  get_elem?-lt [] i d h = absurd (omega arith)
  get_elem?-lt (x ∷ q) zero d h = refl
  get_elem?-lt (x ∷ q) (suc i) d h = get_elem?-lt q i d (omega arith)

  -- What `swap` makes of items where both indexes are in range.
  abbrev pub swapped : List (Item T) → ℕ → ℕ → Item T → List (Item T)
  swapped q i j d = set (set q i (get_or q j d)) j (get_or q i d)

  get_or-set :
      (q : List (Item T)) (i c : ℕ) (v d : Item T)
      → i < length q
      → get_or (set q i v) c d ≡ (if i == c then v else get_or q c d)
  get_or-set [] i c v d h = absurd (omega arith)
  get_or-set (x ∷ q) zero zero v d h = refl
  get_or-set (x ∷ q) zero (suc c) v d h = ground arith
  get_or-set (x ∷ q) (suc i) zero v d h = ground arith
  get_or-set (x ∷ q) (suc i) (suc c) v d h = ground (arith, get_or-set q i c v d)

  pub get_or-swapped :
      (q : List (Item T)) (i j c : ℕ) (d : Item T)
      → i < length q
      → j < length q
      → get_or (swapped q i j d) c d
        ≡ (if j == c then get_or q i d else if i == c then get_or q j d else get_or q c d)
  get_or-swapped q i j c d hi hj =
      get_or-set (set q i (get_or q j d)) j c (get_or q i d) d
        (omega (arith, length-set q i (get_or q j d)))
      ∙ ap (λ t. if j == c then get_or q i d else t) (get_or-set q i c (get_or q j d) d hi)

  pub length-swapped :
      (q : List (Item T)) (i j : ℕ) (d : Item T) → length (swapped q i j d) ≡ length q
  length-swapped q i j d =
      length-set (set q i (get_or q j d)) j (get_or q i d) ∙ length-set q i (get_or q j d)

  set_first :
      (q : List (Item T)) (j : ℕ) (x d : Item T)
      → j < length q
      → Perm (get_or q j d ∷ set q j x) (x ∷ q)
  set_first [] j x d h = absurd (omega arith)
  set_first (y ∷ q) zero x d h = Perm.swap x y q
  set_first (y ∷ q) (suc j) x d h =
      Perm.trans (Perm.swap y (get_or q j d) (set q j x))
        (Perm.trans (Perm.cons y (set_first q j x d (omega arith))) (Perm.swap x y q))

  pub swapped-perm :
      (q : List (Item T)) (i j : ℕ) (d : Item T) → i < j → j < length q → Perm (swapped q i j d) q
  swapped-perm [] i j d h k = absurd (omega arith)
  swapped-perm (x ∷ q) i zero d h k = absurd (omega arith)
  swapped-perm (x ∷ q) zero (suc j) d h k = set_first q j x d (omega arith)
  swapped-perm (x ∷ q) (suc i) (suc j) d h k =
      Perm.cons x (swapped-perm q i j d (omega arith) (omega arith))

  pub swap_lem :
      (q : List (Item T)) (i j : ℕ) (d : Item T)
      → i < length q
      → j < length q
      → swap q i j ≡ some (swapped q i j d)
  unfolding swap
  swap_lem q i j d hi hj = rw (get_elem?-lt q i d hi, get_elem?-lt q j d hj) refl

  pub less_lem :
      (q : List (Item T)) (i j : ℕ) (d : Item T)
      → i < length q
      → j < length q
      → less q i j ≡ some (before (get_or q i d) (get_or q j d))
  unfolding less
  less_lem q i j d hi hj = rw (get_elem?-lt q i d hi, get_elem?-lt q j d hj) refl

  -- Among the first `n` items each stands behind its parent, or beside it.
  abbrev pub Heaped : Item T → ℕ → List (Item T) → Type 0
  Heaped d n q = (c : ℕ) → 0 < c → c < n → Le (get_or q (parent c) d) (get_or q c d)

  -- A heap of as many items, the same ones in another order.
  pub record Sifted (d : Item T) (n : ℕ) (q q' : List (Item T)) : Type 0 where
    pub size : length q' ≡ length q
    pub ordered : Heaped d n q'
    pub same : Perm q' q
    pub beyond : (c : ℕ) → n ≤ c → get_or q' c d ≡ get_or q c d

  pub Sifted-swapped :
      (d : Item T) (n : ℕ) (q q' : List (Item T)) (i j : ℕ)
      → i < j
      → j < n
      → n ≤ length q
      → Sifted d n (swapped q i j d) q'
      → Sifted d n q q'
  Sifted-swapped d n q q' i j h k m s = record {
    size = s.size ∙ length-swapped q i j d;
    ordered = s.ordered;
    same = Perm.trans s.same (swapped-perm q i j d h (omega arith));
    beyond = λ c p. s.beyond c p ∙ ground (arith, get_or-swapped q i j c d);
  }
