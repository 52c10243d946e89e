-- ===== src/Container/Heap/Down.antt =====
-- container/heap's `down` on the first items: it mends the edges below one item.
use mathlib.Core.List.Perm
use czx.Base.{
  ℕ, zero, suc, ◌+◌, ◌-◌, ◌*◌, ◌≤◌, ◌<◌, ◌≡◌, ◌≢◌, ◌⊎◌, inl, inr, refl, true, List, some, arith,
  ltb, ◌==◌, length, get_or, Bool-cases,
}
use czx.Container.Heap.{Item, before, parent, child, down_loop}
use czx.Container.Heap.Order.{
  Le, Le-refl, Le_of_before, Le_trans, swapped, get_or-swapped, length-swapped, swap_lem, less_lem,
  Sifted, Sifted-swapped,
}

module _ {T : Type 0} (d : Item T) where
  -- Of the first `n` items all but the children of `i` are in order with their parents, and these with
  -- the parent of `i`.
  pub record Sinking (n : ℕ) (q : List (Item T)) (i : ℕ) : Type 0 where
    pub others : (c : ℕ) → 0 < c → c < n → parent c ≢ i → Le (get_or q (parent c) d) (get_or q c d)
    pub across :
        (c : ℕ) → 0 < c → c < n → parent c ≡ i → 0 < i → Le (get_or q (parent i) d) (get_or q c d)

  -- A child that stands behind no other child of `i`.
  record Least (n : ℕ) (q : List (Item T)) (i m : ℕ) : Type 0 where
    within : m < n
    below : (m ≡ 2 * i + 1) ⊎ (m ≡ 2 * i + 2)
    least : (c : ℕ) → 0 < c → c < n → parent c ≡ i → Le (get_or q m d) (get_or q c d)

  child-Least :
      (n : ℕ) (q : List (Item T)) (i : ℕ)
      → n ≤ length q
      → 2 * i + 1 < n
      → (m : ℕ) × (child q n (2 * i + 1) ≡ some m) × Least n q i m
  unfolding child
  child-Least n q i h k =
      let at = λ (m : ℕ). get_or q m d in
      let left : ℕ = 2 * i + 1 in
      elim (Bool-cases (ltb (left + 1) n)) [
        | inl two ↦
            let within : left + 1 < n = ground arith in
            let test = less_lem q (left + 1) left d (omega arith) (omega arith) in
            elim (Bool-cases (before (at (left + 1)) (at left))) [
              | inl right ↦ (
                left + 1,
                rw (two, test, right) refl,
                record {
                  within = within;
                  below = inr (omega arith);
                  least = λ c p r e.
                      either_child c left (left + 1) e p refl
                        (Le_of_before (at (left + 1)) (at left) right) (Le-refl (at (left + 1)));
                },
              )
              | inr not_right ↦ (
                left,
                rw (two, test, not_right) refl,
                record {
                  within = k;
                  below = inl refl;
                  least =
                      λ c p r e. either_child c left left e p refl (Le-refl (at left)) not_right;
                },
              )
            ]
        | inr one ↦ (
          left,
          rw one refl,
          record {
            within = k;
            below = inl refl;
            least = λ c p r e. only_child c e p (ground arith);
          },
        )
      ]
    where
      either_child :
          (c left m : ℕ)
          → parent c ≡ i
          → 0 < c
          → left ≡ 2 * i + 1
          → Le (get_or q m d) (get_or q left d)
          → Le (get_or q m d) (get_or q (left + 1) d)
          → Le (get_or q m d) (get_or q c d)
      either_child c left m e p l a b = elim (Bool-cases (c == left)) [
        | inl first ↦ let z : c ≡ left = ground arith in rw z a
        | inr second ↦ let z : c ≡ left + 1 = ground arith in rw z b
      ]

      only_child :
          (c : ℕ)
          → parent c ≡ i
          → 0 < c
          → c < 2 * i + 1 + 1
          → Le (get_or q (2 * i + 1) d) (get_or q c d)
      only_child c e p r =
          let z : c ≡ 2 * i + 1 = omega arith in rw z (Le-refl (get_or q (2 * i + 1) d))

  module _ (n : ℕ) (q : List (Item T)) (i m : ℕ) (h : n ≤ length q) (v : Sinking n q i)
      (s : Least n q i m) (smaller : before (get_or q m d) (get_or q i d) ≡ true) where
    sink-others :
        (c : ℕ)
        → 0 < c
        → c < n
        → parent c ≢ m
        → Le (get_or (swapped q i m d) (parent c) d) (get_or (swapped q i m d) c d)
    sink-others c p r ne =
        let at = λ (m : ℕ). get_or q m d in
        ground (
          arith,
          get_or-swapped q i m c d,
          get_or-swapped q i m (parent c) d,
          s.within,
          s.below,
          s.least c p r,
          v.others c p r,
          v.across c p r,
          v.across m,
          Le_of_before (at m) (at i) smaller,
        )

    sink-across :
        (c : ℕ)
        → 0 < c
        → c < n
        → parent c ≡ m
        → Le (get_or (swapped q i m d) (parent m) d) (get_or (swapped q i m d) c d)
    sink-across c p r e = ground (
      arith,
      get_or-swapped q i m c d,
      get_or-swapped q i m (parent m) d,
      s.within,
      s.below,
      v.others c p r,
    )

    sink-Sinking : Sinking n (swapped q i m d) m
    sink-Sinking = record { others = sink-others; across = λ c p r e up. sink-across c p r e }

  -- With fuel for the items from `i` on, `down` makes a heap of the first `n`, of the same items, and
  -- leaves the others as they are.
  pub down_loop-Sifted :
      (k n : ℕ) (q : List (Item T)) (i : ℕ)
      → n - i < k
      → n ≤ length q
      → Sinking n q i
      → (q' : List (Item T)) × (down_loop k q i n ≡ some q') × Sifted d n q q'
  unfolding down_loop
  down_loop-Sifted zero n q i f h v = absurd (omega arith)
  down_loop-Sifted (suc k) n q i f h v = elim (Bool-cases (ltb (2 * i + 1) n)) [
    | inl some_child ↦
        let (m, which, s) = child-Least n q i h (ground arith) in
        let within = s.within in
        let side = s.below in
        let test = less_lem q m i d (omega arith) (ground arith) in
        elim (Bool-cases (before (get_or q m d) (get_or q i d))) [
          | inl smaller ↦
              let q1 = swapped q i m d in
              let size = length-swapped q i m d in
              let (q', ran, z) =
                down_loop-Sifted k n q1 m (ground arith) (omega arith)
                  (sink-Sinking n q i m h v s smaller) in
              (
                q',
                rw (some_child, which, test, smaller, swap_lem q i m d (ground arith) (omega arith))
                    ran,
                Sifted-swapped d n q q' i m (ground arith) within h z,
              )
          | inr settled ↦ (
            q,
            rw (some_child, which, test, settled) refl,
            record {
              size = refl;
              ordered = λ c p r. settled_order c p r m s settled;
              same = Perm.refl q;
              beyond = λ c p. refl;
            },
          )
        ]
    | inr no_child ↦ (
      q,
      rw no_child refl,
      record {
        size = refl;
        ordered = λ c p r. v.others c p r (ground arith);
        same = Perm.refl q;
        beyond = λ c p. refl;
      },
    )
  ]
    where
      settled_order :
          (c : ℕ)
          → 0 < c
          → c < n
          → (m : ℕ) → Least n q i m
          → Le (get_or q i d) (get_or q m d)
          → Le (get_or q (parent c) d) (get_or q c d)
      settled_order c p r m s settled = elim (Bool-cases (parent c == i)) [
        | inl mine ↦
            let e : parent c ≡ i = ground arith in
            rw e (Le_trans (get_or q i d) (get_or q m d) (get_or q c d) settled (s.least c p r e))
        | inr other ↦ v.others c p r (ground arith)
      ]
