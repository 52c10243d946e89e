-- ===== src/Container/Heap/Up.antt =====
-- container/heap's `up`: it mends the one edge that may be out of order.
use mathlib.Core.List.Perm
use czx.Base.{
  ℕ, zero, suc, ◌<◌, ◌≡◌, ◌≢◌, inl, inr, refl, sym, ◌∙◌, true, List, some, arith, ◌==◌, length,
  get_or, Bool-cases,
}
use czx.Container.Heap.{Item, before, parent, up_loop}
use czx.Container.Heap.Order.{
  Le, Le_of_before, Le_trans, swapped, get_or-swapped, length-swapped, swap_lem, less_lem, Sifted,
  Sifted-swapped,
}

module _ {T : Type 0} (d : Item T) where
  -- Every item but that at `j` is in order with its parent, and the children of `j` with its parent.
  pub record Rising (q : List (Item T)) (j : ℕ) : Type 0 where
    pub inside : j < length q
    pub others : (c : ℕ) → 0 < c → c < length q → c ≢ j → Le (get_or q (parent c) d) (get_or q c d)
    pub across :
        (c : ℕ)
        → 0 < c
        → c < length q
        → parent c ≡ j
        → 0 < j
        → Le (get_or q (parent j) d) (get_or q c d)

  module _ (q : List (Item T)) (j : ℕ) (v : Rising q j) (pos : 0 < j)
      (smaller : before (get_or q j d) (get_or q (parent j) d) ≡ true) where
    rise-others :
        (c : ℕ)
        → 0 < c
        → c < length q
        → c ≢ parent j
        → Le
            (get_or (swapped q (parent j) j d) (parent c) d)
            (get_or (swapped q (parent j) j d) c d)
    rise-others c h k ne =
        let at = λ (m : ℕ). get_or q m d in
        ground (
          arith,
          get_or-swapped q (parent j) j c d,
          get_or-swapped q (parent j) j (parent c) d,
          v.inside,
          v.others c h k,
          v.across c h k,
          Le_of_before (at j) (at (parent j)) smaller,
          Le_trans (at j) (at (parent j)) (at c),
        )

    rise-across :
        (c : ℕ)
        → 0 < c
        → c < length q
        → parent c ≡ parent j
        → 0 < parent j
        → Le
            (get_or (swapped q (parent j) j d) (parent (parent j)) d)
            (get_or (swapped q (parent j) j d) c d)
    rise-across c h k e up =
        let at = λ (m : ℕ). get_or q m d in
        ground (
          arith,
          get_or-swapped q (parent j) j c d,
          get_or-swapped q (parent j) j (parent (parent j)) d,
          v.inside,
          v.others c h k,
          v.others (parent j),
          Le_trans (at (parent (parent j))) (at (parent j)) (at c),
        )

    rise-Rising : Rising (swapped q (parent j) j d) (parent j)
    rise-Rising =
        let size = length-swapped q (parent j) j d in
        let within = v.inside in
        record {
          inside = omega arith;
          others = λ c h k ne. rise-others c h (omega arith) ne;
          across = λ c h k e up. rise-across c h (omega arith) e up;
        }

  -- With more fuel than the index, `up` returns a heap of the same items.
  pub up_loop-Sifted :
      (k n : ℕ) (q : List (Item T)) (j : ℕ)
      → n ≡ length q
      → j < k
      → Rising q j
      → (q' : List (Item T)) × (up_loop k q j ≡ some q') × Sifted d n q q'
  unfolding up_loop
  up_loop-Sifted zero n q j len f v = absurd (omega arith)
  up_loop-Sifted (suc k) n q j len f v = elim (Bool-cases (parent j == j)) [
    | inl top ↦ (
      q,
      rw top refl,
      record {
        size = refl;
        ordered = λ c h m. v.others c h (omega arith) (ground arith);
        same = Perm.refl q;
        beyond = λ c h. refl;
      },
    )
    | inr lower ↦
        let within = v.inside in
        let above : parent j < length q = omega arith in
        let pos : 0 < j = ground arith in
        let test = less_lem q j (parent j) d within above in
        elim (Bool-cases (before (get_or q j d) (get_or q (parent j) d))) [
          | inl smaller ↦
              let q1 = swapped q (parent j) j d in
              let size = length-swapped q (parent j) j d in
              let (q', ran, s) =
                up_loop-Sifted k n q1 (parent j) (len ∙ sym size) (omega arith)
                  (rise-Rising q j v pos smaller) in
              (
                q',
                rw (lower, test, smaller, swap_lem q (parent j) j d above within) ran,
                Sifted-swapped d n q q' (parent j) j (omega arith) (omega arith) (omega arith) s,
              )
          | inr settled ↦ (
            q,
            rw (lower, test, settled) refl,
            record {
              size = refl;
              ordered = λ c h m. ordered c h (omega arith) settled;
              same = Perm.refl q;
              beyond = λ c h. refl;
            },
          )
        ]
  ]
    where
      ordered :
          (c : ℕ)
          → 0 < c
          → c < length q
          → Le (get_or q (parent j) d) (get_or q j d)
          → Le (get_or q (parent c) d) (get_or q c d)
      ordered c h m settled = ground (arith, v.others c h m)
