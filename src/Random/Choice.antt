-- ===== src/Random/Choice.antt =====
-- algo/random/weight.go: which item Random chooses.
use mathlib.Core.Path.{subst}
use czx.Base.{
  ℕ, zero, suc, ◌+◌, ◌-◌, ◌%◌, ◌^◌, ◌≤◌, ◌<◌, ◌≡◌, refl, ap, ◌∙◌, true, false, List, [], ◌∷◌,
  Option, none, some, arith, ltb, leb, ◌==◌, if◌then◌else◌, length, get_or,
}
use czx.Random.{WeightItem, sums_from, total_from, new_weight_pool, value_at, random}
use czx.Random.Search.{IsMonotone, search-IsFirst}

module _ {T : Type 0} where
  -- The sum of the weights, without wrapping around.
  unfoldable pub weight_sum : List (WeightItem T) → ℕ
  weight_sum [] = 0
  weight_sum (x ∷ xs) = x.weight + weight_sum xs

  -- The item that owns `r`, where each item owns as many numbers as its weight, one item behind the other.
  pub owner : List (WeightItem T) → ℕ → Option T
  owner [] r = none
  owner (x ∷ xs) r =
      let rest = owner xs (r - x.weight) in if ltb r x.weight then some x.value else rest

  length-sums_from : (w t : ℕ) (xs : List (WeightItem T)) → length (sums_from w t xs) ≡ length xs
  unfolding sums_from
  length-sums_from w t [] = refl
  length-sums_from w t (x ∷ xs) = ap suc (length-sums_from w ((t + x.weight) % 2 ^ w) xs)

  -- Without an overflow a sum wraps to itself.
  fits :
      (w t : ℕ) (x : WeightItem T) (xs : List (WeightItem T))
      → t + weight_sum (x ∷ xs) < 2 ^ w
      → (t + x.weight) % 2 ^ w ≡ t + x.weight
  unfolding weight_sum
  fits w t x xs h = grind arith

  total_from-sum :
      (w t : ℕ) (xs : List (WeightItem T))
      → t + weight_sum xs < 2 ^ w
      → total_from w t xs ≡ t + weight_sum xs
  unfolding total_from weight_sum
  total_from-sum w t [] h = omega arith
  total_from-sum w t (x ∷ xs) h =
      let wrap = fits w t x xs (omega arith) in
      let rest = total_from-sum w (t + x.weight) xs (omega arith) in rw wrap (rest ∙ omega arith)

  sum-le :
      (w t : ℕ) (xs : List (WeightItem T)) (c : ℕ)
      → t + weight_sum xs < 2 ^ w
      → c < length xs
      → t ≤ get_or (sums_from w t xs) c 0
  unfolding sums_from weight_sum
  sum-le w t [] c h k = absurd (omega arith)
  sum-le w t (x ∷ xs) zero h k = let wrap = fits w t x xs (omega arith) in omega arith
  sum-le w t (x ∷ xs) (suc c) h k =
      let wrap = fits w t x xs (omega arith) in
      let rest = sum-le w (t + x.weight) xs c (omega arith) (omega arith) in rw wrap (omega arith)

  sums_mono :
      (w t : ℕ) (xs : List (WeightItem T)) (c e : ℕ)
      → t + weight_sum xs < 2 ^ w
      → c ≤ e
      → e < length xs
      → get_or (sums_from w t xs) c 0 ≤ get_or (sums_from w t xs) e 0
  unfolding sums_from weight_sum
  sums_mono w t [] c e h k m = absurd (omega arith)
  sums_mono w t (x ∷ xs) zero zero h k m = omega arith
  sums_mono w t (x ∷ xs) (suc c) zero h k m = absurd (omega arith)
  sums_mono w t (x ∷ xs) zero (suc e) h k m =
      let wrap = fits w t x xs (omega arith) in
      rw wrap (sum-le w (t + x.weight) xs e (omega arith) (omega arith))
  sums_mono w t (x ∷ xs) (suc c) (suc e) h k m =
      let wrap = fits w t x xs (omega arith) in
      rw wrap (sums_mono w (t + x.weight) xs c e (omega arith) (omega arith) (omega arith))

  owner_past :
      (x : WeightItem T) (xs : List (WeightItem T)) (r s : ℕ) (v : T)
      → ltb r x.weight ≡ false
      → r - x.weight ≡ s
      → owner xs s ≡ some v
      → owner (x ∷ xs) r ≡ some v
  unfolding owner
  owner_past x xs r s v past left owned = rw past (ap (owner xs) left ∙ owned)

  -- The item at the first sum above `r` owns it.
  first-owner :
      (w t : ℕ) (xs : List (WeightItem T)) (r m : ℕ)
      → t + weight_sum xs < 2 ^ w
      → t ≤ r
      → r < t + weight_sum xs
      → ((c : ℕ) → c < m → get_or (sums_from w t xs) c 0 ≤ r)
      → ((c : ℕ) → m ≤ c → c < length xs → r < get_or (sums_from w t xs) c 0)
      → (v : T) × (value_at xs (some m) ≡ some v) × (owner xs (r - t) ≡ some v)
  unfolding sums_from weight_sum owner
  first-owner w t [] r m h a b low high = absurd (omega arith)
  first-owner w t (x ∷ xs) r zero h a b low high =
      let wrap = fits w t x xs (omega arith) in
      let first : r < (t + x.weight) % 2 ^ w = high 0 (omega arith) (omega arith) in
      let here : ltb (r - t) x.weight ≡ true = ground arith in (x.value, refl, rw here refl)
  first-owner w t (x ∷ xs) r (suc m) h a b low high =
      let wrap = fits w t x xs (omega arith) in
      let first : (t + x.weight) % 2 ^ w ≤ r = low 0 (omega arith) in
      let past : ltb (r - t) x.weight ≡ false = ground arith in
      let left : r - t - x.weight ≡ r - (t + x.weight) = omega arith in
      let (v, found, owned) =
        first-owner w (t + x.weight) xs r m (omega arith) (omega arith) (omega arith)
          (λ c k. subst (λ s. get_or (sums_from w s xs) c 0 ≤ r) wrap (low (suc c) (omega arith)))
          (λ c k l.
            subst (λ s. r < get_or (sums_from w s xs) c 0) wrap
              (high (suc c) (omega arith) (omega arith))) in
      (v, found, owner_past x xs (r - t) (r - (t + x.weight)) v past left owned)

  not_empty : (xs : List (WeightItem T)) (r : ℕ) → r < weight_sum xs → (length xs == 0) ≡ false
  unfolding weight_sum
  not_empty [] r h = absurd (omega arith)
  not_empty (x ∷ xs) r h = ground arith

  -- For a pool of items whose weights add up to no more than the type and an int64 can hold, and a number
  -- below their sum, Random returns, and chooses the item that owns the number: each item owns as many
  -- numbers as its weight says, one item behind the other.
  pub random-owner :
      (zero_value : T) (width : ℕ) (items : List (WeightItem T)) (r : ℕ)
      → weight_sum items < 2 ^ width
      → weight_sum items < 2 ^ 63
      → r < weight_sum items
      → (v : T) × (random zero_value (new_weight_pool width items) r ≡ some v)
        × (owner items r ≡ some v)
  unfolding random new_weight_pool
  random-owner zero_value width items r fits small h =
      let sums = sums_from width 0 items in
      let size : length sums ≡ length items = length-sums_from width 0 items in
      let all = total_from-sum width 0 items (omega arith) in
      let mono : IsMonotone (length sums) (λ i. ltb r (get_or sums i 0)) = λ c e p q t.
        let m = sums_mono width 0 items c e (omega arith) p (omega arith) in ground arith in
      let (m, ran, first) = search-IsFirst (length sums) (λ i. ltb r (get_or sums i 0)) mono in
      let (v, found, owned) =
        first-owner width 0 items r m (omega arith) (omega arith) (omega arith)
          (λ c p. let k = first.below c p in ground arith)
          (λ c p q. let k = first.above c p (omega arith) in ground arith) in
      let total_set : (total_from width 0 items == 0) ≡ false = ground arith in
      let some_items : (length items == 0) ≡ false = not_empty items r h in
      let in_range : leb (2 ^ 63) (total_from width 0 items) ≡ false = ground arith in
      (v, rw (total_set, some_items, in_range, ran) found, ap (owner items) (omega arith) ∙ owned)
