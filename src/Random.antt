-- ===== src/Random.antt =====
-- algo/random/weight.go: the choice of an item by weight, with sort.Search of Go's library, and
-- SlicesRandom of algo/random/random.go. The weights are of an unsigned type of `width` bits, whose sums
-- wrap around; the numbers that math/rand gives are arguments. `none` is a panic, or fuel that ran out.
mod Tests
pub mod Search
pub mod Choice
use czx.Base.{
  ℕ, zero, suc, ◌+◌, ◌-◌, ◌*◌, ◌/◌, ◌%◌, ◌^◌, Bool, true, false, not, ◌||◌, List, [], ◌∷◌, ◌++◌,
  Option, none, some, ltb, leb, ◌==◌, if◌then◌else◌, length, get_elem?, get_or, Eq,
}
use czx.Base.Dict.{Dict, has}

pub record WeightItem (T : Type 0) : Type 0 where
  pub value : T
  pub weight : ℕ

pub record WeightPool (T : Type 0) : Type 0 where
  pub items : List (WeightItem T)
  pub prefix_sums : List ℕ
  pub total : ℕ

-- The loop of sort.Search, with fuel.
pub search_loop : ℕ → (ℕ → Bool) → ℕ → ℕ → Option ℕ
search_loop zero f i j = none
search_loop (suc k) f i j =
    let h = (i + j) / 2 in
    let above = search_loop k f (h + 1) j in
    let below = search_loop k f i h in
    if leb j i then some i else if not (f h) then above else below

-- sort.Search
pub search : ℕ → (ℕ → Bool) → Option ℕ
search n f = search_loop (n + 1) f 0 n

module _ {T : Type 0} where
  -- The loop of NewWeightPool from a sum on: the sums, and the last one.
  pub sums_from : ℕ → ℕ → List (WeightItem T) → List ℕ
  sums_from width total [] = []
  sums_from width total (x ∷ xs) =
      let next = (total + x.weight) % 2 ^ width in next ∷ sums_from width next xs

  pub total_from : ℕ → ℕ → List (WeightItem T) → ℕ
  total_from width total [] = total
  total_from width total (x ∷ xs) = total_from width ((total + x.weight) % 2 ^ width) xs

  pub new_weight_pool : ℕ → List (WeightItem T) → WeightPool T
  new_weight_pool width items = record {
    items = items;
    prefix_sums = sums_from width 0 items;
    total = total_from width 0 items;
  }

  -- `p.items[index].Value`
  abbrev pub value_at : List (WeightItem T) → Option ℕ → Option T
  value_at items none = none
  value_at items (some i) = elim (get_elem? items i) [ none ↦ none | some x ↦ some x.value ]

  -- Random, where `zero_value` is that of the type and `r` is what rand.Int64N gives: it panics if its
  -- argument, an int64, is not positive.
  pub random : T → WeightPool T → ℕ → Option T
  random zero_value p r =
      if p.total == 0 || length p.items == 0
      then some zero_value
      else if leb (2 ^ 63) p.total
      then none
      else value_at p.items (search (length p.prefix_sums) (λ i. ltb r (get_or p.prefix_sums i 0)))

module _ {T : Type 0} ⦃e : Eq T⦄ where
  -- The loop of SlicesRandom, with the numbers that rand.IntN gives; `none` where there are too few, or
  -- one is out of range. The map `exists` is as it was made: the loop reads it only.
  pub draw_loop : Dict T Bool → List T → ℕ → List T → List ℕ → Option (List T)
  draw_loop exists s count result [] = if ltb (length result) count then none else some result
  draw_loop exists s count result (index ∷ draws) =
      let more = λ (val : T).
        if has val exists
        then draw_loop exists s count result draws
        else draw_loop exists s count (result ++ (val ∷ [])) draws in
      let drawn : Option (List T) = elim (get_elem? s index) [
        | none ↦ none
        | some val ↦ more val
      ] in
      if ltb (length result) count then drawn else some result

  pub slices_random : List T → ℕ → List ℕ → Option (List T)
  slices_random s count draws = draw_loop [] s count [] draws
