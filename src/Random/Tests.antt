-- ===== src/Random/Tests.antt =====
-- Three items, of which one weighs nothing, in a type of eight bits; and a draw that repeats an element.
use czx.Base.{ℕ, ◌≡◌, refl, List, [], ◌∷◌, Option, some, arith, nat_eq}
use czx.Random.{WeightItem, new_weight_pool, random, slices_random, draw_loop}
use czx.Random.Choice.{weight_sum, owner, random-owner}

abbrev items : List (WeightItem ℕ)
items =
    record { value = 10; weight = 3 }
    ∷ record { value = 20; weight = 0 }
    ∷ record { value = 30; weight = 2 }
    ∷ []

sum_is : weight_sum items ≡ 5
unfolding weight_sum
sum_is = refl

random-owner_example :
    (v : ℕ) × (random 0 (new_weight_pool 8 items) 3 ≡ some v) × (owner items 3 ≡ some v)
random-owner_example =
    random-owner 0 8 items 3 (let s = sum_is in omega arith) (let s = sum_is in omega arith)
      (let s = sum_is in omega arith)

drawn_twice : slices_random {T = ℕ} (7 ∷ 8 ∷ []) 2 (1 ∷ 1 ∷ []) ≡ some (8 ∷ 8 ∷ [])
unfolding slices_random draw_loop czx.Base.Dict.has czx.Base.Dict.lookup
drawn_twice = refl
