-- ===== src/Container/CMap/Tests.antt =====
-- A map from numbers to numbers, with a recycler that always shrinks.
use czx.Base.{nat_eq, ℕ, ◌≡◌, true, List, [], ◌∷◌, some, refl, arith, ltb}
use czx.Base.Dict.{has, lookup}
use czx.Container.CMap.{CMap, get}
use czx.Container.CMap.Inv.{IsValid}
use czx.Container.CMap.Refine.{
  Call, call_has, call_get, call_set, call_delete, call_delete_if, call_shrink, call_clear, run,
  run_spec, map_refines,
}

abbrev scores : CMap ℕ ℕ
scores = record { entries = (1, 10) ∷ (2, 20) ∷ []; max_len = 5; recycler = some (λ n m. true) }

scores-IsValid : IsValid scores
unfolding has lookup
scores-IsValid = ((refl, (refl, tt)), omega arith)

abbrev calls : List (Call ℕ ℕ)
calls =
    call_set 3 30
    ∷ call_get 1
    ∷ call_delete 1
    ∷ call_has 1
    ∷ call_delete_if (λ k v. ltb 25 v)
    ∷ call_has 3
    ∷ call_shrink
    ∷ call_get 2
    ∷ call_clear
    ∷ call_get 2
    ∷ []

map_refines_example : run scores calls ≡ run_spec (get scores) calls
map_refines_example = map_refines scores calls scores-IsValid
