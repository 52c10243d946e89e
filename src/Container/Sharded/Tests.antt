-- ===== src/Container/Sharded/Tests.antt =====
-- Three shards of numbers, chosen by the number itself.
use czx.Base.{nat_eq, ℕ, ◌≡◌, Bool, [], ◌∷◌, none, some, refl, arith, if◌then◌else◌, ltb}
use czx.Base.Int.{pos}
use czx.Container.CMap.{CMap}
use czx.Container.Sharded.{Sharded, sharded_get, sharded_set}
use czx.Container.Sharded.Refine.{sharded_set-get}

abbrev holds : ℕ → ℕ → CMap ℕ ℕ
holds k v = record { entries = (k, v) ∷ []; max_len = 1; recycler = none }

abbrev table : Sharded ℕ ℕ
table = record { shards = holds 3 30 ∷ holds 4 40 ∷ holds 5 50 ∷ []; hash = pos }

abbrev below : ℕ → ℕ → Bool
below k v = ltb v 40

sharded_set-get_example :
    (s' : Sharded ℕ ℕ) × (sharded_set table 7 70 ≡ some s')
    × ((j : ℕ)
        → sharded_get s' j ≡ (if nat_eq.beq 7 j then some (some 70) else sharded_get table j))
sharded_set-get_example = sharded_set-get table 7 70 7 (omega arith) refl
