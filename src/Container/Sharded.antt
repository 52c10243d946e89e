-- ===== src/Container/Sharded.antt =====
-- container/cmap/sharded.go: several locked maps, each key in the one that its hash chooses. The hash
-- is the caller's or hash/fnv's: a parameter. Go's `%` keeps the sign, so a negative hash may give a
-- negative index, which panics: `none`.
mod Tests
pub mod Refine
pub mod Placed
pub mod Changes
use czx.Base.{
  ℕ, zero, suc, ◌+◌, ◌%◌, Bool, true, false, ◌&&◌, List, [], ◌∷◌, ◌++◌, Option, none, some, ◌==◌,
  if◌then◌else◌, length, get_elem?, set, replicate, map, Eq,
}
use czx.Base.Int.{ℤ, pos, negsuc, is_nonpos, to_nat}
use czx.Container.Queue.{Recycler}
use czx.Container.CMap.{
  CMap, new, with_recycler, has_key, get, delete, shrink, set_key, iterator, keys, len, clear,
}

pub record Sharded {ℓ κ} (K : Type ℓ) (V : Type κ) : Type (ℓ ⊔ κ) where
  pub shards : List (CMap K V)
  pub hash : K → ℤ

abbrev pub default_shard_count : ℕ
default_shard_count = 32

-- `hash % n`, where that is an index
abbrev pub shard_index : ℤ → ℕ → Option ℕ
shard_index (pos h) n = some (h % n)
shard_index (negsuc h) n = if (h + 1) % n == 0 then some 0 else none

module _ {ℓ κ} {K : Type ℓ} {V : Type κ} where
  abbrev pub with_optional : Option Recycler → CMap K V
  with_optional none = new
  with_optional (some r) = with_recycler new r

  unfoldable pub new_sharded : ℤ → (K → ℤ) → Option Recycler → Sharded K V
  new_sharded count hash r =
      let n = if is_nonpos count then default_shard_count else to_nat count in
      record { shards = replicate n (with_optional r); hash = hash }

  -- The shard at an index, with the index.
  abbrev pub pick_shard : List (CMap K V) → Option ℕ → Option (ℕ × CMap K V)
  pick_shard shards none = none
  pick_shard shards (some i) = elim (get_elem? shards i) [ none ↦ none | some c ↦ some (i, c) ]

  -- The index of the key's shard, and the shard.
  unfoldable pub shard : Sharded K V → K → Option (ℕ × CMap K V)
  shard s k = pick_shard s.shards (shard_index (s.hash k) (length s.shards))

  -- A change of the key's shard.
  abbrev pub change :
      Sharded K V → Option (ℕ × CMap K V) → (CMap K V → CMap K V) → Option (Sharded K V)
  change s none f = none
  change s (some (i, c)) f = some (record s { shards = set s.shards i (f c) })

  abbrev pub look {μ} : {A : Type μ} → Option (ℕ × CMap K V) → (CMap K V → A) → Option A
  look none f = none
  look (some (i, c)) f = some (f c)

  pub shrink_all : Sharded K V → Sharded K V
  shrink_all s = record s { shards = map shrink s.shards }

  pub clear_all : Sharded K V → Sharded K V
  clear_all s = record s { shards = map clear s.shards }

  unfoldable pub sum_len : List (CMap K V) → ℕ
  sum_len [] = 0
  sum_len (c ∷ cs) = len c + sum_len cs

  unfoldable pub all_keys : List (CMap K V) → List K
  all_keys [] = []
  all_keys (c ∷ cs) = keys c ++ all_keys cs

  -- Whether each call answered true.
  unfoldable pub goes_on : (K → V → Bool) → List (K × V) → Bool
  goes_on f [] = true
  goes_on f ((k, v) ∷ m) = f k v && goes_on f m

  -- Iterator: the pairs that the function is called with, shard by shard.
  unfoldable pub iterate_all : (K → V → Bool) → List (CMap K V) → List (K × V)
  iterate_all f [] = []
  iterate_all f (c ∷ cs) =
      let rest = iterate_all f cs in iterator c f ++ (if goes_on f (iterator c f) then rest else [])

module _ {ℓ κ} {K : Type ℓ} {V : Type κ} ⦃e : Eq K⦄ where
  unfoldable pub sharded_has : Sharded K V → K → Option Bool
  sharded_has s k = look (shard s k) (λ c. has_key c k)

  unfoldable pub sharded_get : Sharded K V → K → Option (Option V)
  sharded_get s k = look (shard s k) (λ c. get c k)

  unfoldable pub sharded_set : Sharded K V → K → V → Option (Sharded K V)
  sharded_set s k v = change s (shard s k) (λ c. set_key c k v)

  unfoldable pub sharded_delete : Sharded K V → K → Option (Sharded K V)
  sharded_delete s k = change s (shard s k) (λ c. delete c k)
