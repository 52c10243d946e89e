-- ===== src/Container/CMap.antt =====
-- container/cmap/cmap.go: a locked map that remembers its largest size. Each method runs under the
-- map's mutex, so a call is one step. The order of the entries is one order of `range`; a map made
-- anew and filled from the old one has the same entries.
mod Tests
pub mod Inv
pub mod Refine
use czx.Base.{
  ℕ, ◌≤◌, Bool, true, false, List, [], ◌∷◌, Option, none, some, ltb, ◌==◌, if◌then◌else◌, length,
  map, Eq,
}
use czx.Base.Dict.{Dict, lookup, insert, erase, has}
use czx.Container.Queue.{Recycler}

pub record CMap {ℓ κ} (K : Type ℓ) (V : Type κ) : Type (ℓ ⊔ κ) where
  pub entries : Dict K V
  pub max_len : ℕ
  pub recycler : Option Recycler

-- Whether the recycler is set and asks for it.
unfoldable pub asked : Option Recycler → ℕ → ℕ → Bool
asked none size max_len = false
asked (some r) size max_len = r size max_len

module _ {ℓ κ} {K : Type ℓ} {V : Type κ} where
  unfoldable pub new : CMap K V
  new = record { entries = []; max_len = 0; recycler = none }

  pub with_recycler : CMap K V → Recycler → CMap K V
  with_recycler c r = record c { recycler = some r }

  abbrev pub len : CMap K V → ℕ
  len c = length c.entries

  pub max_len_of : CMap K V → ℕ
  max_len_of c = c.max_len

  -- Shrink: the entries in a new map. An empty map is replaced without a look at `maxLen`.
  unfoldable pub shrink : CMap K V → CMap K V
  shrink c = if length c.entries == 0 then c else record c { max_len = length c.entries }

  -- shrink: the same, where the recycler asks for it.
  unfoldable pub shrink_if_asked : CMap K V → CMap K V
  shrink_if_asked c = if asked c.recycler (length c.entries) c.max_len then shrink c else c

  unfoldable pub keep_entries : (K → V → Bool) → Dict K V → Dict K V
  keep_entries f [] = []
  keep_entries f ((k, v) ∷ m) = let rest = keep_entries f m in if f k v then rest else (k, v) ∷ rest

  unfoldable pub delete_if : CMap K V → (K → V → Bool) → CMap K V
  unfolding shrink_if_asked
  delete_if c f = shrink_if_asked (record c { entries = keep_entries f c.entries })

  -- The pairs that the function is called with, up to the first where it answers false.
  unfoldable pub visited : (K → V → Bool) → List (K × V) → List (K × V)
  visited f [] = []
  visited f ((k, v) ∷ m) = let rest = visited f m in (k, v) ∷ (if f k v then rest else [])

  unfoldable pub iterator : CMap K V → (K → V → Bool) → List (K × V)
  iterator c f = visited f c.entries

  unfoldable pub keys : CMap K V → List K
  keys c = map (λ e. e.0) c.entries

  unfoldable pub clear : CMap K V → CMap K V
  clear c = record c { entries = []; max_len = 0 }

module _ {ℓ κ} {K : Type ℓ} {V : Type κ} ⦃e : Eq K⦄ where
  -- Has
  unfoldable pub has_key : CMap K V → K → Bool
  has_key c k = if length c.entries == 0 then false else has k c.entries

  unfoldable pub get : CMap K V → K → Option V
  get c k = lookup k c.entries

  unfoldable pub delete : CMap K V → K → CMap K V
  delete c k = shrink_if_asked (record c { entries = erase k c.entries })

  unfoldable pub set_key : CMap K V → K → V → CMap K V
  set_key c k v =
      let m = insert k v c.entries in
      record c { entries = m; max_len = if ltb c.max_len (length m) then length m else c.max_len }

  -- The pairs of the given keys that are present, in the order of the keys.
  unfoldable pub present : Dict K V → List K → List (K × V)
  present m [] = []
  present m (k ∷ ks) =
      let rest = present m ks in elim (lookup k m) [ none ↦ rest | some v ↦ (k, v) ∷ rest ]

  unfoldable pub ordered_iterator : CMap K V → List K → (K → V → Bool) → List (K × V)
  ordered_iterator c ks f = visited f (present c.entries ks)
