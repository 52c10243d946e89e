-- ===== src/Container/Sharded/Placed.antt =====
-- container/cmap/sharded.go: each key stands in its own shard, once.
use mathlib.Core.Path.{subst}
use czx.Base.{
  ℕ, ◌<◌, ◌≡◌, ◌≢◌, ◌∙◌, sym, refl, ap, inl, inr, true, false, List, [], ◌∷◌, ◌++◌, Option, none,
  some, arith, length, get_elem?, Eq, Bool-cases, suc, beq_refl,
}
use czx.Base.Int.{pos}
use czx.Base.Dict.{Dict, lookup, has, is_some, IsDict}
use czx.Container.CMap.{CMap, get, visited}
use czx.Container.Sharded.{Sharded, pick_shard, shard_index, shard, look, iterate_all, sharded_get}
use czx.Container.Sharded.Refine.{
  pick_shard-elem, pick_shard-index, shard-found, joined_entries, iterate_all-joined,
}

-- What holds of each pair.
abbrev pub AllPairs {ℓ κ} : {K : Type ℓ} {V : Type κ} → (K → V → Type 0) → List (K × V) → Type 0
AllPairs P [] = Unit {0}
AllPairs P ((k, v) ∷ m) = P k v × AllPairs P m

module _ {K V : Type 0} where
  AllPairs-append :
      (P : K → V → Type 0) (xs ys : List (K × V))
      → AllPairs P xs
      → AllPairs P ys
      → AllPairs P (xs ++ ys)
  AllPairs-append P [] ys a b = b
  AllPairs-append P ((k, v) ∷ xs) ys a b = (a.0, AllPairs-append P xs ys a.1 b)

  visited_all : (m : List (K × V)) → visited (λ k v. true) m ≡ m
  unfolding visited
  visited_all [] = refl
  visited_all (x ∷ m) = ap (◌∷◌ x) (visited_all m)

  AllPairs-joined :
      (P : K → V → Type 0) (cs : List (CMap K V))
      → ((i : ℕ) (c : CMap K V) → get_elem? cs i ≡ some c → AllPairs P c.entries)
      → AllPairs P (joined_entries cs)
  unfolding joined_entries
  AllPairs-joined P [] h = tt
  AllPairs-joined P (c ∷ cs) h =
      AllPairs-append P c.entries (joined_entries cs) (h 0 c refl)
        (AllPairs-joined P cs (λ i d. h (suc i) d))

module _ {K V : Type 0} ⦃e : Eq K⦄ where
  -- The shard that the hash chooses.
  abbrev pub home : Sharded K V → K → Option ℕ
  home s k = shard_index (s.hash k) (length s.shards)

  -- A map of at least one shard, none of which has a key twice or one that belongs to another, where no
  -- hash is negative.
  pub record IsPlaced (s : Sharded K V) : Type 0 where
    pub some_shard : 0 < length s.shards
    pub hashed : (k : K) → (h : ℕ) × (s.hash k ≡ pos h)
    pub dict : (i : ℕ) (c : CMap K V) → get_elem? s.shards i ≡ some c → IsDict c.entries
    pub own :
        (i : ℕ) (c : CMap K V) (k : K)
        → get_elem? s.shards i ≡ some c
        → has k c.entries ≡ true
        → home s k ≡ some i

  IsDict-AllPairs :
      (P : K → V → Type 0) (m : Dict K V)
      → IsDict m
      → ((k : K) (v : V) → lookup k m ≡ some v → P k v)
      → AllPairs P m
  unfolding lookup has
  IsDict-AllPairs P [] d h = tt
  IsDict-AllPairs P ((k, v) ∷ m) d h = (
    h k v (rw (beq_refl k) refl),
    IsDict-AllPairs P m d.1 (λ j w found. elim (Bool-cases (e.beq k j)) [
      | inl same ↦
          let p : k ≡ j = (e.beq_iff k j).0 same in
          let gone : is_some (lookup j m) ≡ false =
            subst (λ i. is_some (lookup i m) ≡ false) p d.0 in
          absurd (ground (arith, gone, found))
      | inr other ↦ h j w (rw other found)
    ]),
  )

  -- Get of a key that stands in a shard answers what stands there.
  pub stands-get :
      (s : Sharded K V) (i : ℕ) (c : CMap K V) (k : K) (v : V)
      → IsPlaced s
      → get_elem? s.shards i ≡ some c
      → lookup k c.entries ≡ some v
      → sharded_get s k ≡ some (some v)
  unfolding sharded_get get
  stands-get s i c k v p there found =
      let here : has k c.entries ≡ true = unfold has in rw found refl in
      let it : shard s k ≡ some (i, c) =
        unfold shard in
        subst (λ o. pick_shard s.shards o ≡ some (i, c)) (sym (p.own i c k there here))
          (rw (there, pick_shard) refl) in
      subst (λ o. look o (λ a. lookup k a.entries) ≡ some (some v)) (sym it) (ap some found)

  -- The pairs that Iterator visits are those that Get answers.
  pub iterate_all-get :
      (s : Sharded K V)
      → IsPlaced s
      → AllPairs (λ k v. sharded_get s k ≡ some (some v)) (iterate_all (λ k v. true) s.shards)
  iterate_all-get s p =
      let P : K → V → Type 0 = λ k v. sharded_get s k ≡ some (some v) in
      subst (AllPairs P)
        (sym (iterate_all-joined (λ k v. true) s.shards ∙ visited_all (joined_entries s.shards)))
        (AllPairs-joined P s.shards (λ i c there.
          IsDict-AllPairs P c.entries (p.dict i c there)
            (λ k v found. stands-get s i c k v p there found)))

  pub shard-home :
      (s : Sharded K V) (k : K) (i : ℕ) (c : CMap K V)
      → shard s k ≡ some (i, c)
      → (get_elem? s.shards i ≡ some c) × (home s k ≡ some i)
  unfolding shard
  shard-home s k i c h = (pick_shard-elem s.shards (home s k) i c h, index (home s k) h)
    where
      index : (o : Option ℕ) → pick_shard s.shards o ≡ some (i, c) → o ≡ some i
      index none g = absurd (cc g)
      index (some m) g = ap some (pick_shard-index s.shards m i c g)

  -- No key makes Get panic.
  pub get_returns : (s : Sharded K V) (k : K) → IsPlaced s → sharded_get s k ≢ none
  unfolding sharded_get
  get_returns s k p g =
      let (h, nonneg) = p.hashed k in
      let (i, c, it) = shard-found s k h p.some_shard nonneg in
      let some' : some (get c k) ≡ none = rw it at g in absurd (cc some')
