-- ===== src/Container/Sharded/Changes.antt =====
-- container/cmap/sharded.go: Set and Delete keep each key in its own shard, once.
use mathlib.Core.Path.{subst}
use czx.Base.{
  ℕ, ◌≡◌, ◌≢◌, ◌∙◌, sym, inl, inr, true, false, Option, none, some, arith, ◌==◌, ==_iff,
  if◌then◌else◌, length-set, get_elem?, set, Eq, Bool-cases,
}
use czx.Base.Int.{pos}
use czx.Base.Dict.{erase, has, IsDict, has-insert, has-erase, insert-IsDict, erase-IsDict}
use czx.Container.CMap.{CMap, set_key, delete}
use czx.Container.CMap.Inv.{entries-shrink_if_asked}
use czx.Container.Sharded.{Sharded, sharded_get, sharded_set, sharded_delete}
use czx.Container.Sharded.Refine.{
  get_elem?-set_self, get_elem?-set_ne, shard-found, sharded_set-get, sharded_delete-get,
}
use czx.Container.Sharded.Placed.{IsPlaced, home, shard-home}

module _ {K V : Type 0} ⦃e : Eq K⦄ where
  -- A shard is replaced by one whose keys belong to it.
  with_shard-IsPlaced :
      (s : Sharded K V) (i : ℕ) (c d : CMap K V)
      → IsPlaced s
      → get_elem? s.shards i ≡ some c
      → IsDict d.entries
      → ((k : K) → has k d.entries ≡ true → home s k ≡ some i)
      → IsPlaced (record s { shards = set s.shards i d })
  with_shard-IsPlaced s i c d p there dict owned = record {
    some_shard = rw (length-set s.shards i d) p.some_shard;
    hashed = p.hashed;
    dict = λ j c' h. elim (Bool-cases (i == j)) [
      | inl same ↦ subst (λ (x : CMap K V). IsDict x.entries) (new j c' same h) dict
      | inr other ↦ p.dict j c' (old j c' other h)
    ];
    own = λ j c' k h there'. elim (Bool-cases (i == j)) [
      | inl same ↦
          rw (length-set s.shards i d, ← (==_iff i j).0 same)
            (owned k
              (subst (λ (x : CMap K V). has k x.entries ≡ true) (sym (new j c' same h)) there'))
      | inr other ↦ rw (length-set s.shards i d) (p.own j c' k (old j c' other h) there')
    ];
  }
    where
      new :
          (j : ℕ) (c' : CMap K V)
          → (i == j) ≡ true
          → get_elem? (set s.shards i d) j ≡ some c'
          → d ≡ c'
      new j c' same h =
          let there' : get_elem? (set s.shards i d) j ≡ some d =
            subst (λ m. get_elem? (set s.shards i d) m ≡ some d) ((==_iff i j).0 same)
              (get_elem?-set_self s.shards i c d there) in
          let it : some d ≡ some c' = sym there' ∙ h in cc it

      old :
          (j : ℕ) (c' : CMap K V)
          → (i == j) ≡ false
          → get_elem? (set s.shards i d) j ≡ some c'
          → get_elem? s.shards j ≡ some c'
      old j c' other h =
          let apart : i ≢ j = λ q. ground arith in sym (get_elem?-set_ne s.shards i j d apart) ∙ h

  -- What a call makes of a map, where `law` is what Get answers then.
  abbrev pub Gives : Option (Sharded K V) → (K → Option (Option V)) → Type 0
  Gives o law =
      (s' : Sharded K V) × (o ≡ some s') × IsPlaced s' × ((j : K) → sharded_get s' j ≡ law j)

  set_key-has :
      (s : Sharded K V) (i : ℕ) (c : CMap K V) (k : K) (v : V)
      → IsPlaced s
      → get_elem? s.shards i ≡ some c
      → home s k ≡ some i
      → (j : K) → has j (set_key c k v).entries ≡ true
      → home s j ≡ some i
  unfolding set_key
  set_key-has s i c k v p there here j h = elim (Bool-cases (e.beq k j)) [
    | inl same ↦ subst (λ x. home s x ≡ some i) ((e.beq_iff k j).0 same) here
    | inr other ↦ p.own i c j there (rw other at (sym (has-insert k j v c.entries) ∙ h))
  ]

  pub set-Gives :
      (s : Sharded K V) (k : K) (v : V)
      → IsPlaced s
      → Gives (sharded_set s k v) (λ j. if e.beq k j then some (some v) else sharded_get s j)
  unfolding sharded_set
  set-Gives s k v p =
      let (h, nonneg) = p.hashed k in
      let (s', ran, law) = sharded_set-get s k v h p.some_shard nonneg in
      (s', ran, placed s' h nonneg ran, law)
    where
      placed :
          (s' : Sharded K V) (h : ℕ) → s.hash k ≡ pos h → sharded_set s k v ≡ some s' → IsPlaced s'
      placed s' h nonneg ran =
          let (i, c, it) = shard-found s k h p.some_shard nonneg in
          let (there, here) = shard-home s k i c it in
          let same : some (record s { shards = set s.shards i (set_key c k v) }) ≡ some s' =
            rw it at ran in
          let eq : record s { shards = set s.shards i (set_key c k v) } ≡ s' = cc same in
          subst IsPlaced eq (
            with_shard-IsPlaced s i c (set_key c k v) p there
              (unfold set_key in insert-IsDict k v c.entries (p.dict i c there))
              (set_key-has s i c k v p there here))

  entries-delete : (c : CMap K V) (k : K) → (delete c k).entries ≡ erase k c.entries
  unfolding delete
  entries-delete c k = entries-shrink_if_asked (record c { entries = erase k c.entries })

  delete-has :
      (s : Sharded K V) (i : ℕ) (c : CMap K V) (k : K)
      → IsPlaced s
      → get_elem? s.shards i ≡ some c
      → (j : K) → has j (delete c k).entries ≡ true
      → home s j ≡ some i
  delete-has s i c k p there j h =
      let gone : has j (erase k c.entries) ≡ true = rw (entries-delete c k) at h in
      p.own i c j there (ground (arith, has-erase k j c.entries, gone))

  pub delete-Gives :
      (s : Sharded K V) (k : K)
      → IsPlaced s
      → Gives (sharded_delete s k) (λ j. if e.beq k j then some none else sharded_get s j)
  unfolding sharded_delete
  delete-Gives s k p =
      let (h, nonneg) = p.hashed k in
      let (s', ran, law) = sharded_delete-get s k h p.some_shard nonneg in
      (s', ran, placed s' h nonneg ran, law)
    where
      placed :
          (s' : Sharded K V) (h : ℕ) → s.hash k ≡ pos h → sharded_delete s k ≡ some s' → IsPlaced s'
      placed s' h nonneg ran =
          let (i, c, it) = shard-found s k h p.some_shard nonneg in
          let (there, here) = shard-home s k i c it in
          let same : some (record s { shards = set s.shards i (delete c k) }) ≡ some s' =
            rw it at ran in
          let eq : record s { shards = set s.shards i (delete c k) } ≡ s' = cc same in
          subst IsPlaced eq (
            with_shard-IsPlaced s i c (delete c k) p there
              (subst IsDict (sym (entries-delete c k))
                (erase-IsDict k c.entries (p.dict i c there)))
              (delete-has s i c k p there))
