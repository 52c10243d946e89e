-- ===== src/Container/Sharded/Refine.antt =====
-- container/cmap/sharded.go: the shards answer as one map, and are visited as one.
use czx.Base.{
  ◌≢◌, length-set, ==_iff, ℕ, zero, suc, ◌%◌, ◌<◌, ◌≡◌, ◌∙◌, sym, refl, ap, inl, inr, ◌⊎◌, Bool,
  true, false, List, [], ◌∷◌, ◌++◌, Option, none, some, arith, ◌==◌, if◌then◌else◌, if_cases,
  length, get_elem?, set, Eq, Bool-cases,
}
use czx.Base.Int.{pos}
use czx.Container.CMap.Refine.{get-set_key, get-delete}
use czx.Container.CMap.{CMap, set_key, delete, get, visited, iterator}
use mathlib.Core.Path.{subst}
use czx.Container.Sharded.{
  pick_shard, Sharded, shard_index, shard, look, goes_on, iterate_all, sharded_get, sharded_set,
  sharded_delete,
}

module _ {ℓ κ} {K : Type ℓ} {V : Type κ} where
  -- The entries of all shards, in the order of the shards.
  unfoldable pub joined_entries : List (CMap K V) → List (K × V)
  joined_entries [] = []
  joined_entries (c ∷ cs) = c.entries ++ joined_entries cs

  visited-append :
      (f : K → V → Bool) (xs ys : List (K × V))
      → visited f (xs ++ ys)
        ≡ visited f xs ++ (if goes_on f (visited f xs) then visited f ys else [])
  unfolding visited goes_on
  visited-append f [] ys = refl
  visited-append f ((k, v) ∷ xs) ys = elim (Bool-cases (f k v)) [
    | inl on ↦ rw on (ap (◌∷◌ (k, v)) (visited-append f xs ys))
    | inr off ↦ rw off refl
  ]

  -- Iterator of a sharded map calls its function on the pairs that an iteration over one map with all
  -- the shards' entries calls it on, in the same order and with the same end: a false answer in one
  -- shard also ends the visit of the others.
  pub iterate_all-joined :
      (f : K → V → Bool) (cs : List (CMap K V)) → iterate_all f cs ≡ visited f (joined_entries cs)
  unfolding iterate_all joined_entries iterator
  iterate_all-joined f [] = unfold visited in refl
  iterate_all-joined f (c ∷ cs) =
      rw (iterate_all-joined f cs) (sym (visited-append f c.entries (joined_entries cs)))

pub get_elem?-set_self :
    {A : Type 0} (xs : List A) (i : ℕ) (a b : A)
    → get_elem? xs i ≡ some a
    → get_elem? (set xs i b) i ≡ some b
get_elem?-set_self [] i a b h = absurd (cc h)
get_elem?-set_self (x ∷ xs) zero a b h = refl
get_elem?-set_self (x ∷ xs) (suc i) a b h = get_elem?-set_self xs i a b h

pub get_elem?-set_ne :
    {A : Type 0} (xs : List A) (i m : ℕ) (b : A) → i ≢ m → get_elem? (set xs i b) m ≡ get_elem? xs m
get_elem?-set_ne [] i m b h = refl
get_elem?-set_ne (x ∷ xs) zero zero b h = absurd (h refl)
get_elem?-set_ne (x ∷ xs) zero (suc m) b h = refl
get_elem?-set_ne (x ∷ xs) (suc i) zero b h = refl
get_elem?-set_ne (x ∷ xs) (suc i) (suc m) b h = get_elem?-set_ne xs i m b (λ e. h (ap suc e))

module _ {K V : Type 0} where
  pub pick_shard-index :
      (xs : List (CMap K V)) (m i : ℕ) (c : CMap K V) → pick_shard xs (some m) ≡ some (i, c) → m ≡ i
  pick_shard-index xs m i c h = ground arith

  pub pick_shard-elem :
      (xs : List (CMap K V)) (o : Option ℕ) (i : ℕ) (c : CMap K V)
      → pick_shard xs o ≡ some (i, c)
      → get_elem? xs i ≡ some c
  pick_shard-elem xs o i c h = ground arith

  -- What a new shard at `i` makes of the shard at an index.
  abbrev Placed : List (CMap K V) → ℕ → CMap K V → CMap K V → Option ℕ → Type 0
  Placed xs i c d o =
      ((pick_shard xs o ≡ some (i, c)) × (pick_shard (set xs i d) o ≡ some (i, d)))
      ⊎ ((pick_shard xs o ≢ some (i, c)) × (pick_shard (set xs i d) o ≡ pick_shard xs o))

  pick_shard-Placed :
      (xs : List (CMap K V)) (i : ℕ) (c d : CMap K V) (o : Option ℕ)
      → get_elem? xs i ≡ some c
      → Placed xs i c d o
  pick_shard-Placed xs i c d none h = inr (λ p. absurd (cc p), refl)
  pick_shard-Placed xs i c d (some m) h = elim (Bool-cases (i == m)) [
    | inl same ↦
        subst (λ n. Placed xs i c d (some n)) ((==_iff i m).0 same)
          (inl (rw (h, pick_shard) refl, rw (get_elem?-set_self xs i c d h, pick_shard) refl))
    | inr other ↦
        let apart : i ≢ m = λ p. ground arith in
        inr (
          λ p. apart (sym (pick_shard-index xs m i c p)),
          rw (get_elem?-set_ne xs i m d apart, pick_shard) refl,
        )
  ]

if_some :
    {V : Type 0} (b : Bool) (x y : V) → some (if b then x else y) ≡ (if b then some x else some y)
if_some true x y = refl
if_some false x y = refl

mod-lt : (h n : ℕ) → 0 < n → h % n < n
mod-lt h n p = grind arith

get_elem?-lt :
    {A : Type 0} (xs : List A) (i : ℕ) → i < length xs → (a : A) × (get_elem? xs i ≡ some a)
get_elem?-lt [] i h = absurd (omega arith)
get_elem?-lt (x ∷ xs) zero h = (x, refl)
get_elem?-lt (x ∷ xs) (suc i) h = get_elem?-lt xs i (omega arith)

-- A hash that is not negative chooses a shard.
pub shard-found :
    {K V : Type 0} (s : Sharded K V) (k : K) (h : ℕ)
    → 0 < length s.shards
    → s.hash k ≡ pos h
    → (i : ℕ) × (c : CMap K V) × (shard s k ≡ some (i, c))
unfolding shard
shard-found s k h some_shard e =
    let (c, there) =
      get_elem?-lt s.shards (h % length s.shards) (mod-lt h (length s.shards) some_shard) in
    (h % length s.shards, c, rw (e, there, pick_shard) refl)

module _ {K V : Type 0} ⦃e : Eq K⦄ where
  shard-with_shard :
      (s : Sharded K V) (i : ℕ) (d : CMap K V) (j : K)
      → shard (record s { shards = set s.shards i d }) j
        ≡ pick_shard (set s.shards i d) (shard_index (s.hash j) (length s.shards))
  unfolding shard
  shard-with_shard s i d j = rw (length-set s.shards i d) refl

  -- What one change of the key's shard makes of the values found.
  with_shard-get :
      (s : Sharded K V) (k j : K) (f : CMap K V → CMap K V) (o : Option V) (i : ℕ) (c : CMap K V)
      → ((a : CMap K V) → get (f a) j ≡ (if e.beq k j then o else get a j))
      → shard s k ≡ some (i, c)
      → look (shard (record s { shards = set s.shards i (f c) }) j) (λ a. get a j)
        ≡ (if e.beq k j then some o else look (shard s j) (λ a. get a j))
  unfolding shard
  with_shard-get s k j f o i c law h =
      let io = shard_index (s.hash j) (length s.shards) in
      let found = pick_shard-elem s.shards (shard_index (s.hash k) (length s.shards)) i c h in
      let moved = shard-with_shard s i (f c) j in
      elim (pick_shard-Placed s.shards i c (f c) io found) [
        | inl (old, now) ↦ rw (moved, now, old) (ap some (law c) ∙ if_some (e.beq k j) o (get c j))
        | inr (apart, kept) ↦
            if_cases
              (λ r. look (shard (record s { shards = set s.shards i (f c) }) j) (λ a. get a j) ≡ r)
              (e.beq k j) _ _ (λ same. absurd (apart (rw (← (e.beq_iff k j).0 same) h)))
              (λ _. rw (moved, kept) refl)
      ]

  -- If there is a shard and the key's hash is not negative, Set returns, and afterwards Get of the key
  -- answers the value, and Get of any other key answers (or panics) as before.
  pub sharded_set-get :
      (s : Sharded K V) (k : K) (v : V) (h : ℕ)
      → 0 < length s.shards
      → s.hash k ≡ pos h
      → (s' : Sharded K V) × (sharded_set s k v ≡ some s')
        × ((j : K) → sharded_get s' j ≡ (if e.beq k j then some (some v) else sharded_get s j))
  unfolding sharded_get sharded_set
  sharded_set-get s k v h more nonneg =
      let (i, c, there) = shard-found s k h more nonneg in
      (
        record s { shards = set s.shards i (set_key c k v) },
        rw there refl,
        λ j.
            with_shard-get s k j (λ a. set_key a k v) (some v) i c (λ a. get-set_key a k j v) there,
      )

  -- If there is a shard and the key's hash is not negative, Delete returns, and afterwards Get of the
  -- key answers that there is none, and Get of any other key answers (or panics) as before.
  pub sharded_delete-get :
      (s : Sharded K V) (k : K) (h : ℕ)
      → 0 < length s.shards
      → s.hash k ≡ pos h
      → (s' : Sharded K V) × (sharded_delete s k ≡ some s')
        × ((j : K) → sharded_get s' j ≡ (if e.beq k j then some none else sharded_get s j))
  unfolding sharded_get sharded_delete
  sharded_delete-get s k h more nonneg =
      let (i, c, there) = shard-found s k h more nonneg in
      (
        record s { shards = set s.shards i (delete c k) },
        rw there refl,
        λ j. with_shard-get s k j (λ a. delete a k) none i c (λ a. get-delete a k j) there,
      )
