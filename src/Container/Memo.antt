-- ===== src/Container/Memo.antt =====
-- container/memo.go: the cache with expiration, over the sharded map. Times are numbers, and `none` as a
-- time is the zero time; `now` is what time.Now gives. A method is the sequence of its calls of the map,
-- with no other goroutine between them; `none` is a panic of the map. The field `data` is `items` here.
mod Tests
pub mod Answers
pub mod Calls
pub mod Stored
pub mod Lasts
use Prim.Native.String.{String}
use czx.Base.{
  ℕ, ◌+◌, Bool, true, false, List, [], ◌∷◌, Option, none, some, ltb, if◌then◌else◌, string_eq,
}
use czx.Base.Int.{ℤ, is_nonpos, to_nat}
use czx.Container.Queue.{Recycler}
use czx.Container.Sharded.{
  Sharded, new_sharded, clear_all, iterate_all, sharded_get, sharded_set, sharded_delete,
}

pub record CacheItem (A : Type 0) : Type 0 where
  pub value : A
  pub expire_at : Option ℕ

pub record Memo (A : Type 0) : Type 0 where
  pub items : Sharded String (CacheItem A)
  pub done : Bool

-- `!t.IsZero() && t.Before(now)`
abbrev pub is_past : Option ℕ → ℕ → Bool
is_past none now = false
is_past (some t) now = ltb t now

module _ {A : Type 0} where
  pub new_memo : ℤ → (String → ℤ) → Option Recycler → Memo A
  new_memo count hash r = record { items = new_sharded count hash r; done = false }

  abbrev pub with_data : Memo A → Option (Sharded String (CacheItem A)) → Option (Memo A)
  with_data mc none = none
  with_data mc (some s) = some (record mc { items = s })

  -- The item of Set, with a deadline where the time to live is positive.
  abbrev pub new_item : A → ℤ → ℕ → CacheItem A
  new_item v ttl now = record {
    value = v;
    expire_at = if is_nonpos ttl then none else some (now + to_nat ttl);
  }

  pub set_value : Memo A → String → A → ℤ → ℕ → Option (Memo A)
  set_value mc key v ttl now = with_data mc (sharded_set mc.items key (new_item v ttl now))

  pub delete_value : Memo A → String → Option (Memo A)
  delete_value mc key = with_data mc (sharded_delete mc.items key)

  -- The nil that Get returns is `none`.
  abbrev pub found_none : Option (Memo A) → Option (Option A × Memo A)
  found_none none = none
  found_none (some mc) = some (none, mc)

  abbrev pub found :
      Memo A → String → ℕ → Option (Option (CacheItem A)) → Option (Option A × Memo A)
  found mc key now none = none
  found mc key now (some none) = some (none, mc)
  found mc key now (some (some item)) =
      if is_past item.expire_at now
      then found_none (delete_value mc key)
      else some (some item.value, mc)

  pub get_value : Memo A → String → ℕ → Option (Option A × Memo A)
  get_value mc key now = found mc key now (sharded_get mc.items key)

  pub clear_memo : Memo A → Memo A
  clear_memo mc = record mc { items = clear_all mc.items }

  -- Destroy, where the goroutine of `cleanup` ends at `done`.
  pub destroy : Memo A → Memo A
  destroy mc = record mc { items = clear_all mc.items; done = true }

  -- The keys that the callback of `cleanup` collects.
  pub past_keys : ℕ → List (String × CacheItem A) → List String
  past_keys now [] = []
  past_keys now ((key, item) ∷ pairs) =
      let rest = past_keys now pairs in if is_past item.expire_at now then key ∷ rest else rest

  pub delete_keys : Memo A → List String → Option (Memo A)
  delete_keys mc [] = some mc
  delete_keys mc (key ∷ keys) = elim (delete_value mc key) [
    | none ↦ none
    | some mc' ↦ delete_keys mc' keys
  ]

  -- A tick of `cleanup`.
  pub clean : Memo A → ℕ → Option (Memo A)
  clean mc now = delete_keys mc (past_keys now (iterate_all (λ key item. true) mc.items.shards))
