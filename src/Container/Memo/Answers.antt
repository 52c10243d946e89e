-- ===== src/Container/Memo/Answers.antt =====
-- container/memo.go: what Get answers.
use Prim.Native.String.{String}
use czx.Base.{
  ℕ, ◌≡◌, refl, ap, Option, none, some, arith, if◌then◌else◌, string_eq, Option-cases, Bool-cases,
  inl, inr,
}
use czx.Container.CMap.{get, delete}
use czx.Container.Sharded.{Sharded, shard, change, look, sharded_get, sharded_delete}
use czx.Container.Memo.{CacheItem, Memo, is_past, delete_value, found, get_value}

module _ {A : Type 0} where
  abbrev pub answer : Option (Option A × Memo A) → Option (Option A)
  answer none = none
  answer (some (a, mc)) = some a

  -- The value of an item that has not expired.
  abbrev pub live : ℕ → Option (Option (CacheItem A)) → Option (Option A)
  live now none = none
  live now (some none) = some none
  live now (some (some item)) =
      if is_past item.expire_at now then some none else some (some item.value)

  -- A map that finds something for a key can delete it.
  deletes_found :
      (s : Sharded String (CacheItem A)) (key : String) (o : Option (CacheItem A))
      → sharded_get s key ≡ some o
      → (s' : Sharded String (CacheItem A)) × (sharded_delete s key ≡ some s')
  unfolding sharded_get sharded_delete
  deletes_found s key o e = elim (Option-cases (shard s key)) [
    | inl h ↦ absurd (ground (arith, ap (λ t. look t (λ c. get c key)) h))
    | inr ((i, c), h) ↦ (_, ap (λ t. change s t (λ c. delete c key)) h)
  ]

  found-answer :
      (mc : Memo A) (key : String) (now : ℕ) (r : Option (Option (CacheItem A)))
      → sharded_get mc.items key ≡ r
      → answer (found mc key now r) ≡ live now r
  unfolding delete_value
  found-answer mc key now none e = refl
  found-answer mc key now (some none) e = refl
  found-answer mc key now (some (some item)) e =
      let (s', ran) = deletes_found mc.items key (some item) e in
      elim (Bool-cases (is_past item.expire_at now)) [
        | inl h ↦ rw (h, ran) refl
        | inr h ↦ rw h refl
      ]

  -- Get answers the value of the item that the map holds, where that has not expired.
  pub get_value-answer :
      (mc : Memo A) (key : String) (now : ℕ)
      → answer (get_value mc key now) ≡ live now (sharded_get mc.items key)
  unfolding get_value
  get_value-answer mc key now = found-answer mc key now (sharded_get mc.items key) refl
