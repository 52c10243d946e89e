-- ===== src/Container/Memo/Tests.antt =====
-- A cache of numbers with two shards, and a value that lives for five units of time.
use Prim.Native.String.{String}
use czx.Base.{
  ℕ, zero, suc, ◌≡◌, refl, sym, ap, true, get_elem?, List, [], ◌∷◌, none, some, arith, string_eq,
}
use czx.Base.Int.{pos}
use czx.Base.Dict.{has, lookup}
use czx.Container.CMap.{CMap, new}
use czx.Container.Sharded.{new_sharded}
use czx.Container.Sharded.Placed.{IsPlaced}
use czx.Container.Memo.{CacheItem, Memo, new_memo, get_value}
use czx.Container.Memo.Answers.{answer}
use czx.Container.Memo.Calls.{Call, gets, sets, deletes, cleans, run, AllAside}
use czx.Container.Memo.Lasts.{wanted, value_lasts}

abbrev cache : Memo ℕ
cache = new_memo (pos 2) (λ key. pos 7) none

empty_shard :
    (i : ℕ) (c : CMap String (CacheItem ℕ)) → get_elem? (new ∷ new ∷ []) i ≡ some c → c.entries ≡ []
unfolding new
empty_shard zero c h =
    let it : new ≡ c = cc h in ap (λ (x : CMap String (CacheItem ℕ)). x.entries) (sym it)
empty_shard (suc zero) c h =
    let it : new ≡ c = cc h in ap (λ (x : CMap String (CacheItem ℕ)). x.entries) (sym it)
empty_shard (suc (suc i)) c h = absurd (cc h)

no_key : (k : String) → has {V = CacheItem ℕ} k [] ≡ true → ⊥
unfolding has lookup
no_key k h = cc h

cache-IsPlaced : IsPlaced cache.items
unfolding new_memo new_sharded
cache-IsPlaced = record {
  some_shard = omega arith;
  hashed = λ k. (7, refl);
  dict = λ i c h. rw (empty_shard i c h) tt;
  own = λ i c k h there. absurd (nothing i c k h there);
}
  where
    nothing :
        (i : ℕ) (c : CMap String (CacheItem ℕ)) (k : String)
        → get_elem? (new ∷ new ∷ []) i ≡ some c
        → has k c.entries ≡ true
        → ⊥
    nothing i c k h there =
        let it : has k [] ≡ true = rw (empty_shard i c h) at there in no_key k it

abbrev calls : List (Call ℕ)
calls = gets "score" 12 ∷ sets "name" 3 (pos 1) 12 ∷ cleans 14 ∷ deletes "name" ∷ cleans 15 ∷ []

aside : AllAside "score" 15 calls
aside = (omega arith, (refl, (omega arith, (refl, (omega arith, tt)))))

value_lasts_example :
    (mc : Memo ℕ) × (run cache (sets "score" 4 (pos 5) 10 ∷ calls) ≡ some mc)
    × (answer (get_value mc "score" 15) ≡ some (wanted 4 (pos 5) 10 15))
value_lasts_example = value_lasts cache "score" 4 (pos 5) 10 15 calls cache-IsPlaced aside

still_there : wanted {A = ℕ} 4 (pos 5) 10 15 ≡ some 4
still_there = refl
