-- ===== src/Container/Memo/Stored.antt =====
-- container/memo.go: an item stays in the cache until it has expired.
use Prim.Native.String.{String}
use mathlib.Core.Path.{subst}
use czx.Base.{
  ℕ, ◌≤◌, ◌≡◌, refl, ap, sym, ◌∙◌, ◌⊎◌, inl, inr, true, false, List, [], ◌∷◌, Option, none, some,
  arith, if_cases, string_eq, Bool-cases,
}
use czx.Base.Int.{ℤ}
use czx.Container.Sharded.{sharded_get}
use czx.Container.Sharded.Placed.{IsPlaced, AllPairs, iterate_all-get, get_returns}
use czx.Container.Sharded.Changes.{set-Gives, delete-Gives}
use czx.Container.Memo.{
  CacheItem, Memo, is_past, with_data, new_item, set_value, delete_value, found, found_none,
  get_value, past_keys, delete_keys, clean,
}
use czx.Container.Memo.Calls.{left_by}

past_later :
    (t : Option ℕ) (now later : ℕ) → is_past t now ≡ true → now ≤ later → is_past t later ≡ true
past_later none now later h le = h
past_later (some t) now later h le = ground (arith, h, le)

module _ {A : Type 0} where
  -- The key has this item, or none once the item has expired at the time.
  pub record Stored (key : String) (item : CacheItem A) (later : ℕ) (mc : Memo A) : Type 0 where
    pub placed : IsPlaced mc.items
    pub there :
        (sharded_get mc.items key ≡ some (some item))
        ⊎ ((sharded_get mc.items key ≡ some none) × (is_past item.expire_at later ≡ true))

  abbrev pub Keeps : String → CacheItem A → ℕ → Option (Memo A) → Type 0
  Keeps key item later o = (mc : Memo A) × (o ≡ some mc) × Stored key item later mc

  -- The key may be deleted once its item has expired.
  abbrev pub MayDrop : String → CacheItem A → ℕ → String → Type 0
  MayDrop key item later j = string_eq.beq j key ≡ true → is_past item.expire_at later ≡ true

  pub delete-Keeps :
      (key : String) (item : CacheItem A) (later : ℕ) (mc : Memo A) (j : String)
      → Stored key item later mc
      → MayDrop key item later j
      → Keeps key item later (delete_value mc j)
  unfolding delete_value
  delete-Keeps key item later mc j s may =
      let (s', ran, placed, law) = delete-Gives mc.items j s.placed in
      (
        record mc { items = s' },
        ap (with_data mc) ran,
        record {
          placed = placed;
          there = elim (Bool-cases (string_eq.beq j key)) [
            | inl same ↦ inr (law key ∙ rw same refl, may same)
            | inr other ↦
                let kept : sharded_get s' key ≡ sharded_get mc.items key =
                  law key ∙ rw other refl in
                elim s.there [ inl h ↦ inl (kept ∙ h) | inr (h, past) ↦ inr (kept ∙ h, past) ]
          ];
        },
      )

  pub set-Keeps :
      (key : String) (item : CacheItem A) (later : ℕ) (mc : Memo A) (j : String) (v : A) (ttl : ℤ)
      (now : ℕ)
      → Stored key item later mc
      → string_eq.beq j key ≡ false
      → Keeps key item later (set_value mc j v ttl now)
  unfolding set_value
  set-Keeps key item later mc j v ttl now s other =
      let (s', ran, placed, law) = set-Gives mc.items j (new_item v ttl now) s.placed in
      let kept : sharded_get s' key ≡ sharded_get mc.items key = law key ∙ rw other refl in
      (
        record mc { items = s' },
        ap (with_data mc) ran,
        record {
          placed = placed;
          there = elim s.there [ inl h ↦ inl (kept ∙ h) | inr (h, past) ↦ inr (kept ∙ h, past) ];
        },
      )

  -- An item that is found for a key and has expired may be dropped.
  found-MayDrop :
      (key : String) (item : CacheItem A) (later now : ℕ) (mc : Memo A) (j : String)
      (it : CacheItem A)
      → Stored key item later mc
      → now ≤ later
      → sharded_get mc.items j ≡ some (some it)
      → is_past it.expire_at now ≡ true
      → MayDrop key item later j
  found-MayDrop key item later now mc j it s le here past same =
      let at : sharded_get mc.items key ≡ some (some it) =
        subst (λ k. sharded_get mc.items k ≡ some (some it)) ((string_eq.beq_iff j key).0 same)
          here in
      elim s.there [
        | inl h ↦
            let eqs : some (some it) ≡ some (some item) = sym at ∙ h in
            let eq : it ≡ item = cc eqs in
            past_later item.expire_at now later
              (subst (λ (x : CacheItem A). is_past x.expire_at now ≡ true) eq past) le
        | inr (h, gone) ↦ gone
      ]

  pub get-Keeps :
      (key : String) (item : CacheItem A) (later : ℕ) (mc : Memo A) (j : String) (now : ℕ)
      → Stored key item later mc
      → now ≤ later
      → Keeps key item later (left_by (get_value mc j now))
  unfolding get_value
  get-Keeps key item later mc j now s le = by_found (sharded_get mc.items j) refl
    where
      left_none :
          (o : Option (Memo A))
          → Keeps key item later o
          → Keeps key item later (left_by (found_none o))
      left_none none k = k
      left_none (some mc') k = k

      by_found :
          (r : Option (Option (CacheItem A)))
          → sharded_get mc.items j ≡ r
          → Keeps key item later (left_by (found mc j now r))
      by_found none e =
          let (h, nonneg) = s.placed.hashed j in absurd (get_returns mc.items j s.placed e)
      by_found (some none) e = (mc, refl, s)
      by_found (some (some it)) e =
          if_cases (λ r. Keeps key item later (left_by r)) (is_past it.expire_at now) _ _
            (λ past. left_none (delete_value mc j) (
              delete-Keeps key item later mc j s
                (found-MayDrop key item later now mc j it s le e past)))
            (λ fresh. (mc, refl, s))

  -- The keys that cleanup has collected may be dropped.
  abbrev AllMayDrop : String → CacheItem A → ℕ → List String → Type 0
  AllMayDrop key item later [] = Unit {0}
  AllMayDrop key item later (j ∷ js) = MayDrop key item later j × AllMayDrop key item later js

  past_keys-AllMayDrop :
      (key : String) (item : CacheItem A) (later now : ℕ) (mc : Memo A)
      (pairs : List (String × CacheItem A))
      → Stored key item later mc
      → now ≤ later
      → AllPairs (λ j it. sharded_get mc.items j ≡ some (some it)) pairs
      → AllMayDrop key item later (past_keys now pairs)
  unfolding past_keys
  past_keys-AllMayDrop key item later now mc [] s le all = tt
  past_keys-AllMayDrop key item later now mc ((j, it) ∷ pairs) s le all =
      let rest = past_keys-AllMayDrop key item later now mc pairs s le all.1 in
      if_cases (AllMayDrop key item later) (is_past it.expire_at now) _ _
        (λ past. (found-MayDrop key item later now mc j it s le all.0 past, rest)) (λ fresh. rest)

  delete_keys-Keeps :
      (key : String) (item : CacheItem A) (later : ℕ) (mc : Memo A) (js : List String)
      → Stored key item later mc
      → AllMayDrop key item later js
      → Keeps key item later (delete_keys mc js)
  unfolding delete_keys
  delete_keys-Keeps key item later mc [] s may = (mc, refl, s)
  delete_keys-Keeps key item later mc (j ∷ js) s may =
      let (mc', ran, s') = delete-Keeps key item later mc j s may.0 in
      subst (λ o. Keeps key item later (elim o [ none ↦ none | some mc'' ↦ delete_keys mc'' js ]))
        (sym ran) (delete_keys-Keeps key item later mc' js s' may.1)

  pub clean-Keeps :
      (key : String) (item : CacheItem A) (later : ℕ) (mc : Memo A) (now : ℕ)
      → Stored key item later mc
      → now ≤ later
      → Keeps key item later (clean mc now)
  unfolding clean
  clean-Keeps key item later mc now s le =
      delete_keys-Keeps key item later mc _ s
        (past_keys-AllMayDrop key item later now mc _ s le (iterate_all-get mc.items s.placed))
