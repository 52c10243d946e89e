-- ===== src/Container/Memo/Lasts.antt =====
-- container/memo.go: how long the value of a key lasts among other calls and the rounds of cleanup.
use Prim.Native.String.{String}
use mathlib.Core.Path.{subst}
use czx.Base.{
  ℕ, ◌+◌, ◌≡◌, refl, ap, sym, ◌∙◌, inl, inr, List, [], ◌∷◌, Option, none, some, ltb, if◌then◌else◌,
  if_cases, string_eq, Bool-cases, beq_refl,
}
use czx.Base.Int.{ℤ, is_nonpos, to_nat}
use czx.Container.Sharded.Placed.{IsPlaced}
use czx.Container.Sharded.Changes.{set-Gives}
use czx.Container.Memo.{CacheItem, Memo, is_past, with_data, new_item, set_value, get_value}
use czx.Container.Memo.Answers.{answer, live, get_value-answer}
use czx.Container.Memo.Calls.{Call, gets, sets, deletes, cleans, call, run, IsAside, AllAside}
use czx.Container.Memo.Stored.{Stored, Keeps, delete-Keeps, set-Keeps, get-Keeps, clean-Keeps}

module _ {A : Type 0} where
  -- What Get is to answer.
  abbrev pub wanted : A → ℤ → ℕ → ℕ → Option A
  wanted v ttl now later =
      if is_nonpos ttl then some v else if ltb (now + to_nat ttl) later then none else some v

  call-Keeps :
      (key : String) (item : CacheItem A) (later : ℕ) (mc : Memo A) (c : Call A)
      → Stored key item later mc
      → IsAside key later c
      → Keeps key item later (call mc c)
  unfolding call
  call-Keeps key item later mc (gets j now) s le = get-Keeps key item later mc j now s le
  call-Keeps key item later mc (sets j v ttl now) s other =
      set-Keeps key item later mc j v ttl now s other
  call-Keeps key item later mc (deletes j) s other =
      delete-Keeps key item later mc j s (λ same. absurd (cc (same, other)))
  call-Keeps key item later mc (cleans now) s le = clean-Keeps key item later mc now s le

  run-Keeps :
      (key : String) (item : CacheItem A) (later : ℕ) (mc : Memo A) (cs : List (Call A))
      → Stored key item later mc
      → AllAside key later cs
      → Keeps key item later (run mc cs)
  unfolding run
  run-Keeps key item later mc [] s aside = (mc, refl, s)
  run-Keeps key item later mc (c ∷ cs) s aside =
      let (mc', ran, s') = call-Keeps key item later mc c s aside.0 in
      subst (λ o. Keeps key item later (elim o [ none ↦ none | some mc'' ↦ run mc'' cs ])) (sym ran)
        (run-Keeps key item later mc' cs s' aside.1)

  live-wanted :
      (v : A) (ttl : ℤ) (now later : ℕ)
      → (if is_past (new_item v ttl now).expire_at later then some none else some (some v))
        ≡ some (wanted v ttl now later)
  live-wanted v ttl now later = elim (Bool-cases (is_nonpos ttl)) [
    | inl h ↦ rw h refl
    | inr h ↦ rw h (
        if_cases (λ r. r ≡ some (if ltb (now + to_nat ttl) later then none else some v))
          (ltb (now + to_nat ttl) later) _ _ (λ y. rw y refl) (λ y. rw y refl))
  ]

  Stored-get :
      (key : String) (v : A) (ttl : ℤ) (now later : ℕ) (mc : Memo A)
      → Stored key (new_item v ttl now) later mc
      → answer (get_value mc key later) ≡ some (wanted v ttl now later)
  Stored-get key v ttl now later mc s = get_value-answer mc key later ∙ elim s.there [
    | inl h ↦ ap (live later) h ∙ live-wanted v ttl now later
    | inr (h, past) ↦ ap (live later) h ∙ sym (rw past refl) ∙ live-wanted v ttl now later
  ]

  -- In a cache whose keys each stand once, in their own shard, with hashes that are not negative, Set of
  -- a key and then any calls of Get, of Set and Delete of other keys, and rounds of cleanup, each to its
  -- end before the next and none later than `later`, return. Get of the key at `later` then
  -- answers the value, if the time to live is not positive or has not ended by then, and else nil.
  pub value_lasts :
      (mc : Memo A) (key : String) (v : A) (ttl : ℤ) (now later : ℕ) (calls : List (Call A))
      → IsPlaced mc.items
      → AllAside key later calls
      → (mc' : Memo A) × (run mc (sets key v ttl now ∷ calls) ≡ some mc')
        × (answer (get_value mc' key later) ≡ some (wanted v ttl now later))
  unfolding run call set_value
  value_lasts mc key v ttl now later calls placed aside =
      let (s', ran, placed', law) = set-Gives mc.items key (new_item v ttl now) placed in
      let stored : Stored key (new_item v ttl now) later (record mc { items = s' }) = record {
        placed = placed';
        there = inl (law key ∙ rw (beq_refl key) refl);
      } in
      let (mc', rest, s) =
        run-Keeps key (new_item v ttl now) later (record mc { items = s' }) calls stored aside in
      (
        mc',
        subst (λ o. (elim (with_data mc o) [ none ↦ none | some mc'' ↦ run mc'' calls ]) ≡ some mc')
            (sym ran) rest,
        Stored-get key v ttl now later mc' s,
      )
