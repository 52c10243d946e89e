-- ===== src/Container/Memo/Calls.antt =====
-- container/memo.go: calls of a cache and rounds of its cleanup, one after the other.
use Prim.Native.String.{String}
use czx.Base.{ℕ, ◌≤◌, ◌≡◌, false, List, [], ◌∷◌, Option, none, some, string_eq}
use czx.Base.Int.{ℤ}
use czx.Container.Memo.{Memo, set_value, delete_value, get_value, clean}

pub data Call (A : Type 0) : Type 0 where
  gets : String → ℕ → Call A
  sets : String → A → ℤ → ℕ → Call A
  deletes : String → Call A
  cleans : ℕ → Call A

module _ {A : Type 0} where
  abbrev pub left_by : Option (Option A × Memo A) → Option (Memo A)
  left_by none = none
  left_by (some (a, mc)) = some mc

  -- A call or a round of cleanup, at the time that it reads from the clock.
  unfoldable pub call : Memo A → Call A → Option (Memo A)
  unfolding get_value set_value delete_value clean
  call mc (gets key now) = left_by (get_value mc key now)
  call mc (sets key v ttl now) = set_value mc key v ttl now
  call mc (deletes key) = delete_value mc key
  call mc (cleans now) = clean mc now

  -- Each to its end before the next one.
  unfoldable pub run : Memo A → List (Call A) → Option (Memo A)
  run mc [] = some mc
  run mc (c ∷ cs) = elim (call mc c) [ none ↦ none | some mc' ↦ run mc' cs ]

  -- The call neither sets nor deletes the key, and reads no later time from the clock.
  abbrev pub IsAside : String → ℕ → Call A → Type 0
  IsAside key later (gets j now) = now ≤ later
  IsAside key later (sets j v ttl now) = string_eq.beq j key ≡ false
  IsAside key later (deletes j) = string_eq.beq j key ≡ false
  IsAside key later (cleans now) = now ≤ later

  abbrev pub AllAside : String → ℕ → List (Call A) → Type 0
  AllAside key later [] = Unit {0}
  AllAside key later (c ∷ cs) = IsAside key later c × AllAside key later cs
