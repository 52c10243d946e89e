-- ===== src/Room/Limit.antt =====
-- room/room.go: the limit on the players, when calls of Join and Leave from several goroutines
-- interleave at the room's lock.
use Prim.Native.String.{String}
use czx.Base.{
  ℕ, ◌≤◌, ◌<◌, ◌≡◌, false, List, [], ◌∷◌, Option, none, some, arith, if_cases, string_eq,
}
use czx.Base.Int.{ℤ, pos, negsuc, geb, to_nat}
use czx.Container.CMap.{len, has_key, delete}
use czx.Container.CMap.Inv.{IsValid, set_key-IsValid, delete-IsValid, length-delete, length-set_key}
use czx.Room.{Room, join_reserve, join_settle, leave}

-- The steps that change the players: each is one stretch under the lock. An answer of the processor
-- may come for any player at any time.
pub data Event (E : Type 0) : Type 0 where
  reserve : String → Event E
  settle : String → Option E → Event E
  remove : String → Event E

not_full : (n : ℕ) (m : ℤ) → geb n m ≡ false → n < to_nat m
not_full n (pos m) h = ground arith
not_full n (negsuc m) h = absurd (cc h)

module _ {L E : Type 0} where
  pub step : Room L E → Event E → Room L E
  step r (reserve id) = (join_reserve r id).0
  step r (settle id answer) = join_settle r id answer
  step r (remove id) = (leave r id).0

  pub run : Room L E → List (Event E) → Room L E
  run r [] = r
  run r (x ∷ xs) = run (step r x) xs

  -- The players are within the limit (none, if the limit is negative), and their map is well formed.
  abbrev pub IsBounded : Room L E → Type 0
  IsBounded r = (len r.players ≤ to_nat r.max_players) × IsValid r.players

  reserve-IsBounded : (r : Room L E) (id : String) → IsBounded r → IsBounded (join_reserve r id).0
  unfolding join_reserve
  reserve-IsBounded r id h =
      let P = λ (s : Room L E × Option _). IsBounded s.0 in
      if_cases P (has_key r.players id) _ _ (λ _. h)
        (λ _.
          if_cases P (geb (len r.players) r.max_players) _ _ (λ _. h)
            (λ free.
              let room = not_full (len r.players) r.max_players free in
              let more = length-set_key r.players id tt in
              (omega arith, set_key-IsValid r.players id tt h.1)))

  delete-IsBounded :
      (r : Room L E) (id : String)
      → IsBounded r
      → IsBounded (record r { players = delete r.players id })
  delete-IsBounded r id h =
      let fewer = length-delete r.players id in (omega arith, delete-IsValid r.players id h.1)

  step-IsBounded : (r : Room L E) (x : Event E) → IsBounded r → IsBounded (step r x)
  unfolding step leave join_settle
  step-IsBounded r (reserve id) h = reserve-IsBounded r id h
  step-IsBounded r (settle id none) h = h
  step-IsBounded r (settle id (some e)) h = delete-IsBounded r id h
  step-IsBounded r (remove id) h = delete-IsBounded r id h

  -- A room whose players are within its limit keeps them within it, whatever sequence of first and
  -- second halves of Join (for any players, with any answers) and of Leave runs on it.
  pub run-IsBounded : (r : Room L E) (xs : List (Event E)) → IsBounded r → IsBounded (run r xs)
  unfolding run
  run-IsBounded r [] h = h
  run-IsBounded r (x ∷ xs) h = run-IsBounded (step r x) xs (step-IsBounded r x h)
