-- ===== src/Player/Tests.antt =====
-- A manager with three players, and an instance of the theorem.
use Prim.Native.String.{String}
use czx.Base.Dict.{lookup, insert, erase, has}
use czx.Base.{
  nat_eq, ℕ, zero, suc, ◌+◌, ◌≡◌, refl, inl, Bool, false, true, List, [], ◌∷◌, Option, none, some,
}
use czx.Player.{Player, Call, Manager, new_player_manager, closes, writes_with_code}
use czx.Player.Requests.{
  Request, AllKeep, sets_heartbeat, adds, deletes, closes_all, broadcasts_excepts, run,
}
use czx.Player.Registered.{IsRegistered}
use czx.Player.Calls.{Gives, player_run-Gives}

abbrev name : ℕ → String
name zero = "a"
name (suc zero) = "b"
name (suc (suc p)) = "c"

abbrev players : ℕ → Player
players p = record { id = name p; agent = some (p + 10); has_logic = false; heartbeat = none }

abbrev fresh : Manager
fresh = new_player_manager 1 players (λ hb. []) 0

abbrev requests : List Request
requests =
    adds 0
    ∷ sets_heartbeat (some 1)
    ∷ adds 1
    ∷ adds 2
    ∷ adds 3
    ∷ broadcasts_excepts (record { code = 7; data_of = 9 }) ("b" ∷ [])
    ∷ deletes "a"
    ∷ closes_all
    ∷ []

kept : AllKeep 1 requests
kept = (tt, (refl, (tt, (tt, (tt, (tt, (tt, (tt, tt))))))))

calls_of : Option Manager → List Call
calls_of none = []
calls_of (some m) = m.calls

written :
    calls_of (run fresh requests)
    ≡ writes_with_code 10 7 9 ∷ writes_with_code 12 7 9 ∷ closes 11 ∷ closes 12 ∷ []
unfolding calls_of run new_player_manager has lookup insert erase
written = refl

fresh-IsRegistered : IsRegistered 1 fresh
unfolding new_player_manager has lookup
fresh-IsRegistered = record {
  heartbeat = refl;
  free = λ p. inl refl;
  agent = λ p. (p + 10, refl);
  own = λ i p h. absurd (cc h);
  beats = λ i p h. absurd (cc h);
  there = λ p h. absurd (cc h);
}

player_run-Gives_example : Gives (IsRegistered 1) (run fresh requests)
player_run-Gives_example = player_run-Gives 1 requests fresh kept fresh-IsRegistered

-- A player that has been in the manager before WithHeartbeat keeps its old heartbeat: what it leaves
-- with its second Delete is that one, and it stays registered with the new one.
abbrev after_change : List Request
after_change = adds 0 ∷ deletes "a" ∷ sets_heartbeat (some 2) ∷ adds 0 ∷ deletes "a" ∷ []

beats_with : ℕ → ℕ → Option Manager → Bool
beats_with hb p none = false
beats_with hb p (some m) = has p (m.registered hb)

still_beats : beats_with 2 0 (run fresh after_change) ≡ true
unfolding beats_with run new_player_manager has lookup insert erase
still_beats = refl
