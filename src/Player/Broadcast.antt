-- ===== src/Player/Broadcast.antt =====
-- player/manager.go: Rang and the four broadcasts. What the function of Rang is called with is
-- the list of the players.
use Prim.Native.String.{String}
use czx.Base.{
  ℕ, Bool, true, false, not, List, [], ◌∷◌, ◌++◌, Option, none, some, ◌==◌, if◌then◌else◌,
  string_eq,
}
use czx.Player.{Player, Message, Call, Manager, writes, writes_with_code, all_players}

-- The players that a round of Rang or a broadcast writes to, in its order; `none` is a nil agent.
unfoldable pub send : Message → List Call → Option ℕ → Option (List Call)
send msg calls none = none
send msg calls (some a) = some (
    calls
    ++ ((if msg.code == 0 then writes a msg.data_of else writes_with_code a msg.code msg.data_of)
        ∷ []))

unfoldable pub send_to :
    (ℕ → Player) → Message → (ℕ → Bool) → List ℕ → List Call → Option (List Call)
unfolding send
send_to store msg chosen [] calls = some calls
send_to store msg chosen (p ∷ ps) calls =
    if chosen p
    then elim (send msg calls (store p).agent) [
      | none ↦ none
      | some calls' ↦ send_to store msg chosen ps calls'
    ]
    else send_to store msg chosen ps calls

abbrev pub sent : Manager → Option (List Call) → Option Manager
sent m none = none
sent m (some calls) = some (record m { calls = calls })

-- BroadcastByFunc
unfoldable pub broadcast_by_func : Manager → Message → (ℕ → Bool) → Option Manager
unfolding all_players send_to
broadcast_by_func m msg f = sent m (send_to m.store msg f (all_players m) m.calls)

-- Broadcast
unfoldable pub broadcast : Manager → Message → Option Manager
unfolding all_players send_to
broadcast m msg = sent m (send_to m.store msg (λ p. true) (all_players m) m.calls)

-- slices.Contains
unfoldable pub contains : List String → String → Bool
contains [] id = false
contains (i ∷ ids) id = if string_eq.beq i id then true else contains ids id

-- BroadcastExcepts
unfoldable pub broadcast_excepts : Manager → Message → List String → Option Manager
unfolding all_players send_to contains
broadcast_excepts m msg ids =
    sent m (send_to m.store msg (λ p. not (contains ids (m.store p).id)) (all_players m) m.calls)

-- BroadcastByIds
unfoldable pub broadcast_by_ids : Manager → Message → List String → Option Manager
unfolding all_players send_to contains
broadcast_by_ids m msg ids =
    sent m (send_to m.store msg (λ p. contains ids (m.store p).id) (all_players m) m.calls)
