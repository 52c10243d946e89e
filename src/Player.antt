-- ===== src/Player.antt =====
-- player: players, the heartbeats that they are registered with, and their manager. A player and a
-- heartbeat are numbers, references into the store; 0 is GlobalHeartbeat. The sharded maps stand by
-- their entries, with one entry for a key (Container.Sharded has the shards); a key's shard is that
-- of a player's identifier, which does not change while the player is registered. The calls of
-- agents, of heartbeat functions and of Heartbeat.Start are listed; a call on a nil agent is `none`.

pub mod Broadcast
pub mod Requests
pub mod Registered
mod Tests
pub mod Calls
pub mod Closed
use Prim.Native.String.{String}
use czx.Base.Dict.{Dict, lookup, insert, erase, has}
use czx.Base.{
  ℕ, suc, Bool, true, false, not, List, [], ◌∷◌, ◌++◌, Option, none, some, ◌==◌, if◌then◌else◌, map,
  length, Eq, string_eq, nat_eq,
}

pub record Player : Type 0 where
  pub id : String
  pub agent : Option ℕ
  pub has_logic : Bool
  pub heartbeat : Option ℕ

pub new_player : Option ℕ → Player
new_player agent = record { id = ""; agent = agent; has_logic = false; heartbeat = none }

-- BroadcastMessage, the data a number
pub record Message : Type 0 where
  pub code : ℕ
  pub data_of : ℕ

-- What is called: an agent's methods with the agent, a heartbeat function with it, and Start of a
-- heartbeat with the interval in seconds.
pub data Call : Type 0 where
  writes : ℕ → ℕ → Call
  writes_with_code : ℕ → ℕ → ℕ → Call
  closes : ℕ → Call
  destroys : ℕ → Call
  beats : Option ℕ → Call
  starts : ℕ → ℕ → Call

-- A PlayerManager, with the store of players and the players registered with each heartbeat.
pub record Manager : Type 0 where
  pub players : Dict String ℕ
  pub closed : Bool
  pub heartbeat : Option ℕ
  pub interval : ℕ
  pub store : ℕ → Player
  pub registered : ℕ → Dict ℕ (Unit {0})
  pub calls : List Call

abbrev pub global_heartbeat : ℕ
global_heartbeat = 0

abbrev default_heartbeat_interval : ℕ
default_heartbeat_interval = 5

-- Changes one entry of the store, or of the heartbeats.
abbrev pub put {ℓ} : {A : Type ℓ} → (ℕ → A) → ℕ → A → ℕ → A
put f k v j = if k == j then v else f j

-- NewPlayerManager, over a store; `hb` is the heartbeat that it makes.
unfoldable pub new_player_manager : ℕ → (ℕ → Player) → (ℕ → Dict ℕ (Unit {0})) → ℕ → Manager
new_player_manager hb store registered interval = record {
  players = [];
  closed = false;
  heartbeat = some hb;
  interval = interval;
  store = store;
  registered = put registered hb [];
  calls = [];
}

-- PlayerManager.WithHeartbeat, of nil or of a heartbeat
unfoldable pub with_heartbeat : Manager → Option ℕ → Manager
with_heartbeat m hb = record m { heartbeat = hb }

-- A player without a heartbeat is registered with the global one.
abbrev pub the_heartbeat : Option ℕ → ℕ
the_heartbeat none = global_heartbeat
the_heartbeat (some hb) = hb

-- Heartbeat.Register
unfoldable pub register : Manager → ℕ → ℕ → Manager
register m hb p = record m { registered = put m.registered hb (insert p tt (m.registered hb)) }

-- Heartbeat.Unregister
unfoldable pub unregister : Manager → ℕ → ℕ → Manager
unregister m hb p = record m { registered = put m.registered hb (erase p (m.registered hb)) }

-- Player.WithHeartbeat, where the player has none
abbrev pub adopted : Option ℕ → Player → ℕ → Player
adopted none player hb = record player { heartbeat = some hb }
adopted (some h) player hb = player

abbrev pub adopt : Player → ℕ → Player
adopt player hb = adopted player.heartbeat player hb

-- The end of Add.
unfoldable pub add_to : Manager → ℕ → Option ℕ → Manager
unfolding register
add_to m p none = register m global_heartbeat p
add_to m p (some hb) = register (record m { store = put m.store p (adopt (m.store p) hb) }) hb p

-- Add: `false` is ErrPlayerAdded.
unfoldable pub add : Manager → ℕ → Bool × Manager
unfolding add_to
add m p =
    if has (m.store p).id m.players
    then (false, m)
    else (true, add_to (record m { players = insert (m.store p).id p m.players }) p m.heartbeat)

pub has_player : Manager → String → Bool
has_player m id = has id m.players

pub get_player : Manager → String → Option ℕ
get_player m id = lookup id m.players

-- Start, with the Start of the heartbeat listed
unfoldable pub start : Manager → Manager
start m =
    if not m.closed
    then m
    else let interval = if m.interval == 0 then default_heartbeat_interval else m.interval in
      let hb = the_heartbeat m.heartbeat in
      record m { interval = interval; calls = m.calls ++ (starts hb interval ∷ []) }

-- Players
unfoldable pub all_players : Manager → List ℕ
all_players m = map (λ (id, p). p) m.players

pub num : Manager → ℕ
num m = length m.players

-- Player.StopHeartbeat
unfoldable pub stop_heartbeat : Manager → ℕ → Manager
unfolding unregister
stop_heartbeat m p = unregister m (the_heartbeat (m.store p).heartbeat) p

abbrev pub call : Manager → Call → Manager
call m c = record m { calls = m.calls ++ (c ∷ []) }

-- A call of the agent, if there is one.
abbrev pub call_agent : Manager → Option ℕ → (ℕ → Call) → Manager
call_agent m none c = m
call_agent m (some a) c = call m (c a)

-- Player.Close
unfoldable pub close_player : Manager → ℕ → Manager
unfolding stop_heartbeat
close_player m p = stop_heartbeat (call_agent m (m.store p).agent closes) p

-- Player.Destroy
unfoldable pub destroy_player : Manager → ℕ → Manager
unfolding stop_heartbeat
destroy_player m p = call_agent (stop_heartbeat m p) (m.store p).agent destroys

-- Player.Heartbeat
unfoldable pub beat : Manager → ℕ → Manager
beat m p = if not (m.store p).has_logic then m else call m (beats (m.store p).agent)

abbrev pub without : String → Manager → Manager
without id m = record m { players = erase id m.players }

abbrev pub deleted : Manager → String → Option ℕ → Manager
deleted m id none = m
deleted m id (some p) = without id (stop_heartbeat m p)

-- Delete
unfoldable pub delete : Manager → String → Manager
delete m id = deleted m id (lookup id m.players)

abbrev pub removed : Manager → String → Bool → Option ℕ → Manager
removed m id destroy none = m
removed m id destroy (some p) =
    without id (if destroy then destroy_player m p else close_player m p)

-- Remove
unfoldable pub remove : Manager → String → Bool → Manager
remove m id destroy = removed m id destroy (lookup id m.players)

unfoldable pub close_all : List ℕ → Manager → Manager
unfolding close_player
close_all [] m = m
close_all (p ∷ ps) m = close_all ps (close_player m p)

-- Close
unfoldable pub close : Manager → Manager
unfolding close_all all_players
close m =
    if m.closed
    then m
    else let m' = close_all (all_players m) (record m { closed = true }) in
      record m' { players = [] }
