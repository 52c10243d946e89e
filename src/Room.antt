-- ===== src/Room.antt =====
-- room/room.go: a room of players with a limit, a processor that may turn a player down, and a loop.
-- The processor and the loop are the caller's: the processor is its answers, and the calls of both
-- are a list of effects. Join takes the lock twice, so it is two steps: `join_reserve`, and
-- `join_settle` once the processor has answered. Waiting for the lock is not modelled.
mod Tests
pub mod Membership
pub mod Limit
use Prim.Native.String.{String}
use czx.Base.{
  ℕ, Bool, true, false, List, [], ◌∷◌, ◌++◌, Option, none, some, ltb, ◌==◌, if◌then◌else◌, length,
  Result, ok, err, string_eq,
}
use czx.Base.Int.{ℤ, pos, negsuc, geb}
use czx.Container.Queue.{Recycler}
use czx.Container.CMap.{CMap, new, with_recycler, len, has_key, set_key, delete, visited, iterator}

pub data RoomError : Type 0 where
  room_full : RoomError
  max_player : RoomError
  not_running : RoomError
  running_already : RoomError
  loop_not_found : RoomError

-- RoomProcessor: what Join and Leave answer for each player.
pub record RoomProcessor (E : Type 0) : Type 0 where
  pub join : String → Option E
  pub leave : String → Option E

pub data JoinError (E : Type 0) : Type 0 where
  room_error : RoomError → JoinError E
  processor_error : E → JoinError E

pub data Effect (L : Type 0) : Type 0 where
  loop_start : L → Effect L
  loop_stop : L → Effect L
  processor_close : Effect L

pub record Room (L E : Type 0) : Type 0 where
  pub max_players : ℤ
  pub room_id : String
  pub loop : Option L
  pub running : Bool
  pub players : CMap String (Unit {0})
  pub processor : Option (RoomProcessor E)

abbrev pub default_max_player : ℤ
default_max_player = pos 5

-- defaultConf's player limit: 0 stands for the default.
abbrev pub default_max : ℤ → ℤ
default_max (pos n) = if n == 0 then default_max_player else pos n
default_max (negsuc n) = negsuc n

abbrev pub set_or_none : Option Recycler → CMap String (Unit {0})
set_or_none none = new
set_or_none (some r) = with_recycler new r

abbrev pub asked_join : {E : Type 0} → Option (RoomProcessor E) → String → Option E
asked_join none id = none
asked_join (some p) id = p.join id

abbrev pub to_error : {E : Type 0} → Option E → Option (JoinError E)
to_error none = none
to_error (some e) = some (processor_error e)

-- The calls of Stop: the processor's Close and the loop's Stop, of each that is set.
abbrev pub closes : {L E : Type 0} → Option (RoomProcessor E) → List (Effect L)
closes none = []
closes (some p) = processor_close ∷ []

abbrev pub stops : {L : Type 0} → Option L → List (Effect L)
stops none = []
stops (some l) = loop_stop l ∷ []

module _ {L E : Type 0} where
  -- NewRoom, its configuration completed by defaultConf.
  pub new_room : ℤ → String → Option Recycler → Room L E
  new_room max id r = record {
    max_players = default_max max;
    room_id = if string_eq.beq id "" then "1" else id;
    loop = none;
    running = false;
    players = set_or_none r;
    processor = none;
  }

  -- WithLoop stops the loop it replaces.
  pub with_loop : Room L E → L → Room L E × List (Effect L)
  with_loop r l =
      (record r { loop = some l }, elim r.loop [ none ↦ [] | some old ↦ loop_stop old ∷ [] ])

  pub with_processor : Room L E → RoomProcessor E → Room L E
  with_processor r p = record r { processor = some p }

  -- WriteMessage: the loop whose Write gets the message.
  pub write_message : Room L E → Result RoomError L
  write_message r =
      if r.running
      then elim r.loop [ none ↦ err loop_not_found | some l ↦ ok l ]
      else err not_running

  pub num : Room L E → ℕ
  num r = len r.players

  unfoldable pub has_player : Room L E → String → Bool
  has_player r id = has_key r.players id

  pub player_ids : Room L E → List String
  player_ids r = ids (iterator r.players (λ _ _. true))
    where
      ids : List (String × Unit {0}) → List String
      ids [] = []
      ids ((k, _) ∷ rest) = k ∷ ids rest

  -- Join under its first lock.
  unfoldable pub join_reserve : Room L E → String → Room L E × Option RoomError
  join_reserve r id =
      if has_key r.players id
      then (r, some max_player)
      else if geb (len r.players) r.max_players
      then (r, some room_full)
      else (record r { players = set_key r.players id tt }, none)

  -- Join once the processor has answered.
  unfoldable pub join_settle : Room L E → String → Option E → Room L E
  join_settle r id none = r
  join_settle r id (some e) = record r { players = delete r.players id }

  -- Join behind its first lock, in a room as it was left there.
  abbrev pub join_rest :
      Option (RoomProcessor E)
      → String
      → Room L E × Option RoomError
      → Room L E × Option (JoinError E)
  join_rest p id (r, some e) = (r, some (room_error e))
  join_rest p id (r, none) = (join_settle r id (asked_join p id), to_error (asked_join p id))

  -- Join with nothing in between.
  unfoldable pub join : Room L E → String → Room L E × Option (JoinError E)
  join r id = join_rest r.processor id (join_reserve r id)

  unfoldable pub leave : Room L E → String → Room L E × Option E
  leave r id = (
    record r { players = delete r.players id },
    elim r.processor [ none ↦ none | some p ↦ p.leave id ],
  )

  unfoldable pub start : Room L E → Room L E × Option RoomError × List (Effect L)
  start r = if r.running then (r, some running_already, []) else (
    record r { running = true },
    none,
    elim r.loop [ none ↦ [] | some l ↦ loop_start l ∷ [] ],
  )

  -- Stop, with stop in it: the processor is closed before the loop is stopped.
  unfoldable pub stop : Room L E → Room L E × List (Effect L)
  stop r =
      if r.running
      then (record r { running = false }, closes r.processor ++ stops r.loop)
      else (r, [])
