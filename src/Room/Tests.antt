-- ===== src/Room/Tests.antt =====
-- A room for one player, whose processor turns everybody down.
use czx.Base.{ℕ, false, List, [], ◌∷◌, none, some, refl, arith, string_eq}
use czx.Base.Int.{pos}
use czx.Base.Dict.{has, lookup}
use czx.Room.{Room, RoomProcessor, join}
use czx.Room.Limit.{Event, reserve, settle, remove, run, IsBounded, run-IsBounded}
use czx.Room.Membership.{Joined, join-Joined}

abbrev strict : RoomProcessor ℕ
strict = record { join = λ id. some 403; leave = λ id. none }

abbrev table : Room ℕ ℕ
table = record {
  max_players = pos 2;
  room_id = "1";
  loop = none;
  running = false;
  players = record { entries = ("ann", tt) ∷ []; max_len = 1; recycler = none };
  processor = some strict;
}

table-IsBounded : IsBounded table
unfolding has lookup
table-IsBounded = (omega arith, ((refl, tt), omega arith))

abbrev rush : List (Event ℕ)
rush =
    reserve "bob"
    ∷ reserve "cat"
    ∷ settle "bob" (some 403)
    ∷ reserve "cat"
    ∷ remove "ann"
    ∷ settle "cat" none
    ∷ []

run-IsBounded_example : IsBounded (run table rush)
run-IsBounded_example = run-IsBounded table rush table-IsBounded

join-Joined_example : Joined table "bob" "ann" (join table "bob")
join-Joined_example = join-Joined table "bob" "ann"
