-- ===== src/Player/Requests.antt =====
-- Sequences of calls of a manager's methods.
use Prim.Native.String.{String}
use czx.Base.{ℕ, Bool, ◌≡◌, List, [], ◌∷◌, Option, none, some, string_eq}
use czx.Player.{Message, Manager, with_heartbeat, add, delete, remove, start, close}
use czx.Player.Broadcast.{broadcast, broadcast_excepts, broadcast_by_ids, broadcast_by_func}

-- The calls of a manager.
pub data Request : Type 0 where
  sets_heartbeat : Option ℕ → Request
  adds : ℕ → Request
  deletes : String → Request
  removes : String → Bool → Request
  starts_beating closes_all : Request
  broadcasts : Message → Request
  broadcasts_excepts broadcasts_to : Message → List String → Request
  broadcasts_by : Message → (ℕ → Bool) → Request

unfoldable pub answer : Manager → Request → Option Manager
unfolding with_heartbeat add delete remove start close broadcast broadcast_excepts broadcast_by_ids
    broadcast_by_func
answer m (sets_heartbeat hb) = some (with_heartbeat m hb)
answer m (adds p) = some (add m p).1
answer m (deletes id) = some (delete m id)
answer m (removes id destroy) = some (remove m id destroy)
answer m starts_beating = some (start m)
answer m closes_all = some (close m)
answer m (broadcasts msg) = broadcast m msg
answer m (broadcasts_excepts msg ids) = broadcast_excepts m msg ids
answer m (broadcasts_to msg ids) = broadcast_by_ids m msg ids
answer m (broadcasts_by msg f) = broadcast_by_func m msg f

-- No call sets another heartbeat than this one.
abbrev pub Keeps : ℕ → Request → Type 0
Keeps hb (sets_heartbeat o) = o ≡ some hb
Keeps hb q = Unit {0}

abbrev pub AllKeep : ℕ → List Request → Type 0
AllKeep hb [] = Unit {0}
AllKeep hb (q ∷ qs) = Keeps hb q × AllKeep hb qs

unfoldable pub run : Manager → List Request → Option Manager
unfolding answer
run m [] = some m
run m (r ∷ rs) = elim (answer m r) [ none ↦ none | some m' ↦ run m' rs ]
