-- ===== src/Frame/Manager.antt =====
-- frame/manager.go: the loops of a game by their names, over the locked map. A number stands for a loop;
-- `started` and `stopped` list the loops that the manager called Start and Stop of. A method's calls of
-- the map run with no other goroutine between them. Stop ends by waiting for the loops that it started.
mod Tests
pub mod Cover
use Prim.Native.String.{String}
use czx.Base.{
  ℕ, Bool, true, false, List, [], ◌∷◌, ◌++◌, Option, none, some, if◌then◌else◌, map, string_eq,
}
use czx.Container.Queue.{Recycler}
use czx.Container.CMap.{
  CMap, new, with_recycler, len, has_key, get, set_key, delete, iterator, clear,
}

pub record LoopManager : Type 0 where
  pub loops : CMap String ℕ
  pub started : List ℕ
  pub stopped : List ℕ

pub new_manager : Recycler → LoopManager
new_manager r = record { loops = with_recycler new r; started = []; stopped = [] }

-- `false` is ErrLoopExists.
pub add : LoopManager → String → ℕ → Bool × LoopManager
add lm id loop =
    if has_key lm.loops id
    then (false, lm)
    else (true, record lm { loops = set_key lm.loops id loop; started = lm.started ++ (loop ∷ []) })

abbrev pub removed : LoopManager → String → Option ℕ → LoopManager
removed lm id none = lm
removed lm id (some loop) = record lm {
  loops = delete lm.loops id;
  stopped = lm.stopped ++ (loop ∷ []);
}

pub remove : LoopManager → String → LoopManager
remove lm id = removed lm id (get lm.loops id)

pub get_loop : LoopManager → String → Option ℕ
get_loop lm id = get lm.loops id

pub has_loop : LoopManager → String → Bool
has_loop lm id = has_key lm.loops id

pub count : LoopManager → ℕ
count lm = len lm.loops

-- Loops
pub all_loops : LoopManager → List ℕ
all_loops lm = map (λ (id, loop). loop) (iterator lm.loops (λ id loop. true))

pub all_id : LoopManager → List String
all_id lm = map (λ (id, loop). id) (iterator lm.loops (λ id loop. true))

pub stop : LoopManager → LoopManager
stop lm = record lm { loops = clear lm.loops; stopped = lm.stopped ++ all_loops lm }
