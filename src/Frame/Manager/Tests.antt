-- ===== src/Frame/Manager/Tests.antt =====
-- Two loops under names, one removed, and a second loop under a name that is taken.
use Prim.Native.String.{String}
use czx.Base.{ℕ, ◌≡◌, true, false, List, [], ◌∷◌, none}
use czx.Container.Queue.{Recycler}
use czx.Frame.Manager.{new_manager, stop, get_loop}
use czx.Frame.Manager.Cover.{Call, adds, removes, run_from, among, stops_all}

abbrev never : Recycler
never size max_len = false

abbrev calls : List Call
calls = adds "hall" 0 ∷ adds "arena" 1 ∷ adds "hall" 2 ∷ removes "hall" ∷ adds "hall" 3 ∷ []

stops_all_example :
    ((l : ℕ)
      → among l (stop (run_from (new_manager never) calls)).started ≡ true
      → among l (stop (run_from (new_manager never) calls)).stopped ≡ true)
    × ((id : String) → get_loop (stop (run_from (new_manager never) calls)) id ≡ none)
stops_all_example = stops_all never calls
