-- ===== src/Timer/Dispatcher/Tests.antt =====
-- A dispatcher with two timers, one of which fires behind the end of Stop.
use czx.Base.{ℕ, ◌≡◌, refl, List, [], ◌∷◌, Outcome, panics, steps, arith, ◌++◌}
use czx.Timer.Dispatcher.{
  Dispatcher, new_dispatcher, after_func, stop_timer, test_cb, launch_cb, fire, send_timer,
  see_done, receive, meet, Event, makes, stops_timer, fires, sends, sees_done, meets, tests,
  launches, starts, takes, sees_stop, begins_stop, finishes_stop, run,
}
use czx.Timer.Dispatcher.Places.{IsPlaced, IsSafe, count}
use czx.Timer.Dispatcher.Steps.{IsRun, hazards, dispatcher_run-IsRun}

abbrev fresh : Dispatcher
fresh = new_dispatcher 8

abbrev stopped : List Event
stopped =
    makes
    ∷ makes
    ∷ starts
    ∷ fires 0
    ∷ sends 0
    ∷ begins_stop
    ∷ takes
    ∷ tests 0
    ∷ launches 0
    ∷ sees_stop
    ∷ takes
    ∷ finishes_stop
    ∷ fires 1
    ∷ []

launched_by : Outcome Dispatcher → List ℕ
launched_by (steps d) = d.launched
launched_by o = []

-- Then the callback is launched, if its goroutine sees that done is closed,
late_runs :
    launched_by (run fresh (stopped ++ (sees_done 1 ∷ tests 1 ∷ launches 1 ∷ []))) ≡ 0 ∷ 1 ∷ []
unfolding launched_by run new_dispatcher after_func test_cb launch_cb fire send_timer see_done
    receive
late_runs = refl

-- and else its send panics.
late_panics : run fresh (stopped ++ (sends 1 ∷ [])) ≡ panics
unfolding run new_dispatcher after_func test_cb launch_cb fire send_timer see_done receive
late_panics = refl

fresh-IsPlaced : IsPlaced fresh
unfolding new_dispatcher count
fresh-IsPlaced i = (refl, omega arith)

fresh-IsSafe : IsSafe fresh
unfolding new_dispatcher
fresh-IsSafe = (refl, λ i. refl)

dispatcher_run-IsRun_example : IsRun (hazards fresh stopped) (run fresh stopped)
dispatcher_run-IsRun_example = dispatcher_run-IsRun stopped fresh fresh-IsPlaced fresh-IsSafe

-- Stop of a timer between the two reads of its callback.
stop_between :
    run fresh
      (makes ∷ starts ∷ fires 0 ∷ sends 0 ∷ takes ∷ tests 0 ∷ stops_timer 0 ∷ launches 0 ∷ [])
    ≡ panics
unfolding run new_dispatcher after_func stop_timer test_cb launch_cb fire send_timer receive
stop_between = refl

-- Without a buffer the timer's goroutine hands it to Start's.
unbuffered :
    launched_by (
      run
        (new_dispatcher 0)
        (makes ∷ starts ∷ fires 0 ∷ sends 0 ∷ meets 0 ∷ tests 0 ∷ launches 0 ∷ []))
    ≡ 0 ∷ []
unfolding launched_by run new_dispatcher after_func test_cb launch_cb fire send_timer meet
unbuffered = refl
