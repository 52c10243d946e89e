-- ===== src/Frame/Normal/Tests.antt =====
-- A loop without frames on numbers: two messages, a batch of one, and Stop.
use czx.Base.{
  Outcome, blocked, panics, steps, ℕ, ◌≡◌, refl, true, false, List, [], ◌∷◌, ◌++◌, length, map,
  take, drop,
}
use czx.Base.Int.{pos, negsuc}
use czx.Frame.Normal.{
  start, select_tick, select_adjust, select_done, exec_receive, exec_full, write_send, with_proc,
  pause, resume, set_frequency, stop_begins, stop_waits, drain, default_conf, NormalConf, Normal,
  process, selecting, executing, waiting, new_normal, Event, starts, ticks, adjusts, execs_receive,
  execs_full, sends, finds_done, finds_full, pauses, resumes, stops, sees_done, stop_passes, drains,
  sets_frequency, sets_proc, step, run_from,
}
use czx.Frame.Normal.Order.{IsSound}
use czx.Frame.Normal.Life.{normal_run-IsSound}
use czx.Frame.Normal.Batch.{stands_at, times, batch_count, ending, exec_batch}
use czx.Frame.Normal.Stop.{Stopped, stopping, stop_ends, closed_write}

abbrev conf : NormalConf
conf = record { queue_cap = negsuc 0; frequency = 0; batch_size = pos 1 }

abbrev two_sent : List (Event ℕ)
two_sent =
    sets_proc true
    ∷ sends 4
    ∷ starts
    ∷ sends 9
    ∷ pauses
    ∷ ticks
    ∷ resumes
    ∷ sets_frequency 60
    ∷ adjusts
    ∷ ticks
    ∷ []

abbrev in_stop : List (Event ℕ)
in_stop = two_sent ++ (execs_receive ∷ stops ∷ [])

abbrev at_end : List (Event ℕ)
at_end = in_stop ++ (execs_full ∷ sees_done ∷ stop_passes ∷ drains ∷ drains ∷ [])

abbrev state_of : Outcome (Normal ℕ) → Normal ℕ
state_of (steps n) = n
state_of o = new_normal conf

abbrev first : Normal ℕ
first = new_normal conf

abbrev after : List (Event ℕ) → Normal ℕ
after es = state_of (run_from (steps (new_normal conf)) es)

two_sent_runs : run_from (steps (new_normal conf)) two_sent ≡ steps (after two_sent)
unfolding step start select_tick select_adjust select_done exec_receive exec_full write_send
    with_proc pause resume set_frequency stop_begins stop_waits drain new_normal default_conf
two_sent_runs = refl

in_stop_runs : run_from (steps (new_normal conf)) in_stop ≡ steps (after in_stop)
unfolding step start select_tick select_adjust select_done exec_receive exec_full write_send
    with_proc pause resume set_frequency stop_begins stop_waits drain new_normal default_conf
in_stop_runs = refl

at_end_runs : run_from (steps (new_normal conf)) at_end ≡ steps (after at_end)
unfolding step start select_tick select_adjust select_done exec_receive exec_full write_send
    with_proc pause resume set_frequency stop_begins stop_waits drain new_normal default_conf
at_end_runs = refl

two_sent_state :
    ((after two_sent).worker ≡ executing 0 (pos 1) true) × ((after two_sent).done ≡ false)
unfolding step start select_tick select_adjust select_done exec_receive exec_full write_send
    with_proc pause resume set_frequency stop_begins stop_waits drain new_normal default_conf
two_sent_state = (refl, refl)

in_stop_state : ((after in_stop).stopper ≡ waiting) × ((after in_stop).proc ≡ true)
unfolding step start select_tick select_adjust select_done exec_receive exec_full write_send
    with_proc pause resume set_frequency stop_begins stop_waits drain new_normal default_conf
in_stop_state = (refl, refl)

at_end_state : (after at_end).queue_closed ≡ true
unfolding step start select_tick select_adjust select_done exec_receive exec_full write_send
    with_proc pause resume set_frequency stop_begins stop_waits drain new_normal default_conf
at_end_state = refl

normal_run-IsSound_example : IsSound (after at_end)
normal_run-IsSound_example = normal_run-IsSound at_end conf (after at_end) at_end_runs

two_sent-IsSound : IsSound (after two_sent)
two_sent-IsSound = normal_run-IsSound two_sent conf (after two_sent) two_sent_runs

in_stop-IsSound : IsSound (after in_stop)
in_stop-IsSound = normal_run-IsSound in_stop conf (after in_stop) in_stop_runs

at_end-IsSound : IsSound (after at_end)
at_end-IsSound = normal_run-IsSound at_end conf (after at_end) at_end_runs

exec_batch_example :
    run_from (steps (after two_sent)) (
      times
        (batch_count (pos 1) (length (after two_sent).queue))
        execs_receive
        (ending (batch_count (pos 1) (length (after two_sent).queue)) (pos 1) ∷ []))
    ≡ steps (
        stands_at
          (after two_sent)
          selecting
          (drop (batch_count (pos 1) (length (after two_sent).queue)) (after two_sent).queue)
          ((after two_sent).calls
            ++ map process (
                take (batch_count (pos 1) (length (after two_sent).queue)) (after two_sent).queue)))
exec_batch_example =
    exec_batch (after two_sent) (pos 1) two_sent_state.0 two_sent_state.1 two_sent-IsSound

stop_ends_example :
    (n' : Normal ℕ) × (run_from (steps (after in_stop)) (stopping (after in_stop)) ≡ steps n')
    × Stopped (after in_stop) n'
stop_ends_example = stop_ends (after in_stop) in_stop-IsSound in_stop_state.0 in_stop_state.1

closed_write_example :
    (step (sends 7) (after at_end) ≡ panics)
    × (step finds_done (after at_end) ≡ steps (after at_end))
    × (step finds_full (after at_end) ≡ blocked)
closed_write_example = closed_write (after at_end) 7 at_end-IsSound at_end_state
