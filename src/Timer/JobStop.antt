-- ===== src/Timer/JobStop.antt =====
-- Stop of a cron job while its callback runs.
use czx.Base.{suc, ◌≡◌, refl, ap, ◌∙◌, true, List, [], ◌∷◌, ◌++◌, length, get_or}
use czx.Timer.Clock.{Time}
use czx.Timer.Next.{found, next}
use czx.Timer.Dispatcher.{Dispatcher, Timer, armed, nowhere, timer, after_func}
use czx.Timer.Job.{Cron, schedule, call_job, stop_job}

get_or-append : (ts : List Timer) (t : Timer) → get_or (ts ++ (t ∷ [])) (length ts) nowhere ≡ t
get_or-append [] t = refl
get_or-append (u ∷ ts) t = get_or-append ts t

-- Where Stop comes while the callback runs and there is a next time, the callback arms a new timer,
-- and the job goes on.
job_survives :
    (d : Dispatcher) (c : Cron) (now at : Time)
    → next c.expr now ≡ found at
    → timer (call_job (stop_job d c) c now).0 (length (stop_job d c).timers)
      ≡ record { place = armed; has_cb = true }
unfolding call_job after_func
job_survives d c now at h =
    ap
      (λ a.
        timer (schedule (stop_job d c) (record c { calls = suc c.calls }) a).0
          (length (stop_job d c).timers))
      h
    ∙ get_or-append (stop_job d c).timers (record { place = armed; has_cb = true })
