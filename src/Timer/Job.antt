-- ===== src/Timer/Job.antt =====
-- timer/timer.go: a cron job, a callback that makes the timer of its next call. The time of the next
-- call is Next's; the dispatcher's timers do not keep the time at which they fire.
use czx.Base.{ℕ, suc, Option, none, some, length}
use czx.Timer.Cron.{CronExpr}
use czx.Timer.Clock.{Time}
use czx.Timer.Next.{Answer, found, zero_time, stuck, next}
use czx.Timer.Dispatcher.{Dispatcher, after_func, stop_timer}

-- The job with its timer, and how often its callback was called.
pub record Cron : Type 0 where
  pub t : Option ℕ
  pub expr : CronExpr
  pub calls : ℕ

-- `c.t = disp.AfterFunc(...)`, unless the next time is the zero time
abbrev pub schedule : Dispatcher → Cron → Answer → Dispatcher × Cron
schedule d c zero_time = (d, c)
schedule d c (found at) = (after_func d, record c { t = some (length d.timers) })
schedule d c stuck = (d, c)

-- CronFunc
unfoldable pub cron_func : Dispatcher → CronExpr → Time → Dispatcher × Cron
cron_func d e now = schedule d (record { t = none; expr = e; calls = 0 }) (next e now)

-- The callback that CronFunc gives to AfterFunc.
unfoldable pub call_job : Dispatcher → Cron → Time → Dispatcher × Cron
call_job d c now = schedule d (record c { calls = suc c.calls }) (next c.expr now)

abbrev pub stopped_at : Dispatcher → Option ℕ → Dispatcher
stopped_at d none = d
stopped_at d (some i) = stop_timer d i

-- Cron.Stop
unfoldable pub stop_job : Dispatcher → Cron → Dispatcher
stop_job d c = stopped_at d c.t
