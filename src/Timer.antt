-- ===== src/Timer.antt =====
-- Cron expressions and their next time (timer/cronexpr.go), and the dispatcher of timers
-- (timer/timer.go).
pub mod Word
pub mod Text
pub mod Cron
pub mod Clock
pub mod Next
pub mod Dispatcher
pub mod Job
pub mod JobStop
mod Tests
