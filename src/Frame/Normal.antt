-- ===== src/Frame/Normal.antt =====
-- frame/normal.go: the loop without frames. Start is a goroutine that selects again and again, Stop
-- another one, and Write a select of its own; each step is a round of a select or a call under the
-- mutex, and `step` says which of them is ready. The goroutine in Start is `worker`, the one in Stop is
-- `stopper`. A field `accepted` lists the messages that the queue took, `calls` the processor's calls.
mod Tests
pub mod Order
pub mod Rounds
pub mod Life
pub mod Batch
pub mod Stop
use czx.Base.{
  Outcome, blocked, panics, steps, ℕ, zero, suc, ◌+◌, ◌/◌, Bool, true, false, not, ◌&&◌, ◌||◌, List,
  [], ◌∷◌, ◌++◌, Option, none, some, ltb, ◌==◌, if◌then◌else◌, length,
}
use czx.Base.Int.{ℤ, pos, negsuc, is_nonpos, to_nat, geb}
use czx.Frame.{flag_started, flag_paused, default_frequency, second}

pub record NormalConf : Type 0 where
  pub queue_cap : ℤ
  pub frequency : ℕ
  pub batch_size : ℤ

-- A call of the processor.
pub data Call (M : Type 0) : Type 0 where
  process : M → Call M
  on_close : Call M

-- Where the goroutine in Start stands: it has not begun or has returned, is in the select, or is in
-- `exec`, with the number of messages it has processed, the batch size and the processor it read.
pub data Worker : Type 0 where
  absent selecting : Worker
  executing : ℕ → ℤ → Bool → Worker

-- Where the goroutine in Stop stands: behind close(n.done), in the range over the queue, at the end.
pub data Stopper : Type 0 where
  running waiting draining stopped : Stopper

-- `proc` and `adjust` say whether a processor is set and whether the channel of one place is full.
pub record Normal (M : Type 0) : Type 0 where
  pub queue_cap : ℕ
  pub frequency : ℕ
  pub batch_size : ℤ
  pub adjust : Bool
  pub queue : List M
  pub queue_closed : Bool
  pub proc : Bool
  pub done : Bool
  pub flag : ℕ
  pub worker : Worker
  pub stopper : Stopper
  pub accepted : List M
  pub calls : List (Call M)

-- `queueCap`
abbrev pub default_queue_cap : ℕ
default_queue_cap = 100

-- `max(z, 0)`
abbrev pub not_negative : ℤ → ℤ
not_negative (pos n) = pos n
not_negative (negsuc n) = pos 0

pub default_conf : NormalConf → NormalConf
default_conf c = record {
  queue_cap = if is_nonpos c.queue_cap then pos default_queue_cap else c.queue_cap;
  frequency = if c.frequency == 0 then default_frequency else c.frequency;
  batch_size = not_negative c.batch_size;
}

-- `batchSize > 0 && processed >= batchSize`
abbrev pub batch_done : ℕ → ℤ → Bool
batch_done k batch = not (is_nonpos batch) && geb k batch

module _ {M : Type 0} where
  pub new_normal : NormalConf → Normal M
  new_normal c =
      let conf = default_conf c in
      record {
        queue_cap = to_nat conf.queue_cap;
        frequency = conf.frequency;
        batch_size = conf.batch_size;
        adjust = false;
        queue = [];
        queue_closed = false;
        proc = false;
        done = false;
        flag = 0;
        worker = absent;
        stopper = running;
        accepted = [];
        calls = [];
      }

  -- `true` for a processor that is not nil
  pub with_proc : Normal M → Bool → Normal M
  with_proc n p = record n { proc = p }

  pub pause : Normal M → Bool × Normal M
  pause n = if n.flag == flag_started then (true, record n { flag = flag_paused }) else (false, n)

  pub resume : Normal M → Bool × Normal M
  resume n = if n.flag == flag_paused then (true, record n { flag = flag_started }) else (false, n)

  -- The method Frequency; `false` is its error.
  pub set_frequency : Normal M → ℕ → Bool × Normal M
  set_frequency n k =
      if k == 0 then (false, n) else (true, record n { frequency = k; adjust = true })

  pub with_batch_size : Normal M → ℤ → Bool × Normal M
  with_batch_size n (pos k) = (true, record n { batch_size = pos k })
  with_batch_size n (negsuc k) = (false, n)

  -- time.NewTicker and Ticker.Reset, which panic without a period.
  abbrev pub with_ticker : ℕ → Normal M → Outcome (Normal M)
  with_ticker frequency n = if second / frequency == 0 then panics else steps n

  -- Start up to its loop; where it returns an error it leaves the loop as it was.
  pub start : Normal M → Outcome (Normal M)
  start n =
      if not (n.flag == 0)
      then steps n
      else if not n.proc
      then steps n
      else with_ticker n.frequency (record n { flag = flag_started; worker = selecting })

  -- `return`, with the deferred reset of the flag
  abbrev pub leave : Normal M → Normal M
  leave n = record n { flag = 0; worker = absent }

  -- The cases of the select in Start: the context's end, `done`, the ticker and `adjust`.
  pub select_ctx : Worker → Normal M → Outcome (Normal M)
  select_ctx selecting n = steps (leave n)
  select_ctx w n = blocked

  pub select_done : Worker → Normal M → Outcome (Normal M)
  select_done selecting n = if n.done then steps (leave n) else blocked
  select_done w n = blocked

  pub select_tick : Worker → Normal M → Outcome (Normal M)
  select_tick selecting n =
      if n.flag == flag_paused
      then steps n
      else steps (record n { worker = executing 0 n.batch_size n.proc })
  select_tick w n = blocked

  pub select_adjust : Worker → Normal M → Outcome (Normal M)
  select_adjust selecting n =
      if n.adjust then with_ticker n.frequency (record n { adjust = false }) else blocked
  select_adjust w n = blocked

  -- The receiver of a message: the queue without its first one, and the call of the processor.
  abbrev pub handle : Bool → M → List M → Normal M → Outcome (Normal M)
  handle proc m rest n =
      if proc
      then steps (record n { queue = rest; calls = n.calls ++ (process m ∷ []) })
      else panics

  abbrev pub with_worker : Worker → Outcome (Normal M) → Outcome (Normal M)
  with_worker w blocked = blocked
  with_worker w panics = panics
  with_worker w (steps n) = steps (record n { worker = w })

  -- The cases of the select in `exec`: `done`, a receive, and the default where neither is ready.
  pub exec_done : Worker → Normal M → Outcome (Normal M)
  exec_done (executing k batch proc) n =
      if batch_done k batch
      then blocked
      else if n.done
      then steps (record n { worker = selecting })
      else blocked
  exec_done w n = blocked

  abbrev pub receive : ℕ → ℤ → Bool → List M → Normal M → Outcome (Normal M)
  receive k batch proc (m ∷ rest) n =
      with_worker (executing (k + 1) batch proc) (handle proc m rest n)
  receive k batch proc [] n =
      if n.queue_closed then steps (record n { worker = selecting }) else blocked

  pub exec_receive : Worker → Normal M → Outcome (Normal M)
  exec_receive (executing k batch proc) n =
      if batch_done k batch then blocked else receive k batch proc n.queue n
  exec_receive w n = blocked

  pub exec_default : Worker → Normal M → Outcome (Normal M)
  exec_default (executing k batch proc) n =
      if batch_done k batch
      then blocked
      else if n.done || n.queue_closed || not (length n.queue == 0)
      then blocked
      else steps (record n { worker = selecting })
  exec_default w n = blocked

  -- The return of `exec` at the end of a batch.
  pub exec_full : Worker → Normal M → Outcome (Normal M)
  exec_full (executing k batch proc) n =
      if batch_done k batch then steps (record n { worker = selecting }) else blocked
  exec_full w n = blocked

  -- The cases of the select in Write and WriteTimeout: a send, `done`, and the default of Write. A send
  -- on a closed channel is ready, and panics.
  pub write_send : Normal M → M → Outcome (Normal M)
  write_send n m =
      if n.queue_closed
      then panics
      else if ltb (length n.queue) n.queue_cap
      then steps (record n { queue = n.queue ++ (m ∷ []); accepted = n.accepted ++ (m ∷ []) })
      else blocked

  pub write_done : Normal M → Outcome (Normal M)
  write_done n = if n.done then steps n else blocked

  pub write_default : Normal M → Outcome (Normal M)
  write_default n =
      if n.done || n.queue_closed || ltb (length n.queue) n.queue_cap then blocked else steps n

  -- Stop: close(n.done), behind wg.Wait() close(n.queue), a round of the range, and the end.
  pub stop_begins : Stopper → Normal M → Outcome (Normal M)
  stop_begins running n = steps (record n { done = true; stopper = waiting })
  stop_begins stopped n = steps n
  stop_begins s n = blocked

  pub stop_waits : Stopper → Worker → Normal M → Outcome (Normal M)
  stop_waits waiting absent n =
      steps (record n { queue_closed = true; stopper = if n.proc then draining else stopped })
  stop_waits s w n = blocked

  pub drain : Stopper → List M → Normal M → Outcome (Normal M)
  drain draining (m ∷ rest) n = handle true m rest n
  drain draining [] n = steps (record n { calls = n.calls ++ (on_close ∷ []); stopper = stopped })
  drain s q n = blocked

-- What may happen next.
pub data Event (M : Type 0) : Type 0 where
  starts ctx_ends sees_done ticks adjusts execs_done execs_receive execs_default execs_full :
      Event M
  sends : M → Event M
  finds_done finds_full times_out pauses resumes stops stop_passes drains : Event M
  sets_frequency : ℕ → Event M
  sets_batch_size : ℤ → Event M
  sets_proc : Bool → Event M

module _ {M : Type 0} where
  pub step : Event M → Normal M → Outcome (Normal M)
  step starts n = start n
  step ctx_ends n = select_ctx n.worker n
  step sees_done n = select_done n.worker n
  step ticks n = select_tick n.worker n
  step adjusts n = select_adjust n.worker n
  step execs_done n = exec_done n.worker n
  step execs_receive n = exec_receive n.worker n
  step execs_default n = exec_default n.worker n
  step execs_full n = exec_full n.worker n
  step (sends m) n = write_send n m
  step finds_done n = write_done n
  step finds_full n = write_default n
  step times_out n = steps n
  step pauses n = steps ((pause n).1)
  step resumes n = steps ((resume n).1)
  step stops n = stop_begins n.stopper n
  step stop_passes n = stop_waits n.stopper n.worker n
  step drains n = drain n.stopper n.queue n
  step (sets_frequency k) n = steps ((set_frequency n k).1)
  step (sets_batch_size z) n = steps ((with_batch_size n z).1)
  step (sets_proc p) n = steps (with_proc n p)

  -- One event after the other, up to one that is not ready or panics.
  abbrev pub run_from : Outcome (Normal M) → List (Event M) → Outcome (Normal M)
  run_from (steps n) [] = steps n
  run_from (steps n) (e ∷ es) = run_from (step e n) es
  run_from o es = o
