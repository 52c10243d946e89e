-- ===== src/Network/Conn.antt =====
-- network/tcp/conn.go: a connection with its queue of messages to write. A method holds the mutex, so a
-- call is one step; the goroutine that NewTcpConn starts is the `writer`, with a step for each message,
-- for the end of the range, and for what it does behind it. Whether the network takes a message is the
-- network's choice, but a closed connection takes none. A field `accepted` lists the messages that Write
-- put in the queue, and `sent` those that the network took. `metrics` says whether there are any: a call
-- of them without is a panic. The connection is a *net.TCPConn, as doDestroy takes it to be.
mod Tests
pub mod Order
pub mod Steps
pub mod Close
use czx.Base.{
  Outcome, blocked, panics, steps, ℕ, zero, suc, ◌+◌, Bool, true, false, not, ◌&&◌, ◌||◌, List, [],
  ◌∷◌, ◌++◌, Option, none, some, ◌==◌, if◌then◌else◌, length, Result, ok, err,
}
use czx.Base.Int.{ℤ, pos, is_nonpos, to_nat}
use czx.Network.Parser.{MessageParserConf, ParseError}
use czx.Network.Parser

-- Where the goroutine stands: in the range, behind it, behind conn.Close, at its end.
pub data Writer : Type 0 where
  ranging left closing ended : Writer

-- A message in the queue is `none` for nil.
pub record TcpConn : Type 0 where
  pub pending_write : ℕ
  pub queue : List (Option (List ℕ))
  pub queue_closed : Bool
  pub done : Bool
  pub net_closed : Bool
  pub metrics : Bool
  pub parse : MessageParserConf
  pub writer : Writer
  pub accepted : List (List ℕ)
  pub sent : List (List ℕ)

-- `defaultPendingWrite`
abbrev pub default_pending_write : ℕ
default_pending_write = 100

pub new_tcp_conn : ℤ → MessageParserConf → TcpConn
new_tcp_conn pending parse = record {
  pending_write = if is_nonpos pending then default_pending_write else to_nat pending;
  queue = [];
  queue_closed = false;
  done = false;
  net_closed = false;
  metrics = false;
  parse = parse;
  writer = ranging;
  accepted = [];
  sent = [];
}

pub with_metrics : TcpConn → TcpConn
with_metrics c = record c { metrics = true }

pub with_parse : TcpConn → MessageParserConf → TcpConn
with_parse c parse = record c { parse = parse }

pub do_destroy : TcpConn → Outcome TcpConn
do_destroy c =
    if c.done
    then steps (record c { net_closed = true })
    else if c.queue_closed
    then panics
    else steps (record c { net_closed = true; queue_closed = true; done = true })

-- `c.writeQueue <- b`, with `c'` as what is left: a send on a closed channel panics.
abbrev pub send : TcpConn → TcpConn → Outcome TcpConn
send c c' = if c.queue_closed then panics else steps c'

-- Close, with doWrite of nil.
pub close : TcpConn → Outcome TcpConn
close c =
    if c.done
    then steps c
    else if length c.queue == c.pending_write
    then do_destroy c
    else send c (record c { queue = c.queue ++ (none ∷ []); done = true })

-- Write, with doWrite of a message that is not nil.
pub write : TcpConn → List ℕ → Outcome TcpConn
write c b =
    if c.done
    then steps c
    else if length c.queue == c.pending_write
    then do_destroy c
    else send c (record c { queue = c.queue ++ (some b ∷ []); accepted = c.accepted ++ (b ∷ []) })

-- WriteMessage: the parser's error, or Write of what it puts together.
abbrev pub written : TcpConn → Result ParseError (List ℕ) → Outcome TcpConn
written c (err e) = steps c
written c (ok b) = write c b

pub write_message : TcpConn → List (List ℕ) → Outcome TcpConn
write_message c args = written c (Parser.write c.parse true args)

-- A round of the range: `took` is whether conn.Write succeeds.
pub take_message : TcpConn → Bool → List (Option (List ℕ)) → Outcome TcpConn
take_message c took [] = if c.queue_closed then steps (record c { writer = left }) else blocked
take_message c took (none ∷ rest) = steps (record c { queue = rest; writer = left })
take_message c took (some b ∷ rest) =
    if not c.metrics
    then panics
    else if not took
    then steps (record c { queue = rest; writer = left })
    else if c.net_closed
    then blocked
    else steps (record c { queue = rest; sent = c.sent ++ (b ∷ []) })

-- The step of the goroutine.
pub write_round : TcpConn → Bool → Writer → Outcome TcpConn
write_round c took ranging = take_message c took c.queue
write_round c took left = steps (record c { net_closed = true; writer = closing })
write_round c took closing = steps (record c { done = true; writer = ended })
write_round c took ended = blocked

-- What may happen next.
pub data Event : Type 0 where
  closes destroys : Event
  writes : List ℕ → Event
  writes_message : List (List ℕ) → Event
  -- a step of the goroutine, in which the network takes the message or does not
  rounds : Bool → Event

pub step : Event → TcpConn → Outcome TcpConn
step closes c = close c
step destroys c = do_destroy c
step (writes b) c = write c b
step (writes_message args) c = write_message c args
step (rounds took) c = write_round c took c.writer

abbrev pub run_from : Outcome TcpConn → List Event → Outcome TcpConn
run_from (steps c) [] = steps c
run_from (steps c) (e ∷ es) = run_from (step e c) es
run_from o es = o
