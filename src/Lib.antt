-- ===== src/Lib.antt =====
-- A verification library for czx, a game-server framework in Go.
--
-- The program is a set of packages that a game server links: containers (a ring buffer, locked queues
-- with and without priorities, a channel with a growing buffer, locked maps and a cache on them), a
-- frame loop that collects the players' messages and hands one frame per tick to a processor, a loop
-- that hands them on one by one, a manager of loops, rooms that hold players and a loop, a manager of
-- players with their heartbeats, a bus of events, timers with cron expressions, and connections with the
-- bytes of the messages on them and the processors that encode these. Rooms use the map and a loop; the
-- managers use the maps; the buffered channel uses the ring buffer; the bus uses the queue; the
-- connection uses the message parser, and the processor its identifiers; a cron job uses the dispatcher
-- of timers and the search for the next time.
--
-- Each file models one file of the source; a function keeps its name in small letters with
-- underscores, a struct its name and fields.
-- - Container.Ring: container/ringbuffer/ringbuffer.go. `RingBuffer` is the struct; every method is
--   a function of the buffer. The zero value of the element type is an argument.
-- - Container.Xchan: container/cqueue/xchan.go. The worker goroutine, its producer and its context
--   are a sequence of events; a step of the worker names the case of `select` that fires.
-- - Container.Queue: container/cqueue/queue.go and Search of utils/xslices/xslices.go. Each method is one
--   step under the mutex. The capacity of the slice is kept; how `append` grows one is the parameter
--   `Growth`, and the recycler is any function. Queue.Waiters adds the condition variable: how many
--   goroutines sleep in WaitPop, and how many are awake.
-- - Container.CMap: container/cmap/cmap.go over an association list with one entry for a key.
-- - Container.Sharded: container/cmap/sharded.go over the maps of CMap; the hash is a field of the map,
--   and a negative index is `none`.
-- - Container.Heap: the items of container/cqueue/priority_queue.go with the methods of heap.Interface, and
--   Push and Pop of Go's container/heap on them. Its two loops take fuel, the number of items, with which
--   they are proved to return; an index out of range is `none`.
-- - Container.Priority: the queue of container/cqueue/priority_queue.go, each method one step.
-- - Container.Memo: container/memo.go over Container.Sharded; a tick of its goroutine is `clean`.
-- - Frame: frame/frame.go, frame/loop.go, frame/message.go, frame/processor.go. The loop's state with
--   every method; the calls of the processor are a list of effects; a panic is `none`.
-- - Frame.Normal: frame/normal.go. The goroutines of Start and of Stop and the select of Write are steps,
--   each ready, not ready, or a panic.
-- - Frame.Manager: frame/manager.go over Container.CMap. A loop is a number, and the calls of its Start and
--   Stop are lists.
-- - Network.Bytes, Network.Code: network/processor.go, with encoding/binary on lists of bytes.
-- - Network.Parser: network/tcp/message.go, with io.ReadFull on a list of bytes.
-- - Network.Conn: network/tcp/conn.go. The connection with its queue, and the goroutine that writes it out,
--   as steps; the network's answers are part of the steps. It uses the parser.
-- - Network.Protobuf: network/protobuf/protobuf.go, with the encoding of the messages a parameter.
-- - Room: room/room.go. Join takes the lock twice, so it is two steps. The processor is the answers it
--   gives; its calls and those of the loop are effects.
-- - EventBus: eventbus/eventbus.go. The channels and queues that the bus makes stand in lists, and the
--   handlers are indexes in them; the queues are those of Container.Queue. A method and a round of a
--   subscriber's goroutine are steps; a send on a closed channel, or closing it again, is `none`.
--   EventBus.Subject: eventbus/observer.go.
-- - Random: algo/random/weight.go, for weights of an unsigned type, and SlicesRandom of
--   algo/random/random.go. The numbers drawn are arguments. sort.Search has fuel, one more than there are
--   indexes, with which it is proved to return.
-- - Timer: timer/cronexpr.go. Timer.Text has what it uses of strings and strconv, on lists of characters;
--   Timer.Word the shifts of uint64; Timer.Cron the parser of expressions; Timer.Clock a date and a clock
--   time, in a location with one offset of whole hours; Timer.Next the search for the next time, a step
--   for each test of its loops. Timer.Dispatcher: timer/timer.go, the goroutines as steps, each ready, not
--   ready, or a panic; the two reads of a callback by exec are two steps; Timer.Job and Timer.JobStop: its cron jobs.
-- - Player: player/player.go, player/manager.go and the registration of player/heartbeat.go. Players and
--   heartbeats are references into a store; the sharded maps stand by their entries; calls of agents are
--   listed.
-- - Base holds what they share: lists, maps and integers.
--
-- Numbers: `int` is ℕ where the code keeps it from being negative and ℤ elsewhere; the frame number
-- wraps at 2^64, and the lengths of the parser at 2^32; a field's mask and the counter over a range's
-- increments are words of 64 bits. Fuel is used by the heap's loops and sort.Search, as said above; by Next, with more steps than there are phases and
-- times up to the end of the year after the next, with which it is proved to return; and by the loop over
-- a range's increments, with 128 rounds, more than any range below 60 takes. All else is structural
-- recursion, and the goroutines that never end are sequences of events of any length.
--
-- Not modelled: the servers and the other connections (network/tcp, network/ws, network/xkcp,
-- network/unix, gnetx), which drive sockets through libraries; the clients of brokers (xnats, zeromq);
-- logging and metrics (xlog, metrics, prometheus); the JSON and flatbuffers processors; the
-- heartbeat's goroutine; the rooms' manager, the locked slice, RangeRandom and the module list, which stand beside the parts above. Scheduling inside a lock, memory
-- and the garbage collector are not modelled either.
pub mod Base
pub mod Container
pub mod Frame
pub mod Network
pub mod Room
pub mod EventBus
pub mod Random
pub mod Timer
pub mod Player
