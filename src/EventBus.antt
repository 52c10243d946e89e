-- ===== src/EventBus.antt =====
-- eventbus/eventbus.go: the bus of events. The channels and the queues that the bus makes stand in two
-- lists, and an index in one is the reference to it; the handlers of an event are such references. Each
-- method holds the bus's mutex, so a call is one step; a round of a subscriber's goroutine is another.
-- `none` is a panic: a send on a closed channel, or a second close of one.
mod Tests
pub mod Chans
pub mod Handlers
pub mod Registry
pub mod Publish
pub mod Calls
pub mod Subject
use Prim.Native.String.{String}
use czx.Base.{
  ℕ, zero, suc, ◌+◌, Bool, true, false, not, List, [], ◌∷◌, ◌++◌, Option, none, some, ltb, ◌==◌,
  if◌then◌else◌, length, get_elem?, set, string_eq, Result, ok, err,
}
use czx.Base.Int.{ℤ, pos}
use czx.Base.Dict.{Dict, lookup, insert, erase}
use czx.Container.Queue.{Queue, Growth, Recycler, new_queue}
use czx.Container.Queue

pub record Chan (A : Type 0) : Type 0 where
  pub buffer : List A
  pub closed : Bool

-- make(chan any, capacity) panics where the capacity is negative; it is not negative here.
pub record EventBus (A : Type 0) : Type 0 where
  pub chan_handlers : Dict String (List ℕ)
  pub queue_handlers : Dict String (List ℕ)
  pub capacity : ℕ
  pub typ : String
  pub recycler : Option Recycler
  pub chans : List (Chan A)
  pub queues : List (Queue A)

-- What a receive finds.
pub data Received (A : Type 0) : Type 0 where
  waits ended : Received A
  gets : A → List (Chan A) → Received A

-- The goroutines that Subscribe, SubscribeOnce and SubscribeWithFilter start.
pub data Kind (A : Type 0) : Type 0 where
  all once : Kind A
  filtered : (A → Bool) → Kind A

infixl 5 ◌>>=◌
abbrev pub ◌>>=◌ {ℓ κ} : {A : Type ℓ} {B : Type κ} → Option A → (A → Option B) → Option B
none >>= f = none
some a >>= f = f a

-- `m[event]`, nil where there is none
abbrev pub ids_of : Option (List ℕ) → List ℕ
ids_of none = []
ids_of (some ids) = ids

pub handlers : String → Dict String (List ℕ) → List ℕ
handlers event m = ids_of (lookup event m)

-- `append(m[event], i)`
pub register : String → ℕ → Dict String (List ℕ) → Dict String (List ℕ)
register event i m = insert event (handlers event m ++ (i ∷ [])) m

-- Whether the loop finds `i`, and slices.Delete at the first place where it does.
unfoldable pub holds : ℕ → List ℕ → Bool
holds i [] = false
holds i (j ∷ ids) = if j == i then true else holds i ids

unfoldable pub delete_first : ℕ → List ℕ → List ℕ
delete_first i [] = []
delete_first i (j ∷ ids) = if j == i then ids else j ∷ delete_first i ids

-- The event goes where it has no handlers left.
pub drop_empty : String → Dict String (List ℕ) → Dict String (List ℕ)
drop_empty event m = if length (handlers event m) == 0 then erase event m else m

module _ {A : Type 0} where
  unfoldable pub close_chan : ℕ → List (Chan A) → Option (List (Chan A))
  close_chan i cs = get_elem? cs i >>= λ c.
      if c.closed then none else some (set cs i (record c { closed = true }))

  -- `case ch <- data`, or the default where the channel is full
  unfoldable pub send_chan : ℕ → A → ℕ → List (Chan A) → Option (List (Chan A))
  send_chan capacity x i cs = get_elem? cs i >>= λ c.
      if c.closed
      then none
      else if ltb (length c.buffer) capacity
      then some (set cs i (record c { buffer = c.buffer ++ (x ∷ []) }))
      else some cs

  unfoldable pub close_all : List ℕ → List (Chan A) → Option (List (Chan A))
  close_all [] cs = some cs
  close_all (i ∷ ids) cs = close_chan i cs >>= λ cs'. close_all ids cs'

  unfoldable pub send_all : ℕ → A → List ℕ → List (Chan A) → Option (List (Chan A))
  send_all capacity x [] cs = some cs
  send_all capacity x (i ∷ ids) cs =
      send_chan capacity x i cs >>= λ cs'. send_all capacity x ids cs'

  abbrev pub take_from : List (Chan A) → ℕ → Chan A → List A → Received A
  take_from cs i c [] = if c.closed then ended else waits
  take_from cs i c (x ∷ rest) = gets x (set cs i (record c { buffer = rest }))

  abbrev pub receive_from : List (Chan A) → ℕ → Option (Chan A) → Received A
  receive_from cs i none = waits
  receive_from cs i (some c) = take_from cs i c c.buffer

  -- `<-ch`
  pub receive : ℕ → List (Chan A) → Received A
  receive i cs = receive_from cs i (get_elem? cs i)

  pub new_event_bus : ℕ → String → EventBus A
  new_event_bus capacity typ = record {
    chan_handlers = [];
    queue_handlers = [];
    capacity = capacity;
    typ = typ;
    recycler = none;
    chans = [];
    queues = [];
  }

  pub with_recycler : EventBus A → Option Recycler → EventBus A
  with_recycler eb r = record eb { recycler = r }

  -- The channel that SubscribeOnChannel, Subscribe, SubscribeOnce and SubscribeWithFilter make.
  pub subscribe_on_channel : EventBus A → String → ℕ × EventBus A
  subscribe_on_channel eb event =
      let ch = length eb.chans in
      (
        ch,
        record eb {
          chan_handlers = register event ch eb.chan_handlers;
          chans = eb.chans ++ (record { buffer = []; closed = false } ∷ []);
        },
      )

  -- The queue that SubscribeOnQueue and QueueSubscribe make.
  pub subscribe_on_queue : EventBus A → String → ℕ × EventBus A
  subscribe_on_queue eb event =
      let q = length eb.queues in
      (
        q,
        record eb {
          queue_handlers = register event q eb.queue_handlers;
          queues =
              eb.queues ++ (record (new_queue (pos eb.capacity)) { recycler = eb.recycler } ∷ []);
        },
      )

  -- `queue.Clear()` and `queue.Close()`
  pub close_queue : ℕ → List (Queue A) → List (Queue A)
  close_queue i qs = elim (get_elem? qs i) [
    | none ↦ qs
    | some q ↦ set qs i (Queue.close (Queue.clear q))
  ]

  pub close_queues : List ℕ → List (Queue A) → List (Queue A)
  close_queues [] qs = qs
  close_queues (i ∷ ids) qs = close_queues ids (close_queue i qs)

  pub unsubscribe_queues : EventBus A → String → EventBus A
  unsubscribe_queues eb event =
      let ids = handlers event eb.queue_handlers in
      if length ids == 0 then eb else record eb {
        queue_handlers = erase event eb.queue_handlers;
        queues = close_queues ids eb.queues;
      }

  abbrev pub without_event : String → EventBus A → List (Chan A) → EventBus A
  without_event event eb cs = record eb { chan_handlers = erase event eb.chan_handlers; chans = cs }

  pub unsubscribe_from : EventBus A → String → Option (List ℕ) → Option (EventBus A)
  unsubscribe_from eb event none = some (unsubscribe_queues eb event)
  unsubscribe_from eb event (some ids) =
      close_all ids eb.chans >>= λ cs. some (unsubscribe_queues (without_event event eb cs) event)

  pub unsubscribe : EventBus A → String → Option (EventBus A)
  unsubscribe eb event = unsubscribe_from eb event (lookup event eb.chan_handlers)

  abbrev pub without_chan : EventBus A → String → List ℕ → List (Chan A) → EventBus A
  without_chan eb event ids cs = record eb {
    chan_handlers = drop_empty event (insert event ids eb.chan_handlers);
    chans = cs;
  }

  pub unsubscribe_channel_from : EventBus A → String → ℕ → Option (List ℕ) → Option (EventBus A)
  unsubscribe_channel_from eb event ch none = some eb
  unsubscribe_channel_from eb event ch (some ids) =
      let closed =
        close_chan ch eb.chans >>= λ cs. some (without_chan eb event (delete_first ch ids) cs) in
      if holds ch ids
      then closed
      else some (record eb { chan_handlers = drop_empty event eb.chan_handlers })

  pub unsubscribe_channel : EventBus A → String → ℕ → Option (EventBus A)
  unsubscribe_channel eb event ch =
      unsubscribe_channel_from eb event ch (lookup event eb.chan_handlers)

  pub unsubscribe_queue_from : EventBus A → String → ℕ → Option (List ℕ) → EventBus A
  unsubscribe_queue_from eb event q none = eb
  unsubscribe_queue_from eb event q (some ids) = record eb {
    queue_handlers = drop_empty event (insert event (delete_first q ids) eb.queue_handlers);
    queues = close_queue q eb.queues;
  }

  pub unsubscribe_queue : EventBus A → String → ℕ → EventBus A
  unsubscribe_queue eb event q = unsubscribe_queue_from eb event q (lookup event eb.queue_handlers)

  -- A subscriber's queue takes the message, or its error is logged.
  pub push_queue : Growth → A → ℕ → List (Queue A) → List (Queue A)
  push_queue g x i qs = elim (get_elem? qs i) [
    | none ↦ qs
    | some q ↦ elim (Queue.push g q (x ∷ [])) [ err e ↦ qs | ok q' ↦ set qs i q' ]
  ]

  pub push_queues : Growth → A → List ℕ → List (Queue A) → List (Queue A)
  push_queues g x [] qs = qs
  push_queues g x (i ∷ ids) qs = push_queues g x ids (push_queue g x i qs)

  pub publish_with_queue : Growth → EventBus A → String → A → EventBus A
  publish_with_queue g eb event x = record eb {
    queues = push_queues g x (handlers event eb.queue_handlers) eb.queues;
  }

  pub publish : EventBus A → String → A → Option (EventBus A)
  publish eb event x = send_all eb.capacity x (handlers event eb.chan_handlers) eb.chans >>= λ cs.
      some (record eb { chans = cs })

  -- The messages that the callback is called with for one that is received.
  pub called_with : Kind A → A → List A
  called_with all x = x ∷ []
  called_with once x = x ∷ []
  called_with (filtered f) x = if f x then x ∷ [] else []

  -- A round of a subscriber's goroutine: the calls of its callback, and whether it goes on.
  pub round_on : EventBus A → String → ℕ → Kind A → Received A → Option (List A × Bool × EventBus A)
  round_on eb event ch k waits = some ([], true, eb)
  round_on eb event ch once ended = unsubscribe_channel eb event ch >>= λ eb'. some ([], false, eb')
  round_on eb event ch once (gets x cs) =
      unsubscribe_channel (record eb { chans = cs }) event ch >>= λ eb'.
      some (called_with once x, false, eb')
  round_on eb event ch k ended = some ([], false, eb)
  round_on eb event ch k (gets x cs) = some (called_with k x, true, record eb { chans = cs })

  pub round : EventBus A → String → ℕ → Kind A → Option (List A × Bool × EventBus A)
  round eb event ch k = round_on eb event ch k (receive ch eb.chans)
