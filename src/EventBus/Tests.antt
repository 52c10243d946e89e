-- ===== src/EventBus/Tests.antt =====
-- A bus of numbers with channels of one place.
use Prim.Native.Nat.{max}
use czx.Base.{ℕ, ◌*◌, ◌≡◌, List, [], ◌∷◌, some, arith, ◌==◌}
use czx.Container.Queue.{Growth}
use czx.EventBus.{EventBus, once, filtered, new_event_bus, unsubscribe, subscribe_on_channel}
use czx.EventBus.Publish.{IsSubscribed, Unsubscribed, unsubscribe-Unsubscribed}
use czx.EventBus.Calls.{
  Call, subscribes, queue_subscribes, unsubscribes, unsubscribes_channel, unsubscribes_queue,
  publishes, queue_publishes, rounds, run_from, bus_calls-IsSubscribed, new-IsSubscribed,
  subscribe-IsSubscribed,
}

abbrev doubling : Growth
doubling = record {
  next_cap = λ old needed. max (old * 2) needed;
  needed-le = λ old needed. omega arith;
}

abbrev start : EventBus ℕ
start = new_event_bus 1 "channel"

abbrev calls : List (Call ℕ)
calls =
    subscribes "join"
    ∷ subscribes "join"
    ∷ subscribes "leave"
    ∷ queue_subscribes "join"
    ∷ publishes "join" 4
    ∷ publishes "join" 5
    ∷ queue_publishes "join" 5
    ∷ rounds "join" 0 once
    ∷ rounds "join" 1 (filtered (λ n. n == 9))
    ∷ unsubscribes_channel "join" 0
    ∷ publishes "join" 6
    ∷ unsubscribes "join"
    ∷ unsubscribes_channel "join" 1
    ∷ publishes "leave" 7
    ∷ unsubscribes_queue "join" 0
    ∷ []

bus_calls-IsSubscribed_example :
    (eb : EventBus ℕ) × (run_from doubling (some start) calls ≡ some eb) × IsSubscribed eb
bus_calls-IsSubscribed_example =
    bus_calls-IsSubscribed doubling calls start (new-IsSubscribed 1 "channel")

abbrev two : EventBus ℕ
two = (subscribe_on_channel ((subscribe_on_channel start "join").1) "join").1

two-IsSubscribed : IsSubscribed two
two-IsSubscribed =
    subscribe-IsSubscribed ((subscribe_on_channel start "join").1) "join"
      (subscribe-IsSubscribed start "join" (new-IsSubscribed 1 "channel"))

unsubscribe-Unsubscribed_example :
    (eb : EventBus ℕ) × (unsubscribe two "join" ≡ some eb) × Unsubscribed two "join" eb
unsubscribe-Unsubscribed_example = unsubscribe-Unsubscribed two "join" two-IsSubscribed
