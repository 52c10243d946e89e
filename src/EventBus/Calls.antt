-- ===== src/EventBus/Calls.antt =====
-- eventbus/eventbus.go: UnsubscribeChannel, the rounds of the subscribers, and any sequence of calls.
use Prim.Native.String.{String}
use mathlib.Core.Path.{subst}
use czx.Base.{
  string_eq, ℕ, ◌≡◌, refl, ap, ◌∙◌, Bool, true, false, List, [], ◌∷◌, Option, none, some, arith,
  get_elem?, set, Option-cases, Bool-cases, List-cases, ◌⊎◌, inl, inr,
}
use czx.Base.Dict.{lookup, insert}
use czx.Container.Queue.{Growth}
use czx.EventBus.{
  Chan, EventBus, Received, waits, ended, gets, Kind, all, once, filtered, ◌>>=◌, handlers, holds,
  delete_first, drop_empty, take_from, receive_from, receive, new_event_bus, subscribe_on_channel,
  subscribe_on_queue, unsubscribe, without_chan, unsubscribe_channel_from, unsubscribe_channel,
  unsubscribe_queue_from, unsubscribe_queue, publish_with_queue, publish, called_with, round_on,
  round,
}
use czx.EventBus.Chans.{is_open, open_same, close_chan-Closed}
use czx.EventBus.Registry.{
  IsRegistry, delete-IsRegistry, drop_empty-IsRegistry, same-IsRegistry, register-IsRegistry,
}
use czx.EventBus.Publish.{IsSubscribed, publish-Sent, unsubscribe-Unsubscribed, an_event}

-- The calls on one bus; the subscribers' callbacks and channels are references to it.
pub data Call (A : Type 0) : Type 0 where
  subscribes queue_subscribes unsubscribes : String → Call A
  unsubscribes_channel unsubscribes_queue : String → ℕ → Call A
  publishes queue_publishes : String → A → Call A
  rounds : String → ℕ → Kind A → Call A

module _ {A : Type 0} where
  Returns : Option (EventBus A) → Type 0
  Returns o = (eb' : EventBus A) × (o ≡ some eb') × IsSubscribed eb'

  channel_from-Returns :
      (eb : EventBus A) (event : String) (ch : ℕ) (ids : List ℕ)
      → lookup event eb.chan_handlers ≡ some ids
      → IsSubscribed eb
      → Returns (unsubscribe_channel_from eb event ch (some ids))
  unfolding unsubscribe_channel_from Returns
  channel_from-Returns eb event ch ids e r =
      let now = an_event eb event ids e in
      elim (Bool-cases (holds ch ids)) [
        | inl here ↦
            let at : holds ch (handlers event eb.chan_handlers) ≡ true = ap (holds ch) now ∙ here in
            let (cs, ran, c) = close_chan-Closed ch eb.chans (r.opened event ch at) in
            let left = delete-IsRegistry eb.chan_handlers eb.chans cs event ch r at c in
            let m =
              insert event (delete_first ch (handlers event eb.chan_handlers)) eb.chan_handlers in
            (
              without_chan eb event (delete_first ch ids) cs,
              rw (here, ran) refl,
              subst
                  (λ t.
                    IsRegistry
                      (drop_empty event (insert event (delete_first ch t) eb.chan_handlers)) cs)
                  now (drop_empty-IsRegistry m cs event left),
            )
        | inr not_here ↦ (
          record eb { chan_handlers = drop_empty event eb.chan_handlers },
          rw not_here refl,
          drop_empty-IsRegistry eb.chan_handlers eb.chans event r,
        )
      ]

  channel-Returns :
      (eb : EventBus A) (event : String) (ch : ℕ)
      → IsSubscribed eb
      → Returns (unsubscribe_channel eb event ch)
  unfolding unsubscribe_channel unsubscribe_channel_from Returns
  channel-Returns eb event ch r = elim (Option-cases (lookup event eb.chan_handlers)) [
    | inl e ↦ (eb, ap (unsubscribe_channel_from eb event ch) e, r)
    | inr (ids, e) ↦
        let (eb', ran, v) = channel_from-Returns eb event ch ids e r in
        (eb', ap (unsubscribe_channel_from eb event ch) e ∙ ran, v)
  ]

  -- A receive leaves the channels open or closed as they were.
  Kept : List (Chan A) → Received A → Type 0
  Kept cs r =
      (r ≡ waits)
      ⊎ ((r ≡ ended)
          ⊎ ((x : A) × (cs' : List (Chan A)) × (r ≡ gets x cs')
              × ((j : ℕ) → is_open j cs' ≡ is_open j cs)))

  receive-Kept : (i : ℕ) (cs : List (Chan A)) → Kept cs (receive i cs)
  unfolding receive Kept
  receive-Kept i cs = elim (Option-cases (get_elem? cs i)) [
    | inl e ↦ inl (ap (receive_from cs i) e)
    | inr (c, e) ↦ elim (List-cases c.buffer) [
      | inl b ↦ elim (Bool-cases c.closed) [
        | inl k ↦ inr (inl (ap (receive_from cs i) e ∙ ap (take_from cs i c) b ∙ rw k refl))
        | inr k ↦ inl (ap (receive_from cs i) e ∙ ap (take_from cs i c) b ∙ rw k refl)
      ]
      | inr (x, rest, b) ↦
          let c' = record c { buffer = rest } in
          inr (
            inr (
              x,
              set cs i c',
              ap (receive_from cs i) e ∙ ap (take_from cs i c) b,
              λ j. open_same i j cs c c' e refl,
            ))
    ]
  ]

  abbrev bus_of : Option (List A × Bool × EventBus A) → Option (EventBus A)
  bus_of none = none
  bus_of (some (called, goes_on, eb)) = some eb

  pub step : Growth → EventBus A → Call A → Option (EventBus A)
  step g eb (subscribes event) = some ((subscribe_on_channel eb event).1)
  step g eb (queue_subscribes event) = some ((subscribe_on_queue eb event).1)
  step g eb (unsubscribes event) = unsubscribe eb event
  step g eb (unsubscribes_channel event ch) = unsubscribe_channel eb event ch
  step g eb (unsubscribes_queue event q) = some (unsubscribe_queue eb event q)
  step g eb (publishes event x) = publish eb event x
  step g eb (queue_publishes event x) = some (publish_with_queue g eb event x)
  step g eb (rounds event ch k) = bus_of (round eb event ch k)

  abbrev pub run_from : Growth → Option (EventBus A) → List (Call A) → Option (EventBus A)
  run_from g none cs = none
  run_from g (some eb) [] = some eb
  run_from g (some eb) (c ∷ cs) = run_from g (step g eb c) cs

  once_then :
      (eb : EventBus A) (event : String) (ch : ℕ) (called : List A)
      → IsSubscribed eb
      → Returns (bus_of (unsubscribe_channel eb event ch >>= λ eb'. some (called, false, eb')))
  unfolding Returns
  once_then eb event ch called r =
      let (eb', ran, v) = channel-Returns eb event ch r in
      (eb', ap (λ t. bus_of (t >>= λ eb'. some (called, false, eb'))) ran, v)

  ended-Returns :
      (eb : EventBus A) (event : String) (ch : ℕ) (k : Kind A)
      → IsSubscribed eb
      → Returns (bus_of (round_on eb event ch k ended))
  unfolding Returns round_on
  ended-Returns eb event ch all r = (eb, refl, r)
  ended-Returns eb event ch once r = unfold Returns in once_then eb event ch [] r
  ended-Returns eb event ch (filtered f) r = (eb, refl, r)

  gets-Returns :
      (eb : EventBus A) (event : String) (ch : ℕ) (k : Kind A) (x : A) (cs : List (Chan A))
      → IsRegistry eb.chan_handlers cs
      → Returns (bus_of (round_on eb event ch k (gets x cs)))
  unfolding Returns round_on
  gets-Returns eb event ch all x cs r = (record eb { chans = cs }, refl, r)
  gets-Returns eb event ch once x cs r =
      once_then (record eb { chans = cs }) event ch (called_with once x) r
  gets-Returns eb event ch (filtered f) x cs r = (record eb { chans = cs }, refl, r)

  round-Returns :
      (eb : EventBus A) (event : String) (ch : ℕ) (k : Kind A)
      → IsSubscribed eb
      → Returns (bus_of (round eb event ch k))
  unfolding Returns round Kept round_on
  round-Returns eb event ch k r = elim (receive-Kept ch eb.chans) [
    | inl e ↦ (eb, ap (λ t. bus_of (round_on eb event ch k t)) e, r)
    | inr (inl e) ↦
        let (eb', ran, v) = ended-Returns eb event ch k r in
        (eb', ap (λ t. bus_of (round_on eb event ch k t)) e ∙ ran, v)
    | inr (inr (x, cs, e, o)) ↦
        let (eb', ran, v) =
          gets-Returns eb event ch k x cs (same-IsRegistry eb.chan_handlers eb.chans cs o r) in
        (eb', ap (λ t. bus_of (round_on eb event ch k t)) e ∙ ran, v)
  ]

  queue-IsSubscribed :
      (eb : EventBus A) (event : String) (q : ℕ) (r : Option (List ℕ))
      → IsSubscribed eb
      → IsSubscribed (unsubscribe_queue_from eb event q r)
  unfolding unsubscribe_queue_from
  queue-IsSubscribed eb event q none r = r
  queue-IsSubscribed eb event q (some ids) r = r

  pub subscribe-IsSubscribed :
      (eb : EventBus A) (event : String)
      → IsSubscribed eb
      → IsSubscribed ((subscribe_on_channel eb event).1)
  unfolding subscribe_on_channel
  subscribe-IsSubscribed eb event r =
      register-IsRegistry eb.chan_handlers eb.chans (record { buffer = []; closed = false }) event
        refl r

  step-Returns :
      (g : Growth) (eb : EventBus A) (c : Call A) → IsSubscribed eb → Returns (step g eb c)
  unfolding Returns step subscribe_on_queue unsubscribe_queue publish_with_queue
  step-Returns g eb (subscribes event) r = (_, refl, subscribe-IsSubscribed eb event r)
  step-Returns g eb (queue_subscribes event) r = (_, refl, r)
  step-Returns g eb (unsubscribes event) r =
      let (eb', ran, u) = unsubscribe-Unsubscribed eb event r in (eb', ran, u.valid)
  step-Returns g eb (unsubscribes_channel event ch) r = channel-Returns eb event ch r
  step-Returns g eb (unsubscribes_queue event q) r =
      (_, refl, queue-IsSubscribed eb event q (lookup event eb.queue_handlers) r)
  step-Returns g eb (publishes event x) r =
      let (cs, ran, s) = publish-Sent eb event x r in
      (record eb { chans = cs }, ran, same-IsRegistry eb.chan_handlers eb.chans cs s.opens r)
  step-Returns g eb (queue_publishes event x) r = (_, refl, r)
  step-Returns g eb (rounds event ch k) r = round-Returns eb event ch k r

  -- From a bus whose registered channels are open, each at one event and once, any calls of its methods
  -- and rounds of its subscribers return, whatever channels they name, and leave such a bus: none of them
  -- sends on a closed channel or closes one a second time.
  pub bus_calls-IsSubscribed :
      (g : Growth) (cs : List (Call A)) (eb : EventBus A)
      → IsSubscribed eb
      → (eb' : EventBus A) × (run_from g (some eb) cs ≡ some eb') × IsSubscribed eb'
  unfolding Returns
  bus_calls-IsSubscribed g [] eb r = (eb, refl, r)
  bus_calls-IsSubscribed g (c ∷ cs) eb r =
      let (eb1, ran, r1) = step-Returns g eb c r in
      let (eb', rest, r') = bus_calls-IsSubscribed g cs eb1 r1 in
      (eb', ap (λ t. run_from g t cs) ran ∙ rest, r')

  pub new-IsSubscribed :
      (capacity : ℕ) (typ : String) → IsSubscribed (new_event_bus {A = A} capacity typ)
  unfolding new_event_bus handlers lookup holds
  new-IsSubscribed capacity typ = record {
    once = λ e. tt;
    opened = λ e i h. absurd (ground arith);
    one_event = λ e f i h k. absurd (ground arith);
  }
