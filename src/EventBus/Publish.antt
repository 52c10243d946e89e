-- ===== src/EventBus/Publish.antt =====
-- eventbus/eventbus.go: Publish, and Unsubscribe of an event.
use Prim.Native.String.{String}
use mathlib.Core.Path.{subst}
use czx.Base.{
  string_eq, ℕ, ◌≡◌, refl, ap, sym, ◌∙◌, List, [], none, some, ◌==◌, length, beq_refl, Option-cases,
  Bool-cases, inl, inr,
}
use czx.Base.Dict.{lookup}
use czx.EventBus.{
  Chan, EventBus, ◌>>=◌, ids_of, handlers, holds, unsubscribe_queues, without_event,
  unsubscribe_from, unsubscribe, publish,
}
use czx.EventBus.Chans.{AllOpen, Closed, Sent, close_all-Closed, send_all-Sent}
use czx.EventBus.Handlers.{handlers-erase_same}
use czx.EventBus.Registry.{IsRegistry, registered-AllOpen, erase-IsRegistry}

module _ {A : Type 0} where
  -- Each registered channel is open, stands once among its event's handlers, and at no other event.
  abbrev pub IsSubscribed : EventBus A → Type 0
  IsSubscribed eb = IsRegistry eb.chan_handlers eb.chans

  pub publish-Sent :
      (eb : EventBus A) (event : String) (x : A)
      → IsSubscribed eb
      → (cs : List (Chan A)) × (publish eb event x ≡ some (record eb { chans = cs }))
        × Sent eb.capacity x (handlers event eb.chan_handlers) eb.chans cs
  unfolding publish
  publish-Sent eb event x r =
      let (cs, ran, s) =
        send_all-Sent eb.capacity x (handlers event eb.chan_handlers) eb.chans
          (registered-AllOpen eb.chan_handlers eb.chans event r) in
      (cs, ap (λ t. t >>= λ cs. some (record eb { chans = cs })) ran, s)

  queues_kept :
      (eb : EventBus A) (event : String)
      → ((unsubscribe_queues eb event).chan_handlers ≡ eb.chan_handlers)
        × ((unsubscribe_queues eb event).chans ≡ eb.chans)
  unfolding unsubscribe_queues
  queues_kept eb event = elim (Bool-cases (length (handlers event eb.queue_handlers) == 0)) [
    | inl e ↦ rw e (refl, refl)
    | inr e ↦ rw e (refl, refl)
  ]

  -- What Unsubscribe makes of the channels and of their handlers.
  pub record Unsubscribed (eb : EventBus A) (event : String) (eb' : EventBus A) : Type 0 where
    pub closed : Closed (handlers event eb.chan_handlers) eb.chans eb'.chans
    pub no_handlers : handlers event eb'.chan_handlers ≡ []
    pub valid : IsSubscribed eb'

  no_event :
      (eb : EventBus A) (event : String)
      → lookup event eb.chan_handlers ≡ none
      → handlers event eb.chan_handlers ≡ []
  unfolding handlers
  no_event eb event e = ap ids_of e

  pub an_event :
      (eb : EventBus A) (event : String) (ids : List ℕ)
      → lookup event eb.chan_handlers ≡ some ids
      → handlers event eb.chan_handlers ≡ ids
  unfolding handlers
  an_event eb event ids e = ap ids_of e

  Closed-nil : (cs : List (Chan A)) → Closed [] cs cs
  unfolding holds
  Closed-nil cs = record { size = refl; opens = λ j. refl; buffers = λ j. refl }

  -- On such a bus Unsubscribe returns: the event has no channels left, those it had are closed, and the
  -- other channels and what stands in all of them are as they were.
  pub unsubscribe-Unsubscribed :
      (eb : EventBus A) (event : String)
      → IsSubscribed eb
      → (eb' : EventBus A) × (unsubscribe eb event ≡ some eb') × Unsubscribed eb event eb'
  unfolding unsubscribe unsubscribe_from
  unsubscribe-Unsubscribed eb event r = elim (Option-cases (lookup event eb.chan_handlers)) [
    | inl e ↦
        let (hs, cs) = queues_kept eb event in
        let gone = no_event eb event e in
        (
          unsubscribe_queues eb event,
          ap (unsubscribe_from eb event) e,
          record {
            closed =
                subst (λ t. Closed t eb.chans ((unsubscribe_queues eb event).chans)) (sym gone)
                  (subst (Closed [] eb.chans) (sym cs) (Closed-nil eb.chans));
            no_handlers = ap (handlers event) hs ∙ gone;
            valid = rw (hs, cs) r;
          },
        )
    | inr (ids, e) ↦
        let now = an_event eb event ids e in
        let (cs', ran, c) = close_all-Closed ids eb.chans (
          subst (λ t. AllOpen t eb.chans) now
            (registered-AllOpen eb.chan_handlers eb.chans event r)) in
        let eb1 = without_event event eb cs' in
        let (hs, cs) = queues_kept eb1 event in
        let c' = subst (λ t. Closed t eb.chans cs') (sym now) c in
        (
          unsubscribe_queues eb1 event,
          ap (unsubscribe_from eb event) e
              ∙ ap (λ t. t >>= λ cs. some (unsubscribe_queues (without_event event eb cs) event))
                  ran,
          record {
            closed = subst (Closed (handlers event eb.chan_handlers) eb.chans) (sym cs) c';
            no_handlers =
                ap (handlers event) hs
                ∙ handlers-erase_same event event eb.chan_handlers (beq_refl event);
            valid = rw (hs, cs) (erase-IsRegistry eb.chan_handlers eb.chans cs' event r c');
          },
        )
  ]
