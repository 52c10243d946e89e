-- ===== src/Container/Xchan/Complete.antt =====
-- What is left behind when the worker of an Xchan returns, and that its drain comes to an end.
use mathlib.Core.List.{append_assoc, append-nil}
use czx.Base.{
  ℕ, zero, suc, ◌≡◌, refl, sym, ap, ◌∙◌, true, false, List, [], ◌∷◌, ◌++◌, Option, some, arith,
  Option-cases, inl, inr, OnSome, OnSome-if, OnSome-some, if_cases, List-cases, length, replicate,
}
use czx.Base.Int.{ℤ}
use czx.Container.Ring
use czx.Container.Ring.Inv.{IsValid}
use czx.Container.Ring.Refine.{contents, contents-reset}
use czx.Container.Xchan.Buffer.{empty-contents, peek-ne-none, pop-IsValid, buffer_cases}
use czx.Container.Xchan.Order.{InOrder, pending, step-InOrder, delivers_in_order, new-InOrder}
use czx.Container.Xchan.{
  Mode, running, draining, stopped, Xchan, Select, ctx_done, receive, send, Event, produce,
  close_in, work, new_xchan, give, idle_step, settle, busy_step, main_step, drain_round, drain_step,
  worker, step, run,
}

module _ {ℓ} {T : Type ℓ} (z : T) where
  -- What is known of the channels when the worker has left its main loop.
  abbrev pub Ended : Mode → Xchan T → Type ℓ
  Ended running x = Unit
  Ended draining x = (x.in_closed ≡ true) × (x.input ≡ [])
  Ended stopped x = x.cancelled ≡ false → (x.in_closed ≡ true) × (pending z x ≡ [])

  abbrev After : Option (Xchan T) → Type ℓ
  After = OnSome (λ y. Ended y.mode y)

  idle_step-Ended :
      (x : Xchan T) (c : Select)
      → IsValid x.buffer
      → x.mode ≡ running
      → Ring.is_empty z x.buffer ≡ true
      → After (idle_step z x c)
  unfolding idle_step
  idle_step-Ended x ctx_done v m e = λ k. absurd (cc)
  idle_step-Ended x (receive out_ready) v m e = elim (List-cases x.input) [
    | inl nil ↦
        rw (nil, idle_step)
          (OnSome-if (λ y. Ended y.mode y) x.in_closed _ _
            (λ closed _. (closed, rw (empty-contents z x.buffer v e) nil)) (λ _. tt))
    | inr (w, rest, front) ↦
        rw (front, idle_step)
          (OnSome-if (λ y. Ended y.mode y) out_ready _ _ (λ _. rw m tt) (λ _. rw m tt))
  ]
  idle_step-Ended x send v m e = tt

  settle-mode : (x : Xchan T) → (settle z x).mode ≡ x.mode
  unfolding settle
  settle-mode x = if_cases (λ (y : Xchan T). y.mode ≡ x.mode) _ _ _ (λ _. refl) (λ _. refl)

  busy_step-Ended :
      (x : Xchan T) (v : T) (c : Select) → x.mode ≡ running → After (busy_step z x v c)
  unfolding busy_step
  busy_step-Ended x v ctx_done m = λ k. absurd (cc)
  busy_step-Ended x v (receive out_ready) m = elim (List-cases x.input) [
    | inl nil ↦
        rw (nil, busy_step)
          (OnSome-if (λ y. Ended y.mode y) x.in_closed _ _ (λ closed. (closed, nil)) (λ _. tt))
    | inr (w, rest, front) ↦ rw (front, busy_step) (rw m tt)
  ]
  busy_step-Ended x v send m = rw (settle-mode (give z x v), m) tt

  main_step-Ended :
      (x : Xchan T) (c : Select) → IsValid x.buffer → x.mode ≡ running → After (main_step z x c)
  unfolding main_step
  main_step-Ended x c v m =
      OnSome-if (λ y. Ended y.mode y) (Ring.is_empty z x.buffer) _ _ (idle_step-Ended x c v m)
        λ _. elim (Option-cases (Ring.peek z x.buffer)) [
          | inl e ↦ rw (e, main_step) (rw m tt)
          | inr (w, e) ↦ rw (e, main_step) (busy_step-Ended x w c m)
        ]

  drain_round-Ended :
      (x : Xchan T) (v : T) (c : Select)
      → x.mode ≡ draining
      → Ended draining x
      → After (drain_round z x v c)
  unfolding drain_round
  drain_round-Ended x v ctx_done m h = λ k. absurd (cc)
  drain_round-Ended x v (receive out_ready) m h = tt
  drain_round-Ended x v send m h = rw m h

  drain_step-Ended :
      (x : Xchan T) (c : Select) → x.mode ≡ draining → Ended draining x → After (drain_step z x c)
  unfolding drain_step
  drain_step-Ended x c m h =
      OnSome-if (λ y. Ended y.mode y) (Ring.is_empty z x.buffer) _ _
        (λ e _. (h.0, rw (contents-reset z x.buffer) h.1))
        λ more. elim (Option-cases (Ring.peek z x.buffer)) [
          | inl e ↦ absurd (peek-ne-none z x.buffer more e)
          | inr (w, e) ↦ rw (e, drain_step) (drain_round-Ended x w c m h)
        ]

  worker-Ended :
      (m : Mode) (x : Xchan T) (c : Select)
      → IsValid x.buffer
      → x.mode ≡ m
      → Ended m x
      → After (worker z m x c)
  unfolding worker
  worker-Ended running x c v e h = main_step-Ended x c v e
  worker-Ended draining x c v e h = drain_step-Ended x c e h
  worker-Ended stopped x c v e h = tt

  -- Producers act only while `in` is open.
  produce-Ended :
      (m : Mode) (x y : Xchan T)
      → Ended m x
      → x.in_closed ≡ false
      → y.cancelled ≡ x.cancelled
      → Ended m y
  produce-Ended running x y h e same = tt
  produce-Ended draining x y h e same = absurd (cc (h.0))
  produce-Ended stopped x y h e same = λ k. absurd (cc ((h (sym same ∙ k)).0))

  step-Ended : (x : Xchan T) (e : Event T) → IsValid x.buffer → Ended x.mode x → After (step z x e)
  unfolding step
  step-Ended x (produce v) k h =
      OnSome-if (λ y. Ended y.mode y) x.in_closed _ _ (λ _. tt)
        (λ open_. produce-Ended x.mode x _ h open_ refl)
  step-Ended x close_in k h =
      OnSome-if (λ y. Ended y.mode y) x.in_closed _ _ (λ _. tt)
        (λ open_. produce-Ended x.mode x _ h open_ refl)
  step-Ended x (work c) k h = worker-Ended x.mode x c k refl h

  run-Ended :
      (es : List (Event T)) (x : Xchan T) → InOrder z x → Ended x.mode x → After (run z x es)
  unfolding run
  run-Ended [] x v h = h
  run-Ended (e ∷ es) x v h = elim (Option-cases (step z x e)) [
    | inl stuck ↦ rw (stuck, run) tt
    | inr (y, s) ↦
        let v' = OnSome-some (InOrder z) (step z x e) (step-InOrder z x e v) s in
        let h' = OnSome-some (λ y. Ended y.mode y) (step z x e) (step-Ended x e v.valid h) s in
        rw (s, run) (run-Ended es y v' h')
  ]

  -- When the worker has returned and the context was not cancelled, everything that was sent has
  -- been given out.
  pub delivers_everything :
      (bufsize : ℤ) (es : List (Event T)) {y : Xchan T}
      → run z (new_xchan z bufsize) es ≡ some y
      → y.mode ≡ stopped
      → y.cancelled ≡ false
      → y.out ≡ y.sent
  delivers_everything bufsize es {y} e m k =
      let start = new_xchan z bufsize in
      let h =
        OnSome-some (λ y. Ended y.mode y) _
          (run-Ended es start (new-InOrder z bufsize) (unfold new_xchan in tt)) e in
      let left : pending z y ≡ [] = (rw m at h k).1 in
      sym (delivers_in_order z bufsize es e ∙ rw left (append-nil y.out))

  drain_empty :
      (x : Xchan T)
      → x.mode ≡ draining
      → Ring.is_empty z x.buffer ≡ true
      → step z x (work send) ≡ some (record x { buffer = Ring.reset z x.buffer; mode = stopped })
  unfolding step worker drain_step
  drain_empty x m e = rw (m, worker, e)

  drain_some :
      (x : Xchan T) (v : T)
      → x.mode ≡ draining
      → Ring.is_empty z x.buffer ≡ false
      → Ring.peek z x.buffer ≡ some v
      → step z x (work send) ≡ some (give z x v)
  unfolding step worker drain_step drain_round
  drain_some x v m e p = rw (m, worker, e, p, drain_step)

  run-step :
      (x y : Xchan T) (e : Event T) (es : List (Event T))
      → step z x e ≡ some y
      → run z x (e ∷ es) ≡ run z y es
  unfolding run
  run-step x y e es s = rw (s, run)

  -- From a drain with `n` values left, `n` sends and one more round end the worker, with all of
  -- them given out in order.
  pub drain_ends :
      (n : ℕ) (x : Xchan T)
      → IsValid x.buffer
      → x.mode ≡ draining
      → length (contents z x.buffer) ≡ n
      → (y : Xchan T) × (run z x (replicate (suc n) (work send)) ≡ some y)
        × (y.mode ≡ stopped)
        × (y.out ≡ x.out ++ contents z x.buffer)
  drain_ends zero x v m l = elim (buffer_cases z x.buffer v) [
    | inl (e, nil) ↦
        let y : Xchan T = record x { buffer = Ring.reset z x.buffer; mode = stopped } in
        (y, run-step x y _ [] (drain_empty x m e) ∙ unfold run in refl, refl, rw (nil, append-nil))
    | inr (w, e, p, c) ↦ absurd (omega (arith, ap length c))
  ]
  drain_ends (suc n) x v m l = elim (buffer_cases z x.buffer v) [
    | inl (e, nil) ↦ absurd (omega (arith, ap length nil))
    | inr (w, e, p, c) ↦
        let x' = give z x w in
        let (y, ran, ended, all) =
          drain_ends n x' (pop-IsValid z x.buffer v) m (omega (arith, ap length c)) in
        (
          y,
          run-step x x' _ _ (drain_some x w m e p) ∙ ran,
          ended,
          all ∙ rw c (append_assoc x.out (w ∷ []) _),
        )
  ]
