-- ===== src/Container/Xchan/Order.antt =====
-- Xchan delivers in order, and all of it unless the context is cancelled.
use mathlib.Core.List.{append_assoc}
use czx.Base.{
  ◌≡◌, ap, ◌∙◌, true, List, [], ◌∷◌, ◌++◌, some, Option-cases, inl, inr, OnSome, OnSome-if,
  OnSome-some, if_cases, &&_left, List-cases,
}
use czx.Base.Int.{ℤ}
use czx.Container.Ring
use czx.Container.Ring.Inv.{IsValid, write-IsValid, reset-IsValid, new-IsValid}
use czx.Container.Ring.Refine.{contents, contents-write, contents-reset, contents-new}
use czx.Container.Xchan.Buffer.{empty-contents, peek-contents, pop-IsValid}
use czx.Container.Xchan.{
  Mode, running, draining, stopped, Xchan, Select, ctx_done, receive, send, Event, produce,
  close_in, work, new_xchan, give, idle_step, settle, busy_step, main_step, drain_round, drain_step,
  worker, step, run,
}

module _ {ℓ} {T : Type ℓ} (z : T) where
  -- What was sent and not yet given out, in order.
  abbrev pub pending : Xchan T → List T
  pending x = contents z x.buffer ++ x.input

  -- No value is lost, repeated or overtaken on its way.
  pub record InOrder (x : Xchan T) : Type ℓ where
    pub valid : IsValid x.buffer
    pub fifo : x.sent ≡ x.out ++ pending x

  -- A value goes from `in` straight to `out`, past an empty buffer.
  pass-InOrder :
      (x : Xchan T) (v : T) (rest : List T)
      → InOrder x
      → contents z x.buffer ≡ []
      → x.input ≡ v ∷ rest
      → InOrder (record x { input = rest; out = x.out ++ (v ∷ []) })
  pass-InOrder x v rest h c e = record {
    valid = h.valid;
    fifo = h.fifo ∙ rw (c, e) (simp append_assoc);
  }

  -- A value goes from `in` behind the buffer.
  store-InOrder :
      (x : Xchan T) (v : T) (rest : List T)
      → InOrder x
      → x.input ≡ v ∷ rest
      → InOrder (record x { input = rest; buffer = Ring.write z x.buffer v })
  store-InOrder x v rest h e = record {
    valid = write-IsValid z x.buffer v h.valid;
    fifo = h.fifo ∙ rw (contents-write z x.buffer v h.valid, e) (simp append_assoc);
  }

  -- A value goes from the front of the buffer to `out`.
  give-InOrder :
      (x : Xchan T) (v : T) → InOrder x → Ring.peek z x.buffer ≡ some v → InOrder (give z x v)
  give-InOrder x v h e = record {
    valid = pop-IsValid z x.buffer h.valid;
    fifo = h.fifo ∙ rw (peek-contents z x.buffer v h.valid e) (simp append_assoc);
  }

  clear-InOrder :
      (x : Xchan T)
      → InOrder x
      → Ring.is_empty z x.buffer ≡ true
      → InOrder (record x { buffer = Ring.reset z x.buffer })
  clear-InOrder x h e = record {
    valid = reset-IsValid z x.buffer h.valid;
    fifo = h.fifo ∙ rw (empty-contents z x.buffer h.valid e, contents-reset z x.buffer);
  }

  settle-InOrder : (x : Xchan T) → InOrder x → InOrder (settle z x)
  unfolding settle
  settle-InOrder x h = if_cases InOrder _ _ _ (λ e. clear-InOrder x h (&&_left _ _ e)) (λ _. h)

  idle_step-InOrder :
      (x : Xchan T) (c : Select)
      → InOrder x
      → Ring.is_empty z x.buffer ≡ true
      → OnSome InOrder (idle_step z x c)
  unfolding idle_step
  idle_step-InOrder x ctx_done h e = record { valid = h.valid; fifo = h.fifo }
  idle_step-InOrder x (receive out_ready) h e = elim (List-cases x.input) [
    | inl nil ↦
        rw (nil, idle_step)
          (OnSome-if InOrder x.in_closed _ _ (λ _. record { valid = h.valid; fifo = h.fifo })
            (λ _. tt))
    | inr (v, rest, front) ↦
        rw (front, idle_step)
          (OnSome-if InOrder out_ready _ _
            (λ _. pass-InOrder x v rest h (empty-contents z x.buffer h.valid e) front)
            (λ _. store-InOrder x v rest h front))
  ]
  idle_step-InOrder x send h e = tt

  busy_step-InOrder :
      (x : Xchan T) (v : T) (c : Select)
      → InOrder x
      → Ring.peek z x.buffer ≡ some v
      → OnSome InOrder (busy_step z x v c)
  unfolding busy_step
  busy_step-InOrder x v ctx_done h e = record { valid = h.valid; fifo = h.fifo }
  busy_step-InOrder x v (receive out_ready) h e = elim (List-cases x.input) [
    | inl nil ↦
        rw (nil, busy_step)
          (OnSome-if InOrder x.in_closed _ _ (λ _. record { valid = h.valid; fifo = h.fifo })
            (λ _. tt))
    | inr (w, rest, front) ↦ rw (front, busy_step) (store-InOrder x w rest h front)
  ]
  busy_step-InOrder x v send h e = settle-InOrder (give z x v) (give-InOrder x v h e)

  main_step-InOrder : (x : Xchan T) (c : Select) → InOrder x → OnSome InOrder (main_step z x c)
  unfolding main_step
  main_step-InOrder x c h =
      OnSome-if InOrder (Ring.is_empty z x.buffer) _ _ (idle_step-InOrder x c h) λ _.
        elim (Option-cases (Ring.peek z x.buffer)) [
          | inl e ↦ rw (e, main_step) h
          | inr (v, e) ↦ rw (e, main_step) (busy_step-InOrder x v c h e)
        ]

  drain_round-InOrder :
      (x : Xchan T) (v : T) (c : Select)
      → InOrder x
      → Ring.peek z x.buffer ≡ some v
      → OnSome InOrder (drain_round z x v c)
  unfolding drain_round
  drain_round-InOrder x v ctx_done h e = record { valid = h.valid; fifo = h.fifo }
  drain_round-InOrder x v (receive out_ready) h e = tt
  drain_round-InOrder x v send h e = give-InOrder x v h e

  drain_step-InOrder : (x : Xchan T) (c : Select) → InOrder x → OnSome InOrder (drain_step z x c)
  unfolding drain_step
  drain_step-InOrder x c h =
      OnSome-if InOrder (Ring.is_empty z x.buffer) _ _
        (λ e. let k = clear-InOrder x h e in record { valid = k.valid; fifo = k.fifo })
        λ _. elim (Option-cases (Ring.peek z x.buffer)) [
          | inl e ↦ rw (e, drain_step) (record { valid = h.valid; fifo = h.fifo })
          | inr (v, e) ↦ rw (e, drain_step) (drain_round-InOrder x v c h e)
        ]

  worker-InOrder :
      (m : Mode) (x : Xchan T) (c : Select) → InOrder x → OnSome InOrder (worker z m x c)
  unfolding worker
  worker-InOrder running x c h = main_step-InOrder x c h
  worker-InOrder draining x c h = drain_step-InOrder x c h
  worker-InOrder stopped x c h = tt

  pub step-InOrder : (x : Xchan T) (e : Event T) → InOrder x → OnSome InOrder (step z x e)
  unfolding step
  step-InOrder x (produce v) h =
      OnSome-if InOrder x.in_closed _ _ (λ _. tt)
        λ _. record { valid = h.valid; fifo = ap (λ q. q ++ (v ∷ [])) h.fifo ∙ simp append_assoc }
  step-InOrder x close_in h =
      OnSome-if InOrder x.in_closed _ _ (λ _. tt) (λ _. record { valid = h.valid; fifo = h.fifo })
  step-InOrder x (work c) h = worker-InOrder x.mode x c h

  pub new-InOrder : (bufsize : ℤ) → InOrder (new_xchan z bufsize)
  unfolding new_xchan
  new-InOrder n = record { valid = new-IsValid z n; fifo = rw (contents-new z n) }

  pub run-InOrder : (es : List (Event T)) (x : Xchan T) → InOrder x → OnSome InOrder (run z x es)
  unfolding run
  run-InOrder [] x h = h
  run-InOrder (e ∷ es) x h = elim (Option-cases (step z x e)) [
    | inl stuck ↦ rw (stuck, run) tt
    | inr (y, s) ↦
        rw (s, run) (run-InOrder es y (OnSome-some InOrder (step z x e) (step-InOrder x e h) s))
  ]

  -- Whatever the schedule, the values given out are the values sent, in order, but for a tail: the
  -- contents of the buffer and then the input channel.
  pub delivers_in_order :
      (bufsize : ℤ) (es : List (Event T)) {y : Xchan T}
      → run z (new_xchan z bufsize) es ≡ some y
      → y.sent ≡ y.out ++ pending y
  delivers_in_order bufsize es e =
      (OnSome-some InOrder _ (run-InOrder es (new_xchan z bufsize) (new-InOrder bufsize)) e).fifo
