-- ===== src/Container/Queue/Waiters.antt =====
-- WaitPop with the condition variable of the queue: who sleeps, who is awake, and who wakes whom.
-- A goroutine in WaitPop is asleep in `q.cond.Wait()`, or awake and about to test the queue under the
-- lock. Push signals one sleeper, and only if it found the queue empty; Close wakes all.
use czx.Base.{
  ℕ, suc, ◌+◌, ◌-◌, ◌≤◌, ◌<◌, ◌≡◌, inl, inr, refl, ap, ◌∙◌, true, false, List, [], ◌∷◌, ◌++◌,
  Option, none, some, arith, ◌==◌, if◌then◌else◌, length, ok, err, OnSome, OnSome-if, List-cases,
  if_cases,
}
use czx.Base.Int.{is_nonpos}
use czx.Container.Queue.{
  Growth, Queue, refused, blocks, takes, shrink_if_asked, push, pop, wait_pop, clear, close,
}

pub record Waiters {ℓ} (T : Type ℓ) : Type ℓ where
  pub q : Queue T
  pub asleep : ℕ
  pub awake : ℕ

pub data Event {ℓ} (T : Type ℓ) : Type ℓ where
  -- a goroutine calls WaitPop; one that is awake takes its turn; the other methods
  enters turn pops clears closes : Event T
  pushes : List T → Event T

module _ {ℓ} {T : Type ℓ} (g : Growth) where
  -- `q.cond.Signal()`
  abbrev signal : Waiters T → Waiters T
  signal s = if s.asleep == 0 then s else record s { asleep = s.asleep - 1; awake = s.awake + 1 }

  abbrev with_queue : Waiters T → Queue T → Waiters T
  with_queue s q = record s { q = q }

  -- One round of the loop of WaitPop.
  pub take_turn : Waiters T → Waiters T
  take_turn s = elim (wait_pop s.q) [
    | refused ↦ record s { awake = s.awake - 1 }
    | blocks ↦ record s { awake = s.awake - 1; asleep = s.asleep + 1 }
    | takes v q' ↦ record s { q = q'; awake = s.awake - 1 }
  ]

  pub push_signal : Waiters T → List T → Waiters T
  push_signal s xs = elim (push g s.q xs) [
    | ok q' ↦ if length s.q.queue == 0 then signal (with_queue s q') else with_queue s q'
    | err e ↦ s
  ]

  pub step : Waiters T → Event T → Option (Waiters T)
  step s enters = some (record s { awake = s.awake + 1 })
  step s turn = if s.awake == 0 then none else some (take_turn s)
  step s pops = some (with_queue s (pop s.q).1)
  step s clears = some (with_queue s (clear s.q))
  step s closes =
      if s.q.closed
      then some s
      else some (record s { q = close s.q; asleep = 0; awake = s.awake + s.asleep })
  step s (pushes xs) = some (push_signal s xs)

  pub run : Waiters T → List (Event T) → Option (Waiters T)
  run s [] = some s
  run s (e ∷ es) = elim (step s e) [ none ↦ none | some s' ↦ run s' es ]

module _ {T : Type 0} (g : Growth) where
  -- A sleeper sleeps for a reason: the queue is open and empty.
  pub record Served (s : Waiters T) : Type 0 where
    pub reason : 0 < s.asleep → (s.q.closed ≡ false) × (length s.q.queue ≡ 0)

  queue-shrink :
      (q : Queue T)
      → ((shrink_if_asked q).queue ≡ q.queue) × ((shrink_if_asked q).closed ≡ q.closed)
  unfolding shrink_if_asked
  queue-shrink q = ground arith

  pop_keeps :
      (q : Queue T) → (length (pop q).1.queue ≤ length q.queue) × ((pop q).1.closed ≡ q.closed)
  unfolding pop
  pop_keeps q = elim (List-cases q.queue) [
    | inl e ↦ rw (e, pop) (omega arith, refl)
    | inr (x, rest, e) ↦
        let q' : Queue T = record q { queue = rest; cap = q.cap - 1 } in
        rw (e, pop)
          (if_cases
            (λ (r : Option T × Queue T).
              (length r.1.queue ≤ suc (length rest)) × (r.1.closed ≡ q.closed))
            (length rest == 0) _ _ (λ _. (omega arith, refl))
            (λ _. let k = queue-shrink q' in (omega (arith, ap length k.0), k.1)))
  ]

  -- WaitPop goes to sleep only on an open and empty queue.
  blocks_reason : (q : Queue T) → wait_pop q ≡ blocks → (q.closed ≡ false) × (length q.queue ≡ 0)
  unfolding wait_pop
  blocks_reason q e = ground arith

  take_turn-Served : (s : Waiters T) → s.asleep ≡ 0 → Served (take_turn g s)
  unfolding take_turn
  take_turn-Served s h = record { reason = λ p. ground (arith, blocks_reason s.q) }

  push_signal-Served :
      (s : Waiters T) (xs : List T) → s.asleep ≤ 1 → Served s → Served (push_signal g s xs)
  unfolding push_signal
  push_signal-Served s xs few v = record { reason = λ p. ground (arith, v.reason) }

  -- With at most one goroutine in WaitPop, asleep only on an open and empty queue, no step leaves it
  -- asleep beside an element or a closed queue.
  pub one_waiter-Served :
      (s : Waiters T) (e : Event T) → s.asleep + s.awake ≤ 1 → Served s → OnSome Served (step g s e)
  unfolding step
  one_waiter-Served s enters few v = record { reason = v.reason }
  one_waiter-Served s turn few v =
      OnSome-if Served (s.awake == 0) _ _ (λ _. tt) (λ more. take_turn-Served s (ground arith))
  one_waiter-Served s pops few v = record {
    reason = λ p.
        let (empty, open_) = (v.reason p) in
        let k = pop_keeps s.q in (k.1 ∙ empty, omega (arith, k.0));
  }
  one_waiter-Served s clears few v = record { reason = λ p. unfold clear in ((v.reason p).0, refl) }
  one_waiter-Served s closes few v =
      OnSome-if Served s.q.closed _ _ (λ _. v) (λ _. record { reason = λ p. absurd (omega arith) })
  one_waiter-Served s (pushes xs) few v = push_signal-Served s xs (omega arith) v

  -- A queue that takes any push, with given elements, sleepers and goroutines awake.
  pub record Stands (s : Waiters T) (xs : List T) (asleep awake : ℕ) : Type 0 where
    pub opened : s.q.closed ≡ false
    pub holds : s.q.queue ≡ xs
    pub roomy : is_nonpos s.q.max_capacity ≡ true
    pub sleepers : s.asleep ≡ asleep
    pub watchers : s.awake ≡ awake

  push-empty :
      (s : Waiters T) (xs : List T) (n k : ℕ)
      → Stands s [] (suc n) k
      → Stands (push_signal g s xs) xs n (k + 1)
  unfolding push_signal push
  push-empty s xs n k h = ground arith

  push-nonempty :
      (s : Waiters T) (v : T) (vs xs : List T) (n k : ℕ)
      → Stands s (v ∷ vs) n k
      → Stands (push_signal g s xs) (v ∷ (vs ++ xs)) n k
  unfolding push_signal push
  push-nonempty s v vs xs n k h = ground arith

  turn-nonempty :
      (s : Waiters T) (v w : T) (vs : List T) (n k : ℕ)
      → Stands s (v ∷ w ∷ vs) n (suc k)
      → Stands (take_turn g s) (w ∷ vs) n k
  unfolding take_turn wait_pop shrink_if_asked
  turn-nonempty s v w vs n k h = ground arith

  turn-step : (s : Waiters T) (k : ℕ) → s.awake ≡ suc k → step g s turn ≡ some (take_turn g s)
  unfolding step
  turn-step s k e =
      if_cases (λ (o : Option (Waiters T)). o ≡ some (take_turn g s)) (s.awake == 0) _ _
        (λ none_awake. absurd (ground arith)) (λ _. refl)

  run-turn :
      (s : Waiters T) (xs ys : List T) {t : Waiters T}
      → step g (push_signal g (push_signal g s xs) ys) turn ≡ some t
      → run g s (pushes xs ∷ pushes ys ∷ turn ∷ []) ≡ some t
  unfolding run step
  run-turn s xs ys e = ap finish e
    where
      finish : Option (Waiters T) → Option (Waiters T)
      finish o = elim o [ none ↦ none | some s' ↦ some s' ]

  -- Two or more goroutines asleep in WaitPop on an empty open queue without a bound, none awake, and
  -- two calls of Push before the goroutine that the first wakes takes its turn: that one takes the first
  -- element, all others are left asleep though the queue is open and holds the second, and none is awake.
  pub two_waiters_stranded :
      (s : Waiters T) (n : ℕ) (x y : T)
      → Stands s [] (suc (suc n)) 0
      → (t : Waiters T) × (run g s (pushes (x ∷ []) ∷ pushes (y ∷ []) ∷ turn ∷ []) ≡ some t)
        × Stands t (y ∷ []) (suc n) 0
  two_waiters_stranded s n x y h =
      let s1 = push_signal g s (x ∷ []) in
      let s2 = push_signal g s1 (y ∷ []) in
      let one = push-empty s (x ∷ []) (suc n) 0 h in
      let two = push-nonempty s1 x [] (y ∷ []) (suc n) (0 + 1) one in
      (
        take_turn g s2,
        run-turn s (x ∷ []) (y ∷ []) (turn-step s2 0 two.watchers),
        turn-nonempty s2 x y [] (suc n) 0 two,
      )
