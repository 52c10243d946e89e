-- ===== src/Frame/Normal/Batch.antt =====
-- frame/normal.go: what `exec` makes of the queue while no other goroutine takes a step.
use Prim.Native.Nat.{min}
use mathlib.Core.List.{append-nil, append_assoc}
use czx.Base.{
  steps, ℕ, zero, suc, ◌+◌, ◌≤◌, ◌≡◌, ◌⊎◌, inl, inr, refl, ap, sym, ◌∙◌, Bool, true, false, List,
  [], ◌∷◌, ◌++◌, arith, ltb, ◌==◌, if◌then◌else◌, length, take, drop, map, Bool-cases,
}
use czx.Base.Int.{ℤ, pos, negsuc, is_nonpos, to_nat}
use czx.Frame.Normal.{
  Normal, Call, process, Worker, selecting, executing, Stopper, running, waiting, draining, stopped,
  batch_done, exec_receive, exec_default, exec_full, Event, execs_receive, execs_default,
  execs_full, step, run_from,
}
use czx.Frame.Normal.Order.{IsSound, Phased, closings}

-- How many messages a batch takes of `len`.
abbrev pub batch_count : ℤ → ℕ → ℕ
batch_count batch len = if is_nonpos batch then len else min (to_nat batch) len

room_left :
    (j k : ℕ) (batch : ℤ)
    → ((is_nonpos batch ≡ true) ⊎ (j + suc k ≤ to_nat batch))
    → batch_done j batch ≡ false
room_left j k (pos n) (inl e) = ground arith
room_left j k (pos n) (inr h) = ground arith
room_left j k (negsuc n) r = refl

room_next :
    (j k : ℕ) (batch : ℤ)
    → ((is_nonpos batch ≡ true) ⊎ (j + suc k ≤ to_nat batch))
    → ((is_nonpos batch ≡ true) ⊎ (j + 1 + k ≤ to_nat batch))
room_next j k batch (inl e) = inl e
room_next j k batch (inr h) = inr (omega arith)

count_pos : (b len : ℕ) → batch_count (pos (suc b)) len ≡ min (suc b) len
count_pos b len = ground arith

count-le : (batch : ℤ) (len : ℕ) → batch_count batch len ≤ len
count-le (negsuc b) len = omega arith
count-le (pos zero) len = omega arith
count-le (pos (suc b)) len = let at = count_pos b len in omega arith

count_fits :
    (batch : ℤ) (len : ℕ) → (is_nonpos batch ≡ true) ⊎ (0 + batch_count batch len ≤ to_nat batch)
count_fits (negsuc b) len = inl refl
count_fits (pos zero) len = inl refl
count_fits (pos (suc b)) len = let at = count_pos b len in inr (omega arith)

full_at : (b k : ℕ) → k ≡ suc b → batch_done k (pos (suc b)) ≡ true
full_at b k h = ground arith

module _ {M : Type 0} where
  abbrev pub stands_at : Normal M → Worker → List M → List (Call M) → Normal M
  stands_at n w q cs = record n { worker = w; queue = q; calls = cs }

  abbrev pub times : ℕ → Event M → List (Event M) → List (Event M)
  times zero e es = es
  times (suc k) e es = e ∷ times k e es

  one_receive :
      (j : ℕ) (batch : ℤ) (m : M) (q : List M) (n : Normal M) (cs : List (Call M))
      → batch_done j batch ≡ false
      → exec_receive (executing j batch true) (stands_at n (executing j batch true) (m ∷ q) cs)
        ≡ steps (stands_at n (executing (j + 1) batch true) q (cs ++ (process m ∷ [])))
  unfolding exec_receive
  one_receive j batch m q n cs more = rw more refl

  -- `k` receives where the batch has room for them.
  receives :
      (k j : ℕ) (batch : ℤ) (q : List M) (n : Normal M) (cs : List (Call M)) (es : List (Event M))
      → k ≤ length q
      → ((is_nonpos batch ≡ true) ⊎ (j + k ≤ to_nat batch))
      → run_from (steps (stands_at n (executing j batch true) q cs)) (times k execs_receive es)
        ≡ run_from
            (steps (
              stands_at n (executing (j + k) batch true) (drop k q) (cs ++ map process (take k q))))
            es
  unfolding step exec_receive
  receives zero j batch q n cs es h r =
      ap (λ t. run_from (steps (stands_at n (executing t batch true) q cs)) es) (omega arith)
      ∙ ap (λ t. run_from (steps (stands_at n (executing (j + 0) batch true) q t)) es)
          (sym (append-nil cs))
  receives (suc k) j batch [] n cs es h r = absurd (omega arith)
  receives (suc k) j batch (m ∷ q) n cs es h r =
      let more : batch_done j batch ≡ false = room_left j k batch r in
      let at = λ (t : ℕ) (u : List (Call M)).
        run_from (steps (stands_at n (executing t batch true) (drop k q) u)) es in
      ap (λ t. run_from t (times k execs_receive es)) (one_receive j batch m q n cs more)
      ∙ (receives k (j + 1) batch q n (cs ++ (process m ∷ [])) es (omega arith)
            (room_next j k batch r)
          ∙ ap (λ t. at t (cs ++ (process m ∷ []) ++ map process (take k q))) (omega arith)
          ∙ ap (at (j + suc k)) (append_assoc cs (process m ∷ []) (map process (take k q))))

  -- The end of `exec` behind `k` messages.
  abbrev pub ending : ℕ → ℤ → Event M
  ending k batch = if batch_done k batch then execs_full else execs_default

  exec_ends :
      (n : Normal M) (k : ℕ) (batch : ℤ) (q : List M) (cs : List (Call M))
      → n.done ≡ false
      → n.queue_closed ≡ false
      → (batch_done k batch ≡ true) ⊎ (q ≡ [])
      → step (ending k batch) (stands_at n (executing k batch true) q cs)
        ≡ steps (stands_at n selecting q cs)
  unfolding step exec_full exec_default
  exec_ends n k batch q cs d c e = elim (Bool-cases (batch_done k batch)) [
    | inl full ↦ rw (full, step, full) refl
    | inr room ↦ elim e [
      | inl full ↦ absurd (ground arith)
      | inr empty ↦
          let short : (length q == 0) ≡ true = ground (arith, ap length empty) in
          rw (room, step, room, d, c, short) refl
    ]
  ]

  open_of :
      (s : Stopper) (done closed : Bool) (q : List M) (k : ℕ)
      → done ≡ false
      → Phased s done closed q k
      → closed ≡ false
  open_of running done closed q k d (e, c, z) = c
  open_of waiting done closed q k d (e, c, z) = c
  open_of draining done closed q k d (e, c, z) = absurd (ground arith)
  open_of stopped done closed q k d (e, c, z) = absurd (ground arith)

  drop_all : (k : ℕ) (q : List M) → length q ≤ k → drop k q ≡ []
  drop_all zero [] h = refl
  drop_all (suc k) [] h = refl
  drop_all zero (m ∷ q) h = absurd (omega arith)
  drop_all (suc k) (m ∷ q) h = drop_all k q (omega arith)

  count_over :
      (batch : ℤ) (q : List M)
      → (batch_done (batch_count batch (length q)) batch ≡ true)
        ⊎ (drop (batch_count batch (length q)) q ≡ [])
  count_over (negsuc b) q = inr (drop_all (length q) q (omega arith))
  count_over (pos zero) q = inr (drop_all (length q) q (omega arith))
  count_over (pos (suc b)) q =
      let at = count_pos b (length q) in
      elim (Bool-cases (ltb (length q) (suc b))) [
        | inl h ↦ inr (drop_all (batch_count (pos (suc b)) (length q)) q (ground arith))
        | inr h ↦ inl (full_at b (batch_count (pos (suc b)) (length q)) (ground arith))
      ]

  -- Where `exec` has begun with a processor, `done` is open and no other goroutine takes a step, its
  -- receives and its end are ready one after the other, and then it has handed the first messages of the
  -- queue to the processor, in order: as many as the batch size where that is positive, else all, and
  -- never more than there are. All else is kept.
  pub exec_batch :
      (n : Normal M) (batch : ℤ)
      → n.worker ≡ executing 0 batch true
      → n.done ≡ false
      → IsSound n
      → run_from (steps n) (
          times
            (batch_count batch (length n.queue))
            execs_receive
            (ending (batch_count batch (length n.queue)) batch ∷ []))
        ≡ steps (
            stands_at n selecting
              (drop (batch_count batch (length n.queue)) n.queue)
              (n.calls ++ map process (take (batch_count batch (length n.queue)) n.queue)))
  exec_batch n batch w d v =
      let q = n.queue in
      let k : ℕ = batch_count batch (length q) in
      let c = open_of n.stopper n.done n.queue_closed q (closings n.calls) d v.phased in
      let fits : (is_nonpos batch ≡ true) ⊎ (0 + k ≤ to_nat batch) = count_fits batch (length q) in
      let over : (batch_done k batch ≡ true) ⊎ (drop k q ≡ []) = count_over batch q in
      let last = exec_ends n k batch (drop k q) (n.calls ++ map process (take k q)) d c over in
      ap
        (λ t.
          run_from (steps (stands_at n t q n.calls)) (times k execs_receive (ending k batch ∷ [])))
        w
      ∙ receives k 0 batch q n n.calls (ending k batch ∷ []) (count-le batch (length q)) fits
      ∙ ap
          (λ t.
            run_from
              (steps (
                stands_at n (executing t batch true) (drop k q)
                  (n.calls ++ map process (take k q))))
              (ending k batch ∷ []))
          (omega arith)
      ∙ ap (λ t. run_from t []) last
