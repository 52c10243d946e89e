-- ===== src/Frame/Normal/Stop.antt =====
-- frame/normal.go: what the steps of Stop make of a loop.
use mathlib.Core.List.{append-nil, append_assoc}
use mathlib.Core.Path.{subst}
use czx.Base.{
  blocked, panics, steps, ℕ, ◌+◌, ◌≡◌, inl, inr, refl, ap, sym, ◌∙◌, Bool, true, List, [], ◌∷◌,
  ◌++◌, arith, if◌then◌else◌, length, map, Bool-cases,
}
use czx.Base.Int.{ℤ}
use czx.Frame.Normal.{
  Normal, Call, process, on_close, Worker, absent, selecting, executing, Stopper, running, waiting,
  draining, stopped, select_done, batch_done, exec_done, exec_full, write_send, write_done,
  write_default, stop_waits, drain, Event, sees_done, execs_done, execs_full, sends, finds_done,
  finds_full, stop_passes, drains, step, run_from,
}
use czx.Frame.Normal.Order.{IsSound, Phased, Flagged, closings, handled}
use czx.Frame.Normal.Batch.{times}

-- The steps by which the goroutine in Start returns where `done` is closed.
abbrev pub leaving : {M : Type 0} → Worker → List (Event M) → List (Event M)
leaving absent es = es
leaving selecting es = sees_done ∷ es
leaving (executing k batch proc) es =
    (if batch_done k batch then execs_full else execs_done) ∷ sees_done ∷ es

module _ {M : Type 0} where
  abbrev pub standing : Normal M → Worker → ℕ → Normal M
  standing n w flag = record n { worker = w; flag = flag }

  -- The steps of the goroutines in Start and in Stop, from where Stop waits for the former.
  abbrev pub stopping : Normal M → List (Event M)
  stopping n = leaving n.worker (stop_passes ∷ times (length n.queue) drains (drains ∷ []))

  leaves_select :
      (n : Normal M) (flag : ℕ)
      → n.done ≡ true
      → step sees_done (standing n selecting flag) ≡ steps (standing n absent 0)
  unfolding step select_done
  leaves_select n flag d = rw d refl

  leaves_exec :
      (n : Normal M) (k : ℕ) (batch : ℤ) (proc : Bool) (flag : ℕ)
      → n.done ≡ true
      → step
          (if batch_done k batch then execs_full else execs_done)
          (standing n (executing k batch proc) flag)
        ≡ steps (standing n selecting flag)
  unfolding step exec_full exec_done
  leaves_exec n k batch proc flag d = elim (Bool-cases (batch_done k batch)) [
    | inl e ↦ rw (e, step, e) refl
    | inr e ↦ rw (e, step, e, d) refl
  ]

  leaves :
      (w : Worker) (n : Normal M) (flag : ℕ) (es : List (Event M))
      → n.done ≡ true
      → Flagged w flag
      → run_from (steps (standing n w flag)) (leaving w es)
        ≡ run_from (steps (standing n absent 0)) es
  leaves absent n flag es d f = ap (λ t. run_from (steps (standing n absent t)) es) f
  leaves selecting n flag es d f = ap (λ t. run_from t es) (leaves_select n flag d)
  leaves (executing k batch proc) n flag es d f =
      ap (λ t. run_from t (sees_done ∷ es)) (leaves_exec n k batch proc flag d)
      ∙ ap (λ t. run_from t es) (leaves_select n flag d)

  abbrev drained : Normal M → Stopper → List M → List (Call M) → Normal M
  drained n s q cs = record n { queue_closed = true; stopper = s; queue = q; calls = cs }

  passes :
      (n : Normal M)
      → n.stopper ≡ waiting
      → n.worker ≡ absent
      → n.proc ≡ true
      → step stop_passes n ≡ steps (drained n draining n.queue n.calls)
  unfolding step stop_waits
  passes n s w p =
      ap (λ t. stop_waits t n.worker n) s
      ∙ ap (λ t. stop_waits waiting t n) w
      ∙ ap
          (λ t. steps (record n { queue_closed = true; stopper = if t then draining else stopped }))
          p

  drains_all :
      (q : List M) (n : Normal M) (cs : List (Call M))
      → run_from (steps (drained n draining q cs)) (times (length q) drains (drains ∷ []))
        ≡ steps (drained n stopped [] (cs ++ map process q ++ (on_close ∷ [])))
  unfolding step drain
  drains_all [] n cs =
      ap (λ t. steps (drained n stopped [] (t ++ (on_close ∷ [])))) (sym (append-nil cs))
  drains_all (m ∷ q) n cs =
      drains_all q n (cs ++ (process m ∷ []))
      ∙ ap (λ t. steps (drained n stopped [] (t ++ (on_close ∷ []))))
          (append_assoc cs (process m ∷ []) (map process q))

  handled-append : (a b : List (Call M)) → handled (a ++ b) ≡ handled a ++ handled b
  unfolding handled
  handled-append [] b = refl
  handled-append (process m ∷ a) b = ap (◌∷◌ m) (handled-append a b)
  handled-append (on_close ∷ a) b = handled-append a b

  handled-map : (q : List M) → handled (map process q) ≡ q
  unfolding handled
  handled-map [] = refl
  handled-map (m ∷ q) = ap (◌∷◌ m) (handled-map q)

  closings-append : (a b : List (Call M)) → closings (a ++ b) ≡ closings a + closings b
  unfolding closings
  closings-append [] b = omega arith
  closings-append (process m ∷ a) b = closings-append a b
  closings-append (on_close ∷ a) b = let rest = closings-append a b in omega arith

  closings-map : (q : List M) → closings (map process q) ≡ 0
  unfolding closings
  closings-map [] = refl
  closings-map (m ∷ q) = closings-map q

  -- What Stop leaves behind of the loop `n`.
  pub record Stopped (n n' : Normal M) : Type 0 where
    pub ended : (n'.stopper ≡ stopped) × (n'.worker ≡ absent)
    pub emptied : n'.queue ≡ []
    pub all_handled : handled n'.calls ≡ n.accepted
    pub closed_once : closings n'.calls ≡ 1

  end-Stopped :
      (n : Normal M)
      → IsSound n
      → closings n.calls ≡ 0
      → Stopped n (
          drained
            (standing n absent 0)
            stopped
            []
            (n.calls ++ map process n.queue ++ (on_close ∷ [])))
  unfolding handled closings
  end-Stopped n v z =
      let cs = n.calls ++ map process n.queue in
      let size = closings-append cs (on_close ∷ []) in
      let size' = closings-append n.calls (map process n.queue) in
      let none_in = closings-map n.queue in
      record {
        ended = (refl, refl);
        emptied = refl;
        all_handled =
            handled-append cs (on_close ∷ [])
            ∙ append-nil (handled cs)
            ∙ handled-append n.calls (map process n.queue)
            ∙ ap (◌++◌ (handled n.calls)) (handled-map n.queue)
            ∙ sym v.conserved;
        closed_once = omega arith;
      }

  -- Once Stop waits for the loop to return, a loop with a processor is never stuck, whatever it is at:
  -- the steps `stopping`, those by which the goroutine in Start returns included, are ready one after the
  -- other. At their end Start and Stop have returned, the processor was given every message that the
  -- queue ever took, in order, and was closed once.
  pub stop_ends :
      (n : Normal M)
      → IsSound n
      → n.stopper ≡ waiting
      → n.proc ≡ true
      → (n' : Normal M) × (run_from (steps n) (stopping n) ≡ steps n') × Stopped n n'
  stop_ends n v s p =
      let (d, c, z) =
        subst (λ t. Phased t n.done n.queue_closed n.queue (closings n.calls)) s v.phased in
      (
        drained (standing n absent 0) stopped []
            (n.calls ++ map process n.queue ++ (on_close ∷ [])),
        leaves n.worker n n.flag (stop_passes ∷ times (length n.queue) drains (drains ∷ [])) d
              v.flagged
            ∙ ap (λ t. run_from t (times (length n.queue) drains (drains ∷ [])))
                (passes (standing n absent 0) s refl p)
            ∙ drains_all n.queue (standing n absent 0) n.calls,
        end-Stopped n v z,
      )

  done_of :
      (s : Stopper) (done closed : Bool) (q : List M) (k : ℕ)
      → closed ≡ true
      → Phased s done closed q k
      → done ≡ true
  done_of running done closed q k d (e, c, z) = absurd (ground arith)
  done_of waiting done closed q k d (e, c, z) = e
  done_of draining done closed q k d (e, c, z) = e
  done_of stopped done closed q k d (e, c, z) = e

  -- Once Stop has closed the queue, two cases of the select in Write and in WriteTimeout are ready, and
  -- Write's default is not: the error of a closed loop, and the send, which panics.
  pub closed_write :
      (n : Normal M) (m : M)
      → IsSound n
      → n.queue_closed ≡ true
      → (step (sends m) n ≡ panics) × (step finds_done n ≡ steps n) × (step finds_full n ≡ blocked)
  unfolding step write_send write_done write_default
  closed_write n m v c =
      let d = done_of n.stopper n.done n.queue_closed n.queue (closings n.calls) c v.phased in
      (rw c refl, rw d refl, rw d refl)
