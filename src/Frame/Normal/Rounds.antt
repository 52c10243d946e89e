-- ===== src/Frame/Normal/Rounds.antt =====
-- frame/normal.go: the rounds of the loop, of `exec` and of Write keep the loop's invariant.
use mathlib.Core.List.{append_assoc, cons≢nil}
use mathlib.Core.Path.{subst}
use czx.Base.{
  steps, ℕ, ◌+◌, ◌/◌, ◌<◌, ◌≡◌, inl, inr, refl, ap, sym, ◌∙◌, Bool, true, false, not, ◌||◌, List,
  [], ◌∷◌, ◌++◌, arith, ltb, ◌==◌, length, length-append,
}
use czx.Base.Int.{ℤ}
use czx.Frame.{flag_started, flag_paused, second}
use czx.Frame.Normal.{
  Normal, process, Worker, absent, selecting, executing, Stopper, running, waiting, draining,
  stopped, start, leave, select_ctx, select_done, select_tick, select_adjust, batch_done, exec_done,
  receive, exec_receive, exec_default, exec_full, write_send, stop_begins,
}
use czx.Frame.Normal.Order.{
  Flagged, handled, closings, Phased, IsSound, Kept, not_ready, fails, keeps, Kept-if,
  handled-process, closings-process, same_parts,
}

module _ {M : Type 0} where
  pub start-Kept : (n : Normal M) → IsSound n → Kept (start n)
  unfolding start
  start-Kept n v =
      Kept-if (not (n.flag == 0)) (λ h. keeps v)
        (λ h.
          Kept-if (not n.proc) (λ k. keeps v)
            (λ k.
              Kept-if (second / n.frequency == 0) (λ e. fails)
                (λ e. keeps (same_parts n selecting flag_started v (omega arith)))))

  pub leave-Kept : (n : Normal M) → IsSound n → Kept (steps (leave n))
  leave-Kept n v = keeps (same_parts n absent 0 v refl)

  pub select_ctx-Kept : (w : Worker) (n : Normal M) → IsSound n → Kept (select_ctx w n)
  unfolding select_ctx
  select_ctx-Kept absent n v = not_ready
  select_ctx-Kept (executing k batch proc) n v = not_ready
  select_ctx-Kept selecting n v = leave-Kept n v

  pub select_done-Kept : (w : Worker) (n : Normal M) → IsSound n → Kept (select_done w n)
  unfolding select_done
  select_done-Kept absent n v = not_ready
  select_done-Kept (executing k batch proc) n v = not_ready
  select_done-Kept selecting n v = Kept-if n.done (λ h. leave-Kept n v) (λ h. not_ready)

  pub select_tick-Kept :
      (w : Worker) (n : Normal M) → Flagged w n.flag → IsSound n → Kept (select_tick w n)
  unfolding select_tick
  select_tick-Kept absent n f v = not_ready
  select_tick-Kept (executing k batch proc) n f v = not_ready
  select_tick-Kept selecting n f v =
      Kept-if (n.flag == flag_paused) (λ h. keeps v)
        (λ h. keeps (same_parts n (executing 0 n.batch_size n.proc) n.flag v f))

  pub select_adjust-Kept : (w : Worker) (n : Normal M) → IsSound n → Kept (select_adjust w n)
  unfolding select_adjust
  select_adjust-Kept absent n v = not_ready
  select_adjust-Kept (executing k batch proc) n v = not_ready
  select_adjust-Kept selecting n v =
      Kept-if n.adjust
        (λ h.
          Kept-if (second / n.frequency == 0) (λ k. fails)
            (λ k. keeps (record {
              conserved = v.conserved;
              bounded = v.bounded;
              phased = v.phased;
              flagged = v.flagged;
            })))
        (λ h. not_ready)

  take-Phased :
      (s : Stopper) (done closed : Bool) (m : M) (q : List M) (k : ℕ)
      → Phased s done closed (m ∷ q) k
      → Phased s done closed q k
  take-Phased running done closed m q k p = p
  take-Phased waiting done closed m q k p = p
  take-Phased draining done closed m q k p = p
  take-Phased stopped done closed m q k (d, c, inl z) = (d, c, inl z)
  take-Phased stopped done closed m q k (d, c, inr (z, e)) = absurd (cons≢nil e)

  -- The first message goes to the processor.
  pub processed-IsSound :
      (n : Normal M) (m : M) (rest : List M)
      → n.queue ≡ m ∷ rest
      → IsSound n
      → IsSound (record n { queue = rest; calls = n.calls ++ (process m ∷ []) })
  processed-IsSound n m rest e v = record {
    conserved =
        v.conserved
        ∙ ap (◌++◌ (handled n.calls)) e
        ∙ sym (append_assoc (handled n.calls) (m ∷ []) rest)
        ∙ ap (λ t. t ++ rest) (sym (handled-process n.calls m));
    bounded = let size = ap length e in let room = v.bounded in omega arith;
    phased = rw (closings-process n.calls m) (
        take-Phased n.stopper n.done n.queue_closed m rest (closings n.calls)
          (rw (sym e) v.phased));
    flagged = v.flagged;
  }

  pub receive-Kept :
      (k : ℕ) (batch : ℤ) (proc : Bool) (q : List M) (n : Normal M)
      → n.queue ≡ q
      → 0 < n.flag
      → IsSound n
      → Kept (receive k batch proc q n)
  receive-Kept k batch proc [] n e f v =
      Kept-if n.queue_closed (λ h. keeps (same_parts n selecting n.flag v f)) (λ h. not_ready)
  receive-Kept k batch false (m ∷ rest) n e f v = fails
  receive-Kept k batch true (m ∷ rest) n e f v =
      let n' = record n { queue = rest; calls = n.calls ++ (process m ∷ []) } in
      keeps (same_parts n' (executing (k + 1) batch true) n.flag (processed-IsSound n m rest e v) f)

  pub exec_done-Kept :
      (w : Worker) (n : Normal M) → Flagged w n.flag → IsSound n → Kept (exec_done w n)
  unfolding exec_done
  exec_done-Kept absent n f v = not_ready
  exec_done-Kept selecting n f v = not_ready
  exec_done-Kept (executing k batch proc) n f v =
      Kept-if (batch_done k batch) (λ h. not_ready)
        (λ h. Kept-if n.done (λ d. keeps (same_parts n selecting n.flag v f)) (λ d. not_ready))

  pub exec_receive-Kept :
      (w : Worker) (n : Normal M) → Flagged w n.flag → IsSound n → Kept (exec_receive w n)
  unfolding exec_receive
  exec_receive-Kept absent n f v = not_ready
  exec_receive-Kept selecting n f v = not_ready
  exec_receive-Kept (executing k batch proc) n f v =
      Kept-if (batch_done k batch) (λ h. not_ready)
        (λ h. receive-Kept k batch proc n.queue n refl f v)

  pub exec_default-Kept :
      (w : Worker) (n : Normal M) → Flagged w n.flag → IsSound n → Kept (exec_default w n)
  unfolding exec_default
  exec_default-Kept absent n f v = not_ready
  exec_default-Kept selecting n f v = not_ready
  exec_default-Kept (executing k batch proc) n f v =
      Kept-if (batch_done k batch) (λ h. not_ready)
        (λ h.
          Kept-if (n.done || n.queue_closed || not (length n.queue == 0)) (λ d. not_ready)
            (λ d. keeps (same_parts n selecting n.flag v f)))

  pub exec_full-Kept :
      (w : Worker) (n : Normal M) → Flagged w n.flag → IsSound n → Kept (exec_full w n)
  unfolding exec_full
  exec_full-Kept absent n f v = not_ready
  exec_full-Kept selecting n f v = not_ready
  exec_full-Kept (executing k batch proc) n f v =
      Kept-if (batch_done k batch) (λ h. keeps (same_parts n selecting n.flag v f)) (λ h. not_ready)

  -- A queue that is not closed may grow.
  open-Phased :
      (s : Stopper) (done : Bool) (q q' : List M) (k : ℕ)
      → Phased s done false q k
      → Phased s done false q' k
  open-Phased running done q q' k p = p
  open-Phased waiting done q q' k p = p
  open-Phased draining done q q' k p = p
  open-Phased stopped done q q' k (d, c, z) = absurd (ground arith)

  pub write_send-Kept : (n : Normal M) (m : M) → IsSound n → Kept (write_send n m)
  unfolding write_send
  write_send-Kept n m v =
      Kept-if n.queue_closed (λ c. fails)
        (λ c.
          Kept-if (ltb (length n.queue) n.queue_cap)
            (λ h. keeps (record {
              conserved =
                  ap (λ t. t ++ (m ∷ [])) v.conserved
                  ∙ append_assoc (handled n.calls) n.queue (m ∷ []);
              bounded = let size = length-append n.queue (m ∷ []) in ground arith;
              phased =
                  let now =
                    subst (λ t. Phased n.stopper n.done t n.queue (closings n.calls)) c v.phased in
                  subst (λ t. Phased n.stopper n.done t (n.queue ++ (m ∷ [])) (closings n.calls))
                    (sym c)
                    (open-Phased n.stopper n.done n.queue (n.queue ++ (m ∷ [])) (closings n.calls)
                      now);
              flagged = v.flagged;
            }))
            (λ h. not_ready))

  pub stop_begins-Kept :
      (s : Stopper) (n : Normal M) → n.stopper ≡ s → IsSound n → Kept (stop_begins s n)
  unfolding stop_begins
  stop_begins-Kept waiting n e v = not_ready
  stop_begins-Kept draining n e v = not_ready
  stop_begins-Kept stopped n e v = keeps v
  stop_begins-Kept running n e v =
      let (d, c, z) =
        subst (λ t. Phased t n.done n.queue_closed n.queue (closings n.calls)) e v.phased in
      keeps (record {
        conserved = v.conserved;
        bounded = v.bounded;
        phased = (refl, c, z);
        flagged = v.flagged;
      })
