-- ===== src/Frame/Normal/Life.antt =====
-- frame/normal.go: the loop's invariant over any steps, and what Stop leaves behind.
use mathlib.Core.Path.{subst}
use czx.Base.{
  Outcome, blocked, panics, steps, ℕ, suc, ◌<◌, ◌≡◌, inl, inr, refl, ap, sym, ◌∙◌, Bool, true, List,
  [], ◌∷◌, ◌++◌, arith, ◌==◌, Bool-cases,
}
use czx.Base.Int.{ℤ, pos, negsuc}
use czx.Frame.{flag_started, flag_paused}
use czx.Frame.Normal.{
  NormalConf, Normal, Worker, absent, selecting, executing, Stopper, running, waiting, draining,
  stopped, new_normal, with_proc, pause, resume, set_frequency, with_batch_size, write_done,
  write_default, stop_waits, drain, Event, starts, ctx_ends, sees_done, ticks, adjusts, execs_done,
  execs_receive, execs_default, execs_full, sends, finds_done, finds_full, times_out, pauses,
  resumes, stops, stop_passes, drains, sets_frequency, sets_batch_size, sets_proc, step, run_from,
}
use czx.Frame.Normal.Order.{
  Flagged, handled, closings, Phased, IsSound, Kept, not_ready, keeps, Kept-if, handled-on_close,
  closings-on_close, same_parts,
}
use czx.Frame.Normal.Rounds.{
  start-Kept, select_ctx-Kept, select_done-Kept, select_tick-Kept, select_adjust-Kept,
  processed-IsSound, exec_done-Kept, exec_receive-Kept, exec_default-Kept, exec_full-Kept,
  write_send-Kept, stop_begins-Kept,
}

Flagged-pos : (w : Worker) (f g : ℕ) → 0 < f → 0 < g → Flagged w f → Flagged w g
Flagged-pos absent f g h k e = absurd (omega arith)
Flagged-pos selecting f g h k e = k
Flagged-pos (executing j batch proc) f g h k e = k

module _ {M : Type 0} where
  stop_waits-Kept :
      (s : Stopper) (w : Worker) (n : Normal M)
      → n.stopper ≡ s
      → IsSound n
      → Kept (stop_waits s w n)
  unfolding stop_waits
  stop_waits-Kept running w n e v = not_ready
  stop_waits-Kept draining w n e v = not_ready
  stop_waits-Kept stopped w n e v = not_ready
  stop_waits-Kept waiting selecting n e v = not_ready
  stop_waits-Kept waiting (executing k batch proc) n e v = not_ready
  stop_waits-Kept waiting absent n e v =
      let (d, c, z) =
        subst (λ t. Phased t n.done n.queue_closed n.queue (closings n.calls)) e v.phased in
      keeps (record {
        conserved = v.conserved;
        bounded = v.bounded;
        phased = elim (Bool-cases n.proc) [
          | inl p ↦ rw p (d, refl, z)
          | inr p ↦ rw p (d, refl, inl z)
        ];
        flagged = v.flagged;
      })

  drain-Kept :
      (s : Stopper) (q : List M) (n : Normal M)
      → n.stopper ≡ s
      → n.queue ≡ q
      → IsSound n
      → Kept (drain s q n)
  unfolding drain
  drain-Kept running q n e f v = not_ready
  drain-Kept waiting q n e f v = not_ready
  drain-Kept stopped q n e f v = not_ready
  drain-Kept draining (m ∷ rest) n e f v = keeps (processed-IsSound n m rest f v)
  drain-Kept draining [] n e f v =
      let (d, c, z) =
        subst (λ t. Phased t n.done n.queue_closed n.queue (closings n.calls)) e v.phased in
      keeps (record {
        conserved = v.conserved ∙ ap (λ t. t ++ n.queue) (sym (handled-on_close n.calls));
        bounded = v.bounded;
        phased = (d, c, inr (closings-on_close n.calls ∙ ap suc z, f));
        flagged = v.flagged;
      })

  IsSound-of : (n : Normal M) → Kept (steps n) → IsSound n
  IsSound-of n (keeps v) = v

  same-IsSound :
      (n : Normal M) (frequency : ℕ) (batch_size : ℤ) (adjust proc : Bool)
      → IsSound n
      → IsSound (record n {
        frequency = frequency;
        batch_size = batch_size;
        adjust = adjust;
        proc = proc;
      })
  same-IsSound n frequency batch_size adjust proc v = record {
    conserved = v.conserved;
    bounded = v.bounded;
    phased = v.phased;
    flagged = v.flagged;
  }

  flag-IsSound :
      (n : Normal M) (flag : ℕ)
      → 0 < n.flag
      → 0 < flag
      → IsSound n
      → IsSound (record n { flag = flag })
  flag-IsSound n flag h k v =
      same_parts n n.worker flag v (Flagged-pos n.worker n.flag flag h k v.flagged)

  pause-IsSound : (n : Normal M) → IsSound n → IsSound ((pause n).1)
  unfolding pause
  pause-IsSound n v = elim (Bool-cases (n.flag == flag_started)) [
    | inl e ↦ rw e (flag-IsSound n flag_paused (ground arith) (omega arith) v)
    | inr e ↦ rw e v
  ]

  resume-IsSound : (n : Normal M) → IsSound n → IsSound ((resume n).1)
  unfolding resume
  resume-IsSound n v = elim (Bool-cases (n.flag == flag_paused)) [
    | inl e ↦ rw e (flag-IsSound n flag_started (ground arith) (omega arith) v)
    | inr e ↦ rw e v
  ]

  frequency-IsSound : (n : Normal M) (k : ℕ) → IsSound n → IsSound ((set_frequency n k).1)
  unfolding set_frequency
  frequency-IsSound n k v = elim (Bool-cases (k == 0)) [
    | inl e ↦ rw e v
    | inr e ↦ rw e (same-IsSound n k n.batch_size true n.proc v)
  ]

  batch_size-IsSound : (n : Normal M) (z : ℤ) → IsSound n → IsSound ((with_batch_size n z).1)
  unfolding with_batch_size
  batch_size-IsSound n (pos k) v = same-IsSound n n.frequency (pos k) n.adjust n.proc v
  batch_size-IsSound n (negsuc k) v = v

  step-Kept : (e : Event M) (n : Normal M) → IsSound n → Kept (step e n)
  unfolding step write_done write_default with_proc
  step-Kept starts n v = start-Kept n v
  step-Kept ctx_ends n v = select_ctx-Kept n.worker n v
  step-Kept sees_done n v = select_done-Kept n.worker n v
  step-Kept ticks n v = select_tick-Kept n.worker n v.flagged v
  step-Kept adjusts n v = select_adjust-Kept n.worker n v
  step-Kept execs_done n v = exec_done-Kept n.worker n v.flagged v
  step-Kept execs_receive n v = exec_receive-Kept n.worker n v.flagged v
  step-Kept execs_default n v = exec_default-Kept n.worker n v.flagged v
  step-Kept execs_full n v = exec_full-Kept n.worker n v.flagged v
  step-Kept (sends m) n v = write_send-Kept n m v
  step-Kept finds_done n v = Kept-if n.done (λ h. keeps v) (λ h. not_ready)
  step-Kept finds_full n v = Kept-if _ (λ h. not_ready) (λ h. keeps v)
  step-Kept times_out n v = keeps v
  step-Kept pauses n v = keeps (pause-IsSound n v)
  step-Kept resumes n v = keeps (resume-IsSound n v)
  step-Kept stops n v = stop_begins-Kept n.stopper n refl v
  step-Kept stop_passes n v = stop_waits-Kept n.stopper n.worker n refl v
  step-Kept drains n v = drain-Kept n.stopper n.queue n refl refl v
  step-Kept (sets_frequency k) n v = keeps (frequency-IsSound n k v)
  step-Kept (sets_batch_size z) n v = keeps (batch_size-IsSound n z v)
  step-Kept (sets_proc p) n v = keeps (same-IsSound n n.frequency n.batch_size n.adjust p v)

  run-Kept : (es : List (Event M)) (o : Outcome (Normal M)) → Kept o → Kept (run_from o es)
  run-Kept [] (steps n) (keeps v) = keeps v
  run-Kept (e ∷ es) (steps n) (keeps v) = run-Kept es (step e n) (step-Kept e n v)
  run-Kept es blocked v = v
  run-Kept es panics v = v

  new-IsSound : (c : NormalConf) → IsSound (new_normal {M = M} c)
  unfolding new_normal handled closings
  new-IsSound c = record {
    conserved = refl;
    bounded = omega arith;
    phased = (refl, refl, refl);
    flagged = refl;
  }

  -- Whatever steps a new loop's goroutines take, in whatever order: the messages that the queue took are
  -- those that were processed and those that stand in the queue, in one order; the queue is within its
  -- capacity; `done` and the queue are closed in the order of Stop, and at the end of Stop the processor
  -- was closed at most once, and where it was, the queue is empty; the flag is reset exactly when no
  -- goroutine is in Start.
  pub normal_run-IsSound :
      (es : List (Event M)) (c : NormalConf) (n : Normal M)
      → run_from (steps (new_normal c)) es ≡ steps n
      → IsSound n
  normal_run-IsSound es c n e =
      IsSound-of n (subst Kept e (run-Kept es (steps (new_normal c)) (keeps (new-IsSound c))))
