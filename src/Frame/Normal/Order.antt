-- ===== src/Frame/Normal/Order.antt =====
-- frame/normal.go: what the queue took is what was processed and what still stands in the queue, in
-- the same order, and the life of the loop, over any steps of its goroutines.
use czx.Base.{
  Outcome, blocked, panics, steps, ℕ, suc, ◌≤◌, ◌<◌, ◌≡◌, ◌⊎◌, refl, ap, Bool, true, false, List,
  [], ◌∷◌, ◌++◌, if◌then◌else◌, length,
}
use czx.Frame.Normal.{
  Normal, Call, process, on_close, Worker, absent, selecting, executing, Stopper, running, waiting,
  draining, stopped,
}

-- How the flag stands to the goroutine in Start.
abbrev pub Flagged : Worker → ℕ → Type 0
Flagged absent flag = flag ≡ 0
Flagged selecting flag = 0 < flag
Flagged (executing k batch proc) flag = 0 < flag

module _ {M : Type 0} where
  -- The messages that the processor was given, and how often it was closed.
  unfoldable pub handled : List (Call M) → List M
  handled [] = []
  handled (process m ∷ cs) = m ∷ handled cs
  handled (on_close ∷ cs) = handled cs

  unfoldable pub closings : List (Call M) → ℕ
  closings [] = 0
  closings (process m ∷ cs) = closings cs
  closings (on_close ∷ cs) = suc (closings cs)

  -- How `done`, the queue and OnClose stand to the goroutine in Stop.
  abbrev pub Phased : Stopper → Bool → Bool → List M → ℕ → Type 0
  Phased running done closed q k = (done ≡ false) × (closed ≡ false) × (k ≡ 0)
  Phased waiting done closed q k = (done ≡ true) × (closed ≡ false) × (k ≡ 0)
  Phased draining done closed q k = (done ≡ true) × (closed ≡ true) × (k ≡ 0)
  Phased stopped done closed q k =
      (done ≡ true) × (closed ≡ true) × ((k ≡ 0) ⊎ ((k ≡ 1) × (q ≡ [])))

  pub record IsSound (n : Normal M) : Type 0 where
    -- the messages taken are those processed and, behind them, those in the queue
    pub conserved : n.accepted ≡ handled n.calls ++ n.queue
    pub bounded : length n.queue ≤ n.queue_cap
    pub phased : Phased n.stopper n.done n.queue_closed n.queue (closings n.calls)
    pub flagged : Flagged n.worker n.flag

  pub data Kept : Outcome (Normal M) → Type 0 where
    not_ready : Kept blocked
    fails : Kept panics
    keeps : {n : Normal M} → IsSound n → Kept (steps n)

  pub Kept-if :
      {x y : Outcome (Normal M)} (b : Bool)
      → (b ≡ true → Kept x)
      → (b ≡ false → Kept y)
      → Kept (if b then x else y)
  Kept-if true h k = h refl
  Kept-if false h k = k refl

  pub handled-process :
      (cs : List (Call M)) (m : M) → handled (cs ++ (process m ∷ [])) ≡ handled cs ++ (m ∷ [])
  unfolding handled
  handled-process [] m = refl
  handled-process (process x ∷ cs) m = ap (◌∷◌ x) (handled-process cs m)
  handled-process (on_close ∷ cs) m = handled-process cs m

  pub handled-on_close : (cs : List (Call M)) → handled (cs ++ (on_close ∷ [])) ≡ handled cs
  unfolding handled
  handled-on_close [] = refl
  handled-on_close (process x ∷ cs) = ap (◌∷◌ x) (handled-on_close cs)
  handled-on_close (on_close ∷ cs) = handled-on_close cs

  pub closings-process :
      (cs : List (Call M)) (m : M) → closings (cs ++ (process m ∷ [])) ≡ closings cs
  unfolding closings
  closings-process [] m = refl
  closings-process (process x ∷ cs) m = closings-process cs m
  closings-process (on_close ∷ cs) m = ap suc (closings-process cs m)

  pub closings-on_close :
      (cs : List (Call M)) → closings (cs ++ (on_close ∷ [])) ≡ suc (closings cs)
  unfolding closings
  closings-on_close [] = refl
  closings-on_close (process x ∷ cs) = closings-on_close cs
  closings-on_close (on_close ∷ cs) = ap suc (closings-on_close cs)

  -- A step that keeps the queue, the calls and the stopper.
  pub same_parts :
      (n : Normal M) (w : Worker) (flag : ℕ)
      → IsSound n
      → Flagged w flag
      → IsSound (record n { worker = w; flag = flag })
  same_parts n w flag v f = record {
    conserved = v.conserved;
    bounded = v.bounded;
    phased = v.phased;
    flagged = f;
  }
