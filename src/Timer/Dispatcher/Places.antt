-- ===== src/Timer/Dispatcher/Places.antt =====
-- The places of a dispatcher's timers, and a change of one of them.
use mathlib.Core.Path.{subst}
use czx.Base.{
  ℕ, zero, suc, ◌≤◌, ◌<◌, ◌≡◌, ◌≢◌, refl, ap, inl, inr, Bool, true, false, List, [], ◌∷◌, ◌++◌,
  arith, ◌==◌, if◌then◌else◌, length, get_or, set, get_or-set_self, get_or-set_ne, Bool-cases,
}
use czx.Timer.Dispatcher.{
  Place, disarmed, queued, ready, executed, Timer, Dispatcher, nowhere, timer,
}

unfoldable pub count : ℕ → List ℕ → ℕ
count i [] = 0
count i (j ∷ js) = if j == i then suc (count i js) else count i js

pub count-append :
    (i : ℕ) (js : List ℕ) (k : ℕ)
    → count i (js ++ (k ∷ [])) ≡ (if k == i then suc (count i js) else count i js)
unfolding count
count-append i [] k = refl
count-append i (j ∷ js) k = ground (arith, count-append i js k)

-- How often a timer at a place is in the channel, and how often its callback may have run.
abbrev pub in_channel : Place → ℕ
in_channel queued = 1
in_channel p = 0

abbrev pub may_run : Place → ℕ
may_run executed = 1
may_run p = 0

-- The place of timer `i`.
abbrev pub place_of : Dispatcher → ℕ → Place
place_of d i = (timer d i).place

-- Exec has found a callback that is gone now.
abbrev pub risk : Place → Bool → ℕ
risk ready false = 1
risk p has_cb = 0

abbrev pub risk_of : Timer → ℕ
risk_of t = risk t.place t.has_cb

-- The channel is open, and no exec is about to launch a callback that is gone.
abbrev pub IsSafe : Dispatcher → Type 0
IsSafe d = (d.chan_closed ≡ false) × ((i : ℕ) → risk_of (timer d i) ≡ 0)

-- Every timer is in the channel as its place says, and its callback was launched at most once, and
-- only if exec is done with it.
abbrev pub IsPlaced : Dispatcher → Type 0
IsPlaced d =
    (i : ℕ)
    → (count i d.chan_timer ≡ in_channel (place_of d i))
      × (count i d.launched ≤ may_run (place_of d i))

pub inside : (ts : List Timer) (i : ℕ) → (get_or ts i nowhere).place ≢ disarmed → i < length ts
inside [] i h = absurd (h refl)
inside (t ∷ ts) zero h = omega arith
inside (t ∷ ts) (suc i) h = omega (arith, inside ts i h)

pub get_or-set :
    (ts : List Timer) (i j : ℕ) (t : Timer)
    → i < length ts
    → get_or (set ts i t) j nowhere ≡ (if i == j then t else get_or ts j nowhere)
get_or-set ts i j t h = elim (Bool-cases (i == j)) [
  | inl same ↦ rw same (
      subst (λ k. get_or (set ts i t) k nowhere ≡ t) (equal i j same)
        (get_or-set_self ts i t nowhere h))
  | inr other ↦ rw other (get_or-set_ne ts t nowhere (λ e. absurd (differs i j other e)))
]
  where
    equal : (i j : ℕ) → (i == j) ≡ true → i ≡ j
    equal i j e = ground arith

    differs : (i j : ℕ) → (i == j) ≡ false → i ≡ j → ⊥
    differs i j e h = ground arith

-- A function of a timer, where one timer changed.
pub changed_to :
    (f : Timer → ℕ) (d : Dispatcher) (i j : ℕ) (t : Timer)
    → place_of d i ≢ disarmed
    → f (get_or (set d.timers i t) j nowhere) ≡ (if i == j then f t else f (timer d j))
changed_to f d i j t h = elim (Bool-cases (i == j)) [
  | inl same ↦ rw same (ap f (rw same at (get_or-set d.timers i j t (inside d.timers i h))))
  | inr other ↦ rw other (ap f (rw other at (get_or-set d.timers i j t (inside d.timers i h))))
]

-- The numbers at the place of a timer.
pub at_place :
    (d : Dispatcher) (i : ℕ) (p : Place)
    → IsPlaced d
    → place_of d i ≡ p
    → (count i d.chan_timer ≡ in_channel p) × (count i d.launched ≤ may_run p)
at_place d i p placed e =
    subst (λ q. (count i d.chan_timer ≡ in_channel q) × (count i d.launched ≤ may_run q)) e
      (placed i)

pub same_index : (f : ℕ → ℕ) (i j : ℕ) → (i == j) ≡ true → f i ≡ f j
same_index f i j h = ap f (equal i j h)
  where
    equal : (i j : ℕ) → (i == j) ≡ true → i ≡ j
    equal i j h = ground arith

pub set_out : (ts : List Timer) (i : ℕ) (t : Timer) → length ts ≤ i → set ts i t ≡ ts
set_out [] i t h = refl
set_out (u ∷ ts) zero t h = absurd (omega arith)
set_out (u ∷ ts) (suc i) t h = ap (◌∷◌ u) (set_out ts i t (omega arith))
