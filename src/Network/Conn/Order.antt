-- ===== src/Network/Conn/Order.antt =====
-- network/tcp/conn.go: what is sent is what was accepted, in order, as far as it goes.
use mathlib.Core.List.{append_assoc}
use czx.Base.{
  Outcome, blocked, steps, ℕ, ◌≤◌, ◌≡◌, refl, ap, sym, ◌∙◌, Bool, true, false, List, [], ◌∷◌, ◌++◌,
  Option, none, some, arith, ◌==◌, if◌then◌else◌, length, length-append,
}
use czx.Network.Conn.{Writer, ranging, left, closing, ended, TcpConn}

-- A step that does not panic, and keeps `P` where it is ready.
pub data Safely {ℓ κ} {A : Type ℓ} (P : A → Type κ) : Outcome A → Type (ℓ ⊔ κ) where
  not_ready : Safely P blocked
  safely : {a : A} → P a → Safely P (steps a)

pub Safely-if {ℓ κ} :
    {A : Type ℓ} {P : A → Type κ} {x y : Outcome A} (b : Bool)
    → (b ≡ true → Safely P x)
    → (b ≡ false → Safely P y)
    → Safely P (if b then x else y)
Safely-if true h k = h refl
Safely-if false h k = k refl

-- The messages in a queue that are not nil.
unfoldable pub payloads : List (Option (List ℕ)) → List (List ℕ)
payloads [] = []
payloads (none ∷ q) = payloads q
payloads (some b ∷ q) = b ∷ payloads q

-- What the messages accepted are to those sent and those in the queue. A writer that has left the range
-- leaves behind what it did not send.
abbrev pub Conserved : Writer → List (List ℕ) → List (List ℕ) → List (Option (List ℕ)) → Type 0
Conserved ranging accepted sent q = accepted ≡ sent ++ payloads q
Conserved left accepted sent q = (lost : List (List ℕ)) × (accepted ≡ sent ++ lost)
Conserved closing accepted sent q = (lost : List (List ℕ)) × (accepted ≡ sent ++ lost)
Conserved ended accepted sent q = (lost : List (List ℕ)) × (accepted ≡ sent ++ lost)

-- No message in a queue is nil.
abbrev pub Plain : List (Option (List ℕ)) → Type 0
Plain [] = Unit {0}
Plain (none ∷ q) = ⊥
Plain (some b ∷ q) = Plain q

pub record IsSound (c : TcpConn) : Type 0 where
  -- the queue is closed only behind `done`, and within its capacity
  pub closed_done : c.queue_closed ≡ true → c.done ≡ true
  pub bounded : length c.queue ≤ c.pending_write
  -- the messages sent are the first of those accepted, in order; while the writer ranges over the queue
  -- the others stand in it
  pub conserved : Conserved c.writer c.accepted c.sent c.queue
  pub plain : c.done ≡ false → Plain c.queue
  pub measured : c.metrics ≡ true

pub payloads-append :
    (q : List (Option (List ℕ))) (b : List ℕ)
    → payloads (q ++ (some b ∷ [])) ≡ payloads q ++ (b ∷ [])
unfolding payloads
payloads-append [] b = refl
payloads-append (none ∷ q) b = payloads-append q b
payloads-append (some a ∷ q) b = ap (◌∷◌ a) (payloads-append q b)

pub payloads-nil : (q : List (Option (List ℕ))) → payloads (q ++ (none ∷ [])) ≡ payloads q
unfolding payloads
payloads-nil [] = refl
payloads-nil (none ∷ q) = payloads-nil q
payloads-nil (some a ∷ q) = ap (◌∷◌ a) (payloads-nil q)

pub accepted-Conserved :
    (w : Writer) (accepted sent : List (List ℕ)) (q : List (Option (List ℕ))) (b : List ℕ)
    → Conserved w accepted sent q
    → Conserved w (accepted ++ (b ∷ [])) sent (q ++ (some b ∷ []))
accepted-Conserved ranging accepted sent q b e =
    ap (λ t. t ++ (b ∷ [])) e
    ∙ append_assoc sent (payloads q) (b ∷ [])
    ∙ ap (◌++◌ sent) (sym (payloads-append q b))
accepted-Conserved left accepted sent q b (lost, e) =
    (lost ++ (b ∷ []), ap (λ t. t ++ (b ∷ [])) e ∙ append_assoc sent lost (b ∷ []))
accepted-Conserved closing accepted sent q b (lost, e) =
    (lost ++ (b ∷ []), ap (λ t. t ++ (b ∷ [])) e ∙ append_assoc sent lost (b ∷ []))
accepted-Conserved ended accepted sent q b (lost, e) =
    (lost ++ (b ∷ []), ap (λ t. t ++ (b ∷ [])) e ∙ append_assoc sent lost (b ∷ []))

pub nil-Conserved :
    (w : Writer) (accepted sent : List (List ℕ)) (q : List (Option (List ℕ)))
    → Conserved w accepted sent q
    → Conserved w accepted sent (q ++ (none ∷ []))
nil-Conserved ranging accepted sent q e = e ∙ ap (◌++◌ sent) (sym (payloads-nil q))
nil-Conserved left accepted sent q e = e
nil-Conserved closing accepted sent q e = e
nil-Conserved ended accepted sent q e = e

pub room_for_one :
    (q : List (Option (List ℕ))) (x : Option (List ℕ)) (n : ℕ)
    → length q ≤ n
    → (length q == n) ≡ false
    → length (q ++ (x ∷ [])) ≤ n
room_for_one q x n h f = let size = length-append q (x ∷ []) in ground arith

pub Plain-append : (q : List (Option (List ℕ))) (b : List ℕ) → Plain q → Plain (q ++ (some b ∷ []))
Plain-append [] b v = tt
Plain-append (none ∷ q) b v = absurd v
Plain-append (some a ∷ q) b v = Plain-append q b v
