-- ===== src/Network/Conn/Close.antt =====
-- network/tcp/conn.go: what Close makes of a connection whose network takes every message.
use mathlib.Core.List.{append_assoc, append-nil}
use mathlib.Core.Path.{subst}
use czx.Base.{
  panics, steps, ℕ, ◌≡◌, ◌≢◌, refl, ap, sym, ◌∙◌, Bool, true, false, List, [], ◌∷◌, ◌++◌, Option,
  none, some, arith, ◌==◌, if◌then◌else◌, length, Bool-cases, inl, inr,
}
use czx.Network.Conn.{
  ranging, ended, TcpConn, do_destroy, close, take_message, write_round, Event, closes, rounds,
  step, run_from,
}
use czx.Network.Conn.Order.{IsSound, Plain, payloads, Conserved}

-- A step of the writer for each message of a queue, and three for the nil behind them and the end.
abbrev pub writing_out : List (Option (List ℕ)) → List Event
writing_out [] = rounds true ∷ rounds true ∷ rounds true ∷ []
writing_out (x ∷ q) = rounds true ∷ writing_out q

abbrev on_its_way : TcpConn → List (Option (List ℕ)) → List (List ℕ) → TcpConn
on_its_way c q sent = record c { queue = q; sent = sent; done = true; writer = ranging }

one_taken :
    (c : TcpConn) (b : List ℕ) (q : List (Option (List ℕ))) (s : List (List ℕ))
    → c.metrics ≡ true
    → c.net_closed ≡ false
    → step (rounds true) (on_its_way c (some b ∷ q) s) ≡ steps (on_its_way c q (s ++ (b ∷ [])))
unfolding step write_round take_message
one_taken c b q s m n = rw (m, n) refl

-- The messages in front of nil are sent, and the writer leaves.
flushes :
    (q : List (Option (List ℕ))) (c : TcpConn) (s : List (List ℕ))
    → Plain q
    → c.metrics ≡ true
    → c.net_closed ≡ false
    → run_from (steps (on_its_way c (q ++ (none ∷ [])) s)) (writing_out q)
      ≡ steps (record c {
        queue = [];
        sent = s ++ payloads q;
        done = true;
        net_closed = true;
        writer = ended;
      })
unfolding payloads step write_round take_message
flushes [] c s p m n =
    ap
      (λ t.
        steps (record c { queue = []; sent = t; done = true; net_closed = true; writer = ended }))
      (sym (append-nil s))
flushes (none ∷ q) c s p m n = absurd p
flushes (some b ∷ q) c s p m n =
    ap (λ t. run_from t (writing_out q)) (one_taken c b (q ++ (none ∷ [])) s m n)
    ∙ flushes q c (s ++ (b ∷ [])) p m n
    ∙ ap
        (λ t.
          steps (record c { queue = []; sent = t; done = true; net_closed = true; writer = ended }))
        (append_assoc s (b ∷ []) (payloads q))

-- What Close and the writer leave behind of the connection `c`.
pub record Flushed (c c' : TcpConn) : Type 0 where
  pub all_sent : c'.sent ≡ c.accepted
  pub shut : (c'.net_closed ≡ true) × (c'.done ≡ true)
  pub at_end : (c'.writer ≡ ended) × (c'.queue ≡ [])

if_false : {A : Type 0} {b : Bool} (x y : A) → b ≡ false → (if b then x else y) ≡ y
if_false x y e = rw e refl

closed_lem :
    (c : TcpConn)
    → IsSound c
    → c.done ≡ false
    → (length c.queue == c.pending_write) ≡ false
    → c.queue_closed ≡ false
    → c.writer ≡ ranging
    → step closes c ≡ steps (on_its_way c (c.queue ++ (none ∷ [])) c.sent)
unfolding step close
closed_lem c v d room q w =
    if_false (steps c) _ d
    ∙ if_false (do_destroy c) _ room
    ∙ if_false panics _ q
    ∙ (ap (λ t. steps (record c { queue = c.queue ++ (none ∷ []); done = true; writer = t })) w)

-- Close of a connection that is open and has room in its queue, with the writer in its range, and then
-- the writer's steps, where the network takes every message: none of them has to wait, and at the end
-- every message that Write ever put in the queue is sent, in order, and the connection is closed.
pub close-Flushed :
    (c : TcpConn)
    → IsSound c
    → c.done ≡ false
    → c.net_closed ≡ false
    → c.writer ≡ ranging
    → length c.queue ≢ c.pending_write
    → (c' : TcpConn) × (run_from (steps c) (closes ∷ writing_out c.queue) ≡ steps c') × Flushed c c'
close-Flushed c v d n w room =
    let open_queue : c.queue_closed ≡ false = elim (Bool-cases c.queue_closed) [
      | inl h ↦ absurd (ground (arith, v.closed_done h))
      | inr h ↦ h
    ] in
    let at : c.accepted ≡ c.sent ++ payloads c.queue =
      subst (λ t. Conserved t c.accepted c.sent c.queue) w v.conserved in
    (
      record c {
        queue = [];
        sent = c.sent ++ payloads c.queue;
        done = true;
        net_closed = true;
        writer = ended;
      },
      ap (λ t. run_from t (writing_out c.queue)) (closed_lem c v d (ground arith) open_queue w)
          ∙ flushes c.queue c c.sent (v.plain d) v.measured n,
      record { all_sent = sym at; shut = (refl, refl); at_end = (refl, refl) },
    )
