-- ===== src/Frame/Exec.antt =====
-- What one frame holds, and what it leaves behind.
use Prim.Native.String.{String}
use text.Mathlib.TextEquality.{eq_iff}
use czx.Base.{
  ℕ, ◌≡◌, ◌≢◌, refl, ◌∙◌, List, [], ◌∷◌, Option, none, some, arith, if◌then◌else◌, string_eq,
  Option-cases, inl, inr,
}
use czx.Base.Dict.{Dict, lookup, insert, has, lookup-insert}
use czx.Frame.{
  Message, FrameLoop, Effect, process, last_of, empty_message, exec_loop, exec, next_id,
}

-- The frame that is noted for a player: the last that it queued a message for, else the old one.
abbrev pub noted : Option (List Message) → Option ℕ → Option ℕ
noted none old = old
noted (some ms) old = elim (last_of ms) [ none ↦ old | some m ↦ some m.frame_id ]

-- No player has an empty list in the queue.
abbrev pub Filled : Dict String (List Message) → Type 0
Filled queue = (p : String) (ms : List Message) → lookup p queue ≡ some ms → last_of ms ≢ none

module _ (queue : Dict String (List Message)) (id now : ℕ) where
  -- The inputs that a registered player has in a frame: what it queued, or one empty message.
  abbrev pub input_or_empty : String → Option (List Message) → List Message
  input_or_empty p none = empty_message p id now ∷ []
  input_or_empty p (some ms) = ms

  unfoldable pub inputs_of : String → List Message
  inputs_of p = input_or_empty p (lookup p queue)

  record Looped (rest : Dict String ℕ) (inputs inputs' : Dict String (List Message))
      (ids ids' : Dict String ℕ) : Type 0 where
    given :
        (j : String)
        → lookup j inputs' ≡ (if has j rest then some (inputs_of j) else lookup j inputs)
    marked :
        (j : String)
        → lookup j ids'
          ≡ (if has j rest then noted (lookup j queue) (lookup j ids) else lookup j ids)

  Looped-nil :
      (inputs : Dict String (List Message)) (ids : Dict String ℕ) → Looped [] inputs inputs ids ids
  unfolding has lookup
  Looped-nil inputs ids = record { given = λ j. refl; marked = λ j. refl }

  -- A round for a player that queued nothing, and one for a player that did.
  module _ (p : String) (old : ℕ) (rest : Dict String ℕ)
      (inputs inputs' : Dict String (List Message)) (ids ids' : Dict String ℕ) where
    empty_round :
        lookup p queue ≡ none
        → Looped rest (insert p (empty_message p id now ∷ []) inputs) inputs' ids ids'
        → Looped ((p, old) ∷ rest) inputs inputs' ids ids'
    unfolding has lookup inputs_of
    empty_round e l = record {
      given = λ j.
          ground
            (arith, l.given j, eq_iff p j, lookup-insert p j (empty_message p id now ∷ []) inputs);
      marked = λ j. ground (arith, l.marked j, eq_iff p j);
    }

    full_round :
        (ms : List Message) (m : Message)
        → lookup p queue ≡ some ms
        → last_of ms ≡ some m
        → Looped rest (insert p ms inputs) inputs' (insert p m.frame_id ids) ids'
        → Looped ((p, old) ∷ rest) inputs inputs' ids ids'
    unfolding has lookup inputs_of
    full_round ms m e last l = record {
      given = λ j. ground (arith, l.given j, eq_iff p j, lookup-insert p j ms inputs);
      marked = λ j. ground (arith, l.marked j, eq_iff p j, lookup-insert p j m.frame_id ids);
    }

  exec_loop_lem :
      (rest : Dict String ℕ) (inputs : Dict String (List Message)) (ids : Dict String ℕ)
      → Filled queue
      → (inputs' : Dict String (List Message)) × (ids' : Dict String ℕ) × (exec_loop queue id now
            rest inputs ids
          ≡ some (inputs', ids'))
        × Looped rest inputs inputs' ids ids'
  unfolding exec_loop
  exec_loop_lem [] inputs ids f = (inputs, ids, refl, Looped-nil inputs ids)
  exec_loop_lem ((p, old) ∷ rest) inputs ids f = elim (Option-cases (lookup p queue)) [
    | inl e ↦
        let (inputs', ids', ran, l) =
          exec_loop_lem rest (insert p (empty_message p id now ∷ []) inputs) ids f in
        (inputs', ids', rw (e, exec_loop) ran, empty_round p old rest inputs inputs' ids ids' e l)
    | inr (ms, e) ↦ elim (Option-cases (last_of ms)) [
      | inl nothing ↦ absurd (f p ms e nothing)
      | inr (m, last) ↦
          let (inputs', ids', ran, l) =
            exec_loop_lem rest (insert p ms inputs) (insert p m.frame_id ids) f in
          (
            inputs',
            ids',
            rw (e, exec_loop, last) ran,
            full_round p old rest inputs inputs' ids ids' ms m e last l,
          )
    ]
  ]

-- What `exec` does to the loop `f` at time `now`, with `f'` and the frame's inputs as its results.
pub record Executed (f : FrameLoop) (now : ℕ) (f' : FrameLoop) (inputs : Dict String (List Message))
    : Type 0 where
  -- the frame number goes up by one, the queue is empty, and all else is kept
  pub rest_kept :
      (ids : Dict String ℕ) × (f' ≡ record f { frame_id = next_id f; ids = ids; queue = [] })
  -- the frame has inputs for exactly the registered players
  pub given :
      (p : String)
      → lookup p inputs ≡ (if has p f.ids then some (inputs_of f.queue (next_id f) now p) else none)
  -- the players stay registered, each with its last frame
  pub marked :
      (p : String)
      → lookup p f'.ids ≡ (if has p f.ids then noted (lookup p f.queue) (lookup p f.ids) else none)

abbrev pub frame_calls : FrameLoop → Dict String (List Message) → List Effect
frame_calls f inputs =
    if f.proc then process (record { frame_id = next_id f; inputs = inputs }) ∷ [] else []

lookup_nil : (p : String) → lookup {V = List Message} p [] ≡ none
unfolding lookup
lookup_nil p = refl

unregistered :
    (p : String) (x : Option ℕ) (ids : Dict String ℕ)
    → (if has p ids then x else lookup p ids) ≡ (if has p ids then x else none)
unfolding has
unregistered p x ids = ground arith

-- If no player has an empty list in the queue, `exec` returns, and hands the processor, where one is
-- set, one frame with the next number and an input for each registered player and for no other: what
-- the player queued, or one empty message. The queue is emptied, the players stay registered, each with
-- the frame of its last message or with the one it had, and all else in the loop is kept.
pub exec_lem :
    (f : FrameLoop) (now : ℕ)
    → Filled f.queue
    → (f' : FrameLoop) × (inputs : Dict String (List Message)) × (exec f now
        ≡ some (f', frame_calls f inputs))
      × Executed f now f' inputs
unfolding exec
exec_lem f now filled =
    let (inputs, ids, ran, l) = exec_loop_lem f.queue (next_id f) now f.ids [] f.ids filled in
    (
      record f { frame_id = next_id f; ids = ids; queue = [] },
      inputs,
      rw (ran, exec),
      record {
        rest_kept = (ids, refl);
        given = λ p. rw (← lookup_nil p) (l.given p);
        marked = λ p. l.marked p ∙ unregistered p _ f.ids;
      },
    )
