-- ===== src/Frame/Write.antt =====
-- Which messages Write accepts, and that an accepted one is in the next frame.
use Prim.Native.String.{String}
use text.Mathlib.TextEquality.{eq_iff}
use mathlib.Core.Path.{subst}
use czx.Base.{
  ℕ, ◌≤◌, ◌<◌, ◌≡◌, ◌≢◌, ◌↔◌, refl, sym, ◌∙◌, true, false, List, [], ◌∷◌, ◌++◌, Option, none, some,
  arith, if◌then◌else◌, string_eq, ok,
}
use czx.Base.Dict.{Dict, lookup, insert, has, lookup-insert_elim, lookup-insert_self, has-insert}
use czx.Frame.{Message, FrameLoop, last_of, is_stale, queued, write, exec, next_id, second}
use czx.Frame.Exec.{Filled, exec_lem, frame_calls, inputs_of}

-- The frame numbers of the messages go up, from above a bound on.
abbrev pub Ascending : ℕ → List Message → Type 0
Ascending n [] = Unit {0}
Ascending n (m ∷ ms) = (n < m.frame_id) × Ascending m.frame_id ms

-- The messages of a player that waits for frame `n + 1` or later; there is one at least.
abbrev pub Waiting : ℕ → List Message → Type 0
Waiting n [] = ⊥
Waiting n (m ∷ ms) = Ascending n (m ∷ ms)

-- The state between two calls.
pub record IsValid (f : FrameLoop) : Type 0 where
  pub waiting :
      (p : String) (ms : List Message) → lookup p f.queue ≡ some ms → Waiting f.frame_id ms
  pub registered : (p : String) → has p f.queue ≡ true → has p f.ids ≡ true
  pub timed : 0 < f.frequency
  pub paced : f.frequency ≤ second

last_of-cons : (m : Message) (ms : List Message) → last_of (m ∷ ms) ≢ none
unfolding last_of
last_of-cons m [] e = cc
last_of-cons m (n ∷ ms) e = last_of-cons n ms e

pub valid-Filled : (f : FrameLoop) → IsValid f → Filled f.queue
valid-Filled f v p [] e h = v.waiting p [] e
valid-Filled f v p (m ∷ ms) e h = last_of-cons m ms h

Ascending-snoc :
    (n : ℕ) (x : Message) (ms : List Message) (m : Message)
    → Ascending n (x ∷ ms)
    → is_stale (some (x ∷ ms)) m.frame_id ≡ false
    → Ascending n ((x ∷ ms) ++ (m ∷ []))
unfolding is_stale last_of
Ascending-snoc n x [] m a s = (a.0, (ground arith, tt))
Ascending-snoc n x (y ∷ ms) m a s = (a.0, Ascending-snoc x.frame_id y ms m a.1 s)

Waiting-snoc :
    (n : ℕ) (o : Option (List Message)) (m : Message)
    → ((ms : List Message) → o ≡ some ms → Waiting n ms)
    → is_stale o m.frame_id ≡ false
    → n < m.frame_id
    → Waiting n (queued o ++ (m ∷ []))
Waiting-snoc n none m w s h = (h, tt)
Waiting-snoc n (some []) m w s h = absurd (w [] refl)
Waiting-snoc n (some (x ∷ ms)) m w s h = Ascending-snoc n x ms m (w (x ∷ ms) refl) s

-- What lets Write pass its tests.
pub record Accepts (f : FrameLoop) (m : Message) : Type 0 where
  pub opened : f.done ≡ false
  pub known : has m.player_id f.ids ≡ true
  pub newer : f.frame_id < m.frame_id
  pub later : is_stale (lookup m.player_id f.queue) m.frame_id ≡ false

abbrev pub appended : FrameLoop → Message → FrameLoop
appended f m = record f {
  queue = insert m.player_id (queued (lookup m.player_id f.queue) ++ (m ∷ [])) f.queue;
}

pub write-Accepts :
    (f f' : FrameLoop) (m : Message) → write f m ≡ ok f' → Accepts f m × (f' ≡ appended f m)
unfolding write
write-Accepts f f' m e = ground arith

pub Accepts-write : (f : FrameLoop) (m : Message) → Accepts f m → write f m ≡ ok (appended f m)
unfolding write
Accepts-write f m a = ground arith

-- The messages are for frames before this one.
abbrev pub AllBefore : ℕ → List Message → Type 0
AllBefore id [] = Unit {0}
AllBefore id (m ∷ ms) = (m.frame_id < id) × AllBefore id ms

-- What a sender must keep to.
pub record IsWanted (f : FrameLoop) (m : Message) : Type 0 where
  pub opened : f.done ≡ false
  pub known : has m.player_id f.ids ≡ true
  pub newer : f.frame_id < m.frame_id
  pub after : (ms : List Message) → lookup m.player_id f.queue ≡ some ms → AllBefore m.frame_id ms

-- The last of ascending messages is the greatest.
fresh-AllBefore :
    (n id : ℕ) (x : Message) (ms : List Message)
    → Ascending n (x ∷ ms)
    → is_stale (some (x ∷ ms)) id ≡ false
    → AllBefore id (x ∷ ms)
unfolding is_stale last_of
fresh-AllBefore n id x [] a s = (ground (arith, s), tt)
fresh-AllBefore n id x (y ∷ ms) a s =
    let (before, rest) = fresh-AllBefore x.frame_id id y ms a.1 s in
    (omega (arith, a.1.0, before), (before, rest))

AllBefore-fresh : (id : ℕ) (ms : List Message) → AllBefore id ms → is_stale (some ms) id ≡ false
unfolding is_stale last_of
AllBefore-fresh id [] b = refl
AllBefore-fresh id (x ∷ []) b = ground (arith, b)
AllBefore-fresh id (x ∷ (y ∷ ms)) b = AllBefore-fresh id (y ∷ ms) b.1

waiting-AllBefore :
    (n id : ℕ) (ms : List Message) → Waiting n ms → is_stale (some ms) id ≡ false → AllBefore id ms
waiting-AllBefore n id [] w s = tt
waiting-AllBefore n id (x ∷ ms) w s = fresh-AllBefore n id x ms w s

queued-fresh :
    (id : ℕ) (o : Option (List Message))
    → ((ms : List Message) → o ≡ some ms → AllBefore id ms)
    → is_stale o id ≡ false
unfolding is_stale
queued-fresh id none b = refl
queued-fresh id (some ms) b = AllBefore-fresh id ms (b ms refl)

Accepts-IsWanted : (f : FrameLoop) (m : Message) → IsValid f → Accepts f m → IsWanted f m
Accepts-IsWanted f m v a = record {
  opened = a.opened;
  known = a.known;
  newer = a.newer;
  after = λ ms e.
      waiting-AllBefore f.frame_id m.frame_id ms (v.waiting m.player_id ms e)
        (subst (λ o. is_stale o m.frame_id ≡ false) e a.later);
}

IsWanted-Accepts : (f : FrameLoop) (m : Message) → IsWanted f m → Accepts f m
IsWanted-Accepts f m w = record {
  opened = w.opened;
  known = w.known;
  newer = w.newer;
  later = queued-fresh m.frame_id (lookup m.player_id f.queue) w.after;
}

-- In a valid loop Write accepts a message exactly when the loop is open, the player is registered, and
-- the message's frame is after the current one and after that of every message that the player has in
-- the queue.
pub write_iff :
    (f : FrameLoop) (m : Message)
    → IsValid f
    → ((f' : FrameLoop) × (write f m ≡ ok f')) ↔ IsWanted f m
write_iff f m v = (
  λ (f', e). Accepts-IsWanted f m v (write-Accepts f f' m e).0,
  λ w. (appended f m, Accepts-write f m (IsWanted-Accepts f m w)),
)

appended-IsValid : (f : FrameLoop) (m : Message) → IsValid f → Accepts f m → IsValid (appended f m)
appended-IsValid f m v a = record {
  waiting = λ p ms e.
      lookup-insert_elim (Waiting f.frame_id) q p new ms f.queue e
        (Waiting-snoc f.frame_id (lookup q f.queue) m (v.waiting q) a.later a.newer)
        (v.waiting p ms);
  registered =
      λ p e. ground (arith, has-insert q p new f.queue, eq_iff q p, v.registered p, a.known);
  timed = v.timed;
  paced = v.paced;
}
  where
    q : String
    q = m.player_id

    new : List Message
    new = queued (lookup q f.queue) ++ (m ∷ [])

appended_inputs :
    (f : FrameLoop) (m : Message) (id now : ℕ)
    → Accepts f m
    → (if has m.player_id (appended f m).ids
        then some (inputs_of (appended f m).queue id now m.player_id)
        else none)
      ≡ some (queued (lookup m.player_id f.queue) ++ (m ∷ []))
unfolding inputs_of
appended_inputs f m id now a =
    let new = queued (lookup m.player_id f.queue) ++ (m ∷ []) in
    rw (a.known, lookup-insert_self m.player_id new f.queue)

pub write-IsValid : (f f' : FrameLoop) (m : Message) → IsValid f → write f m ≡ ok f' → IsValid f'
write-IsValid f f' m v e =
    let (a, same) = write-Accepts f f' m e in subst IsValid (sym same) (appended-IsValid f m v a)

-- An accepted message is the last of its player's messages in the next frame, behind those that
-- the player had queued before.
pub write_delivers :
    (f f' : FrameLoop) (m : Message) (now : ℕ)
    → IsValid f
    → write f m ≡ ok f'
    → (g : FrameLoop) × (inputs : Dict String (List Message)) × (exec f' now
        ≡ some (g, frame_calls f' inputs))
      × (lookup m.player_id inputs ≡ some (queued (lookup m.player_id f.queue) ++ (m ∷ [])))
write_delivers f f' m now v e =
    let (g, inputs, ran, x) = exec_lem f' now (valid-Filled f' (write-IsValid f f' m v e)) in
    let (a, same) = write-Accepts f f' m e in
    (g, inputs, ran, x.given m.player_id ∙ rw same (appended_inputs f m (next_id f) now a))
