-- ===== src/Frame/Inv.antt =====
-- Every event keeps the frame loop valid, and none makes it panic while its frequency is at most one
-- per nanosecond.
use Prim.Native.String.{String}
use mathlib.Core.Path.{subst}
use mathlib.Core.Bool.{false≢true}
use czx.Base.{
  ℕ, ◌/◌, ◌≤◌, ◌<◌, ◌≡◌, ◌≢◌, refl, sym, ◌∙◌, Bool, true, false, List, [], ◌∷◌, ◌++◌, Option, none,
  some, arith, string_eq, Option-cases, inl, inr, Result, ok, err, ◌==◌, if_cases, length, ltb,
}
use czx.Base.Dict.{lookup, has, lookup-erase, has-insert, has-erase}
use czx.Frame.{
  Message, FrameLoop, new_frame_loop, LoopError, Effect, write, exec, second, period, reset, pause,
  resume, register_player, delete_player, start, tick, take_adjust, return_of_start, stop,
  stop_rest, set_frequency, flag_started, flag_paused,
}
use czx.Frame.Exec.{exec_lem}
use czx.Frame.Write.{IsValid, valid-Filled, write-IsValid}

pub data Event : Type 0 where
  writes : Message → Event
  registers deletes : String → Event
  resets frequencies ticks stops : ℕ → Event
  starts returns adjusts pauses resumes : Event

-- A call that fails leaves the loop as it was.
abbrev after_error : FrameLoop → Result LoopError FrameLoop → FrameLoop
after_error f (ok f') = f'
after_error f (err e) = f

abbrev after_start :
    FrameLoop → Option (Result LoopError FrameLoop) → Option (FrameLoop × List Effect)
after_start f none = none
after_start f (some r) = some (after_error f r, [])

-- What an event makes of the loop, and the calls of the processor; `none` is a panic.
pub step : FrameLoop → Event → Option (FrameLoop × List Effect)
step f (writes m) = some (after_error f (write f m), [])
step f (registers p) = some (register_player f p)
step f (deletes p) = some (delete_player f p, [])
step f (resets id) = some (reset f id, [])
step f (frequencies n) = some (after_error f (set_frequency f n), [])
step f (ticks now) = tick f now
step f (stops now) = stop f now
step f starts = after_start f (start f)
step f returns = some (return_of_start f, [])
step f adjusts = take_adjust f
step f pauses = some ((pause f).1, [])
step f resumes = some ((resume f).1, [])

-- No event asks for more than one frame in a nanosecond.
abbrev pub IsPaced : Event → Type 0
IsPaced (frequencies n) = n ≤ second
IsPaced (writes m) = Unit {0}
IsPaced _ = Unit {0}

-- The event has a result, and that is valid.
abbrev Runs : Option (FrameLoop × List Effect) → Type 0
Runs r = (out : FrameLoop × List Effect) × (r ≡ some out) × IsValid out.0

lookup_nil-ne : {V : Type 0} (p : String) (v : V) → lookup p [] ≢ some v
unfolding lookup
lookup_nil-ne p v e = cc

has_nil : (p : String) → has {V = List Message} p [] ≢ true
unfolding has lookup
has_nil p e = false≢true e

empty-IsValid : (f : FrameLoop) → f.queue ≡ [] → 0 < f.frequency → f.frequency ≤ second → IsValid f
empty-IsValid f e t r = record {
  waiting = λ p ms found. absurd (lookup_nil-ne p ms (rw e at found));
  registered = λ p found. absurd (has_nil p (rw e at found));
  timed = t;
  paced = r;
}

div_pos : (n m : ℕ) → 0 < n → n ≤ m → 0 < m / n
div_pos n m h k = grind arith

period_pos : (f : FrameLoop) → IsValid f → (period f == 0) ≡ false
unfolding period
period_pos f v = ground (arith, div_pos f.frequency second v.timed v.paced)

queue-reset : (f : FrameLoop) (id : ℕ) → (reset f id).queue ≡ []
unfolding reset
queue-reset f id = refl

timed-reset : (f : FrameLoop) (id : ℕ) → (reset f id).frequency ≡ f.frequency
unfolding reset
timed-reset f id = refl

delete-IsValid : (f : FrameLoop) (q : String) → IsValid f → IsValid (delete_player f q)
unfolding delete_player
delete-IsValid f q v = record {
  waiting = λ p ms e. v.waiting p ms (ground (arith, lookup-erase q p f.queue));
  registered = λ p e. ground (arith, has-erase q p f.queue, has-erase q p f.ids, v.registered p);
  timed = v.timed;
  paced = v.paced;
}

pub register-IsValid : (f : FrameLoop) (q : String) → IsValid f → IsValid (register_player f q).0
unfolding register_player
register-IsValid f q v = elim (Option-cases (lookup q f.ids)) [
  | inl e ↦
      rw (e, register_player)
        (record {
          waiting = v.waiting;
          registered = λ p e. ground (arith, has-insert q p f.frame_id f.ids, v.registered p);
          timed = v.timed;
          paced = v.paced;
        })
  | inr (n, e) ↦ rw (e, register_player) v
]

exec-Runs : (f : FrameLoop) (now : ℕ) → IsValid f → Runs (exec f now)
exec-Runs f now v =
    let (f', inputs, ran, x) = exec_lem f now (valid-Filled f v) in
    let (ids, same) = x.rest_kept in
    ((f', _), ran, subst IsValid (sym same) (empty-IsValid _ refl v.timed v.paced))

-- The flags and the channels have no part in the invariant.
flags-IsValid :
    (f : FrameLoop) (adjust done : Bool) (flag : ℕ)
    → IsValid f
    → IsValid (record f { adjust = adjust; done = done; flag = flag })
flags-IsValid f adjust done flag v = record {
  waiting = v.waiting;
  registered = v.registered;
  timed = v.timed;
  paced = v.paced;
}

stop_rest-Runs : (f : FrameLoop) (now : ℕ) → IsValid f → Runs (stop_rest f now)
unfolding stop_rest
stop_rest-Runs f now v =
    let ((f', out), ran, valid) = exec-Runs f now v in
    if_cases Runs (ltb 0 (length f.queue)) _ _ (λ _. rw (ran, stop_rest) (_, refl, valid))
      (λ _. (_, refl, v))

stop-Runs : (f : FrameLoop) (now : ℕ) → IsValid f → Runs (stop f now)
unfolding stop
stop-Runs f now v =
    if_cases Runs f.done _ _ (λ _. (_, refl, v))
      (λ _. stop_rest-Runs _ now (flags-IsValid f f.adjust true 0 v))

tick-Runs : (f : FrameLoop) (now : ℕ) → IsValid f → Runs (tick f now)
unfolding tick
tick-Runs f now v =
    if_cases Runs (f.flag == flag_paused) _ _ (λ _. (_, refl, v)) (λ _. exec-Runs f now v)

start-Runs : (f : FrameLoop) → IsValid f → Runs (after_start f (start f))
unfolding start
start-Runs f v =
    let P : Option (Result LoopError FrameLoop) → Type 0 = λ r. Runs (after_start f r) in
    if_cases P (f.flag == 0) _ _
      (λ _.
        if_cases P (period f == 0) _ _
          (λ none_left. absurd (false≢true (sym (period_pos f v) ∙ none_left)))
          (λ _.
            if_cases P f.proc _ _ (λ _. (_, refl, flags-IsValid f f.adjust f.done flag_started v))
              (λ _. (_, refl, v))))
      (λ _. (_, refl, v))

adjust-Runs : (f : FrameLoop) → IsValid f → Runs (take_adjust f)
unfolding take_adjust
adjust-Runs f v =
    if_cases Runs (period f == 0) _ _
      (λ none_left. absurd (false≢true (sym (period_pos f v) ∙ none_left)))
      (λ _. (_, refl, flags-IsValid f false f.done f.flag v))

frequency-IsValid :
    (f : FrameLoop) (n : ℕ) → n ≤ second → IsValid f → IsValid (after_error f (set_frequency f n))
unfolding set_frequency
frequency-IsValid f n h v =
    if_cases (λ r. IsValid (after_error f r)) (n == 0) _ _ (λ _. v)
      (λ some_rate. record {
        waiting = v.waiting;
        registered = v.registered;
        timed = ground arith;
        paced = h;
      })

after_write :
    (f : FrameLoop) (m : Message) (r : Result LoopError FrameLoop)
    → write f m ≡ r
    → IsValid f
    → IsValid (after_error f r)
after_write f m (ok f') e v = write-IsValid f f' m v e
after_write f m (err x) e v = v

pause-IsValid : (f : FrameLoop) → IsValid f → IsValid (pause f).1 × IsValid (resume f).1
unfolding pause resume
pause-IsValid f v = (
  if_cases (λ (r : Bool × FrameLoop). IsValid r.1) (f.flag == flag_started) _ _
      (λ _. flags-IsValid f f.adjust f.done flag_paused v) (λ _. v),
  if_cases (λ (r : Bool × FrameLoop). IsValid r.1) (f.flag == flag_paused) _ _
      (λ _. flags-IsValid f f.adjust f.done flag_started v) (λ _. v),
)

-- From a valid loop, each event returns and leaves a valid loop, if it asks for no more than one
-- frame in a nanosecond: no index is out of range, and no ticker is without a period.
pub step-IsValid : (f : FrameLoop) (e : Event) → IsPaced e → IsValid f → Runs (step f e)
unfolding step
step-IsValid f (writes m) h v = (_, refl, after_write f m (write f m) refl v)
step-IsValid f (registers p) h v = (_, refl, register-IsValid f p v)
step-IsValid f (deletes p) h v = (_, refl, delete-IsValid f p v)
step-IsValid f (resets id) h v = (
  _,
  refl,
  empty-IsValid _ (queue-reset f id) (rw (timed-reset f id) v.timed)
      (rw (timed-reset f id) v.paced),
)
step-IsValid f (frequencies n) h v = (_, refl, frequency-IsValid f n h v)
step-IsValid f (ticks now) h v = tick-Runs f now v
step-IsValid f (stops now) h v = stop-Runs f now v
step-IsValid f starts h v = start-Runs f v
step-IsValid f returns h v =
    (_, refl, unfold return_of_start in flags-IsValid f f.adjust f.done 0 v)
step-IsValid f adjusts h v = adjust-Runs f v
step-IsValid f pauses h v = (_, refl, (pause-IsValid f v).0)
step-IsValid f resumes h v = (_, refl, (pause-IsValid f v).1)

-- A whole history, with the calls of the processor in turn.
pub run : FrameLoop → List Event → Option (FrameLoop × List Effect)
run f [] = some (f, [])
run f (e ∷ es) = elim (step f e) [
  | none ↦ none
  | some (f', out) ↦ elim (run f' es) [ none ↦ none | some (g, more) ↦ some (g, out ++ more) ]
]

abbrev pub AllPaced : List Event → Type 0
AllPaced [] = Unit {0}
AllPaced (e ∷ es) = IsPaced e × AllPaced es

-- A history of events, none of which asks for more than one frame in a nanosecond, does not make a
-- valid loop panic, and leaves it valid.
pub run-IsValid : (f : FrameLoop) (es : List Event) → AllPaced es → IsValid f → Runs (run f es)
unfolding run
run-IsValid f [] h v = (_, refl, v)
run-IsValid f (e ∷ es) h v =
    let ((f', out), ran, valid) = step-IsValid f e h.0 v in
    let ((g, more), rest, end) = run-IsValid f' es h.1 valid in
    ((g, out ++ more), rw (ran, run, rest), end)

-- A new loop with a frequency in the range is valid.
pub new_frame_loop-IsValid : (n : ℕ) → n ≤ second → IsValid (new_frame_loop n)
unfolding new_frame_loop
new_frame_loop-IsValid n h = empty-IsValid (new_frame_loop n) refl (ground arith) (ground arith)
