-- ===== src/Frame.antt =====
-- frame/frame.go, frame/loop.go and frame/message.go: the loop that collects the players' messages
-- and hands them to the processor frame by frame. Each method holds the loop's mutex while it works
-- on the state, so a call is one step. What the processor is called with is the output of a step.
mod Tests
pub mod Exec
pub mod Write
pub mod Inv
pub mod Normal
pub mod Manager
use Prim.Native.String.{String}
use czx.Base.{
  ℕ, zero, suc, ◌+◌, ◌-◌, ◌/◌, ◌%◌, ◌^◌, ◌≤◌, Bool, true, false, List, [], ◌∷◌, ◌++◌, Option, none,
  some, ltb, leb, ◌==◌, if◌then◌else◌, length, Result, ok, err, string_eq, map,
}
use czx.Base.Int.{ℤ, of_uint64}
use czx.Base.Dict.{Dict, lookup, insert, erase, has}

-- Times are numbers; the zero time is 0.
pub record Message : Type 0 where
  pub player_id : String
  pub payload : List ℕ
  pub timestamp : ℕ
  pub frame_id : ℕ

pub record Frame : Type 0 where
  pub frame_id : ℕ
  pub inputs : Dict String (List Message)

-- `flagStarted` and `flagPaused`: the `iota` of their block is 2 and 3 there.
abbrev pub flag_started : ℕ
flag_started = 3

abbrev pub flag_paused : ℕ
flag_paused = 4

abbrev pub default_frequency : ℕ
default_frequency = 30

-- time.Second, in nanoseconds
abbrev pub second : ℕ
second = 1_000_000_000

-- `proc` and `adjust` say whether a processor is set and whether the channel of one place is full.
pub record FrameLoop : Type 0 where
  pub frequency : ℕ
  pub proc : Bool
  pub adjust : Bool
  pub frame_id : ℕ
  pub queue : Dict String (List Message)
  pub ids : Dict String ℕ
  pub done : Bool
  pub flag : ℕ

pub data LoopError : Type 0 where
  zero_frequency already_started no_processor loop_closed not_registered stale past_frame :
      LoopError

-- A call of the processor.
pub data Effect : Type 0 where
  process : Frame → Effect
  resend : String → ℤ → Effect
  on_close : Effect

pub new_frame_loop : ℕ → FrameLoop
new_frame_loop frequency = record {
  frequency = if frequency == 0 then default_frequency else frequency;
  proc = false;
  adjust = false;
  frame_id = 0;
  queue = [];
  ids = [];
  done = false;
  flag = 0;
}

-- The method Frequency.
pub set_frequency : FrameLoop → ℕ → Result LoopError FrameLoop
set_frequency f n =
    if n == 0 then err zero_frequency else ok (record f { frequency = n; adjust = true })

pub with_proc : FrameLoop → FrameLoop
with_proc f = record f { proc = true }

-- `time.Second / time.Duration(f.conf.Frequency)`
pub period : FrameLoop → ℕ
period f = second / f.frequency

pub reset : FrameLoop → ℕ → FrameLoop
reset f id = record f { frame_id = id; ids = map (λ (p, old). (p, id)) f.ids; queue = [] }

-- `input[len(input)-1]`
pub last_of : List Message → Option Message
last_of [] = none
last_of (m ∷ []) = some m
last_of (m ∷ n ∷ ms) = last_of (n ∷ ms)

abbrev pub empty_message : String → ℕ → ℕ → Message
empty_message p id now = record { player_id = p; payload = []; timestamp = now; frame_id = id }

-- The loop of `exec` over the registered players; `none` is the panic of an index out of range.
pub exec_loop :
    Dict String (List Message)
    → ℕ
    → ℕ
    → Dict String ℕ
    → Dict String (List Message)
    → Dict String ℕ
    → Option (Dict String (List Message) × Dict String ℕ)
exec_loop queue id now [] inputs ids = some (inputs, ids)
exec_loop queue id now ((p, old) ∷ rest) inputs ids = elim (lookup p queue) [
  | some input ↦ elim (last_of input) [
    | some m ↦ exec_loop queue id now rest (insert p input inputs) (insert p m.frame_id ids)
    | none ↦ none
  ]
  | none ↦ exec_loop queue id now rest (insert p (empty_message p id now ∷ []) inputs) ids
]

abbrev pub next_id : FrameLoop → ℕ
next_id f = (f.frame_id + 1) % 2 ^ 64

pub exec : FrameLoop → ℕ → Option (FrameLoop × List Effect)
exec f now =
    let id = next_id f in
    elim (exec_loop f.queue id now f.ids [] f.ids) [
      | none ↦ none
      | some (inputs, ids) ↦ some (
        record f { frame_id = id; ids = ids; queue = [] },
        if f.proc then process (record { frame_id = id; inputs = inputs }) ∷ [] else [],
      )
    ]

pub pause : FrameLoop → Bool × FrameLoop
pause f = if f.flag == flag_started then (true, record f { flag = flag_paused }) else (false, f)

pub resume : FrameLoop → Bool × FrameLoop
resume f = if f.flag == flag_paused then (true, record f { flag = flag_started }) else (false, f)

pub register_player : FrameLoop → String → FrameLoop × List Effect
register_player f p = elim (lookup p f.ids) [
  | none ↦ (record f { ids = insert p f.frame_id f.ids }, [])
  | some last ↦ (f, if f.proc then resend p (of_uint64 last) ∷ [] else [])
]

pub delete_player : FrameLoop → String → FrameLoop
delete_player f p = record f { ids = erase p f.ids; queue = erase p f.queue }

-- `len(existing) > 0` and the last frame of `existing` not below the message's
pub is_stale : Option (List Message) → ℕ → Bool
is_stale none id = false
is_stale (some existing) id = elim (last_of existing) [ none ↦ false | some m ↦ leb id m.frame_id ]

-- `f.queue[in.PlayerID]`, the nil slice where there is none
abbrev pub queued : Option (List Message) → List Message
queued none = []
queued (some ms) = ms

pub write : FrameLoop → Message → Result LoopError FrameLoop
write f m = if f.done then err loop_closed else (elim (has m.player_id f.ids) [
  | false ↦ err not_registered
  | true ↦
      if is_stale (lookup m.player_id f.queue) m.frame_id
      then err stale
      else if leb m.frame_id f.frame_id
      then err past_frame
      else ok (record f {
        queue = insert m.player_id (queued (lookup m.player_id f.queue) ++ (m ∷ [])) f.queue;
      })
])

-- The end of `Stop`, when the loop has returned: what is queued is one last frame.
pub stop_rest : FrameLoop → ℕ → Option (FrameLoop × List Effect)
stop_rest f now =
    let closing = if f.proc then on_close ∷ [] else [] in
    let last = exec f now in
    if ltb 0 (length f.queue)
    then (elim last [ none ↦ none | some (f', out) ↦ some (f', out ++ closing) ])
    else some (f, closing)

-- Stop runs once: a later call finds `done` closed.
pub stop : FrameLoop → ℕ → Option (FrameLoop × List Effect)
stop f now = if f.done then some (f, []) else stop_rest (record f { done = true; flag = 0 }) now

-- The first lines of Start, up to its loop: `none` is the panic of a ticker with no period.
pub start : FrameLoop → Option (Result LoopError FrameLoop)
start f =
    if f.flag == 0
    then if period f == 0
      then none
      else if f.proc
      then some (ok (record f { flag = flag_started }))
      else some (err no_processor)
    else some (err already_started)

-- The return of Start, on `done` or on the end of its context.
pub return_of_start : FrameLoop → FrameLoop
return_of_start f = record f { flag = 0 }

-- `case <-ticker.C`
pub tick : FrameLoop → ℕ → Option (FrameLoop × List Effect)
tick f now = let ran = exec f now in if f.flag == flag_paused then some (f, []) else ran

-- `case <-f.adjust`: the ticker is reset, and panics with no period.
pub take_adjust : FrameLoop → Option (FrameLoop × List Effect)
take_adjust f = if period f == 0 then none else some (record f { adjust = false }, [])
