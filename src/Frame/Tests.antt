-- ===== src/Frame/Tests.antt =====
-- A loop with one player and one message for its next frame.
use Prim.Native.String.{String}
use czx.Base.{string_eq, ◌↔◌, ◌≡◌, List, [], ◌∷◌, ◌++◌, some, refl, arith, ok}
use czx.Base.Dict.{Dict, lookup, insert, has}
use czx.Frame.{
  Message, FrameLoop, Effect, new_frame_loop, register_player, write, exec, is_stale, queued,
  last_of,
}
use czx.Frame.Exec.{Executed, frame_calls, exec_lem}
use czx.Frame.Write.{IsValid, IsWanted, appended, valid-Filled, write_iff, write_delivers}
use czx.Frame.Inv.{
  Event, writes, registers, ticks, stops, starts, pauses, resets, run, AllPaced, run-IsValid,
  new_frame_loop-IsValid, register-IsValid,
}

abbrev lobby : FrameLoop
lobby = (register_player (new_frame_loop 30) "ann").0

lobby-IsValid : IsValid lobby
lobby-IsValid = register-IsValid (new_frame_loop 30) "ann" (new_frame_loop-IsValid 30 (omega arith))

abbrev first_move : Message
first_move = record { player_id = "ann"; payload = 7 ∷ []; timestamp = 0; frame_id = 1 }

abbrev history : List Event
history =
    starts
    ∷ registers "bob"
    ∷ writes first_move
    ∷ ticks 5
    ∷ pauses
    ∷ ticks 6
    ∷ resets 9
    ∷ stops 7
    ∷ []

paced : AllPaced history
paced = (tt, (tt, (tt, (tt, (tt, (tt, (tt, (tt, tt))))))))

run-IsValid_example :
    (out : FrameLoop × List Effect) × (run lobby history ≡ some out) × IsValid out.0
run-IsValid_example = run-IsValid lobby history paced lobby-IsValid

lobby_accepts : write lobby first_move ≡ ok (appended lobby first_move)
unfolding write register_player new_frame_loop has lookup insert is_stale last_of
lobby_accepts = refl

exec_lem_example :
    (f' : FrameLoop) × (inputs : Dict String (List Message)) × (exec lobby 5
      ≡ some (f', frame_calls lobby inputs))
    × Executed lobby 5 f' inputs
exec_lem_example = exec_lem lobby 5 (valid-Filled lobby lobby-IsValid)

write_delivers_example :
    (g : FrameLoop) × (inputs : Dict String (List Message)) × (exec (appended lobby first_move) 5
      ≡ some (g, frame_calls (appended lobby first_move) inputs))
    × (lookup "ann" inputs ≡ some (queued (lookup "ann" lobby.queue) ++ (first_move ∷ [])))
write_delivers_example =
    write_delivers lobby (appended lobby first_move) first_move 5 lobby-IsValid lobby_accepts

write_iff_example :
    ((f' : FrameLoop) × (write lobby first_move ≡ ok f')) ↔ IsWanted lobby first_move
write_iff_example = write_iff lobby first_move lobby-IsValid
