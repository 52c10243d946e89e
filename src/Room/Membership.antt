-- ===== src/Room/Membership.antt =====
-- room/room.go: who is in the room after a call of Join.
use Prim.Native.String.{String}
use czx.Base.{
  ◌≡◌, ◌∙◌, sym, ap, refl, true, false, Option, none, some, if◌then◌else◌, if_cases, string_eq,
}
use czx.Base.Int.{geb}
use czx.Container.CMap.{len, has_key, set_key}
use czx.Container.CMap.Refine.{has_key-set_key, has_key-delete}
use czx.Room.{
  Room, RoomError, JoinError, has_player, join_reserve, join_settle, asked_join, to_error, join,
  join_rest,
}

module _ {L E : Type 0} where
  -- What a call of Join, with its result, makes of the presence of a player.
  unfoldable pub Joined : Room L E → String → String → Room L E × Option (JoinError E) → Type 0
  Joined r id who (after, some _) = has_player after who ≡ has_player r who
  Joined r id who (after, none) =
      (has_player r id ≡ false)
      × (has_player after who ≡ (if string_eq.beq id who then true else has_player r who))

  settle-Joined :
      (r : Room L E) (id who : String) (answer : Option E)
      → has_key r.players id ≡ false
      → Joined r id who
          (join_settle (record r { players = set_key r.players id tt }) id answer, to_error answer)
  unfolding Joined has_player join_settle
  settle-Joined r id who none new = (new, has_key-set_key r.players id who tt)
  settle-Joined r id who (some e) new =
      has_key-delete (set_key r.players id tt) id who
      ∙ ap (λ b. if string_eq.beq id who then false else b) (has_key-set_key r.players id who tt)
      ∙ if_cases (λ b. b ≡ has_key r.players who) (string_eq.beq id who) false _
          (λ same. let p : id ≡ who = (string_eq.beq_iff id who).0 same in sym (rw (← p) new))
          (λ other. rw other refl)

  -- After Join returns an error, of the room or of the processor, exactly those are in the room who
  -- were in it before; after it returns none, they and the new player, who was not in it.
  pub join-Joined : (r : Room L E) (id who : String) → Joined r id who (join r id)
  unfolding join join_reserve
  join-Joined r id who =
      let P = λ (s : Room L E × Option RoomError). Joined r id who (join_rest r.processor id s) in
      if_cases P (has_key r.players id) _ _ (λ _. unfold Joined in refl)
        (λ new.
          if_cases P (geb (len r.players) r.max_players) _ _ (λ _. unfold Joined in refl)
            (λ _. settle-Joined r id who (asked_join r.processor id) new))
