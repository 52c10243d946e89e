-- ===== src/Player/Closed.antt =====
-- Close takes every player of the manager out of its heartbeat.
use mathlib.Core.Path.{subst}
use Prim.Native.String.{String}
use czx.Base.Dict.{Dict, lookup, erase, has, has-erase}
use czx.Base.{
  ℕ, ◌≡◌, refl, sym, ap, ◌∙◌, Bool, true, false, ◌||◌, List, [], ◌∷◌, Option, none, some, arith,
  ◌==◌, map, string_eq, nat_eq, if_cases, inl, inr, Bool-cases,
}
use czx.Player.{
  Manager, put, the_heartbeat, call_agent, closes, close_player, all_players, close_all, close,
}
use czx.Player.Registered.{IsRegistered, IsFree, HasAgent}

abbrev mem : ℕ → List ℕ → Bool
mem q [] = false
mem q (p ∷ ps) = (p == q) || mem q ps

lookup-mem :
    (i : String) (q : ℕ) (d : Dict String ℕ)
    → lookup i d ≡ some q
    → mem q (map (λ (id, p). p) d) ≡ true
unfolding lookup
lookup-mem i q [] h = absurd (cc h)
lookup-mem i q ((j, p) ∷ d) h = ground (arith, lookup-mem i q d)

-- The agent's call changes nothing else.
same_but_calls :
    (m : Manager) (o : Option ℕ)
    → ((call_agent m o closes).players ≡ m.players)
      × ((call_agent m o closes).store ≡ m.store)
      × ((call_agent m o closes).heartbeat ≡ m.heartbeat)
      × ((call_agent m o closes).registered ≡ m.registered)
same_but_calls m none = (refl, refl, refl, refl)
same_but_calls m (some a) = (refl, refl, refl, refl)

-- A player leaves the heartbeat that it has, and no player enters one.
close_player-has :
    (hb : ℕ) (m : Manager) (p q : ℕ)
    → has q ((close_player m p).registered hb) ≡ true
    → (has q (m.registered hb) ≡ true) × ((m.store q).heartbeat ≡ some hb → (p == q) ≡ false)
unfolding close_player
close_player-has hb m p q h = after (m.store p).agent h
  where
    another :
        {k : ℕ}
        → (m.store q).heartbeat ≡ some hb
        → k ≡ the_heartbeat (m.store p).heartbeat
        → (k == hb) ≡ false
        → (p == q) ≡ false
    another {k} own e other = elim (Bool-cases (p == q)) [
      | inl same ↦
          let it : p ≡ q = ground arith in
          let k_hb : k ≡ hb =
            e ∙ ap (λ j. the_heartbeat (m.store j).heartbeat) it ∙ ap the_heartbeat own in
          absurd (ground arith)
      | inr differs ↦ differs
    ]

    erased :
        (r : ℕ → Dict ℕ (Unit {0})) (k : ℕ)
        → k ≡ the_heartbeat (m.store p).heartbeat
        → has q (put r k (erase p (r k)) hb) ≡ true
        → (has q (r hb) ≡ true) × ((m.store q).heartbeat ≡ some hb → (p == q) ≡ false)
    erased r k e h = elim (Bool-cases (k == hb)) [
      | inl same ↦
          let it : k ≡ hb = ground arith in
          let gone : has q (erase p (r k)) ≡ true = rw same at h in
          let was : (has q (r k) ≡ true) × ((p == q) ≡ false) =
            ground (arith, has-erase p q (r k)) in
          (ap (λ j. has q (r j)) (sym it) ∙ was.0, λ own. was.1)
      | inr other ↦ (rw other at h, λ own. another own e other)
    ]

    after :
        (o : Option ℕ)
        → has q (
            put
              (call_agent m o closes).registered
              (the_heartbeat ((call_agent m o closes).store p).heartbeat)
              (erase p (
                (call_agent m o closes).registered
                  (the_heartbeat ((call_agent m o closes).store p).heartbeat)))
              hb)
          ≡ true
        → (has q (m.registered hb) ≡ true) × ((m.store q).heartbeat ≡ some hb → (p == q) ≡ false)
    after none h = erased m.registered _ refl h
    after (some a) h = erased m.registered _ refl h

close_player-store : (m : Manager) (p : ℕ) → (close_player m p).store ≡ m.store
unfolding close_player
close_player-store m p = (same_but_calls m (m.store p).agent).1

close_player-heartbeat : (m : Manager) (p : ℕ) → (close_player m p).heartbeat ≡ m.heartbeat
unfolding close_player
close_player-heartbeat m p = (same_but_calls m (m.store p).agent).2

pub close_all-store : (ps : List ℕ) (m : Manager) → (close_all ps m).store ≡ m.store
unfolding close_all
close_all-store [] m = refl
close_all-store (p ∷ ps) m = close_all-store ps (close_player m p) ∙ close_player-store m p

close_all-heartbeat : (ps : List ℕ) (m : Manager) → (close_all ps m).heartbeat ≡ m.heartbeat
unfolding close_all
close_all-heartbeat [] m = refl
close_all-heartbeat (p ∷ ps) m =
    close_all-heartbeat ps (close_player m p) ∙ close_player-heartbeat m p

-- A player that stays registered was so before, and is not one of those closed if it has that
-- heartbeat.
close_all-has :
    (hb : ℕ) (ps : List ℕ) (m : Manager) (q : ℕ)
    → has q ((close_all ps m).registered hb) ≡ true
    → (has q (m.registered hb) ≡ true) × ((m.store q).heartbeat ≡ some hb → mem q ps ≡ false)
unfolding close_all
close_all-has hb [] m q h = (h, λ own. refl)
close_all-has hb (p ∷ ps) m q h =
    let later = close_all-has hb ps (close_player m p) q h in
    let now = close_player-has hb m p q later.0 in
    (
      now.0,
      λ own.
          ground
            (arith, now.1 own, later.1 (ap (λ s. (s q).heartbeat) (close_player-store m p) ∙ own)),
    )

abbrev nobody_left : Dict String ℕ
nobody_left = []

pub close-IsRegistered : (hb : ℕ) (m : Manager) → IsRegistered hb m → IsRegistered hb (close m)
unfolding close all_players
close-IsRegistered hb m r =
    if_cases (IsRegistered hb) m.closed _ _ (λ closed. r)
      (λ open'. record {
        heartbeat = close_all-heartbeat (all_players m) (record m { closed = true }) ∙ r.heartbeat;
        free = λ p.
            subst (λ s. IsFree hb (s p))
              (sym (close_all-store (all_players m) (record m { closed = true }))) (r.free p);
        agent = λ p.
            subst (λ s. HasAgent (s p))
              (sym (close_all-store (all_players m) (record m { closed = true }))) (r.agent p);
        own = λ i p h. absurd (nothing i p h);
        beats = λ i p h. absurd (nothing i p h);
        there = λ p h.
            absurd (nobody p (close_all-has hb (all_players m) (record m { closed = true }) p h));
      })
  where
    nothing : (i : String) (p : ℕ) → lookup i nobody_left ≡ some p → ⊥
    nothing i p h = unfold lookup in absurd (cc h)

    nobody :
        (p : ℕ)
        → (has p (m.registered hb) ≡ true)
          × ((m.store p).heartbeat ≡ some hb → mem p (all_players m) ≡ false)
        → ⊥
    nobody p (h, gone) =
        let found = r.there p h in
        ground (arith, lookup-mem (m.store p).id p m.players found, gone (r.own _ p found).1)
