-- ===== src/Player/Calls.antt =====
-- Every call of a manager keeps the players in it those registered with its heartbeat.
use mathlib.Core.Path.{subst}
use Prim.Native.String.{String}
use czx.Base.Dict.{lookup, insert, has}
use czx.Base.{
  ℕ, ◌≡◌, sym, inl, inr, Bool, true, false, not, List, [], ◌∷◌, Option, none, some, string_eq,
  nat_eq, Option-cases, if_cases,
}
use czx.Player.{
  Player, Message, Call, Manager, unregister, the_heartbeat, stop_heartbeat, without, call_agent,
  closes, destroys, add, add_to, delete, deleted, remove, removed, start, close_player,
  destroy_player, all_players,
}
use czx.Player.Broadcast.{send, send_to, sent, contains}
use czx.Player.Requests.{
  Request, Keeps, AllKeep, sets_heartbeat, adds, deletes, removes, starts_beating, closes_all,
  broadcasts, broadcasts_excepts, broadcasts_to, broadcasts_by, answer, run,
}
use czx.Player.Closed.{close-IsRegistered}
use czx.Player.Registered.{
  IsRegistered, HasAgent, left, left-IsRegistered, joined, joined-IsRegistered,
}

-- What is called does not matter.
called-IsRegistered :
    (hb : ℕ) (m : Manager) (calls : List Call)
    → IsRegistered hb m
    → IsRegistered hb (record m { calls = calls })
called-IsRegistered hb m calls r = record {
  heartbeat = r.heartbeat;
  free = r.free;
  agent = r.agent;
  own = r.own;
  beats = r.beats;
  there = r.there;
}

call_agent-IsRegistered :
    (hb : ℕ) (m : Manager) (o : Option ℕ) (c : ℕ → Call)
    → IsRegistered hb m
    → IsRegistered hb (call_agent m o c)
call_agent-IsRegistered hb m none c r = r
call_agent-IsRegistered hb m (some a) c r = called-IsRegistered hb m _ r

add-IsRegistered : (hb : ℕ) (m : Manager) (p : ℕ) → IsRegistered hb m → IsRegistered hb (add m p).1
unfolding add
add-IsRegistered hb m p r =
    if_cases (λ (a : Bool × Manager). IsRegistered hb a.1) (has (m.store p).id m.players) _ _
      (λ there. r)
      (λ fresh.
        subst
          (λ o.
            IsRegistered hb (add_to (record m { players = insert (m.store p).id p m.players }) p o))
          (sym r.heartbeat) (unfold joined in joined-IsRegistered hb m p r fresh))

-- A player in the manager leaves.
stop_heartbeat-IsRegistered :
    (hb : ℕ) (m : Manager) (i : String) (p : ℕ)
    → IsRegistered hb m
    → lookup i m.players ≡ some p
    → IsRegistered hb (without i (stop_heartbeat m p))
unfolding stop_heartbeat
stop_heartbeat-IsRegistered hb m i p r found =
    subst (λ o. IsRegistered hb (without i (unregister m (the_heartbeat o) p)))
      (sym (r.own i p found).1) (unfold left unregister in left-IsRegistered hb m i p r found)

delete-IsRegistered :
    (hb : ℕ) (m : Manager) (i : String) → IsRegistered hb m → IsRegistered hb (delete m i)
unfolding delete
delete-IsRegistered hb m i r = elim (Option-cases (lookup i m.players)) [
  | inl none' ↦ subst (λ o. IsRegistered hb (deleted m i o)) (sym none') r
  | inr (p, found) ↦
      subst (λ o. IsRegistered hb (deleted m i o)) (sym found)
        (stop_heartbeat-IsRegistered hb m i p r found)
]

-- With the call of its agent before or behind.
close_player-IsRegistered :
    (hb : ℕ) (m : Manager) (i : String) (p : ℕ)
    → IsRegistered hb m
    → lookup i m.players ≡ some p
    → IsRegistered hb (without i (close_player m p))
unfolding close_player
close_player-IsRegistered hb m i p r found = with_agent (m.store p).agent
  where
    with_agent :
        (o : Option ℕ) → IsRegistered hb (without i (stop_heartbeat (call_agent m o closes) p))
    with_agent none = stop_heartbeat-IsRegistered hb m i p r found
    with_agent (some a) =
        stop_heartbeat-IsRegistered hb (call_agent m (some a) closes) i p
          (call_agent-IsRegistered hb m (some a) closes r) found

destroy_player-IsRegistered :
    (hb : ℕ) (m : Manager) (i : String) (p : ℕ)
    → IsRegistered hb m
    → lookup i m.players ≡ some p
    → IsRegistered hb (without i (destroy_player m p))
unfolding destroy_player
destroy_player-IsRegistered hb m i p r found = with_agent (m.store p).agent
  where
    with_agent :
        (o : Option ℕ) → IsRegistered hb (without i (call_agent (stop_heartbeat m p) o destroys))
    with_agent none = stop_heartbeat-IsRegistered hb m i p r found
    with_agent (some a) =
        called-IsRegistered hb (without i (stop_heartbeat m p)) _
          (stop_heartbeat-IsRegistered hb m i p r found)

remove-IsRegistered :
    (hb : ℕ) (m : Manager) (i : String) (b : Bool)
    → IsRegistered hb m
    → IsRegistered hb (remove m i b)
unfolding remove
remove-IsRegistered hb m i b r = elim (Option-cases (lookup i m.players)) [
  | inl none' ↦ subst (λ o. IsRegistered hb (removed m i b o)) (sym none') r
  | inr (p, found) ↦ subst (λ o. IsRegistered hb (removed m i b o)) (sym found) (either p found b)
]
  where
    either :
        (p : ℕ)
        → lookup i m.players ≡ some p
        → (b : Bool) → IsRegistered hb (removed m i b (some p))
    either p found true = destroy_player-IsRegistered hb m i p r found
    either p found false = close_player-IsRegistered hb m i p r found

start-IsRegistered : (hb : ℕ) (m : Manager) → IsRegistered hb m → IsRegistered hb (start m)
unfolding start
start-IsRegistered hb m r =
    if_cases (IsRegistered hb) (not m.closed) _ _ (λ open'. r)
      (λ closed. record {
        heartbeat = r.heartbeat;
        free = r.free;
        agent = r.agent;
        own = r.own;
        beats = r.beats;
        there = r.there;
      })

-- There is a result, and it has the property.
abbrev pub Gives {ℓ} : {A : Type ℓ} → (A → Type 0) → Option A → Type 0
Gives P none = ⊥
Gives P (some a) = P a

send_to-Gives :
    (store : ℕ → Player) (msg : Message) (chosen : ℕ → Bool) (ps : List ℕ) (calls : List Call)
    → ((p : ℕ) → HasAgent (store p))
    → Gives (λ calls'. Unit {0}) (send_to store msg chosen ps calls)
unfolding send_to
send_to-Gives store msg chosen [] calls agents = tt
send_to-Gives store msg chosen (p ∷ ps) calls agents =
    if_cases (Gives (λ calls'. Unit {0})) (chosen p) _ _
      (λ yes'.
        subst
          (λ o.
            Gives (λ calls'. Unit {0})
              (elim (send msg calls o) [
                | none ↦ none
                | some calls' ↦ send_to store msg chosen ps calls'
              ]))
          (sym (agents p).1) (send_to-Gives store msg chosen ps _ agents))
      (λ no'. send_to-Gives store msg chosen ps calls agents)

sent-Gives :
    (hb : ℕ) (m : Manager) (o : Option (List Call))
    → IsRegistered hb m
    → Gives (λ calls. Unit {0}) o
    → Gives (IsRegistered hb) (sent m o)
sent-Gives hb m none r g = absurd g
sent-Gives hb m (some calls) r g = called-IsRegistered hb m calls r

answer-Gives :
    (hb : ℕ) (m : Manager) (q : Request)
    → Keeps hb q
    → IsRegistered hb m
    → Gives (IsRegistered hb) (answer m q)
unfolding answer
answer-Gives hb m (sets_heartbeat o) k r = record {
  heartbeat = k;
  free = r.free;
  agent = r.agent;
  own = r.own;
  beats = r.beats;
  there = r.there;
}
answer-Gives hb m (adds p) k r = add-IsRegistered hb m p r
answer-Gives hb m (deletes i) k r = delete-IsRegistered hb m i r
answer-Gives hb m (removes i b) k r = remove-IsRegistered hb m i b r
answer-Gives hb m starts_beating k r = start-IsRegistered hb m r
answer-Gives hb m closes_all k r = close-IsRegistered hb m r
answer-Gives hb m (broadcasts msg) k r =
    sent-Gives hb m _ r (send_to-Gives m.store msg (λ p. true) (all_players m) m.calls r.agent)
answer-Gives hb m (broadcasts_excepts msg ids) k r = sent-Gives hb m _ r (
    send_to-Gives m.store msg (λ p. not (contains ids (m.store p).id)) (all_players m) m.calls
      r.agent)
answer-Gives hb m (broadcasts_to msg ids) k r =
    sent-Gives hb m _ r
      (send_to-Gives m.store msg (λ p. contains ids (m.store p).id) (all_players m) m.calls r.agent)
answer-Gives hb m (broadcasts_by msg f) k r =
    sent-Gives hb m _ r (send_to-Gives m.store msg f (all_players m) m.calls r.agent)

after_answer :
    (hb : ℕ) (o : Option Manager) (rs : List Request)
    → Gives (IsRegistered hb) o
    → ((m : Manager) → IsRegistered hb m → Gives (IsRegistered hb) (run m rs))
    → Gives (IsRegistered hb) (elim o [ none ↦ none | some m ↦ run m rs ])
after_answer hb none rs g k = absurd g
after_answer hb (some m) rs g k = k m g

-- From a manager where the players in it are those registered with its heartbeat, where every
-- player has an agent and no player has another heartbeat, any calls of Add, Delete, Remove, Start,
-- Close, the four Broadcasts and WithHeartbeat, the last only with that same heartbeat, return and
-- leave such a manager: each player in it is under its own identifier, and exactly the players in
-- it are registered with the heartbeat.
pub player_run-Gives :
    (hb : ℕ) (rs : List Request) (m : Manager)
    → AllKeep hb rs
    → IsRegistered hb m
    → Gives (IsRegistered hb) (run m rs)
unfolding run
player_run-Gives hb [] m k r = r
player_run-Gives hb (q ∷ rs) m k r =
    after_answer hb (answer m q) rs (answer-Gives hb m q k.0 r)
      (λ m' r'. player_run-Gives hb rs m' k.1 r')
