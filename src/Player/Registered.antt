-- ===== src/Player/Registered.antt =====
-- The players of a manager are those registered with its heartbeat.
use Prim.Native.String.{String}
use mathlib.Core.Path.{subst}
use czx.Base.Dict.{
  Dict, lookup, insert, erase, has, lookup-insert, lookup-erase, has-insert, has-erase,
}
use czx.Base.{
  ℕ, ◌≡◌, refl, sym, ap, ◌∙◌, ◌⊎◌, inl, inr, true, false, Option, none, some, arith, ◌==◌,
  if◌then◌else◌, string_eq, nat_eq, Bool-cases,
}
use czx.Player.{Player, Manager, put, adopt, adopted}

-- The player has no heartbeat, or this one.
abbrev pub IsFree : ℕ → Player → Type 0
IsFree hb player = (player.heartbeat ≡ none) ⊎ (player.heartbeat ≡ some hb)

abbrev pub HasAgent : Player → Type 0
HasAgent player = (a : ℕ) × (player.agent ≡ some a)

-- The manager has the heartbeat `hb`, every player has an agent, no player has another one, a player stands in it under its own identifier and has that
-- heartbeat, and exactly the players in it are registered.
pub record IsRegistered (hb : ℕ) (m : Manager) : Type 0 where
  pub heartbeat : m.heartbeat ≡ some hb
  pub free : (p : ℕ) → IsFree hb (m.store p)
  pub agent : (p : ℕ) → HasAgent (m.store p)
  pub own :
      (i : String) (p : ℕ)
      → lookup i m.players ≡ some p
      → ((m.store p).id ≡ i) × ((m.store p).heartbeat ≡ some hb)
  pub beats : (i : String) (p : ℕ) → lookup i m.players ≡ some p → has p (m.registered hb) ≡ true
  pub there : (p : ℕ) → has p (m.registered hb) ≡ true → lookup (m.store p).id m.players ≡ some p

put_self {ℓ} : {A : Type ℓ} (f : ℕ → A) (k : ℕ) (v : A) → put f k v k ≡ v
put_self f k v = rw (nat_refl k)
  where
    nat_refl : (k : ℕ) → (k == k) ≡ true
    nat_refl k = ground arith

-- What is found behind a deletion was there, at another key.
lookup-erase_elim :
    (i j : String) (q : ℕ) (d : Dict String ℕ)
    → lookup j (erase i d) ≡ some q
    → (lookup j d ≡ some q) × (string_eq.beq i j ≡ false)
lookup-erase_elim i j q d h = ground (arith, lookup-erase i j d)

has-erase_elim :
    (p q : ℕ) (d : Dict ℕ (Unit {0}))
    → has q (erase p d) ≡ true
    → (has q d ≡ true) × ((p == q) ≡ false)
has-erase_elim p q d h = ground (arith, has-erase p q d)

-- A player that leaves its heartbeat and then the manager.
unfoldable pub left : Manager → ℕ → String → ℕ → Manager
left m hb i p = record m {
  players = erase i m.players;
  registered = put m.registered hb (erase p (m.registered hb));
}

pub left-IsRegistered :
    (hb : ℕ) (m : Manager) (i : String) (p : ℕ)
    → IsRegistered hb m
    → lookup i m.players ≡ some p
    → IsRegistered hb (left m hb i p)
unfolding left
left-IsRegistered hb m i p r found = record {
  heartbeat = r.heartbeat;
  free = r.free;
  agent = r.agent;
  own = λ j q h. r.own j q (lookup-erase_elim i j q m.players h).0;
  beats = λ j q h. stays j q (lookup-erase_elim i j q m.players h);
  there = λ q h. kept q (subst (λ d. has q d ≡ true) (put_self m.registered hb _) h);
}
  where
    stays :
        (j : String) (q : ℕ)
        → (lookup j m.players ≡ some q) × (string_eq.beq i j ≡ false)
        → has q (put m.registered hb (erase p (m.registered hb)) hb) ≡ true
    stays j q (h, other) = ground (
      arith,
      ap (has q) (put_self m.registered hb (erase p (m.registered hb))),
      has-erase p q (m.registered hb),
      r.beats j q h,
      r.own j q h,
      r.own i p found,
      string_eq.beq_iff i j,
    )

    kept :
        (q : ℕ)
        → has q (erase p (m.registered hb)) ≡ true
        → lookup (m.store q).id (erase i m.players) ≡ some q
    kept q h = ground (
      arith,
      has-erase_elim p q (m.registered hb) h,
      r.there q,
      found,
      lookup-erase i (m.store q).id m.players,
      string_eq.beq_iff i (m.store q).id,
    )

adopted_lem :
    (hb : ℕ) (player : Player) (o : Option ℕ)
    → o ≡ player.heartbeat
    → IsFree hb player
    → ((adopted o player hb).id ≡ player.id)
      × ((adopted o player hb).heartbeat ≡ some hb)
      × ((adopted o player hb).agent ≡ player.agent)
adopted_lem hb player none e free = (refl, refl, refl)
adopted_lem hb player (some h) e (inl free) = absurd (cc (e, free))
adopted_lem hb player (some h) e (inr own) = (refl, own, refl)

-- The store with a player that has got its heartbeat.
adopt-put :
    (hb : ℕ) (store : ℕ → Player) (p q : ℕ)
    → IsFree hb (store p)
    → ((put store p (adopt (store p) hb) q).id ≡ (store q).id)
      × ((put store p (adopt (store p) hb) q).heartbeat
          ≡ (if p == q then some hb else (store q).heartbeat))
      × ((put store p (adopt (store p) hb) q).agent ≡ (store q).agent)
adopt-put hb store p q free = elim (Bool-cases (p == q)) [
  | inl same ↦
      let it : p ≡ q = ground arith in
      let a = adopted_lem hb (store p) (store p).heartbeat refl free in
      rw same (a.0 ∙ ap (λ k. (store k).id) it, a.1, a.2 ∙ ap (λ k. (store k).agent) it)
  | inr other ↦ rw other (refl, refl, refl)
]

-- A player that enters the manager and its heartbeat.
unfoldable pub joined : Manager → ℕ → ℕ → Manager
joined m hb p = record m {
  players = insert (m.store p).id p m.players;
  store = put m.store p (adopt (m.store p) hb);
  registered = put m.registered hb (insert p tt (m.registered hb));
}

-- A found player is the new one under its identifier, or was there before under another.
lookup-insert_cases :
    (i j : String) (p q : ℕ) (d : Dict String ℕ)
    → lookup j (insert i p d) ≡ some q
    → ((i ≡ j) × (p ≡ q)) ⊎ ((string_eq.beq i j ≡ false) × (lookup j d ≡ some q))
lookup-insert_cases i j p q d h = ground (arith, lookup-insert i j p d, string_eq.beq_iff i j)

lookup-has : (d : Dict String ℕ) (i : String) (q : ℕ) → lookup i d ≡ some q → has i d ≡ true
unfolding has
lookup-has d i q h = rw h refl

pub joined-IsRegistered :
    (hb : ℕ) (m : Manager) (p : ℕ)
    → IsRegistered hb m
    → has (m.store p).id m.players ≡ false
    → IsRegistered hb (joined m hb p)
unfolding joined
joined-IsRegistered hb m p r fresh = record {
  heartbeat = r.heartbeat;
  free = λ q. still_free q;
  agent = λ q.
      subst (λ o. (a : ℕ) × (o ≡ some a)) (sym (adopt-put hb m.store p q (r.free p)).2) (r.agent q);
  own = λ j q h. owned j q (lookup-insert_cases (m.store p).id j p q m.players h);
  beats = λ j q h. heard j q (lookup-insert_cases (m.store p).id j p q m.players h);
  there = λ q h. found q (subst (λ d. has q d ≡ true) (put_self m.registered hb _) h);
}
  where
    owned :
        (j : String) (q : ℕ)
        → (((m.store p).id ≡ j) × (p ≡ q))
          ⊎ ((string_eq.beq (m.store p).id j ≡ false) × (lookup j m.players ≡ some q))
        → ((put m.store p (adopt (m.store p) hb) q).id ≡ j)
          × ((put m.store p (adopt (m.store p) hb) q).heartbeat ≡ some hb)
    owned j q c = ground (arith, adopt-put hb m.store p q (r.free p), r.own j q)

    heard :
        (j : String) (q : ℕ)
        → (((m.store p).id ≡ j) × (p ≡ q))
          ⊎ ((string_eq.beq (m.store p).id j ≡ false) × (lookup j m.players ≡ some q))
        → has q (put m.registered hb (insert p tt (m.registered hb)) hb) ≡ true
    heard j q c = ground (
      arith,
      ap (has q) (put_self m.registered hb (insert p tt (m.registered hb))),
      has-insert p q tt (m.registered hb),
      r.beats j q,
    )

    found :
        (q : ℕ)
        → has q (insert p tt (m.registered hb)) ≡ true
        → lookup (put m.store p (adopt (m.store p) hb) q).id (insert (m.store p).id p m.players)
          ≡ some q
    found q h = ground (
      arith,
      adopt-put hb m.store p q (r.free p),
      ap (λ i. lookup i (insert (m.store p).id p m.players))
          (adopt-put hb m.store p q (r.free p)).0,
      has-insert p q tt (m.registered hb),
      lookup-insert (m.store p).id (m.store q).id p m.players,
      r.there q,
      lookup-has m.players (m.store p).id q,
      string_eq.beq_iff (m.store p).id (m.store q).id,
    )

    still_free : (q : ℕ) → IsFree hb (put m.store p (adopt (m.store p) hb) q)
    still_free q = ground (arith, adopt-put hb m.store p q (r.free p), r.free q)
