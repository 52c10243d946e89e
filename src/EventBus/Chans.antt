-- ===== src/EventBus/Chans.antt =====
-- eventbus/eventbus.go: closing and sending on lists of channels.
use czx.Base.{
  ℕ, zero, suc, ◌<◌, ◌≡◌, refl, ap, sym, ◌∙◌, Bool, true, false, not, ◌&&◌, List, [], ◌∷◌, ◌++◌,
  Option, none, some, arith, ltb, ◌==◌, if◌then◌else◌, length, get_elem?, set, length-set,
  Option-cases, Bool-cases, inl, inr, ==_iff,
}
use czx.EventBus.{Chan, close_chan, send_chan, close_all, send_all, ◌>>=◌, holds}

module _ {A : Type 0} where
  -- What stands at a reference: a channel that is made and not closed, and its messages.
  abbrev pub open_in : Option (Chan A) → Bool
  open_in none = false
  open_in (some c) = not c.closed

  abbrev pub buffer_in : Option (Chan A) → List A
  buffer_in none = []
  buffer_in (some c) = c.buffer

  pub is_open : ℕ → List (Chan A) → Bool
  is_open i cs = open_in (get_elem? cs i)

  pub buffer_of : ℕ → List (Chan A) → List A
  buffer_of i cs = buffer_in (get_elem? cs i)

  -- No handler appears twice, and each is open.
  abbrev pub AllOpen : List ℕ → List (Chan A) → Type 0
  AllOpen [] cs = Unit {0}
  AllOpen (i ∷ ids) cs = (is_open i cs ≡ true) × (holds i ids ≡ false) × AllOpen ids cs

  get_elem?-set :
      (cs : List (Chan A)) (i j : ℕ) (c v : Chan A)
      → get_elem? cs i ≡ some c
      → get_elem? (set cs i v) j ≡ (if i == j then some v else get_elem? cs j)
  get_elem?-set [] i j c v h = absurd (ground arith)
  get_elem?-set (x ∷ cs) zero zero c v h = refl
  get_elem?-set (x ∷ cs) zero (suc j) c v h = ground arith
  get_elem?-set (x ∷ cs) (suc i) zero c v h = ground arith
  get_elem?-set (x ∷ cs) (suc i) (suc j) c v h = ground (arith, get_elem?-set cs i j c v h)

  -- An open channel is there.
  pub open_chan :
      (i : ℕ) (cs : List (Chan A))
      → is_open i cs ≡ true
      → (c : Chan A) × (get_elem? cs i ≡ some c) × (c.closed ≡ false)
  unfolding is_open
  open_chan i cs h = elim (Option-cases (get_elem? cs i)) [
    | inl e ↦ absurd (ground (arith, ap open_in e))
    | inr (c, e) ↦ (c, e, ground (arith, ap open_in e))
  ]

  open-set :
      (i j : ℕ) (cs : List (Chan A)) (c v : Chan A)
      → get_elem? cs i ≡ some c
      → is_open j (set cs i v) ≡ (if i == j then not v.closed else is_open j cs)
  unfolding is_open
  open-set i j cs c v e = elim (Bool-cases (i == j)) [
    | inl h ↦ ap open_in (get_elem?-set cs i j c v e) ∙ rw h refl
    | inr h ↦ ap open_in (get_elem?-set cs i j c v e) ∙ rw h refl
  ]

  -- A change of the messages alone.
  pub open_same :
      (i j : ℕ) (cs : List (Chan A)) (c v : Chan A)
      → get_elem? cs i ≡ some c
      → v.closed ≡ c.closed
      → is_open j (set cs i v) ≡ is_open j cs
  unfolding is_open
  open_same i j cs c v e same = elim (Bool-cases (i == j)) [
    | inl h ↦
        let at : get_elem? cs j ≡ some c = ap (get_elem? cs) (sym ((==_iff i j).0 h)) ∙ e in
        ap open_in (get_elem?-set cs i j c v e) ∙ rw h (ap not same) ∙ sym (ap open_in at)
    | inr h ↦ ap open_in (get_elem?-set cs i j c v e) ∙ rw h refl
  ]

  buffer-set :
      (i j : ℕ) (cs : List (Chan A)) (c v : Chan A)
      → get_elem? cs i ≡ some c
      → buffer_of j (set cs i v) ≡ (if i == j then v.buffer else buffer_of j cs)
  unfolding buffer_of
  buffer-set i j cs c v e = elim (Bool-cases (i == j)) [
    | inl h ↦ ap buffer_in (get_elem?-set cs i j c v e) ∙ rw h refl
    | inr h ↦ ap buffer_in (get_elem?-set cs i j c v e) ∙ rw h refl
  ]

  buffer_found :
      (i : ℕ) (cs : List (Chan A)) (c : Chan A)
      → get_elem? cs i ≡ some c
      → buffer_of i cs ≡ c.buffer
  unfolding buffer_of
  buffer_found i cs c e = ap buffer_in e

  -- Of the channels `ids`, `cs'` has those closed that `cs` has open, and else the same.
  pub record Closed (ids : List ℕ) (cs cs' : List (Chan A)) : Type 0 where
    pub size : length cs' ≡ length cs
    pub opens : (j : ℕ) → is_open j cs' ≡ (if holds j ids then false else is_open j cs)
    pub buffers : (j : ℕ) → buffer_of j cs' ≡ buffer_of j cs

  pub close_chan-Closed :
      (i : ℕ) (cs : List (Chan A))
      → is_open i cs ≡ true
      → (cs' : List (Chan A)) × (close_chan i cs ≡ some cs') × Closed (i ∷ []) cs cs'
  unfolding close_chan holds
  close_chan-Closed i cs h =
      let (c, e, o) = open_chan i cs h in
      let c' = record c { closed = true } in
      let at = λ (j : ℕ). get_elem?-set cs i j c c' e in
      (
        set cs i c',
        rw (e, o) refl,
        record {
          size = length-set cs i c';
          opens = λ j. ground (arith, open-set i j cs c c' e);
          buffers = λ j. ground (arith, buffer-set i j cs c c' e, buffer_found i cs c e);
        },
      )

  Closed-cons :
      (i : ℕ) (ids : List ℕ) (cs cs1 cs2 : List (Chan A))
      → Closed (i ∷ []) cs cs1
      → Closed ids cs1 cs2
      → Closed (i ∷ ids) cs cs2
  unfolding holds
  Closed-cons i ids cs cs1 cs2 a b = record {
    size = b.size ∙ a.size;
    opens = λ j. ground (arith, a.opens j, b.opens j);
    buffers = λ j. b.buffers j ∙ a.buffers j;
  }

  -- The others stay as they are.
  AllOpen-kept :
      (ids : List ℕ) (i : ℕ) (cs cs1 : List (Chan A))
      → Closed (i ∷ []) cs cs1
      → holds i ids ≡ false
      → AllOpen ids cs
      → AllOpen ids cs1
  unfolding holds
  AllOpen-kept [] i cs cs1 a h v = tt
  AllOpen-kept (j ∷ ids) i cs cs1 a h (o, fresh, rest) =
      (ground (arith, a.opens j), fresh, AllOpen-kept ids i cs cs1 a (ground arith) rest)

  pub close_all-Closed :
      (ids : List ℕ) (cs : List (Chan A))
      → AllOpen ids cs
      → (cs' : List (Chan A)) × (close_all ids cs ≡ some cs') × Closed ids cs cs'
  unfolding close_all
  close_all-Closed [] cs v =
      (cs, refl, record { size = refl; opens = λ j. unfold holds in refl; buffers = λ j. refl })
  close_all-Closed (i ∷ ids) cs (o, fresh, rest) =
      let (cs1, ran, a) = close_chan-Closed i cs o in
      let (cs2, more, b) = close_all-Closed ids cs1 (AllOpen-kept ids i cs cs1 a fresh rest) in
      (cs2, ap (λ t. t >>= λ cs'. close_all ids cs') ran ∙ more, Closed-cons i ids cs cs1 cs2 a b)

  -- Each of the open channels `ids` that has room has the message behind its others, and all else is the
  -- same.
  pub record Sent (capacity : ℕ) (x : A) (ids : List ℕ) (cs cs' : List (Chan A)) : Type 0 where
    pub size : length cs' ≡ length cs
    pub opens : (j : ℕ) → is_open j cs' ≡ is_open j cs
    pub buffers :
        (j : ℕ)
        → buffer_of j cs' ≡ (
            if holds j ids && ltb (length (buffer_of j cs)) capacity
            then buffer_of j cs ++ (x ∷ [])
            else buffer_of j cs)

  send_chan-Sent :
      (capacity : ℕ) (x : A) (i : ℕ) (cs : List (Chan A))
      → is_open i cs ≡ true
      → (cs' : List (Chan A)) × (send_chan capacity x i cs ≡ some cs')
        × Sent capacity x (i ∷ []) cs cs'
  unfolding send_chan holds
  send_chan-Sent capacity x i cs h =
      let (c, e, o) = open_chan i cs h in
      let c' = record c { buffer = c.buffer ++ (x ∷ []) } in
      let here = buffer_found i cs c e in
      elim (Bool-cases (ltb (length c.buffer) capacity)) [
        | inl room ↦ (
          set cs i c',
          rw (e, o, room) refl,
          record {
            size = length-set cs i c';
            opens = λ j. ground (arith, open-set i j cs c c' e);
            buffers = λ j. ground (arith, buffer-set i j cs c c' e);
          },
        )
        | inr full ↦ (
          cs,
          rw (e, o, full) refl,
          record { size = refl; opens = λ j. refl; buffers = λ j. ground arith },
        )
      ]

  Sent-cons :
      (capacity : ℕ) (x : A) (i : ℕ) (ids : List ℕ) (cs cs1 cs2 : List (Chan A))
      → holds i ids ≡ false
      → Sent capacity x (i ∷ []) cs cs1
      → Sent capacity x ids cs1 cs2
      → Sent capacity x (i ∷ ids) cs cs2
  unfolding holds
  Sent-cons capacity x i ids cs cs1 cs2 fresh a b = record {
    size = b.size ∙ a.size;
    opens = λ j. b.opens j ∙ a.opens j;
    buffers = λ j. ground (arith, a.buffers j, b.buffers j);
  }

  AllOpen-Sent :
      (ids other : List ℕ) (capacity : ℕ) (x : A) (cs cs1 : List (Chan A))
      → Sent capacity x other cs cs1
      → AllOpen ids cs
      → AllOpen ids cs1
  AllOpen-Sent [] other capacity x cs cs1 a v = tt
  AllOpen-Sent (j ∷ ids) other capacity x cs cs1 a (o, fresh, rest) =
      (a.opens j ∙ o, fresh, AllOpen-Sent ids other capacity x cs cs1 a rest)

  pub send_all-Sent :
      (capacity : ℕ) (x : A) (ids : List ℕ) (cs : List (Chan A))
      → AllOpen ids cs
      → (cs' : List (Chan A)) × (send_all capacity x ids cs ≡ some cs') × Sent capacity x ids cs cs'
  unfolding send_all
  send_all-Sent capacity x [] cs v =
      (cs, refl, record { size = refl; opens = λ j. refl; buffers = λ j. unfold holds in refl })
  send_all-Sent capacity x (i ∷ ids) cs (o, fresh, rest) =
      let (cs1, ran, a) = send_chan-Sent capacity x i cs o in
      let (cs2, more, b) =
        send_all-Sent capacity x ids cs1 (AllOpen-Sent ids (i ∷ []) capacity x cs cs1 a rest) in
      (
        cs2,
        ap (λ t. t >>= λ cs'. send_all capacity x ids cs') ran ∙ more,
        Sent-cons capacity x i ids cs cs1 cs2 fresh a b,
      )

  pub open-append :
      (cs : List (Chan A)) (c : Chan A) (i : ℕ)
      → c.closed ≡ false
      → is_open i (cs ++ (c ∷ [])) ≡ (if i == length cs then true else is_open i cs)
  unfolding is_open
  open-append [] c zero h = rw h refl
  open-append [] c (suc i) h = ground arith
  open-append (x ∷ cs) c zero h = ground arith
  open-append (x ∷ cs) c (suc i) h = ground (arith, open-append cs c i h)

  pub open-lt : (cs : List (Chan A)) (i : ℕ) → is_open i cs ≡ true → i < length cs
  unfolding is_open
  open-lt [] i h = absurd (ground arith)
  open-lt (x ∷ cs) zero h = omega arith
  open-lt (x ∷ cs) (suc i) h = let rest = open-lt cs i h in omega arith
