-- ===== src/EventBus/Registry.antt =====
-- eventbus/eventbus.go: the channels that are registered are open, each for one event and once.
use Prim.Native.String.{String}
use text.Mathlib.TextEquality.{eq_iff}
use mathlib.Core.Path.{subst}
use czx.Base.{
  ◌⊎◌, ℕ, ◌≤◌, ◌≡◌, ap, sym, ◌∙◌, true, false, List, [], ◌∷◌, ◌++◌, arith, ◌==◌, length, string_eq,
  Bool-cases, inl, inr,
}
use czx.Base.Dict.{Dict, insert, erase}
use czx.EventBus.{Chan, handlers, register, holds, delete_first, drop_empty}
use czx.EventBus.Chans.{is_open, AllOpen, Closed, open-append, open-lt}
use czx.EventBus.Handlers.{
  same, Nodup, handlers-erase_same, handlers-erase_other, handlers-insert_same,
  handlers-insert_other, handlers-drop_empty, holds-delete, Nodup-delete, after_register,
  register-Nodup,
}

module _ {A : Type 0} where
  -- Of the handlers `m`, over the channels `cs`.
  pub record IsRegistry (m : Dict String (List ℕ)) (cs : List (Chan A)) : Type 0 where
    pub once : (e : String) → Nodup (handlers e m)
    pub opened : (e : String) (i : ℕ) → holds i (handlers e m) ≡ true → is_open i cs ≡ true
    pub one_event :
        (e f : String) (i : ℕ)
        → holds i (handlers e m) ≡ true
        → holds i (handlers f m) ≡ true
        → e ≡ f

  AllOpen-of :
      (ids : List ℕ) (cs : List (Chan A))
      → Nodup ids
      → ((i : ℕ) → holds i ids ≡ true → is_open i cs ≡ true)
      → AllOpen ids cs
  unfolding holds
  AllOpen-of [] cs v o = tt
  AllOpen-of (i ∷ ids) cs (fresh, v) o =
      (o i (ground arith), fresh, AllOpen-of ids cs v (λ j h. o j (ground arith)))

  pub registered-AllOpen :
      (m : Dict String (List ℕ)) (cs : List (Chan A)) (e : String)
      → IsRegistry m cs
      → AllOpen (handlers e m) cs
  registered-AllOpen m cs e r = AllOpen-of (handlers e m) cs (r.once e) (r.opened e)

  -- Handlers that are some of the old ones, each once, over channels where they are open.
  pub fewer-IsRegistry :
      (m m' : Dict String (List ℕ)) (cs cs' : List (Chan A))
      → IsRegistry m cs
      → ((e : String) → Nodup (handlers e m'))
      → ((e : String) (i : ℕ) → holds i (handlers e m') ≡ true → holds i (handlers e m) ≡ true)
      → ((e : String) (i : ℕ) → holds i (handlers e m') ≡ true → is_open i cs' ≡ true)
      → IsRegistry m' cs'
  fewer-IsRegistry m m' cs cs' r once old opened = record {
    once = once;
    opened = opened;
    one_event = λ e f i h k. r.one_event e f i (old e i h) (old f i k);
  }

  -- A channel of another event is not one of this one.
  elsewhere :
      (m : Dict String (List ℕ)) (cs : List (Chan A)) (e f : String) (i : ℕ)
      → IsRegistry m cs
      → same e f ≡ false
      → holds i (handlers f m) ≡ true
      → holds i (handlers e m) ≡ false
  elsewhere m cs e f i r ne h = elim (Bool-cases (holds i (handlers e m))) [
    | inl k ↦ absurd (ground (arith, eq_iff e f, r.one_event e f i k h))
    | inr k ↦ k
  ]

  after_erase :
      (m : Dict String (List ℕ)) (cs : List (Chan A)) (e f : String) (i : ℕ)
      → IsRegistry m cs
      → holds i (handlers f (erase e m)) ≡ true
      → (holds i (handlers f m) ≡ true) × (holds i (handlers e m) ≡ false)
  unfolding holds
  after_erase m cs e f i r h = elim (Bool-cases (same e f)) [
    | inl s ↦ absurd (ground (arith, ap (holds i) (handlers-erase_same e f m s)))
    | inr s ↦
        let k : holds i (handlers f m) ≡ true =
          sym (ap (holds i) (handlers-erase_other e f m s)) ∙ h in
        (k, elsewhere m cs e f i r s k)
  ]

  pub erase-IsRegistry :
      (m : Dict String (List ℕ)) (cs cs' : List (Chan A)) (e : String)
      → IsRegistry m cs
      → Closed (handlers e m) cs cs'
      → IsRegistry (erase e m) cs'
  erase-IsRegistry m cs cs' e r c =
      fewer-IsRegistry m (erase e m) cs cs' r
        (λ f. elim (Bool-cases (same e f)) [
          | inl s ↦ subst Nodup (sym (handlers-erase_same e f m s)) tt
          | inr s ↦ subst Nodup (sym (handlers-erase_other e f m s)) (r.once f)
        ])
        (λ f i h. (after_erase m cs e f i r h).0)
        (λ f i h.
          let (k, none_here) = after_erase m cs e f i r h in
          let was = r.opened f i k in ground (arith, c.opens i))

  after_delete :
      (m : Dict String (List ℕ)) (cs : List (Chan A)) (e f : String) (ch i : ℕ)
      → IsRegistry m cs
      → holds ch (handlers e m) ≡ true
      → holds i (handlers f (insert e (delete_first ch (handlers e m)) m)) ≡ true
      → (holds i (handlers f m) ≡ true) × ((ch == i) ≡ false)
  after_delete m cs e f ch i r here h =
      let ids = delete_first ch (handlers e m) in
      let gone = holds-delete i ch (handlers e m) (r.once e) in
      elim (Bool-cases (same e f)) [
        | inl s ↦
            let k = ap (holds i) (handlers-insert_same e f ids m s) in
            let is : e ≡ f = ground (arith, eq_iff e f) in
            let old = ap (λ t. holds i (handlers t m)) is in (ground arith, ground arith)
        | inr s ↦
            let k : holds i (handlers f m) ≡ true =
              sym (ap (holds i) (handlers-insert_other e f ids m s)) ∙ h in
            let not_e = elsewhere m cs e f i r s k in (k, ground arith)
      ]

  pub delete-IsRegistry :
      (m : Dict String (List ℕ)) (cs cs' : List (Chan A)) (e : String) (ch : ℕ)
      → IsRegistry m cs
      → holds ch (handlers e m) ≡ true
      → Closed (ch ∷ []) cs cs'
      → IsRegistry (insert e (delete_first ch (handlers e m)) m) cs'
  unfolding holds
  delete-IsRegistry m cs cs' e ch r here c =
      let ids = delete_first ch (handlers e m) in
      fewer-IsRegistry m (insert e ids m) cs cs' r
        (λ f. elim (Bool-cases (same e f)) [
          | inl s ↦
              subst Nodup (sym (handlers-insert_same e f ids m s))
                (Nodup-delete ch (handlers e m) (r.once e))
          | inr s ↦ subst Nodup (sym (handlers-insert_other e f ids m s)) (r.once f)
        ])
        (λ f i h. (after_delete m cs e f ch i r here h).0)
        (λ f i h.
          let (k, ne) = after_delete m cs e f ch i r here h in
          let was = r.opened f i k in ground (arith, c.opens i))

  -- An event without handlers may go.
  pub drop_empty-IsRegistry :
      (m : Dict String (List ℕ)) (cs : List (Chan A)) (e : String)
      → IsRegistry m cs
      → IsRegistry (drop_empty e m) cs
  drop_empty-IsRegistry m cs e r =
      let at = λ (f : String). handlers-drop_empty e f m in
      fewer-IsRegistry m (drop_empty e m) cs cs r (λ f. subst Nodup (sym (at f)) (r.once f))
        (λ f i h. sym (ap (holds i) (at f)) ∙ h)
        (λ f i h. r.opened f i (sym (ap (holds i) (at f)) ∙ h))

  -- The same handlers, over channels that are open as before.
  pub same-IsRegistry :
      (m : Dict String (List ℕ)) (cs cs' : List (Chan A))
      → ((i : ℕ) → is_open i cs' ≡ is_open i cs)
      → IsRegistry m cs
      → IsRegistry m cs'
  same-IsRegistry m cs cs' o r =
      fewer-IsRegistry m m cs cs' r r.once (λ f i h. h) (λ f i h. o i ∙ r.opened f i h)

  not_held :
      (m : Dict String (List ℕ)) (cs : List (Chan A)) (e : String) (i : ℕ)
      → IsRegistry m cs
      → length cs ≤ i
      → holds i (handlers e m) ≡ false
  not_held m cs e i r h = elim (Bool-cases (holds i (handlers e m))) [
    | inl k ↦ let low = open-lt cs i (r.opened e i k) in absurd (omega arith)
    | inr k ↦ k
  ]

  register-one_event :
      (m : Dict String (List ℕ)) (cs : List (Chan A)) (e f g : String) (i : ℕ)
      → IsRegistry m cs
      → ((holds i (handlers f m) ≡ true) ⊎ ((i ≡ length cs) × (e ≡ f)))
      → ((holds i (handlers g m) ≡ true) ⊎ ((i ≡ length cs) × (e ≡ g)))
      → f ≡ g
  register-one_event m cs e f g i r (inl h) (inl k) = r.one_event f g i h k
  register-one_event m cs e f g i r (inr (a, p)) (inr (b, q)) = sym p ∙ q
  register-one_event m cs e f g i r (inl h) (inr (b, q)) =
      let no = not_held m cs f i r (omega arith) in absurd (ground arith)
  register-one_event m cs e f g i r (inr (a, p)) (inl k) =
      let no = not_held m cs g i r (omega arith) in absurd (ground arith)

  register-opened :
      (m : Dict String (List ℕ)) (cs : List (Chan A)) (c : Chan A) (e f : String) (i : ℕ)
      → c.closed ≡ false
      → IsRegistry m cs
      → ((holds i (handlers f m) ≡ true) ⊎ ((i ≡ length cs) × (e ≡ f)))
      → is_open i (cs ++ (c ∷ [])) ≡ true
  register-opened m cs c e f i h r (inl k) =
      let was = r.opened f i k in ground (arith, open-append cs c i h)
  register-opened m cs c e f i h r (inr (a, p)) = ground (arith, open-append cs c i h)

  pub register-IsRegistry :
      (m : Dict String (List ℕ)) (cs : List (Chan A)) (c : Chan A) (e : String)
      → c.closed ≡ false
      → IsRegistry m cs
      → IsRegistry (register e (length cs) m) (cs ++ (c ∷ []))
  register-IsRegistry m cs c e h r =
      let n = length cs in
      record {
        once =
            λ f. register-Nodup m e f n (r.once e) (r.once f) (not_held m cs e n r (omega arith));
        opened = λ f i k. register-opened m cs c e f i h r (after_register m e f n i k);
        one_event = λ f g i k l.
            register-one_event m cs e f g i r (after_register m e f n i k)
              (after_register m e g n i l);
      }
