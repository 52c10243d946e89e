-- ===== src/Network/Protobuf/Typed.antt =====
-- The registry of the protobuf processor: the identifier of a type leads to that type.
use mathlib.Core.Path.{subst}
use czx.Base.Dict.{Dict, lookup, insert, has, lookup-insert, lookup-insert_self}
use czx.Base.{
  ℕ, ◌≡◌, refl, sym, ap, ◌∙◌, inl, inr, Bool, true, false, not, List, [], ◌∷◌, Option, none, some,
  arith, ◌==◌, if◌then◌else◌, Result, ok, err, Eq, nat_eq, Option-cases, Bool-cases,
}
use czx.Network.Protobuf.{
  Entry, Processor, register, register_handler, with_handler, handled, handled_at,
}

-- A call of Register or RegisterHandler.
pub data Setup (T : Type 0) : Type 0 where
  registers : ℕ → Option T → Setup T
  handles : T → Option ℕ → Setup T

module _ {T : Type 0} ⦃eq : Eq T⦄ where
  -- Each registered type's identifier leads to a message of that type.
  abbrev pub IsTyped : Processor T → Type 0
  IsTyped p =
      (t : T) (id : ℕ)
      → lookup t p.ids ≡ some id
      → (info : Entry T) × (lookup id p.messages ≡ some info) × (info.msgtype ≡ t)

  -- The processor behind a call: an error leaves it as it was.
  abbrev pub kept : {E : Type 0} → Processor T → Result E (Processor T) → Processor T
  kept p (ok p') = p'
  kept p (err e) = p

  unfoldable pub set_up_one : (T → Bool) → Processor T → Setup T → Processor T
  set_up_one is_pointer p (registers id t) = kept p (register {E = ℕ} is_pointer p id t)
  set_up_one is_pointer p (handles t h) = kept p (register_handler {E = ℕ} p t h)

  unfoldable pub set_up : (T → Bool) → Processor T → List (Setup T) → Processor T
  unfolding set_up_one
  set_up is_pointer p [] = p
  set_up is_pointer p (c ∷ cs) = set_up is_pointer (set_up_one is_pointer p c) cs

  -- Register is never called with an identifier that is taken.
  abbrev pub IsFresh : (T → Bool) → Processor T → List (Setup T) → Type 0
  IsFresh is_pointer p [] = Unit {0}
  IsFresh is_pointer p (registers id t ∷ cs) =
      (has id p.messages ≡ false) × IsFresh is_pointer (set_up_one is_pointer p (registers id t)) cs
  IsFresh is_pointer p (handles t h ∷ cs) =
      IsFresh is_pointer (set_up_one is_pointer p (handles t h)) cs

module _ {T : Type 0} ⦃eq : Eq T⦄ (is_pointer : T → Bool) where
  found-has :
      (id : ℕ) (d : Dict ℕ (Entry T)) (info : Entry T) → lookup id d ≡ some info → has id d ≡ true
  unfolding has
  found-has id d info h = rw h refl

  stored_at :
      (id j : ℕ) (new : Entry T) (d : Dict ℕ (Entry T))
      → id ≡ j
      → lookup j (insert id new d) ≡ some new
  stored_at id j new d e =
      subst (λ k. lookup k (insert id new d) ≡ some new) e (lookup-insert_self id new d)

  insert-IsTyped :
      (p : Processor T) (id : ℕ) (t : T) (new : Entry T)
      → IsTyped p
      → has id p.messages ≡ false
      → new.msgtype ≡ t
      → IsTyped (record p { messages = insert id new p.messages; ids = insert t id p.ids })
  insert-IsTyped p id t new typed fresh e s j h = elim (Bool-cases (eq.beq t s)) [
    | inl same ↦
        let it : some id ≡ some j = sym (rw same at (lookup-insert t s id p.ids)) ∙ h in
        (new, stored_at id j new p.messages (cc it), e ∙ (eq.beq_iff t s).0 same)
    | inr other ↦
        let (info, found, of_type) =
          typed s j (sym (rw other at (lookup-insert t s id p.ids)) ∙ h) in
        (info, untouched info found, of_type)
  ]
    where
      untouched :
          (info : Entry T)
          → lookup j p.messages ≡ some info
          → lookup j (insert id new p.messages) ≡ some info
      untouched info found = ground (
        arith,
        lookup-insert id j new p.messages,
        found-has j p.messages info found,
        ap (λ k. has k p.messages) {x = id} {y = j},
        fresh,
      )

  handler-IsTyped :
      (p : Processor T) (id : ℕ) (info : Entry T) (h : Option ℕ)
      → IsTyped p
      → lookup id p.messages ≡ some info
      → IsTyped (record p { messages = insert id (with_handler h info) p.messages })
  handler-IsTyped p id info h typed found s j hj =
      let (i, at_j, of_type) = typed s j hj in
      elim (Bool-cases (id == j)) [
        | inl same ↦
            let it : id ≡ j = ground arith in
            let one : some info ≡ some i = sym found ∙ ap (λ k. lookup k p.messages) it ∙ at_j in
            (
              with_handler h info,
              stored_at id j (with_handler h info) p.messages it,
              let same_info : info ≡ i = cc one in
                  ap (λ (o : Entry T). o.msgtype) same_info ∙ of_type,
            )
        | inr other ↦
            (i, rw other at (lookup-insert id j (with_handler h info) p.messages) ∙ at_j, of_type)
      ]

  kept-if :
      {E : Type 0} (P : Processor T → Type 0) (p : Processor T) (b : Bool)
      (x y : Result E (Processor T))
      → (b ≡ true → P (kept p x))
      → (b ≡ false → P (kept p y))
      → P (kept p (if b then x else y))
  kept-if P p true x y f g = f refl
  kept-if P p false x y f g = g refl

  register-IsTyped :
      (p : Processor T) (id : ℕ) (t : Option T)
      → IsTyped p
      → has id p.messages ≡ false
      → IsTyped (kept p (register {E = ℕ} is_pointer p id t))
  unfolding register
  register-IsTyped p id none typed fresh = typed
  register-IsTyped p id (some t) typed fresh =
      kept-if IsTyped p (not (is_pointer t)) _ _ (λ wrong. typed)
        (λ pointer.
          kept-if IsTyped p (has t p.ids) _ _ (λ twice. typed)
            (λ new. insert-IsTyped p id t _ typed fresh refl))

  register_handler-IsTyped :
      (p : Processor T) (t : T) (h : Option ℕ)
      → IsTyped p
      → IsTyped (kept p (register_handler {E = ℕ} p t h))
  unfolding register_handler
  register_handler-IsTyped p t h typed = elim (Option-cases (lookup t p.ids)) [
    | inl unknown ↦ subst (λ o. IsTyped (kept p (handled_at {E = ℕ} p h o))) (sym unknown) typed
    | inr (id, known) ↦
        let (info, found, of_type) = typed t id known in
        subst (λ o. IsTyped (kept p (handled_at {E = ℕ} p h o))) (sym known)
          (subst (λ o. IsTyped (kept p (handled {E = ℕ} p id h o))) (sym found)
            (handler-IsTyped p id info h typed found))
  ]

  -- If the identifier of each registered type leads to a message of that type, it does so behind any
  -- calls of Register and RegisterHandler, failed ones included, where no call of Register comes
  -- with an identifier that is taken.
  pub set_up-IsTyped :
      (cs : List (Setup T)) (p : Processor T)
      → IsTyped p
      → IsFresh is_pointer p cs
      → IsTyped (set_up is_pointer p cs)
  unfolding set_up
  set_up-IsTyped [] p typed fresh = typed
  set_up-IsTyped (registers id t ∷ cs) p typed (taken, fresh) =
      set_up-IsTyped cs (set_up_one is_pointer p (registers id t))
        (register-IsTyped p id t typed taken) fresh
  set_up-IsTyped (handles t h ∷ cs) p typed fresh =
      set_up-IsTyped cs (set_up_one is_pointer p (handles t h))
        (register_handler-IsTyped p t h typed) fresh
