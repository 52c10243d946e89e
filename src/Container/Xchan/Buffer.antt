-- ===== src/Container/Xchan/Buffer.antt =====
-- What the worker's tests on its ring buffer say about the buffer's contents.
use mathlib.Core.List.{head?, tail}
use czx.Base.{
  ◌≡◌, ◌≢◌, ◌⊎◌, get_or, sym, ap, ◌∙◌, true, false, List, [], ◌∷◌, none, some, Bool-cases, inl, inr,
}
use czx.Container.Ring
use czx.Container.Ring.{RingBuffer}
use czx.Container.Ring.Inv.{IsValid, pop-read, read-IsValid}
use czx.Container.Ring.Refine.{
  contents, contents-read, contents-empty, is_empty_lem, peek-read, peek-nonempty,
}

cons_of_head {ℓ} : {T : Type ℓ} (q : List T) (v : T) → head? q ≡ some v → q ≡ v ∷ tail q
cons_of_head [] v e = cc
cons_of_head (x ∷ q) v e = ap (λ a. a ∷ q) (cc)

module _ {ℓ} {T : Type ℓ} (z : T) where
  pub empty-contents :
      (rb : RingBuffer T) → IsValid rb → Ring.is_empty z rb ≡ true → contents z rb ≡ []
  empty-contents rb v e = contents-empty z rb v (sym (is_empty_lem z rb) ∙ e)

  pub peek-contents :
      (rb : RingBuffer T) (x : T)
      → IsValid rb
      → Ring.peek z rb ≡ some x
      → contents z rb ≡ x ∷ contents z (Ring.pop z rb).1
  peek-contents rb x v e =
      let c = contents-read z rb v in
      rw (pop-read z rb, c.1)
        (cons_of_head (contents z rb) x (sym c.0 ∙ (sym (peek-read z rb) ∙ e)))

  -- A buffer that is not empty has a value to peek at.
  pub peek-ne-none : (rb : RingBuffer T) → Ring.is_empty z rb ≡ false → Ring.peek z rb ≢ none
  peek-ne-none rb e p = cc (peek-nonempty z rb e)

  pub pop-IsValid : (rb : RingBuffer T) → IsValid rb → IsValid (Ring.pop z rb).1
  pop-IsValid rb v = rw (pop-read z rb) (read-IsValid z rb v)

  -- The two cases of a buffer that is drained.
  pub buffer_cases :
      (rb : RingBuffer T)
      → IsValid rb
      → ((Ring.is_empty z rb ≡ true) × (contents z rb ≡ []))
        ⊎ ((x : T) × (Ring.is_empty z rb ≡ false)
            × (Ring.peek z rb ≡ some x)
            × (contents z rb ≡ x ∷ contents z (Ring.pop z rb).1))
  buffer_cases rb v = elim (Bool-cases (Ring.is_empty z rb)) [
    | inl e ↦ inl (e, empty-contents rb v e)
    | inr e ↦
        let p = peek-nonempty z rb e in inr (get_or rb.buf rb.r z, e, p, peek-contents rb _ v p)
  ]
