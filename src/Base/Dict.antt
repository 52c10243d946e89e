-- ===== src/Base/Dict.antt =====
-- Go maps: association lists with at most one entry for a key.
-- The order of the entries stands for one order in which `range` may visit them.
use mathlib.Core.Path.{◌≡◌, refl, sym, ◌∙◌, subst}
use mathlib.Core.Logic.{inl, inr}
use mathlib.Core.Bool.{Bool, true, false}
use mathlib.Core.Option.{Option, none, some}
use mathlib.Core.List.{List, [], ◌∷◌}
use Prim.Native.Nat.{suc, ◌≤◌}
use native.Mathlib.Omega.{arith}
use czx.Base.Tests.{if◌then◌else◌, Bool-cases}
use czx.Base.Lists.{length}
use czx.Base.Keys.{Eq, beq_refl}

abbrev pub Dict {ℓ κ} : Type ℓ → Type κ → Type (ℓ ⊔ κ)
Dict K V = List (K × V)

abbrev pub is_some {ℓ} : {A : Type ℓ} → Option A → Bool
is_some none = false
is_some (some a) = true

module _ {ℓ κ} {K : Type ℓ} {V : Type κ} ⦃e : Eq K⦄ where
  -- `v, ok := m[k]`
  unfoldable pub lookup : K → Dict K V → Option V
  lookup k [] = none
  lookup k ((j, v) ∷ m) = if e.beq j k then some v else lookup k m

  -- `m[k] = v`
  unfoldable pub insert : K → V → Dict K V → Dict K V
  insert k v [] = (k, v) ∷ []
  insert k v ((j, w) ∷ m) = if e.beq j k then (j, v) ∷ m else (j, w) ∷ insert k v m

  -- `delete(m, k)`
  unfoldable pub erase : K → Dict K V → Dict K V
  erase k [] = []
  erase k ((j, w) ∷ m) = if e.beq j k then erase k m else (j, w) ∷ erase k m

  -- `_, ok := m[k]`
  unfoldable pub has : K → Dict K V → Bool
  unfolding lookup
  has k m = is_some (lookup k m)

  -- No key has two entries.
  abbrev pub IsDict : Dict K V → Type 0
  IsDict [] = Unit {0}
  IsDict ((k, v) ∷ m) = (has k m ≡ false) × IsDict m

module _ {ℓ κ} {K : Type ℓ} {V : Type κ} ⦃e : Eq K⦄ where
  pub lookup-insert :
      (k j : K) (v : V) (m : Dict K V)
      → lookup j (insert k v m) ≡ (if e.beq k j then some v else lookup j m)
  unfolding lookup insert
  lookup-insert k j v [] = refl
  lookup-insert k j v ((i, w) ∷ m) =
      ground (arith, e.beq_iff k j, e.beq_iff i k, e.beq_iff i j, lookup-insert k j v m)

  pub lookup-erase :
      (k j : K) (m : Dict K V) → lookup j (erase k m) ≡ (if e.beq k j then none else lookup j m)
  unfolding lookup erase
  lookup-erase k j [] = ground arith
  lookup-erase k j ((i, w) ∷ m) =
      ground (arith, e.beq_iff k j, e.beq_iff i k, e.beq_iff i j, lookup-erase k j m)

  pub has-insert :
      (k j : K) (v : V) (m : Dict K V)
      → has j (insert k v m) ≡ (if e.beq k j then true else has j m)
  unfolding has
  has-insert k j v m = ground (arith, lookup-insert k j v m)

  pub has-erase :
      (k j : K) (m : Dict K V) → has j (erase k m) ≡ (if e.beq k j then false else has j m)
  unfolding has
  has-erase k j m = ground (arith, lookup-erase k j m)

  pub length-insert :
      (k : K) (v : V) (m : Dict K V)
      → length (insert k v m) ≡ (if has k m then length m else suc (length m))
  unfolding insert has lookup
  length-insert k v [] = refl
  length-insert k v ((i, w) ∷ m) = ground (arith, length-insert k v m)

  pub length-erase-le : (k : K) (m : Dict K V) → length (erase k m) ≤ length m
  unfolding erase
  length-erase-le k [] = omega arith
  length-erase-le k ((i, w) ∷ m) = ground (arith, length-erase-le k m)

  pub erase_absent : (k : K) (m : Dict K V) → has k m ≡ false → erase k m ≡ m
  unfolding erase has lookup
  erase_absent k [] h = refl
  erase_absent k ((i, w) ∷ m) h = ground (arith, erase_absent k m)

  pub length-erase :
      (k : K) (m : Dict K V)
      → IsDict m
      → length m ≡ (if has k m then suc (length (erase k m)) else length (erase k m))
  unfolding erase has lookup
  length-erase k [] d = refl
  length-erase k ((i, w) ∷ m) d =
      ground (arith, e.beq_iff i k, erase_absent k m, length-erase k m d.1, has-key i k d.0)
    where
      has-key : (i k : K) → has i m ≡ false → i ≡ k → has k m ≡ false
      has-key i k h p = rw (← p) h

  pub insert-IsDict : (k : K) (v : V) (m : Dict K V) → IsDict m → IsDict (insert k v m)
  unfolding insert
  insert-IsDict k v [] d = unfold has lookup in (refl, tt)
  insert-IsDict k v ((i, w) ∷ m) d =
      ground (arith, e.beq_iff i k, e.beq_iff k i, has-insert k i v m, insert-IsDict k v m d.1)

  pub erase-IsDict : (k : K) (m : Dict K V) → IsDict m → IsDict (erase k m)
  unfolding erase
  erase-IsDict k [] d = d
  erase-IsDict k ((i, w) ∷ m) d =
      ground (arith, e.beq_iff i k, e.beq_iff k i, has-erase k i m, erase-IsDict k m d.1)

  -- A property of what is found after an insertion: of the new value, and of what was found before.
  pub lookup-insert_elim {μ} :
      (P : V → Type μ) (k j : K) (v w : V) (m : Dict K V)
      → lookup j (insert k v m) ≡ some w
      → P v
      → (lookup j m ≡ some w → P w)
      → P w
  lookup-insert_elim P k j v w m found new old = elim (Bool-cases (e.beq k j)) [
    | inl same ↦
        let hit : some v ≡ some w = sym (rw same at (lookup-insert k j v m)) ∙ found in
        let eq : v ≡ w = cc hit in subst P eq new
    | inr other ↦ old (sym (rw other at (lookup-insert k j v m)) ∙ found)
  ]

  pub lookup-insert_self : (k : K) (v : V) (m : Dict K V) → lookup k (insert k v m) ≡ some v
  lookup-insert_self k v m = lookup-insert k k v m ∙ rw (beq_refl k)
