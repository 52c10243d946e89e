-- ===== src/EventBus/Handlers.antt =====
-- eventbus/eventbus.go: the handlers of each event, under the changes that the bus makes to them.
use Prim.Native.String.{String}
use text.Mathlib.TextEquality.{eq_iff}
use mathlib.Core.Path.{subst}
use czx.Base.{
  ◌⊎◌, ℕ, ◌≡◌, refl, ap, sym, ◌∙◌, Bool, true, false, List, [], ◌∷◌, ◌++◌, arith, ◌==◌,
  if◌then◌else◌, length, string_eq, Bool-cases, inl, inr,
}
use czx.Base.Dict.{Dict, insert, erase, lookup-insert, lookup-erase}
use czx.EventBus.{ids_of, handlers, register, holds, delete_first, drop_empty}

-- Events as Go compares them.
abbrev pub same : String → String → Bool
same a b = string_eq.beq a b

abbrev pub Nodup : List ℕ → Type 0
Nodup [] = Unit {0}
Nodup (i ∷ ids) = (holds i ids ≡ false) × Nodup ids

pub handlers-insert :
    (e f : String) (ids : List ℕ) (m : Dict String (List ℕ))
    → handlers f (insert e ids m) ≡ (if same e f then ids else handlers f m)
unfolding handlers
handlers-insert e f ids m = elim (Bool-cases (same e f)) [
  | inl h ↦ ap ids_of (lookup-insert e f ids m) ∙ rw h refl
  | inr h ↦ ap ids_of (lookup-insert e f ids m) ∙ rw h refl
]

pub handlers-erase :
    (e f : String) (m : Dict String (List ℕ))
    → handlers f (erase e m) ≡ (if same e f then [] else handlers f m)
unfolding handlers
handlers-erase e f m = elim (Bool-cases (same e f)) [
  | inl h ↦ ap ids_of (lookup-erase e f m) ∙ rw h refl
  | inr h ↦ ap ids_of (lookup-erase e f m) ∙ rw h refl
]

pub handlers-erase_same :
    (e f : String) (m : Dict String (List ℕ)) → same e f ≡ true → handlers f (erase e m) ≡ []
handlers-erase_same e f m s = handlers-erase e f m ∙ rw s refl

pub handlers-erase_other :
    (e f : String) (m : Dict String (List ℕ))
    → same e f ≡ false
    → handlers f (erase e m) ≡ handlers f m
handlers-erase_other e f m s = handlers-erase e f m ∙ rw s refl

pub handlers-insert_same :
    (e f : String) (ids : List ℕ) (m : Dict String (List ℕ))
    → same e f ≡ true
    → handlers f (insert e ids m) ≡ ids
handlers-insert_same e f ids m s = handlers-insert e f ids m ∙ rw s refl

pub handlers-insert_other :
    (e f : String) (ids : List ℕ) (m : Dict String (List ℕ))
    → same e f ≡ false
    → handlers f (insert e ids m) ≡ handlers f m
handlers-insert_other e f ids m s = handlers-insert e f ids m ∙ rw s refl

pub nil_of : (ids : List ℕ) → (length ids == 0) ≡ true → ids ≡ []
nil_of [] h = refl
nil_of (i ∷ ids) h = absurd (ground arith)

-- Without handlers an event is as one that is not there.
pub handlers-drop_empty :
    (e f : String) (m : Dict String (List ℕ)) → handlers f (drop_empty e m) ≡ handlers f m
unfolding drop_empty
handlers-drop_empty e f m = elim (Bool-cases (length (handlers e m) == 0)) [
  | inl h ↦ rw h (handlers-erase e f m ∙ ground (arith, eq_iff e f, nil_of (handlers e m) h))
  | inr h ↦ rw h refl
]

pub holds-append :
    (i j : ℕ) (ids : List ℕ) → holds i (ids ++ (j ∷ [])) ≡ (if j == i then true else holds i ids)
unfolding holds
holds-append i j [] = refl
holds-append i j (k ∷ ids) = ground (arith, holds-append i j ids)

pub Nodup-append :
    (ids : List ℕ) (j : ℕ) → holds j ids ≡ false → Nodup ids → Nodup (ids ++ (j ∷ []))
unfolding holds
Nodup-append [] j h v = (refl, tt)
Nodup-append (i ∷ ids) j h (fresh, v) =
    (ground (arith, holds-append i j ids), Nodup-append ids j (ground arith) v)

pub holds-delete :
    (i j : ℕ) (ids : List ℕ)
    → Nodup ids
    → holds i (delete_first j ids) ≡ (if j == i then false else holds i ids)
unfolding holds delete_first
holds-delete i j [] v = ground arith
holds-delete i j (k ∷ ids) (fresh, v) = ground (arith, holds-delete i j ids v)

pub Nodup-delete : (j : ℕ) (ids : List ℕ) → Nodup ids → Nodup (delete_first j ids)
unfolding delete_first
Nodup-delete j [] v = tt
Nodup-delete j (i ∷ ids) (fresh, v) = elim (Bool-cases (i == j)) [
  | inl h ↦ rw h v
  | inr h ↦ rw h (ground (arith, holds-delete i j ids v), Nodup-delete j ids v)
]

pub after_register :
    (m : Dict String (List ℕ)) (e f : String) (n i : ℕ)
    → holds i (handlers f (register e n m)) ≡ true
    → ((holds i (handlers f m) ≡ true) ⊎ ((i ≡ n) × (e ≡ f)))
unfolding register
after_register m e f n i h = elim (Bool-cases (same e f)) [
  | inl s ↦
      let is : e ≡ f = ground (arith, eq_iff e f) in
      let k = ap (holds i) (handlers-insert_same e f (handlers e m ++ (n ∷ [])) m s) in
      let now = holds-append i n (handlers e m) in
      let old = ap (λ t. holds i (handlers t m)) is in
      elim (Bool-cases (n == i)) [
        | inl new ↦ inr (ground arith, is)
        | inr other ↦ inl (ground arith)
      ]
  | inr s ↦ inl (sym (ap (holds i) (handlers-insert_other e f (handlers e m ++ (n ∷ [])) m s)) ∙ h)
]

pub register-Nodup :
    (m : Dict String (List ℕ)) (e f : String) (n : ℕ)
    → Nodup (handlers e m)
    → Nodup (handlers f m)
    → holds n (handlers e m) ≡ false
    → Nodup (handlers f (register e n m))
unfolding register
register-Nodup m e f n v w h = elim (Bool-cases (same e f)) [
  | inl s ↦
      subst Nodup (sym (handlers-insert_same e f (handlers e m ++ (n ∷ [])) m s))
        (Nodup-append (handlers e m) n h v)
  | inr s ↦ subst Nodup (sym (handlers-insert_other e f (handlers e m ++ (n ∷ [])) m s)) w
]
