-- ===== src/Container/CMap/Refine.antt =====
-- container/cmap/cmap.go: whatever is called on a map, its answers are those of a partial function.
use czx.Base.{
  List-cases, suc-ne-zero, ◌≡◌, ◌∙◌, refl, sym, ap, inl, inr, Bool, true, false, List, [], ◌∷◌,
  Option, none, some, ◌==◌, if◌then◌else◌, if_cases, length, Eq,
}
use czx.Base.Dict.{lookup, erase, has, is_some, lookup-insert, lookup-erase}
use czx.Container.CMap.{CMap, shrink, delete_if, clear, delete, set_key, get, has_key}
use czx.Container.CMap.Inv.{
  IsValid, lookup-keep_entries, entries-shrink_if_asked, set_key-IsValid, delete-IsValid,
  delete_if-IsValid, clear-IsValid, shrink-IsValid,
}

pub data Call {ℓ κ} (K : Type ℓ) (V : Type κ) : Type (ℓ ⊔ κ) where
  call_has : K → Call K V
  call_get : K → Call K V
  call_set : K → V → Call K V
  call_delete : K → Call K V
  call_delete_if : (K → V → Bool) → Call K V
  call_shrink : Call K V
  call_clear : Call K V

pub data Reply {κ} (V : Type κ) : Type κ where
  done : Reply V
  answer : Bool → Reply V
  found : Option V → Reply V

is_some_if {κ} :
    {V : Type κ} (b : Bool) (v o : Option V)
    → is_some (if b then v else o) ≡ (if b then is_some v else is_some o)
is_some_if true v o = refl
is_some_if false v o = refl

module _ {ℓ κ} {K : Type ℓ} {V : Type κ} ⦃e : Eq K⦄ where
  pub call : CMap K V → Call K V → CMap K V × Reply V
  call c (call_has k) = (c, answer (has_key c k))
  call c (call_get k) = (c, found (get c k))
  call c (call_set k v) = (set_key c k v, done)
  call c (call_delete k) = (delete c k, done)
  call c (call_delete_if f) = (delete_if c f, done)
  call c call_shrink = (shrink c, done)
  call c call_clear = (clear c, done)

  -- A partial function on the keys, and what each call makes of it.
  pub spec : (K → Option V) → Call K V → (K → Option V) × Reply V
  spec m (call_has k) = (m, answer (is_some (m k)))
  spec m (call_get k) = (m, found (m k))
  spec m (call_set k v) = (λ j. if e.beq k j then some v else m j, done)
  spec m (call_delete k) = (λ j. if e.beq k j then none else m j, done)
  spec m (call_delete_if f) =
      (λ j. elim (m j) [ none ↦ none | some v ↦ if f j v then none else some v ], done)
  spec m call_shrink = (m, done)
  spec m call_clear = (λ j. none, done)

  pub run : CMap K V → List (Call K V) → List (Reply V)
  run c [] = []
  run c (x ∷ xs) = (call c x).1 ∷ run (call c x).0 xs

  pub run_spec : (K → Option V) → List (Call K V) → List (Reply V)
  run_spec m [] = []
  run_spec m (x ∷ xs) = (spec m x).1 ∷ run_spec (spec m x).0 xs

  call-IsValid : (c : CMap K V) (x : Call K V) → IsValid c → IsValid (call c x).0
  unfolding call
  call-IsValid c (call_has k) h = h
  call-IsValid c (call_get k) h = h
  call-IsValid c (call_set k v) h = set_key-IsValid c k v h
  call-IsValid c (call_delete k) h = delete-IsValid c k h
  call-IsValid c (call_delete_if f) h = delete_if-IsValid c f h
  call-IsValid c call_shrink h = shrink-IsValid c h
  call-IsValid c call_clear h = clear-IsValid c

  lookup-empty : (k : K) → lookup {V = V} k [] ≡ none
  unfolding lookup
  lookup-empty k = refl

  pub has_key-lookup : (c : CMap K V) (k : K) → has_key c k ≡ is_some (get c k)
  unfolding has_key get has
  has_key-lookup c k = elim (List-cases c.entries) [
    | inl nil ↦
        let missing : lookup k c.entries ≡ none = ap (lookup k) nil ∙ lookup-empty k in
        let size : (length c.entries == 0) ≡ true = rw nil refl in rw (size, missing) refl
    | inr (x, xs, more) ↦
        let size : (length c.entries == 0) ≡ false = rw more (suc-ne-zero (length xs)) in
        rw size refl
  ]

  call-reply : (c : CMap K V) (x : Call K V) → (call c x).1 ≡ (spec (get c) x).1
  unfolding call spec
  call-reply c (call_has k) = ap answer (has_key-lookup c k)
  call-reply c (call_get k) = refl
  call-reply c (call_set k v) = refl
  call-reply c (call_delete k) = refl
  call-reply c (call_delete_if f) = refl
  call-reply c call_shrink = refl
  call-reply c call_clear = refl

  call-view :
      (c : CMap K V) (x : Call K V) (k : K) → IsValid c → get (call c x).0 k ≡ (spec (get c) x).0 k
  unfolding call spec get
  call-view c (call_has j) k h = refl
  call-view c (call_get j) k h = refl
  call-view c (call_set j v) k h = unfold set_key in lookup-insert j k v c.entries
  call-view c (call_delete j) k h =
      unfold delete in ap (lookup k) (entries-shrink_if_asked _) ∙ lookup-erase j k c.entries
  call-view c (call_delete_if f) k h =
      unfold delete_if in
      ap (lookup k) (entries-shrink_if_asked _) ∙ lookup-keep_entries f c.entries k h.0
  call-view c call_shrink k h =
      unfold shrink in
      if_cases (λ (d : CMap K V). lookup k d.entries ≡ lookup k c.entries) (length c.entries == 0) c
        _ (λ _. refl) (λ _. refl)
  call-view c call_clear k h = unfold clear lookup in refl

  pub get-set_key :
      (c : CMap K V) (k j : K) (v : V)
      → get (set_key c k v) j ≡ (if e.beq k j then some v else get c j)
  unfolding get set_key
  get-set_key c k j v = lookup-insert k j v c.entries

  pub get-delete :
      (c : CMap K V) (k j : K) → get (delete c k) j ≡ (if e.beq k j then none else get c j)
  unfolding get delete
  get-delete c k j =
      ap (lookup j) (entries-shrink_if_asked (record c { entries = erase k c.entries }))
      ∙ lookup-erase k j c.entries

  pub has_key-set_key :
      (c : CMap K V) (k j : K) (v : V)
      → has_key (set_key c k v) j ≡ (if e.beq k j then true else has_key c j)
  has_key-set_key c k j v =
      has_key-lookup (set_key c k v) j
      ∙ ap is_some (get-set_key c k j v)
      ∙ is_some_if (e.beq k j) (some v) (get c j)
      ∙ ap (λ b. if e.beq k j then true else b) (sym (has_key-lookup c j))

  pub has_key-delete :
      (c : CMap K V) (k j : K) → has_key (delete c k) j ≡ (if e.beq k j then false else has_key c j)
  has_key-delete c k j =
      has_key-lookup (delete c k) j
      ∙ ap is_some (get-delete c k j)
      ∙ is_some_if (e.beq k j) none (get c j)
      ∙ ap (λ b. if e.beq k j then false else b) (sym (has_key-lookup c j))

  run_congr :
      (m n : K → Option V) (xs : List (Call K V))
      → ((k : K) → m k ≡ n k)
      → run_spec m xs ≡ run_spec n xs
  run_congr m n xs h = ap (λ f. run_spec f xs) (λ i k. h k i)

  -- The replies of a map to any calls, in order, are those of the partial function that it stands
  -- for, from any map whose entries have different keys and are no more than its largest size:
  -- neither shrinking nor the order of the entries is seen.
  pub map_refines :
      (c : CMap K V) (xs : List (Call K V)) → IsValid c → run c xs ≡ run_spec (get c) xs
  unfolding run run_spec
  map_refines c [] h = refl
  map_refines c (x ∷ xs) h =
      ap (λ r. r ∷ run (call c x).0 xs) (call-reply c x)
      ∙ ap (◌∷◌ (spec (get c) x).1) (
          map_refines (call c x).0 xs (call-IsValid c x h)
          ∙ run_congr (get (call c x).0) (spec (get c) x).0 xs (λ k. call-view c x k h))
