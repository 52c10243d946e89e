-- ===== src/Container/CMap/Inv.antt =====
-- container/cmap/cmap.go: the entries have different keys and are no more than `maxLen`.
use czx.Base.{
  suc, ◌≤◌, ◌≡◌, ◌∙◌, refl, ap, Bool, true, false, [], ◌∷◌, none, some, arith, ◌==◌, if◌then◌else◌,
  if_cases, Option-cases, inl, inr, Bool-cases, length, Eq,
}
use czx.Base.Dict.{
  Dict, lookup, erase, has, is_some, IsDict, length-erase-le, length-insert, insert-IsDict,
  erase-IsDict,
}
use czx.Container.CMap.{
  CMap, shrink, asked, shrink_if_asked, keep_entries, delete_if, clear, delete, set_key,
}

module _ {ℓ κ} {K : Type ℓ} {V : Type κ} ⦃e : Eq K⦄ where
  abbrev pub IsValid : CMap K V → Type 0
  IsValid c = IsDict c.entries × (length c.entries ≤ c.max_len)

  -- Either nothing changes, or the largest size becomes the size.
  shrink_cases {μ} :
      (P : CMap K V → Type μ) (c : CMap K V)
      → P c
      → P (record c { max_len = length c.entries })
      → P (shrink_if_asked c)
  unfolding shrink_if_asked shrink
  shrink_cases P c same less =
      if_cases P (asked c.recycler (length c.entries) c.max_len) _ c
        (λ _. if_cases P (length c.entries == 0) c _ (λ _. same) (λ _. less)) (λ _. same)

  pub entries-shrink_if_asked : (c : CMap K V) → (shrink_if_asked c).entries ≡ c.entries
  entries-shrink_if_asked c = shrink_cases (λ d. d.entries ≡ c.entries) c refl refl

  pub shrink-IsValid : (c : CMap K V) → IsValid c → IsValid (shrink c)
  unfolding shrink
  shrink-IsValid c v =
      if_cases IsValid (length c.entries == 0) c _ (λ _. v) (λ _. (v.0, omega arith))

  shrink_if_asked-IsValid : (c : CMap K V) → IsValid c → IsValid (shrink_if_asked c)
  shrink_if_asked-IsValid c v = shrink_cases IsValid c v (v.0, omega arith)

  pub length-keep_entries : (f : K → V → Bool) (m : Dict K V) → length (keep_entries f m) ≤ length m
  unfolding keep_entries
  length-keep_entries f [] = omega arith
  length-keep_entries f ((k, v) ∷ m) = ground (arith, length-keep_entries f m)

  absent : (k j : K) (m : Dict K V) → has j m ≡ false → j ≡ k → lookup k m ≡ none
  unfolding has
  absent k j m h p = elim (Option-cases (lookup k m)) [
    | inl n ↦ n
    | inr found ↦
        let other : is_some (lookup k m) ≡ false = rw (← p) h in absurd (cc (other, found.1))
  ]

  pub has-keep_entries :
      (f : K → V → Bool) (m : Dict K V) (k : K) → has k m ≡ false → has k (keep_entries f m) ≡ false
  unfolding keep_entries has lookup
  has-keep_entries f [] k h = refl
  has-keep_entries f ((j, v) ∷ m) k h = ground (arith, has-keep_entries f m k)

  keep_entries-IsDict : (f : K → V → Bool) (m : Dict K V) → IsDict m → IsDict (keep_entries f m)
  unfolding keep_entries
  keep_entries-IsDict f [] d = d
  keep_entries-IsDict f ((j, v) ∷ m) d =
      if_cases IsDict (f j v) _ _ (λ _. keep_entries-IsDict f m d.1)
        (λ _. (has-keep_entries f m j d.0, keep_entries-IsDict f m d.1))

  pub lookup-keep_entries :
      (f : K → V → Bool) (m : Dict K V) (k : K)
      → IsDict m
      → lookup k (keep_entries f m)
        ≡ elim (lookup k m) [ none ↦ none | some v ↦ if f k v then none else some v ]
  unfolding keep_entries lookup
  lookup-keep_entries f [] k d = refl
  lookup-keep_entries f ((j, v) ∷ m) k d = elim (Bool-cases (e.beq j k)) [
    | inl same ↦
        let p : j ≡ k = (e.beq_iff j k).0 same in
        let rest : lookup k (keep_entries f m) ≡ none =
          lookup-keep_entries f m k d.1 ∙ rw (absent k j m d.0 p) refl in
        elim (Bool-cases (f j v)) [
          | inl y ↦ let z : f k v ≡ true = rw (← p) y in rw (same, y, z, rest) refl
          | inr y ↦ let z : f k v ≡ false = rw (← p) y in rw (y, same, z) refl
        ]
    | inr other ↦ elim (Bool-cases (f j v)) [
      | inl y ↦ rw (other, y) (lookup-keep_entries f m k d.1)
      | inr y ↦ rw (y, other) (lookup-keep_entries f m k d.1)
    ]
  ]

  pub set_key-IsValid : (c : CMap K V) (k : K) (v : V) → IsValid c → IsValid (set_key c k v)
  unfolding set_key
  set_key-IsValid c k v h = (insert-IsDict k v c.entries h.0, ground arith)

  pub delete-IsValid : (c : CMap K V) (k : K) → IsValid c → IsValid (delete c k)
  unfolding delete
  delete-IsValid c k h =
      let fewer = length-erase-le k c.entries in
      let left : IsValid (record c { entries = erase k c.entries }) =
        (erase-IsDict k c.entries h.0, omega arith) in
      shrink_if_asked-IsValid (record c { entries = erase k c.entries }) left

  pub delete_if-IsValid : (c : CMap K V) (f : K → V → Bool) → IsValid c → IsValid (delete_if c f)
  unfolding delete_if
  delete_if-IsValid c f h =
      let fewer = length-keep_entries f c.entries in
      let left : IsValid (record c { entries = keep_entries f c.entries }) =
        (keep_entries-IsDict f c.entries h.0, omega arith) in
      shrink_if_asked-IsValid (record c { entries = keep_entries f c.entries }) left

  pub clear-IsValid : (c : CMap K V) → IsValid (clear c)
  unfolding clear
  clear-IsValid c = (tt, omega arith)

  pub length-delete : (c : CMap K V) (k : K) → length (delete c k).entries ≤ length c.entries
  unfolding delete
  length-delete c k =
      let fewer = length-erase-le k c.entries in
      let same : length (delete c k).entries ≡ length (erase k c.entries) =
        ap length (entries-shrink_if_asked (record c { entries = erase k c.entries })) in
      omega arith

  pub length-set_key :
      (c : CMap K V) (k : K) (v : V) → length (set_key c k v).entries ≤ suc (length c.entries)
  unfolding set_key
  length-set_key c k v = ground (arith, length-insert k v c.entries)
