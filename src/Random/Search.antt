-- ===== src/Random/Search.antt =====
-- sort.Search, as algo/random/weight.go uses it: on a test that is false up to an index and true from it on.
use czx.Base.{
  ℕ, zero, suc, ◌+◌, ◌/◌, ◌≤◌, ◌<◌, ◌≡◌, refl, Bool, true, false, some, arith, leb, Bool-cases, inl,
  inr,
}
use czx.Random.{search_loop, search}

-- Once true, the test stays true.
abbrev pub IsMonotone : ℕ → (ℕ → Bool) → Type 0
IsMonotone n f = (c e : ℕ) → c ≤ e → e < n → f c ≡ true → f e ≡ true

-- `m` is the first of the `n` indexes where the test is true, or `n`.
pub record IsFirst (n : ℕ) (f : ℕ → Bool) (m : ℕ) : Type 0 where
  pub within : m ≤ n
  pub below : (c : ℕ) → c < m → f c ≡ false
  pub above : (c : ℕ) → m ≤ c → c < n → f c ≡ true

search_loop-IsFirst :
    (k n : ℕ) (f : ℕ → Bool) (i j : ℕ)
    → IsMonotone n f
    → i ≤ j
    → j ≤ n
    → j < i + k
    → ((c : ℕ) → c < i → f c ≡ false)
    → ((c : ℕ) → j ≤ c → c < n → f c ≡ true)
    → (m : ℕ) × (search_loop k f i j ≡ some m) × IsFirst n f m
unfolding search_loop
search_loop-IsFirst zero n f i j mono a b fuel low high = absurd (omega arith)
search_loop-IsFirst (suc k) n f i j mono a b fuel low high = elim (Bool-cases (leb j i)) [
  | inl e ↦ (
    i,
    rw e refl,
    record { within = omega arith; below = low; above = λ c p q. high c (ground arith) q },
  )
  | inr e ↦
      let h = (i + j) / 2 in
      let less : i < j = ground arith in
      let lower : i ≤ h = omega arith in
      let upper : h < j = omega arith in
      elim (Bool-cases (f h)) [
        | inl t ↦
            let (m, ran, first) =
              search_loop-IsFirst k n f i h mono lower (omega arith) (omega arith) low
                (λ c p q. mono h c p q t) in
            (m, rw (e, t) ran, first)
        | inr t ↦
            let (m, ran, first) =
              search_loop-IsFirst k n f (h + 1) j mono (omega arith) b (omega arith)
                (λ c p. elim (Bool-cases (f c)) [
                  | inl u ↦ absurd (ground (arith, mono c h (omega arith) (omega arith) u))
                  | inr u ↦ u
                ])
                high in
            (m, rw (e, t) ran, first)
      ]
]

-- sort.Search on such a test returns, and gives the first index where it is true.
pub search-IsFirst :
    (n : ℕ) (f : ℕ → Bool) → IsMonotone n f → (m : ℕ) × (search n f ≡ some m) × IsFirst n f m
unfolding search
search-IsFirst n f mono =
    search_loop-IsFirst (n + 1) n f 0 n mono (omega arith) (omega arith) (omega arith)
      (λ c p. absurd (omega arith)) (λ c p q. absurd (omega arith))
