-- ===== src/Container/Ring/Window.antt =====
-- The list of the values of a function at consecutive numbers, and the numbers of ring slots.
use native.Mathlib.Nat.{mod-eq_of_lt, mod-eq-sub-mod}
use native.Mathlib.Decide.{dec_lt}
use mathlib.Core.Path.{ap₂}
use czx.Base.{
  ℕ, zero, suc, ◌+◌, ◌-◌, ◌%◌, ◌≤◌, ◌<◌, ◌≡◌, ◌≢◌, refl, ap, ◌∙◌, List, [], ◌∷◌, ◌++◌, arith,
  length, ltb, if◌then◌else◌,
}

module _ {ℓ} {T : Type ℓ} where
  -- g i, g (i + 1), … , `n` of them
  abbrev pub tabulate : (ℕ → T) → ℕ → ℕ → List T
  tabulate g i zero = []
  tabulate g i (suc n) = g i ∷ tabulate g (i + 1) n

  pub length-tabulate : (g : ℕ → T) (i n : ℕ) → length (tabulate g i n) ≡ n
  length-tabulate g i zero = refl
  length-tabulate g i (suc n) = ap suc (length-tabulate g (i + 1) n)

  pub tabulate_ext :
      (g h : ℕ → T) (i n : ℕ)
      → ((k : ℕ) → i ≤ k → k < i + n → g k ≡ h k)
      → tabulate g i n ≡ tabulate h i n
  tabulate_ext g h i zero e = refl
  tabulate_ext g h i (suc n) e =
      ap₂ ◌∷◌ (e i (omega arith) (omega arith))
        (tabulate_ext g h (i + 1) n (λ k p q. e k (omega arith) (omega arith)))

  pub tabulate_snoc :
      (g : ℕ → T) (i n : ℕ) → tabulate g i (suc n) ≡ tabulate g i n ++ (g (i + n) ∷ [])
  tabulate_snoc g i zero = ap (λ k. g k ∷ []) (omega arith)
  tabulate_snoc g i (suc n) =
      ap (◌∷◌ (g i))
        (tabulate_snoc g (i + 1) n ∙ ap (λ k. tabulate g (i + 1) n ++ (g k ∷ [])) (omega arith))

  pub tabulate_shift : (g : ℕ → T) (i n : ℕ) → tabulate (λ k. g (k + 1)) i n ≡ tabulate g (i + 1) n
  tabulate_shift g i zero = refl
  tabulate_shift g i (suc n) = ap (◌∷◌ (g (i + 1))) (tabulate_shift g (i + 1) n)

  -- A list by its first value, where the code tests that there is one.
  pub tabulate_cons :
      (g : ℕ → T) (i n : ℕ) → 0 < n → tabulate g i n ≡ g i ∷ tabulate g (i + 1) (n - 1)
  tabulate_cons g i zero h = absurd (omega arith)
  tabulate_cons g i (suc n) h = ap (λ k. tabulate g i (suc k)) (omega arith)

-- The slot `k` places behind `h` on a ring of `size` slots, with no division.
pub slot_lem :
    (h k size : ℕ)
    → h < size
    → k ≤ size
    → (h + k) % size ≡ (if ltb (h + k) size then h + k else h + k - size)
slot_lem h k size p q = elim (dec_lt (h + k) size) [
  | yes below ↦ ground (arith, mod-eq_of_lt below)
  | no above ↦ ground (
    arith,
    mod-eq-sub-mod {n = h + k} {m = size} (omega arith),
    mod-eq_of_lt {n = h + k - size} {m = size} (omega arith),
  )
]

-- Fewer than `size` steps lead to different slots.
pub slots_ne : (h k n size : ℕ) → h < size → n < size → k < n → (h + n) % size ≢ (h + k) % size
slots_ne h k n size p q less =
    ground (arith, slot_lem h n size p (omega arith), slot_lem h k size p (omega arith))
