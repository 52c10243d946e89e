-- ===== src/Timer/Word.antt =====
-- Go's uint64 as a set of numbers below 64: shifts, complement and the binary digits of a word.
use Prim.Native.Nat.{bit_and, bit_or, bit_or-bitwise, bit_and-bitwise, digits, min, max}
use czx.Base.{
  ℕ, zero, suc, ◌+◌, ◌-◌, ◌*◌, ◌/◌, ◌%◌, ◌^◌, ◌≤◌, ◌<◌, ◌≡◌, refl, ap, ◌∙◌, Bool, true, not, ◌&&◌,
  arith, ltb, leb, ◌==◌, ==_iff, if◌then◌else◌,
}

-- `a << n`
unfoldable pub shl : ℕ → ℕ → ℕ
shl a n = if ltb n 64 then (a * 2 ^ n) % 2 ^ 64 else 0

-- `^a`
unfoldable pub complement : ℕ → ℕ
complement a = 2 ^ 64 - 1 - a

-- `math.MaxUint64`
abbrev pub max_uint64 : ℕ
max_uint64 = 2 ^ 64 - 1

-- The digit of weight 2 ^ j.
unfoldable pub bit_at : ℕ → ℕ → ℕ
bit_at a zero = a % 2
bit_at a (suc j) = bit_at (a / 2) j

-- `1<<uint(j) & a != 0`
unfoldable pub has_bit : ℕ → ℕ → Bool
unfolding shl
has_bit a j = not (bit_and (shl 1 j) a == 0)

module _ (z : ℕ → ℕ) (f : ℕ → ℕ → ℕ) where
  -- More digits than the first number has make no difference.
  digits_more : (n m a b : ℕ) → a ≤ n → a ≤ m → digits z f n a b ≡ digits z f m a b
  digits_more zero zero a b p q = refl
  digits_more zero (suc m) zero b p q = refl
  digits_more zero (suc m) (suc a) b p q = absurd (omega arith)
  digits_more (suc n) zero zero b p q = refl
  digits_more (suc n) zero (suc a) b p q = absurd (omega arith)
  digits_more (suc n) (suc m) zero b p q = refl
  digits_more (suc n) (suc m) (suc a) b p q =
      omega (arith, digits_more n m (suc a / 2) (b / 2) (omega arith) (omega arith))

  -- The lowest digit, and the rest, where nothing else comes of two zeros.
  digits_lowest :
      (a b : ℕ)
      → z b ≡ z (b / 2) * 2 + f 0 (b % 2)
      → digits z f a a b ≡ digits z f (a / 2) (a / 2) (b / 2) * 2 + f (a % 2) (b % 2)
  digits_lowest zero b h = h
  digits_lowest (suc a) b h =
      omega (arith, digits_more a (suc a / 2) (suc a / 2) (b / 2) (omega arith) (omega arith))

bit_or_lowest : (a b : ℕ) → bit_or a b ≡ bit_or (a / 2) (b / 2) * 2 + max (a % 2) (b % 2)
bit_or_lowest a b = omega (
  arith,
  bit_or-bitwise a b,
  bit_or-bitwise (a / 2) (b / 2),
  digits_lowest (λ b. b) max a b (omega arith),
)

bit_and_lowest : (a b : ℕ) → bit_and a b ≡ bit_and (a / 2) (b / 2) * 2 + min (a % 2) (b % 2)
bit_and_lowest a b = omega (
  arith,
  bit_and-bitwise a b,
  bit_and-bitwise (a / 2) (b / 2),
  digits_lowest (λ b. 0) min a b (omega arith),
)

pub bit_at_le : (a j : ℕ) → bit_at a j ≤ 1
unfolding bit_at
bit_at_le a zero = omega arith
bit_at_le a (suc j) = bit_at_le (a / 2) j

pub bit_at-bit_or : (a b j : ℕ) → bit_at (bit_or a b) j ≡ max (bit_at a j) (bit_at b j)
unfolding bit_at
bit_at-bit_or a b zero = omega (arith, bit_or_lowest a b)
bit_at-bit_or a b (suc j) =
    ap (λ n. bit_at n j) (half (bit_or_lowest a b)) ∙ bit_at-bit_or (a / 2) (b / 2) j
  where
    half :
        bit_or a b ≡ bit_or (a / 2) (b / 2) * 2 + max (a % 2) (b % 2)
        → bit_or a b / 2 ≡ bit_or (a / 2) (b / 2)
    half h = omega arith

pub bit_at-bit_and : (a b j : ℕ) → bit_at (bit_and a b) j ≡ min (bit_at a j) (bit_at b j)
unfolding bit_at
bit_at-bit_and a b zero = omega (arith, bit_and_lowest a b)
bit_at-bit_and a b (suc j) =
    ap (λ n. bit_at n j) (half (bit_and_lowest a b)) ∙ bit_at-bit_and (a / 2) (b / 2) j
  where
    half :
        bit_and a b ≡ bit_and (a / 2) (b / 2) * 2 + min (a % 2) (b % 2)
        → bit_and a b / 2 ≡ bit_and (a / 2) (b / 2)
    half h = omega arith

pub bit_at-zero : (j : ℕ) → bit_at 0 j ≡ 0
unfolding bit_at
bit_at-zero zero = refl
bit_at-zero (suc j) = bit_at-zero j

-- A property of all numbers below a bound, tested.
all_below : ℕ → (ℕ → Bool) → Bool
all_below zero p = true
all_below (suc n) p = p n && all_below n p

all_below_lem : (n : ℕ) (p : ℕ → Bool) (i : ℕ) → all_below n p ≡ true → i < n → p i ≡ true
unfolding all_below
all_below_lem zero p i h lt = absurd (omega arith)
all_below_lem (suc n) p i h lt = ground (arith, all_below_lem n p i)

all_pairs :
    (p : ℕ → ℕ → Bool)
    → all_below 64 (λ n. all_below 64 (p n)) ≡ true
    → {i j : ℕ} → i < 64
    → j < 64
    → p i j ≡ true
all_pairs p h {i} {j} ilt jlt =
    all_below_lem 64 (p i) j (all_below_lem 64 (λ n. all_below 64 (p n)) i h ilt) jlt

abbrev pub digit : Bool → ℕ
digit b = if b then 1 else 0

single_table : all_below 64 (λ n. all_below 64 (λ j. bit_at (shl 1 n) j == digit (n == j))) ≡ true
unfolding all_below shl bit_at
single_table = refl

upper_table :
    all_below 64 (λ n. all_below 64 (λ j. bit_at (shl max_uint64 n) j == digit (leb n j))) ≡ true
unfolding all_below shl bit_at
upper_table = refl

lower_table :
    all_below 64
      (λ n. all_below 64 (λ j. bit_at (complement (shl max_uint64 n)) j == digit (ltb j n)))
    ≡ true
unfolding all_below shl bit_at complement
lower_table = refl

power_table : all_below 64 (λ j. shl 1 j == 2 ^ j) ≡ true
unfolding all_below shl
power_table = refl

pub bit_at-shl : {i j : ℕ} → i < 64 → j < 64 → bit_at (shl 1 i) j ≡ digit (i == j)
bit_at-shl {i} {j} p q =
    (==_iff _ _).0 (all_pairs (λ n j. bit_at (shl 1 n) j == digit (n == j)) single_table p q)

-- The mask of the numbers from `lo` on and below `hi`.
pub bit_at-mask :
    {lo hi j : ℕ}
    → lo < 64
    → hi < 64
    → j < 64
    → bit_at (bit_and (complement (shl max_uint64 hi)) (shl max_uint64 lo)) j
      ≡ digit (leb lo j && ltb j hi)
bit_at-mask {lo} {hi} {j} p q r = ground (
  arith,
  bit_at-bit_and (complement (shl max_uint64 hi)) (shl max_uint64 lo) j,
  (==_iff _ _).0
      (all_pairs (λ n j. bit_at (shl max_uint64 n) j == digit (leb n j)) upper_table p r),
  (==_iff _ _).0 (
      all_pairs (λ n j. bit_at (complement (shl max_uint64 n)) j == digit (ltb j n)) lower_table q
        r),
)

halved : (j : ℕ) → (2 ^ suc j / 2 ≡ 2 ^ j) × (2 ^ suc j % 2 ≡ 0)
halved j = (omega arith, omega arith)

bit_and-power : (a j : ℕ) → bit_and (2 ^ j) a ≡ (if bit_at a j == 0 then 0 else 2 ^ j)
unfolding bit_at
bit_and-power a zero = ground (arith, bit_and_lowest 1 a, bit_and-bitwise 0 (a / 2))
bit_and-power a (suc j) =
    ground (arith, bit_and_lowest (2 ^ suc j) a, bit_and-power (a / 2) j, halved j)

power_pos : (j : ℕ) → 1 ≤ 2 ^ j
power_pos zero = omega arith
power_pos (suc j) = omega (arith, power_pos j)

pub has_bit_lem : (a : ℕ) {j : ℕ} → j < 64 → has_bit a j ≡ (bit_at a j == 1)
unfolding has_bit
has_bit_lem a {j} h = ground (
  arith,
  ap (λ w. bit_and w a) ((==_iff _ _).0 (all_below_lem 64 (λ j. shl 1 j == 2 ^ j) j power_table h))
      ∙ bit_and-power a j,
  power_pos j,
  bit_at_le a j,
)
