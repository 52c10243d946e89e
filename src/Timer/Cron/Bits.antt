-- ===== src/Timer/Cron/Bits.antt =====
-- Which bits the terms of a field set in its mask.
use Prim.Native.Nat.{bit_and, bit_or, max as max'}
use native.Mathlib.Nat.{mod-eq_of_lt, mod-one, mod-eq-sub-mod}
use czx.Base.{
  ℕ, zero, suc, ◌+◌, ◌-◌, ◌%◌, ◌^◌, ◌≤◌, ◌<◌, ◌≡◌, ap, ◌∙◌, inl, inr, Bool, true, false, ◌&&◌, ◌||◌,
  arith, ltb, leb, ◌==◌, if◌then◌else◌, Bool-cases, ==_iff,
}
use czx.Timer.Word.{
  shl, complement, max_uint64, bit_at, digit, bit_at-bit_or, bit_at-shl, bit_at-mask, bit_at_le,
}
use czx.Timer.Cron.{Term, at_most, add_steps, rounds, add_term}

-- From `i` on every `step`th number up to `last`.
abbrev pub hits : ℕ → ℕ → ℕ → ℕ → Bool
hits i last step j = leb i j && leb j last && ((j - i) % step == 0)

-- `j` is among the numbers that a term stands for.
abbrev pub covers : Term → ℕ → Bool
covers t j = hits t.first t.last t.step j

hits_past : (i last step j : ℕ) → last < i → hits i last step j ≡ false
hits_past i last step j h = ground arith

apart : (i j step : ℕ) → j - i - step ≡ j - (i + step)
apart i j step = omega arith

hits_next :
    (i last step j : ℕ)
    → 1 ≤ step
    → i ≤ last
    → hits i last step j ≡ ((i == j) || hits (i + step) last step j)
hits_next i last step j pos h = elim (Bool-cases (ltb j (i + step))) [
  | inl below ↦ ground (arith, mod-eq_of_lt {n = j - i} {m = step} (ground arith))
  | inr from ↦ ground (
    arith,
    mod-eq-sub-mod {n = j - i} {m = step} (ground arith) ∙ ap (λ n. n % step) (apart i j step),
  )
]

if_one : (b : Bool) (x y : ℕ) → b ≡ true → (if b then x else y) ≡ x
if_one b x y e = rw e

if_many : (b : Bool) (x y : ℕ) → b ≡ false → (if b then x else y) ≡ y
if_many b x y e = rw e

-- A round of the loop, where the sum does not wrap.
add_steps-more :
    (fuel mask i last step : ℕ)
    → i ≤ last
    → last + step < 2 ^ 63
    → add_steps (suc fuel) mask i last step
      ≡ add_steps fuel (bit_or mask (shl 1 i)) (i + step) last step
unfolding add_steps
add_steps-more fuel mask i last step h small =
    if_one (at_most i last) _ mask (ground arith)
    ∙ ap (λ n. add_steps fuel (bit_or mask (shl 1 i)) n last step) (omega arith)

add_steps-hits :
    (fuel mask i last step j : ℕ)
    → 1 ≤ step
    → last + step < 2 ^ 63
    → i ≤ last + step
    → last < i + fuel
    → last < 64
    → j < 64
    → bit_at (add_steps fuel mask i last step) j ≡ max' (bit_at mask j) (digit (hits i last step j))
unfolding add_steps
add_steps-hits zero mask i last step j pos small near enough p q =
    ground (arith, hits_past i last step j)
add_steps-hits (suc fuel) mask i last step j pos small near enough p q =
    elim (Bool-cases (at_most i last)) [
      | inl more ↦
          let near' : i ≤ last = ground arith in
          ap (λ n. bit_at n j) (add_steps-more fuel mask i last step near' small)
          ∙ add_steps-hits fuel (bit_or mask (shl 1 i)) (i + step) last step j pos small
              (omega arith) (omega arith) p q
          ∙ ground (
            arith,
            hits_next i last step j pos near',
            bit_at-bit_or mask (shl 1 i) j,
            bit_at-shl {i = i} {j = j} (omega arith) q,
            bit_at_le mask j,
          )
      | inr done ↦ ground (arith, hits_past i last step j, bit_at_le mask j)
    ]

-- A term with its numbers in the field's range, and an increment that no sum overflows with.
abbrev pub IsFit : ℕ → ℕ → Term → Type 0
IsFit min max t =
    (min ≤ t.first)
    × (t.first ≤ t.last)
    × (t.last ≤ max)
    × (1 ≤ t.step)
    × (t.last + t.step < 2 ^ 63)

-- With an increment of one, every number of the range.
every : (t : Term) (j : ℕ) → t.step ≡ 1 → covers t j ≡ (leb t.first j && ltb j (t.last + 1))
every t j e = ground (arith, ap (λ n. (j - t.first) % n) e ∙ mod-one (j - t.first))

pub add_term-covers :
    {min max : ℕ} (mask j : ℕ) (t : Term)
    → max < 60
    → j < 64
    → IsFit min max t
    → bit_at (add_term mask t) j ≡ max' (bit_at mask j) (digit (covers t j))
unfolding add_term
add_term-covers mask j t h q fit = elim (Bool-cases (t.step == 1)) [
  | inl one ↦
      ap (λ n. bit_at n j) (if_one (t.step == 1) _ _ one)
      ∙ bit_at-bit_or mask
          (bit_and (complement (shl max_uint64 (t.last + 1))) (shl max_uint64 t.first)) j
      ∙ ground (
        arith,
        bit_at-mask {lo = t.first} {hi = t.last + 1} {j = j} (ground arith) (ground arith) q,
        every t j ((==_iff _ _).0 one),
        bit_at_le mask j,
      )
  | inr more ↦
      ap (λ n. bit_at n j) (if_many (t.step == 1) _ _ more)
      ∙ add_steps-hits rounds mask t.first t.last t.step j (ground arith) (ground arith)
          (ground arith) (ground arith) (ground arith) q
]
