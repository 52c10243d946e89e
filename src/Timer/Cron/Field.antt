-- ===== src/Timer/Cron/Field.antt =====
-- The mask of a field holds the numbers that one of its terms stands for.
use Prim.Native.Nat.{max as max'}
use czx.Base.{
  ℕ, zero, suc, ◌+◌, ◌^◌, ◌≤◌, ◌<◌, ◌≡◌, ap, Bool, true, false, ◌||◌, List, [], ◌∷◌, arith, Result,
  ok, err, ◌>>=◌, OnOk, OnOk->>=, OnOk-then,
}
use czx.Base.Int.{ℤ, pos, negsuc}
use czx.Timer.Word.{bit_at, has_bit, digit, has_bit_lem, bit_at_le, bit_at-zero}
use czx.Timer.Text.{Text, split}
use czx.Timer.Cron.{
  CronError, invalid_increment, Term, number, range_of, checked, positive_step, term_of, add_term,
  parse_term, parse_terms, parse_cron_field,
}
use czx.Timer.Cron.Bits.{covers, add_term-covers}

-- The numbers that the checks of parseCronField let through.
abbrev IsRange : ℕ → ℕ → ℕ × ℕ → Type 0
IsRange min max b = (min ≤ b.0) × (b.0 ≤ b.1) × (b.1 ≤ max)

checked-IsRange : (b : ℤ × ℤ) (min max : ℕ) → OnOk (IsRange min max) (checked b min max)
unfolding checked
checked-IsRange (pos a, pos b) min max = ground arith
checked-IsRange (pos a, negsuc b) min max = tt
checked-IsRange (negsuc a, pos b) min max = tt
checked-IsRange (negsuc a, negsuc b) min max = ground arith

positive_step_le : (n : ℤ) → OnOk (λ k. 1 ≤ k) (positive_step n)
positive_step_le (pos zero) = tt
positive_step_le (pos (suc n)) = omega arith
positive_step_le (negsuc n) = tt

abbrev pub IsTerm : ℕ → ℕ → Term → Type 0
IsTerm min max t = (min ≤ t.first) × (t.first ≤ t.last) × (t.last ≤ max) × (1 ≤ t.step)

term_of-IsTerm : (parts : List Text) (min max : ℕ) → OnOk (IsTerm min max) (term_of parts min max)
unfolding term_of
term_of-IsTerm [] min max = tt
term_of-IsTerm (r ∷ []) min max = OnOk-then _ (range_of (split b'-' r) false min max) _ (λ range.
    OnOk->>= _ _ (checked range min max) _ (checked-IsRange range min max)
      (λ b p. (p.0, p.1, p.2, omega arith)))
term_of-IsTerm (r ∷ i ∷ []) min max = OnOk-then _ (range_of (split b'-' r) true min max) _ (λ range.
    OnOk->>= _ _ (checked range min max) _ (checked-IsRange range min max) (λ b p.
      OnOk-then _ (number i invalid_increment) _
        (λ n. OnOk->>= _ _ (positive_step n) _ (positive_step_le n) (λ k q. (p.0, p.1, p.2, q)))))
term_of-IsTerm (r ∷ i ∷ t ∷ ts) min max = tt

parse_term-IsTerm : (s : Text) (min max : ℕ) → OnOk (IsTerm min max) (parse_term s min max)
unfolding parse_term
parse_term-IsTerm s min max = term_of-IsTerm (split b'/' s) min max

-- No increment is so large that the loop's sum wraps.
abbrev pub IsCalm : List Text → ℕ → ℕ → Type 0
IsCalm [] min max = Unit {0}
IsCalm (s ∷ ss) min max =
    OnOk (λ t. t.last + t.step < 2 ^ 63) (parse_term s min max) × IsCalm ss min max

abbrev pub covered : Result CronError Term → ℕ → Bool
covered (ok t) j = covers t j
covered (err e) j = false

-- `j` is a number that one of the terms stands for.
abbrev pub wanted : List Text → ℕ → ℕ → ℕ → Bool
wanted [] min max j = false
wanted (s ∷ ss) min max j = covered (parse_term s min max) j || wanted ss min max j

-- One term more, where the lemma holds of the others.
one_more :
    (r : Result CronError Term) (f : Term → Result CronError ℕ) (rest : Bool)
    (start min max mask j : ℕ)
    → max < 60
    → j < 64
    → OnOk (IsTerm min max) r
    → OnOk (λ t. t.last + t.step < 2 ^ 63) r
    → (r >>= f) ≡ ok mask
    → ((t : Term) → f t ≡ ok mask → bit_at mask j ≡ max' (bit_at (add_term start t) j) (digit rest))
    → bit_at mask j ≡ max' (bit_at start j) (digit (covered r j || rest))
one_more (ok t) f rest start min max mask j h q fit calm e others = ground (
  arith,
  others t e,
  add_term-covers {min = min} {max = max} start j t h q (fit.0, fit.1, fit.2, fit.3, calm),
  bit_at_le start j,
)
one_more (err x) f rest start min max mask j h q fit calm e others = absurd (cc e)

parse_terms-wanted :
    (start : ℕ) (ss : List Text) (min max mask j : ℕ)
    → max < 60
    → j < 64
    → IsCalm ss min max
    → parse_terms start ss min max ≡ ok mask
    → bit_at mask j ≡ max' (bit_at start j) (digit (wanted ss min max j))
unfolding parse_terms
parse_terms-wanted start [] min max mask j h q calm e =
    let same : start ≡ mask = cc e in ground (arith, ap (λ n. bit_at n j) same, bit_at_le mask j)
parse_terms-wanted start (s ∷ ss) min max mask j h q calm e =
    one_more (parse_term s min max) _ (wanted ss min max j) start min max mask j h q
      (parse_term-IsTerm s min max) calm.0 e
      (λ t e'. parse_terms-wanted (add_term start t) ss min max mask j h q calm.1 e')

-- Where a field of a range below 60 is read and no increment is near 2 ^ 63, a number below 64 is
-- in its mask exactly if it is one of those that a term between two commas stands for: with the
-- term's increment apart from its first number, and not behind its last.
pub parse_cron_field-wanted :
    (field : Text) (min max mask j : ℕ)
    → max < 60
    → j < 64
    → IsCalm (split b',' field) min max
    → parse_cron_field field min max ≡ ok mask
    → has_bit mask j ≡ wanted (split b',' field) min max j
unfolding parse_cron_field
parse_cron_field-wanted field min max mask j h q calm e = ground (
  arith,
  has_bit_lem mask q,
  parse_terms-wanted 0 (split b',' field) min max mask j h q calm e,
  bit_at-zero j,
)
