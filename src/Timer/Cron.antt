-- ===== src/Timer/Cron.antt =====
-- cronexpr.go: CronExpr, NewCronExpr and parseCronField. A text is a list of character codes, a
-- field's mask a 64-bit word; the message of an error is its kind.
pub mod Bits
pub mod Field
use Prim.Native.Nat.{bit_and, bit_or}
use czx.Base.{
  ℕ, zero, suc, ◌+◌, ◌%◌, ◌^◌, Bool, true, false, ◌||◌, List, [], ◌∷◌, Option, none, some, ltb, leb,
  ◌==◌, if◌then◌else◌, Result, ok, err, ◌>>=◌, length,
}
use czx.Base.Int.{ℤ, pos, negsuc, to_nat}
use czx.Timer.Word.{shl, complement, max_uint64}
use czx.Timer.Text.{Text, fields, split, atoi}

pub data CronError : Type 0 where
  field_count too_many_slashes too_many_hyphens invalid_range out_of_range invalid_increment :
      CronError

-- The numbers of a term between two commas, once they are checked.
pub record Term : Type 0 where
  pub first : ℕ
  pub last : ℕ
  pub step : ℕ

-- `a > b`
abbrev pub gtb : ℤ → ℤ → Bool
gtb (pos a) (pos b) = ltb b a
gtb (pos a) (negsuc b) = true
gtb (negsuc a) (pos b) = false
gtb (negsuc a) (negsuc b) = ltb a b

-- `strconv.Atoi` with its error
unfoldable pub number : Text → CronError → Result CronError ℤ
number s e = elim (atoi s) [ none ↦ err e | some n ↦ ok n ]

-- `startAndEnd[0] == "*"`
abbrev pub is_star : Text → Bool
is_star (c ∷ []) = c == b'*'
is_star s = false

-- start and end; `slash` tells if the term has an increment
unfoldable pub range_of : List Text → Bool → ℕ → ℕ → Result CronError (ℤ × ℤ)
unfolding number
range_of [] slash min max = err invalid_range
range_of (s ∷ []) slash min max =
    if is_star s
    then ok (pos min, pos max)
    else number s invalid_range >>= λ start. ok (start, if slash then pos max else start)
range_of (s ∷ e ∷ []) slash min max =
    if is_star s
    then err invalid_range
    else number s invalid_range >>= λ start. number e invalid_range >>= λ stop. ok (start, stop)
range_of (s ∷ e ∷ t ∷ ts) slash min max = err too_many_hyphens

unfoldable pub checked : ℤ × ℤ → ℕ → ℕ → Result CronError (ℕ × ℕ)
checked (start, stop) min max =
    if gtb start stop
    then err invalid_range
    else if gtb (pos min) start
    then err out_of_range
    else if gtb stop (pos max)
    then err out_of_range
    else ok (to_nat start, to_nat stop)

abbrev pub positive_step : ℤ → Result CronError ℕ
positive_step (pos zero) = err invalid_increment
positive_step (pos (suc n)) = ok (suc n)
positive_step (negsuc n) = err invalid_increment

abbrev pub term : ℕ × ℕ → ℕ → Term
term (start, stop) incr = record { first = start; last = stop; step = incr }

unfoldable pub term_of : List Text → ℕ → ℕ → Result CronError Term
unfolding range_of checked number
term_of [] min max = err too_many_slashes
term_of (r ∷ []) min max = range_of (split b'-' r) false min max >>= λ range.
    checked range min max >>= λ bounds. ok (term bounds 1)
term_of (r ∷ i ∷ []) min max = range_of (split b'-' r) true min max >>= λ range.
    checked range min max >>= λ bounds.
    number i invalid_increment >>= λ n. positive_step n >>= λ incr. ok (term bounds incr)
term_of (r ∷ i ∷ t ∷ ts) min max = err too_many_slashes

-- The body of the loop of parseCronField up to the increment.
unfoldable pub parse_term : Text → ℕ → ℕ → Result CronError Term
unfolding term_of
parse_term text min max = term_of (split b'/' text) min max

-- `i <= end` for an int in 64 bits and an end that is not negative
abbrev pub at_most : ℕ → ℕ → Bool
at_most i last = leb (2 ^ 63) i || leb i last

-- `for i := start; i <= end; i += incr`. The sum may wrap.
unfoldable pub add_steps : ℕ → ℕ → ℕ → ℕ → ℕ → ℕ
add_steps zero mask i last step = mask
add_steps (suc fuel) mask i last step =
    let rest = add_steps fuel (bit_or mask (shl 1 i)) ((i + step) % 2 ^ 64) last step in
    if at_most i last then rest else mask

-- Rounds of that loop: no more than two for each number up to 59, where the sum wraps.
abbrev pub rounds : ℕ
rounds = 128

unfoldable pub add_term : ℕ → Term → ℕ
add_term mask t =
    if t.step == 1
    then bit_or mask (bit_and (complement (shl max_uint64 (t.last + 1))) (shl max_uint64 t.first))
    else add_steps rounds mask t.first t.last t.step

unfoldable pub parse_terms : ℕ → List Text → ℕ → ℕ → Result CronError ℕ
unfolding parse_term add_term
parse_terms mask [] min max = ok mask
parse_terms mask (s ∷ ss) min max =
    parse_term s min max >>= λ t. parse_terms (add_term mask t) ss min max

unfoldable pub parse_cron_field : Text → ℕ → ℕ → Result CronError ℕ
unfolding parse_terms
parse_cron_field field min max = parse_terms 0 (split b',' field) min max

pub record CronExpr : Type 0 where
  pub sec : ℕ
  pub min : ℕ
  pub hour : ℕ
  pub dom : ℕ
  pub month : ℕ
  pub dow : ℕ

unfoldable pub of_fields : List Text → Result CronError CronExpr
unfolding parse_cron_field
of_fields (a ∷ b ∷ c ∷ d ∷ e ∷ f ∷ []) = parse_cron_field a 0 59 >>= λ second.
    parse_cron_field b 0 59 >>= λ minute. parse_cron_field c 0 23 >>= λ hours.
    parse_cron_field d 1 31 >>= λ day_of_month. parse_cron_field e 1 12 >>= λ months.
    parse_cron_field f 0 6 >>= λ day_of_week. ok (record {
      sec = second;
      min = minute;
      hour = hours;
      dom = day_of_month;
      month = months;
      dow = day_of_week;
    })
of_fields fs = err field_count

unfoldable pub new_cron_expr : Text → Result CronError CronExpr
unfolding of_fields
new_cron_expr expr =
    let fs = fields expr in if length fs == 5 then of_fields ((b'0' ∷ []) ∷ fs) else of_fields fs
