-- ===== src/Timer/Text.antt =====
-- What cronexpr.go uses of strings and strconv, on texts as lists of character codes:
-- strings.Fields, strings.Split and strings.SplitSeq for a separator of one character, and
-- strconv.Atoi for an int of 64 bits.
use czx.Base.{
  ℕ, zero, suc, ◌+◌, ◌-◌, ◌*◌, ◌^◌, Bool, ◌&&◌, ◌||◌, List, [], ◌∷◌, Option, none, some, ltb, leb,
  ◌==◌, if◌then◌else◌,
}
use czx.Base.Int.{ℤ, pos, negsuc}

abbrev pub Text : Type 0
Text = List ℕ

-- unicode.IsSpace
unfoldable pub is_space : ℕ → Bool
is_space c =
    (leb 9 c && leb c 13)
    || c == 32
    || c == 133
    || c == 160
    || c == 5760
    || (leb 8192 c && leb c 8202)
    || c == 8232
    || c == 8233
    || c == 8239
    || c == 8287
    || c == 12288

-- Puts a character in front of the first word, if the text goes on with that word.
unfoldable pub into_first : ℕ → Text → List Text → List Text
unfolding is_space
into_first c [] ws = (c ∷ []) ∷ ws
into_first c (d ∷ s) [] = (c ∷ []) ∷ []
into_first c (d ∷ s) (w ∷ ws) = if is_space d then (c ∷ []) ∷ w ∷ ws else (c ∷ w) ∷ ws

-- `strings.Fields(s)`
unfoldable pub fields : Text → List Text
unfolding is_space into_first
fields [] = []
fields (c ∷ s) = if is_space c then fields s else into_first c s (fields s)

abbrev pub cons_first : ℕ → List Text → List Text
cons_first c [] = (c ∷ []) ∷ []
cons_first c (w ∷ ws) = (c ∷ w) ∷ ws

-- `strings.Split(s, sep)`
unfoldable pub split : ℕ → Text → List Text
split sep [] = [] ∷ []
split sep (c ∷ s) = if c == sep then [] ∷ split sep s else cons_first c (split sep s)

-- The number that the digits stand for, behind the digits read before.
unfoldable pub read_digits : ℕ → Text → Option ℕ
read_digits n [] = some n
read_digits n (c ∷ s) =
    if leb b'0' c && leb c b'9' then read_digits (n * 10 + (c - b'0')) s else none

unfoldable pub natural : Text → Option ℕ
unfolding read_digits
natural [] = none
natural (c ∷ s) = read_digits 0 (c ∷ s)

-- Within the range of an int64.
abbrev pub positive : Option ℕ → Option ℤ
positive none = none
positive (some n) = if ltb n (2 ^ 63) then some (pos n) else none

abbrev pub negative : Option ℕ → Option ℤ
negative none = none
negative (some zero) = some (pos 0)
negative (some (suc n)) = if ltb n (2 ^ 63) then some (negsuc n) else none

-- `strconv.Atoi(s)`
unfoldable pub atoi : Text → Option ℤ
unfolding natural
atoi [] = none
atoi (c ∷ s) =
    if c == b'-'
    then negative (natural s)
    else if c == b'+'
    then positive (natural s)
    else positive (natural (c ∷ s))
