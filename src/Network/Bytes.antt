-- ===== src/Network/Bytes.antt =====
-- Go's encoding/binary on byte slices: the bytes of an unsigned number in either order. A byte is a
-- number below 256. `put` writes at the front of a slice, which must be long enough.
use czx.Base.{
  ℕ, zero, suc, ◌+◌, ◌*◌, ◌/◌, ◌%◌, ◌≡◌, List, [], ◌∷◌, ◌++◌, Option, none, some, arith,
  if◌then◌else◌, length, leb, drop,
}

abbrev pub byte : ℕ → ℕ
byte n = n % 256

abbrev pub big16 : ℕ → List ℕ
big16 n = byte (n / 256) ∷ byte n ∷ []

abbrev pub little16 : ℕ → List ℕ
little16 n = byte n ∷ byte (n / 256) ∷ []

abbrev pub big32 : ℕ → List ℕ
big32 n = byte (n / 16777216) ∷ byte (n / 65536) ∷ byte (n / 256) ∷ byte n ∷ []

abbrev pub little32 : ℕ → List ℕ
little32 n = byte n ∷ byte (n / 256) ∷ byte (n / 65536) ∷ byte (n / 16777216) ∷ []

-- `b[i]`; 0 stands where the code has made sure that the index is in range.
abbrev pub at : List ℕ → ℕ → ℕ
at [] i = 0
at (x ∷ xs) zero = x
at (x ∷ xs) (suc i) = at xs i

abbrev pub get_big16 : List ℕ → ℕ
get_big16 b = at b 0 * 256 + at b 1

abbrev pub get_little16 : List ℕ → ℕ
get_little16 b = at b 0 + at b 1 * 256

abbrev pub get_big32 : List ℕ → ℕ
get_big32 b = at b 0 * 16777216 + at b 1 * 65536 + at b 2 * 256 + at b 3

abbrev pub get_little32 : List ℕ → ℕ
get_little32 b = at b 0 + at b 1 * 256 + at b 2 * 65536 + at b 3 * 16777216

-- Writing a few bytes at the front of a slice that must be long enough: `none` is the panic.
abbrev pub overwrite : List ℕ → List ℕ → Option (List ℕ)
overwrite new b = if leb (length new) (length b) then some (new ++ drop (length new) b) else none

pub get_big16-big16 : (n : ℕ) (rest : List ℕ) → get_big16 (big16 n ++ rest) ≡ n % 65536
get_big16-big16 n rest = omega arith

pub get_little16-little16 : (n : ℕ) (rest : List ℕ) → get_little16 (little16 n ++ rest) ≡ n % 65536
get_little16-little16 n rest = omega arith

pub get_big32-big32 : (n : ℕ) (rest : List ℕ) → get_big32 (big32 n ++ rest) ≡ n % 4294967296
get_big32-big32 n rest = omega arith

pub get_little32-little32 :
    (n : ℕ) (rest : List ℕ) → get_little32 (little32 n ++ rest) ≡ n % 4294967296
get_little32-little32 n rest = omega arith
