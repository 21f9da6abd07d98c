-- ===== src/Base/Text.antt =====
-- C strings as lists of byte values without the terminating zero: comparison, search, `%u`
-- printing and `strtol`, as the C standard library defines them.
use Prim.Native.Char.{code}
use Prim.Native.Nat.{ℕ, zero, suc, ◌+◌, ◌-◌, ◌*◌, ◌/◌, ◌%◌, ◌^◌, min}
use Prim.Native.String.{String}
use mathlib.Core.Bool.{Bool, true, false, ◌&&◌, ◌||◌}
use mathlib.Core.List.{List, [], ◌∷◌, ◌++◌}
use mathlib.Core.Option.{Option, none, some}
use newt_esp.Base.Tests.{ltb, leb, ◌==◌, if◌then◌else◌}

abbrev pub Bytes : Type 0
Bytes = List ℕ

abbrev pub codes : String → Bytes
codes String.[] = []
codes (String.◌∷◌ c s) = code c ∷ codes s

-- `strcmp(a, b) == 0`
unfoldable pub bytes_eq : Bytes → Bytes → Bool
bytes_eq [] [] = true
bytes_eq (x ∷ xs) (y ∷ ys) = x == y && bytes_eq xs ys
bytes_eq _ _ = false

-- `strncmp(s, prefix, strlen(prefix)) == 0`
unfoldable pub starts_with : Bytes → Bytes → Bool
starts_with [] s = true
starts_with (p ∷ ps) [] = false
starts_with (p ∷ ps) (c ∷ cs) = p == c && starts_with ps cs

-- `strchr`: what stands before the first `c`, and what stands behind it
unfoldable pub split_first : ℕ → Bytes → Option (Bytes × Bytes)
split_first c [] = none
split_first c (x ∷ xs) =
    if x == c
    then some ([], xs)
    else elim (split_first c xs) [ none ↦ none | some (a, b) ↦ some (x ∷ a, b) ]

-- `strrchr`: the same at the last `c`
unfoldable pub split_last : ℕ → Bytes → Option (Bytes × Bytes)
split_last c [] = none
split_last c (x ∷ xs) = elim (split_last c xs) [
  | some (a, b) ↦ some (x ∷ a, b)
  | none ↦ if x == c then some ([], xs) else none
]

-- `while (n > 0 && s[n - 1] == '/') n--;` leaves the first `n` bytes
unfoldable pub strip_slashes : Bytes → Bytes
strip_slashes [] = []
strip_slashes (c ∷ cs) = elim (strip_slashes cs) [
  | [] ↦ if c == b'/' then [] else c ∷ []
  | x ∷ xs ↦ c ∷ x ∷ xs
]

-- Decimal digits of a number of at most `fuel` digits.
unfoldable pub digits : ℕ → ℕ → Bytes
digits zero n = []
digits (suc fuel) n =
    if ltb n 10 then (b'0' + n) ∷ [] else digits fuel (n / 10) ++ (b'0' + n % 10) ∷ []

-- `%u`, `%llu`, and `%d` of what is not negative: 20 digits hold every 64-bit number.
unfoldable pub decimal : ℕ → Bytes
unfolding digits
decimal n = digits 20 n

abbrev pub is_digit : ℕ → Bool
is_digit c = leb b'0' c && leb c b'9'

-- `isspace` in the C locale
abbrev pub is_space : ℕ → Bool
is_space c = c == b' ' || leb 9 c && leb c 13

unfoldable pub skip_spaces : Bytes → Bytes
skip_spaces [] = []
skip_spaces (c ∷ cs) = if is_space c then skip_spaces cs else c ∷ cs

-- The digits at the start of a text, read onto `acc`.
unfoldable pub read_digits : ℕ → Bytes → ℕ
read_digits acc [] = acc
read_digits acc (c ∷ cs) =
    let rest = read_digits (acc * 10 + (c - b'0')) cs in if is_digit c then rest else acc

-- `negsuc n` is -(n + 1).
pub data ℤ : Type 0 where
  pos : ℕ → ℤ
  negsuc : ℕ → ℤ

abbrev pub neg : ℕ → ℤ
neg zero = pos 0
neg (suc n) = negsuc n

-- `LONG_MAX` where `long` has 32 bits
abbrev pub long_max : ℕ
long_max = 2 ^ 31 - 1

unfoldable pub read_signed : Bytes → ℤ
unfolding read_digits
read_signed [] = pos 0
read_signed (c ∷ cs) =
    if c == b'-'
    then neg (min (long_max + 1) (read_digits 0 cs))
    else pos (min long_max (read_digits 0 (if c == b'+' then cs else c ∷ cs)))

-- `strtol(s, NULL, 10)`, which saturates
unfoldable pub strtol : Bytes → ℤ
unfolding skip_spaces read_signed
strtol s = read_signed (skip_spaces s)
