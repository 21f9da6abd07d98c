-- ===== src/Base/TextLaws.antt =====
-- Lemmas on C strings: comparison, search, and the digits that printing writes and `strtol` reads.
use Prim.Native.Nat.{ℕ, zero, suc, ◌+◌, ◌/◌, ◌%◌, ◌^◌, ◌≤◌, ◌<◌, min}
use mathlib.Core.Bool.{true, false}
use mathlib.Core.List.{[], ◌∷◌, ◌++◌, append_assoc}
use mathlib.Core.Logic.{◌↔◌, ◌≢◌, inl, inr}
use mathlib.Core.Option.{none, some}
use mathlib.Core.Path.{◌≡◌, refl, ap, sym, ◌∙◌}
use native.Mathlib.Omega.{arith}
use native.Mathlib.Nat.{pow-suc}
use newt_esp.Base.Lists.{length, length-append, Every, Every-append}
use newt_esp.Base.Tests.{ltb, Bool-cases}
use newt_esp.Base.Text.{
  Bytes, bytes_eq, split_first, split_last, strip_slashes, digits, decimal, is_digit, read_digits,
  strtol, pos, long_max,
}

pub bytes_eq_iff : (a b : Bytes) → (bytes_eq a b ≡ true) ↔ (a ≡ b)
unfolding bytes_eq
bytes_eq_iff (x ∷ a) (y ∷ b) = ground (arith, bytes_eq_iff a b)
bytes_eq_iff _ _ = ground arith

abbrev pub Lacks : ℕ → Bytes → Type 0
Lacks c = Every (λ x. x ≢ c)

pub split_first-append :
    (c : ℕ) (a b : Bytes) → Lacks c a → split_first c (a ++ c ∷ b) ≡ some (a, b)
unfolding split_first
split_first-append c [] b h = ground arith
split_first-append c (x ∷ a) b h = ground (arith, split_first-append c a b h.1)

split_last-none : (c : ℕ) (s : Bytes) → Lacks c s → split_last c s ≡ none
unfolding split_last
split_last-none c [] h = refl
split_last-none c (x ∷ s) h = ground (arith, split_last-none c s h.1)

pub split_last-append : (c : ℕ) (a b : Bytes) → Lacks c b → split_last c (a ++ c ∷ b) ≡ some (a, b)
unfolding split_last
split_last-append c [] b h = ground (arith, split_last-none c b h)
split_last-append c (x ∷ a) b h = ground (arith, split_last-append c a b h)

pub length-digits : (fuel n : ℕ) → length (digits fuel n) ≤ fuel
unfolding digits
length-digits zero n = omega arith
length-digits (suc fuel) n = ground (
  arith,
  length-digits fuel (n / 10),
  length-append (digits fuel (n / 10)) ((b'0' + n % 10) ∷ []),
)

pub length-decimal : (n : ℕ) → length (decimal n) ≤ 20
unfolding decimal
length-decimal n = length-digits 20 n

-- A number below 10 ^ k has at most k digits.
pub length-digits-le : (fuel k n : ℕ) → n < 10 ^ k → 0 < k → length (digits fuel n) ≤ k
unfolding digits
length-digits-le zero k n h p = omega arith
length-digits-le (suc fuel) zero n h p = absurd (omega arith)
length-digits-le (suc fuel) (suc zero) n h p = ground arith
length-digits-le (suc fuel) (suc (suc k)) n h p = ground (
  arith,
  length-digits-le fuel (suc k) (n / 10) (omega (arith, pow-suc 10 (suc k))) (omega arith),
  length-append (digits fuel (n / 10)) ((b'0' + n % 10) ∷ []),
)

abbrev pub AllDigits : Bytes → Type 0
AllDigits = Every (λ c. is_digit c ≡ true)

-- What `strtol` reads back of printed digits, before any other text.
pub read_digits-digits :
    (fuel n : ℕ) (rest : Bytes)
    → n < 10 ^ fuel
    → 0 < fuel
    → read_digits 0 (digits fuel n ++ rest) ≡ read_digits n rest
unfolding digits read_digits
read_digits-digits zero n rest h p = absurd (omega arith)
read_digits-digits (suc zero) n rest h p = ground arith
read_digits-digits (suc (suc f)) n rest h p = ground (
  arith,
  append_assoc (digits (suc f) (n / 10)) ((b'0' + n % 10) ∷ []) rest,
  read_digits-digits (suc f) (n / 10) ((b'0' + n % 10) ∷ rest) (omega (arith, pow-suc 10 (suc f)))
      (omega arith),
)

-- A text that starts with a digit is read by `strtol` as an unsigned number.
strtol_digit :
    (c : ℕ) (cs : Bytes)
    → is_digit c ≡ true
    → strtol (c ∷ cs) ≡ pos (min long_max (read_digits 0 (c ∷ cs)))
unfolding strtol
strtol_digit c cs h = ground arith

digits-cons :
    (fuel n : ℕ) (rest : Bytes)
    → (c : ℕ) × (cs : Bytes) × (digits (suc fuel) n ++ rest ≡ c ∷ cs) × (is_digit c ≡ true)
unfolding digits
digits-cons zero n rest = elim (Bool-cases (ltb n 10)) [
  | inl low ↦ (b'0' + n, rest, ground arith, ground arith)
  | inr high ↦ (b'0' + n % 10, rest, ground arith, ground arith)
]
digits-cons (suc f) n rest = elim (Bool-cases (ltb n 10)) [
  | inl low ↦ (b'0' + n, rest, ground arith, ground arith)
  | inr high ↦
      let (c, cs, e, d) = digits-cons f (n / 10) ((b'0' + n % 10) ∷ rest) in
      (c, cs, rw high (append_assoc (digits (suc f) (n / 10)) _ rest ∙ e), d)
]

-- `strtol` reads what `%d` printed, whatever follows it that is no digit.
pub strtol-decimal :
    (n : ℕ) (rest : Bytes)
    → n ≤ long_max
    → read_digits n rest ≡ n
    → strtol (decimal n ++ rest) ≡ pos n
unfolding decimal
strtol-decimal n rest h stop =
    let (c, cs, e, d) = digits-cons 19 n rest in
    rw e (
      strtol_digit c cs d
      ∙ ap (λ t. pos (min long_max (read_digits 0 t))) (sym e)
      ∙ ap (λ t. pos (min long_max t))
          (read_digits-digits 20 n rest (omega arith) (omega arith) ∙ stop)
      ∙ ap pos (omega arith))

-- A text that does not end in a slash.
abbrev pub NotSlashed : Bytes → Type 0
NotSlashed s = strip_slashes s ≡ s

pub strip_slashes_id : (s : Bytes) → strip_slashes (strip_slashes s) ≡ strip_slashes s
unfolding strip_slashes
strip_slashes_id [] = refl
strip_slashes_id (c ∷ cs) = ground (arith, strip_slashes_id cs)

-- Slashes behind a text are stripped with those that it ends in.
pub strip_slashes-slashes : (s : Bytes) → strip_slashes (s ++ b'/' ∷ []) ≡ strip_slashes s
unfolding strip_slashes
strip_slashes-slashes [] = refl
strip_slashes-slashes (c ∷ cs) = rw (strip_slashes-slashes cs)

pub length-strip_slashes : (s : Bytes) → length (strip_slashes s) ≤ length s
unfolding strip_slashes
length-strip_slashes [] = omega arith
length-strip_slashes (c ∷ cs) = ground (arith, length-strip_slashes cs)

-- Printed digits hold no other character.
pub digits-Lacks : (fuel n c : ℕ) → is_digit c ≡ false → Lacks c (digits fuel n)
unfolding digits
digits-Lacks zero n c h = tt
digits-Lacks (suc fuel) n c h = elim (Bool-cases (ltb n 10)) [
  | inl low ↦ rw low ((λ e. absurd (ground arith)), tt)
  | inr high ↦ rw high (
      Every-append (λ x. x ≢ c) _ (digits fuel (n / 10)) ((λ e. absurd (ground arith)), tt)
        (digits-Lacks fuel (n / 10) c h))
]

pub decimal-Lacks : (n c : ℕ) → is_digit c ≡ false → Lacks c (decimal n)
unfolding decimal
decimal-Lacks n c = digits-Lacks 20 n c
