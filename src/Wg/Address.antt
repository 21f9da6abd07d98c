-- ===== src/Wg/Address.antt =====
-- newt_wg.c, `ip4_to_str`: an address of 32 bits as dotted decimal text.
use newt_esp.Base.{
  ℕ, ◌+◌, ◌*◌, ◌/◌, ◌%◌, ◌^◌, ◌<◌, ◌≤◌, ◌≡◌, refl, ap, sym, ◌∙◌, [], ◌∷◌, ◌++◌, Option, some, arith,
  length, length-append, Bytes, decimal, digits, split_first, split_first-append, read_digits,
  length-digits-le, decimal-Lacks, ◌>>=◌, read_digits-digits, append-nil,
}

-- `"%u.%u.%u.%u"` on four octets.
unfoldable pub dotted : ℕ → ℕ → ℕ → ℕ → Bytes
dotted a b c d = decimal a ++ b'.' ∷ (decimal b ++ b'.' ∷ (decimal c ++ b'.' ∷ decimal d))

-- `ip4_to_str`: the lowest byte of the word is the first octet.
unfoldable pub ip4_to_str : ℕ → Bytes
unfolding dotted
ip4_to_str v = dotted (v % 256) (v / 2 ^ 8 % 256) (v / 2 ^ 16 % 256) (v / 2 ^ 24 % 256)

-- The word that a dotted decimal text stands for: four numbers between three dots.
abbrev pub read_ip4 : Bytes → Option ℕ
read_ip4 s = do
  (a, s1) ← split_first b'.' s
  (b, s2) ← split_first b'.' s1
  (c, d) ← split_first b'.' s2
  some (
      read_digits 0 a
      + read_digits 0 b * 2 ^ 8
      + read_digits 0 c * 2 ^ 16
      + read_digits 0 d * 2 ^ 24)

length-decimal_octet : (n : ℕ) → n < 256 → length (decimal n) ≤ 3
unfolding decimal
length-decimal_octet n h = length-digits-le 20 3 n (omega arith) (omega arith)

read_octet : (n : ℕ) → n < 256 → read_digits 0 (decimal n) ≡ n
unfolding decimal read_digits
read_octet n h =
    ap (read_digits 0) (sym (append-nil (digits 20 n)))
    ∙ read_digits-digits 20 n [] (omega arith) (omega arith)

length-dotted : (a b c d : ℕ) → a < 256 → b < 256 → c < 256 → d < 256 → length (dotted a b c d) < 16
unfolding dotted
length-dotted a b c d p q r s = omega (
  arith,
  length-append (decimal a) (b'.' ∷ (decimal b ++ b'.' ∷ (decimal c ++ b'.' ∷ decimal d))),
  length-append (decimal b) (b'.' ∷ (decimal c ++ b'.' ∷ decimal d)),
  length-append (decimal c) (b'.' ∷ decimal d),
  length-decimal_octet a p,
  length-decimal_octet b q,
  length-decimal_octet c r,
  length-decimal_octet d s,
)

read_ip4-dotted :
    (a b c d : ℕ)
    → a < 256
    → b < 256
    → c < 256
    → d < 256
    → read_ip4 (dotted a b c d) ≡ some (a + b * 2 ^ 8 + c * 2 ^ 16 + d * 2 ^ 24)
unfolding dotted
read_ip4-dotted a b c d p q r s = rw (
  split_first-append b'.' (decimal a) _ (decimal-Lacks a b'.' refl),
  split_first-append b'.' (decimal b) _ (decimal-Lacks b b'.' refl),
  split_first-append b'.' (decimal c) _ (decimal-Lacks c b'.' refl),
  read_octet a p,
  read_octet b q,
  read_octet c r,
  read_octet d s,
)

-- An address fits the 16 bytes of its buffer with the terminator, and no other address has the same
-- text: it is read back from it.
pub ip4_to_str-fits :
    (v : ℕ) → v < 2 ^ 32 → (length (ip4_to_str v) < 16) × (read_ip4 (ip4_to_str v) ≡ some v)
unfolding ip4_to_str
ip4_to_str-fits v h = (
  length-dotted (v % 256) (v / 2 ^ 8 % 256) (v / 2 ^ 16 % 256) (v / 2 ^ 24 % 256) (omega arith)
      (omega arith) (omega arith) (omega arith),
  read_ip4-dotted (v % 256) (v / 2 ^ 8 % 256) (v / 2 ^ 16 % 256) (v / 2 ^ 24 % 256) (omega arith)
        (omega arith) (omega arith) (omega arith)
      ∙ ap some (omega arith),
)
