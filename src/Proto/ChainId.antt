-- ===== src/Proto/ChainId.antt =====
-- newt_proto.c, `chainId_new`: 16 hexadecimal characters of two random words, and the check of a
-- received chain id against the one in flight.
use newt_esp.Base.{
  ℕ, ◌+◌, ◌-◌, ◌*◌, ◌/◌, ◌%◌, ◌^◌, ◌<◌, ◌≡◌, ◌≢◌, refl, [], ◌∷◌, ◌++◌, Option, none, some, arith,
  ltb, if◌then◌else◌, length, Bytes, bytes_eq, bytes_eq_iff,
}

-- `(uint8_t)((r >> 8 * k) & 0xFF)`
abbrev byte : ℕ → ℕ → ℕ
byte r k = r / 2 ^ (8 * k) % 256

word_bytes : ℕ → Bytes
word_bytes r = byte r 0 ∷ byte r 1 ∷ byte r 2 ∷ byte r 3 ∷ []

-- `"0123456789abcdef"[d]` for a nibble
pub hex_char : ℕ → ℕ
hex_char d = if ltb d 10 then b'0' + d else b'a' + (d - 10)

hex : Bytes → Bytes
unfolding hex_char
hex [] = []
hex (b ∷ bs) = hex_char (b / 16 % 16) ∷ hex_char (b % 16) ∷ hex bs

-- The two words are the answers of `esp_random`.
unfoldable pub chain_id_new : ℕ → ℕ → Bytes
unfolding hex word_bytes
chain_id_new r0 r1 = hex (word_bytes r0 ++ word_bytes r1)

pub length-chain_id_new : (r0 r1 : ℕ) → length (chain_id_new r0 r1) ≡ 16
unfolding chain_id_new
length-chain_id_new r0 r1 = refl

-- What a reader of the hexadecimal text applies: the value of a character, of a pair, of a word.
unfoldable pub hex_value : ℕ → ℕ
hex_value c = if ltb c b'a' then c - b'0' else c - b'a' + 10

pub hex_pair : ℕ → ℕ → ℕ
hex_pair x y = hex_value x * 16 + hex_value y

pub word_of : ℕ → ℕ → ℕ → ℕ → ℕ
word_of a b c d = a + 256 * (b + 256 * (c + 256 * d))

unfoldable pub words_of : Bytes → ℕ × ℕ
unfolding hex_value hex_pair word_of
words_of (a ∷ b ∷ c ∷ d ∷ e ∷ f ∷ g ∷ h ∷ i ∷ j ∷ k ∷ l ∷ m ∷ n ∷ o ∷ p ∷ []) = (
  word_of (hex_pair a b) (hex_pair c d) (hex_pair e f) (hex_pair g h),
  word_of (hex_pair i j) (hex_pair k l) (hex_pair m n) (hex_pair o p),
)
words_of _ = (0, 0)

hex_pair-hex_char : (b : ℕ) → b < 256 → hex_pair (hex_char (b / 16 % 16)) (hex_char (b % 16)) ≡ b
unfolding hex_pair hex_value hex_char
hex_pair-hex_char b h = ground arith

word_of-byte : (r : ℕ) → r < 2 ^ 32 → word_of (byte r 0) (byte r 1) (byte r 2) (byte r 3) ≡ r
unfolding word_of
word_of-byte r h = omega arith

-- The id is 16 characters that give back both random words, so two ids agree only where all 64
-- random bits do.
pub words_of-chain_id_new :
    (r0 r1 : ℕ)
    → r0 < 2 ^ 32
    → r1 < 2 ^ 32
    → (length (chain_id_new r0 r1) ≡ 16) × (words_of (chain_id_new r0 r1) ≡ (r0, r1))
unfolding words_of chain_id_new
words_of-chain_id_new r0 r1 h0 h1 = (
  length-chain_id_new r0 r1,
  rw (
    pair r0 0,
    pair r0 1,
    pair r0 2,
    pair r0 3,
    pair r1 0,
    pair r1 1,
    pair r1 2,
    pair r1 3,
    word_of-byte r0 h0,
    word_of-byte r1 h1,
  ),
)
  where
    pair :
        (r k : ℕ) → hex_pair (hex_char (byte r k / 16 % 16)) (hex_char (byte r k % 16)) ≡ byte r k
    pair r k = hex_pair-hex_char (byte r k) (omega arith)

-- What a received `chainId` says.
pub data Chain : Type 0 where
  absent mismatch matched : Chain

-- The text of the member, if it is a string, and the id in flight; an empty one is no id.
unfoldable pub check_chain : Option Bytes → Bytes → Chain
check_chain none inflight = absent
check_chain (some []) inflight = absent
check_chain (some (c ∷ cs)) [] = matched
check_chain (some (c ∷ cs)) (i ∷ is) = if bytes_eq (c ∷ cs) (i ∷ is) then matched else mismatch

pub check_chain_same : (id : Bytes) → id ≢ [] → check_chain (some id) id ≡ matched
unfolding check_chain
check_chain_same [] ne = absurd (ne refl)
check_chain_same (c ∷ cs) ne = ground (arith, bytes_eq_iff (c ∷ cs) (c ∷ cs))

pub check_chain_other :
    (id inflight : Bytes)
    → id ≢ []
    → inflight ≢ []
    → id ≢ inflight
    → check_chain (some id) inflight ≡ mismatch
unfolding check_chain
check_chain_other [] inflight ne busy d = absurd (ne refl)
check_chain_other (c ∷ cs) [] ne busy d = absurd (busy refl)
check_chain_other (c ∷ cs) (i ∷ is) ne busy d = ground (arith, bytes_eq_iff (c ∷ cs) (i ∷ is))
