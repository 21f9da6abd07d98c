-- ===== src/Ws/Url.antt =====
-- newt_ws.c, `url_encode` and `build_ws_url`.
use newt_esp.Base.{
  ℕ, ◌+◌, ◌-◌, ◌*◌, ◌/◌, ◌%◌, ◌≤◌, ◌<◌, ◌≡◌, refl, ap, ◌∙◌, Bool, true, false, not, ◌&&◌, ◌||◌, inl,
  inr, [], ◌∷◌, ◌++◌, Option, none, some, arith, ltb, leb, ◌==◌, if◌then◌else◌, length,
  length-append, Bytes, codes, starts_with, drop, strip_slashes, strip_slashes-slashes, Every,
  Bool-cases,
}
use newt_esp.Extern.{EspErr, esp_ok, err_no_mem, err_invalid_size}

-- The bytes that stand for themselves.
unfoldable pub is_unreserved : ℕ → Bool
is_unreserved c =
    leb b'A' c && leb c b'Z'
    || leb b'a' c && leb c b'z'
    || leb b'0' c && leb c b'9'
    || c == b'-'
    || c == b'_'
    || c == b'.'
    || c == b'~'

-- A digit of `%02X`
unfoldable pub upper_hex : ℕ → ℕ
upper_hex d = if ltb d 10 then b'0' + d else b'A' + (d - 10)

unfoldable pub encode_byte : ℕ → Bytes
unfolding is_unreserved upper_hex
encode_byte c =
    if is_unreserved c then c ∷ [] else b'%' ∷ upper_hex (c / 16) ∷ upper_hex (c % 16) ∷ []

unfoldable pub url_encode : Bytes → Bytes
unfolding encode_byte
url_encode [] = []
url_encode (c ∷ cs) = encode_byte c ++ url_encode cs

-- What a server applies to the query.
unfoldable pub upper_value : ℕ → ℕ
upper_value c = if ltb c b'A' then c - b'0' else c - b'A' + 10

unfoldable pub percent_decode : Bytes → Bytes
unfolding upper_value
percent_decode [] = []
percent_decode (c ∷ []) = c ∷ []
percent_decode (c ∷ a ∷ []) = c ∷ a ∷ []
percent_decode (c ∷ a ∷ b ∷ r) = elim (c == b'%') [
  | true ↦ (upper_value a * 16 + upper_value b) ∷ percent_decode r
  | false ↦ c ∷ percent_decode (a ∷ b ∷ r)
]

percent_decode_plain :
    (c : ℕ) (s : Bytes) → (c == b'%') ≡ false → percent_decode (c ∷ s) ≡ c ∷ percent_decode s
unfolding percent_decode
percent_decode_plain c [] h = refl
percent_decode_plain c (a ∷ []) h = refl
percent_decode_plain c (a ∷ b ∷ r) h = rw (h, percent_decode)

percent_decode-encode_byte :
    (c : ℕ) (s : Bytes) → c < 256 → percent_decode (encode_byte c ++ s) ≡ c ∷ percent_decode s
unfolding encode_byte percent_decode
percent_decode-encode_byte c s h = elim (Bool-cases (is_unreserved c)) [
  | inl plain ↦ rw plain (percent_decode_plain c s (ground arith))
  | inr other ↦ rw other (ground arith)
]

abbrev pub AllBytes : Bytes → Type 0
AllBytes = Every (λ c. c < 256)

length-encode_byte : (c : ℕ) (s : Bytes) → length (encode_byte c ++ s) ≤ 3 + length s
unfolding encode_byte
length-encode_byte c s = ground arith

-- The encoded text fits the 3 n + 1 bytes that are allocated, and decoding gives the text back.
pub url_encode_lem :
    (s : Bytes)
    → AllBytes s
    → (length (url_encode s) ≤ 3 * length s) × (percent_decode (url_encode s) ≡ s)
unfolding url_encode percent_decode
url_encode_lem [] h = (omega arith, refl)
url_encode_lem (c ∷ cs) h = (
  omega (arith, length-encode_byte c (url_encode cs), (url_encode_lem cs h.1).0),
  percent_decode-encode_byte c (url_encode cs) h.0 ∙ ap (◌∷◌ c) (url_encode_lem cs h.1).1,
)

pub length-url_encode : (s : Bytes) → length s ≤ length (url_encode s)
unfolding url_encode
length-url_encode [] = omega arith
length-url_encode (c ∷ cs) = ground (arith, length-url_encode cs)

-- `host` in `build_ws_url`: without scheme and trailing slashes.
unfoldable pub host_of : Bytes → Bytes
host_of endpoint = strip_slashes (
    if starts_with (codes "https://") endpoint
    then drop 8 endpoint
    else if starts_with (codes "http://") endpoint
    then drop 7 endpoint
    else endpoint)

unfoldable pub url_text : Bytes → Bytes → Bytes
url_text host enc =
    codes "wss://" ++ (host ++ (codes "/api/v1/ws?token=" ++ (enc ++ codes "&clientType=newt")))

-- `memory` says whether the encoder's buffer is allocated; the second part is the content of `out`.
unfoldable pub build_ws_url : Bool → Bytes → Bytes → ℕ → EspErr × Option Bytes
build_ws_url memory endpoint token out_sz =
    let url = url_text (host_of endpoint) (url_encode token) in
    if not memory
    then (err_no_mem, none)
    else if leb out_sz (length url)
    then (err_invalid_size, none)
    else (esp_ok, some url)

-- A scheme before the host and a slash behind it make no difference.
pub build_ws_url-scheme :
    (memory : Bool) (host token : Bytes) (out_sz : ℕ)
    → starts_with (codes "https://") host ≡ false
    → starts_with (codes "http://") host ≡ false
    → (build_ws_url memory (codes "https://" ++ host) token out_sz
        ≡ build_ws_url memory host token out_sz)
      × (build_ws_url memory (codes "http://" ++ host) token out_sz
          ≡ build_ws_url memory host token out_sz)
      × (build_ws_url memory (codes "https://" ++ (host ++ b'/' ∷ [])) token out_sz
          ≡ build_ws_url memory host token out_sz)
unfolding build_ws_url host_of starts_with
build_ws_url-scheme memory host token out_sz s h =
    (rw (s, h), rw (s, h), rw (s, h, strip_slashes-slashes host))

length-url_text : (host enc : Bytes) → length (url_text host enc) ≡ length host + length enc + 39
unfolding url_text
length-url_text host enc = simp length-append (omega arith)

-- `WS_URL_MAX`
abbrev pub url_max : ℕ
url_max = 512

-- A token of 473 characters or more never gives a URL, whatever the endpoint, although 511
-- characters are accepted where the token is fetched.
pub build_ws_url_long :
    (memory : Bool) (endpoint token : Bytes)
    → 473 ≤ length token
    → (build_ws_url memory endpoint token url_max).1 ≡ none
unfolding build_ws_url
build_ws_url_long memory endpoint token h =
    ground (arith, length-url_text (host_of endpoint) (url_encode token), length-url_encode token)
