-- ===== src/Extern.antt =====
-- Code that the sources call and that is not in the repository: error codes of ESP-IDF as data,
-- cJSON and mbedTLS as records of operations with the documented facts that the sources rely on.
pub mod Sample
use newt_esp.Base.{
  ℕ, ◌+◌, ◌*◌, ◌/◌, ◌<◌, ◌≤◌, ◌≡◌, Bool, List, Option, some, Bytes, ℤ, length, true, false,
}

-- `esp_err_t`, by the names that the sources use.
pub data EspErr : Type 0 where
  esp_ok esp_fail err_no_mem err_invalid_arg err_invalid_state err_invalid_size : EspErr
  err_invalid_response err_not_allowed err_retry err_other : EspErr

abbrev pub is_ok : EspErr → Bool
is_ok EspErr.esp_ok = true
is_ok _ = false

-- The parts of a cJSON number that the sources read: `valueint`, and `valuedouble` cast to
-- `uint64_t`.
pub record JsonNumber : Type 0 where
  pub valueint : ℤ
  pub valuedouble_u64 : ℕ

-- cJSON. An absent item and an item of another kind are `none`; a string item always has its
-- `valuestring`.
pub record Cjson : Type 1 where
  pub Item : Type 0
  pub parse : Bytes → Option Item
  pub get_item : Item → Bytes → Option Item
  pub string_of : Item → Option Bytes
  pub number_of : Item → Option JsonNumber
  pub array_of : Item → Option (List Item)
  pub is_object : Item → Bool
  pub print_unformatted : Item → Option Bytes
  -- An object of string members, printed; `none` when memory runs out.
  pub print_strings : List (Bytes × Bytes) → Option Bytes

-- mbedTLS base64 with a destination of `cap` bytes; `none` is a result other than zero.
pub record Base64 : Type 0 where
  pub encode : ℕ → Bytes → Option Bytes
  pub decode : ℕ → Bytes → Option Bytes
  pub length-encode :
      (cap : ℕ) (raw out : Bytes)
      → encode cap raw ≡ some out
      → length out ≡ 4 * ((length raw + 2) / 3)
  pub length-encode-lt : (cap : ℕ) (raw out : Bytes) → encode cap raw ≡ some out → length out < cap
  pub encode-fits :
      (cap : ℕ) (raw : Bytes)
      → 4 * ((length raw + 2) / 3) < cap
      → (out : Bytes) × (encode cap raw ≡ some out)
  pub length-decode-le :
      (cap : ℕ) (text out : Bytes) → decode cap text ≡ some out → length out ≤ cap

-- The non-volatile storage of ESP-IDF, opened at the namespace of the sources: `get_blob` with room
-- for `cap` bytes is `none` where the key is missing or the blob is longer.
pub record Nvs : Type 1 where
  pub Store : Type 0
  pub get_blob : Store → Bytes → ℕ → Option Bytes
  pub set_blob : Store → Bytes → Bytes → Option Store
  pub commit : Store → Option Store
  pub get_blob-commit :
      (s t u : Store) (key blob : Bytes) (cap : ℕ)
      → set_blob s key blob ≡ some t
      → commit t ≡ some u
      → length blob ≤ cap
      → get_blob u key cap ≡ some blob
