-- ===== src/App/Credentials.antt =====
-- main.c, `app_main`: the copies of the WiFi credentials into the fields of `wifi_config_t`, whose
-- sizes belong to ESP-IDF and are arguments.
use newt_esp.Base.{
  ℕ, zero, suc, ◌≤◌, ◌≡◌, ◌≢◌, refl, ap, ◌∙◌, [], ◌∷◌, arith, ◌==◌, if◌then◌else◌, length, Bytes,
  take, take-of_le, Every,
}

-- `strncpy(dst, src, size)`: all of the field is written, with zeros behind a shorter text; a longer
-- one is cut and has no terminator.
unfoldable pub strncpy : ℕ → Bytes → Bytes
strncpy zero src = []
strncpy (suc n) [] = 0 ∷ strncpy n []
strncpy (suc n) (x ∷ src) = x ∷ strncpy n src

pub record Credentials : Type 0 where
  pub ssid : Bytes
  pub password : Bytes

-- The two calls, on the zeroed structure.
unfoldable pub wifi_credentials : ℕ → ℕ → Bytes → Bytes → Credentials
unfolding strncpy
wifi_credentials ssid_size password_size ssid password = record {
  ssid = strncpy ssid_size ssid;
  password = strncpy password_size password;
}

-- The text in a field: up to the first zero, or the whole field.
abbrev pub field_text : Bytes → Bytes
field_text [] = []
field_text (x ∷ xs) = let rest = field_text xs in if x == 0 then [] else x ∷ rest

length-strncpy : (n : ℕ) (src : Bytes) → length (strncpy n src) ≡ n
unfolding strncpy
length-strncpy zero src = refl
length-strncpy (suc n) [] = ap suc (length-strncpy n [])
length-strncpy (suc n) (x ∷ src) = ap suc (length-strncpy n src)

field_text-strncpy :
    (n : ℕ) (src : Bytes) → Every (λ x. x ≢ 0) src → field_text (strncpy n src) ≡ take n src
unfolding strncpy
field_text-strncpy zero src f = refl
field_text-strncpy (suc n) [] f = refl
field_text-strncpy (suc n) (x ∷ src) f =
    let h = f.0 in let e = field_text-strncpy n src f.1 in ground arith

-- Both fields are filled to their last byte. A credential that is not longer than its field stands in
-- it whole, also one that leaves no place for a terminator.
pub wifi_credentials-whole :
    (ssid_size password_size : ℕ) (ssid password : Bytes)
    → Every (λ x. x ≢ 0) ssid
    → Every (λ x. x ≢ 0) password
    → length ssid ≤ ssid_size
    → length password ≤ password_size
    → let w = wifi_credentials ssid_size password_size ssid password in
      (length w.ssid ≡ ssid_size)
      × (length w.password ≡ password_size)
      × (field_text w.ssid ≡ ssid)
      × (field_text w.password ≡ password)
unfolding wifi_credentials
wifi_credentials-whole m n ssid password f g h k = (
  length-strncpy m ssid,
  length-strncpy n password,
  field_text-strncpy m ssid f ∙ take-of_le m ssid h,
  field_text-strncpy n password g ∙ take-of_le n password k,
)
