-- ===== src/Wg/Keys.antt =====
-- newt_wg.c, `newt_wg_load_or_generate_keypair`: the private key is read from the non-volatile
-- storage, or made and stored there. The storage, the random bytes and the curve are arguments.
use newt_esp.Base.{
  ℕ, zero, suc, Bool, true, false, [], ◌∷◌, Option, none, some, Bytes, codes, length, ◌==◌,
  if◌then◌else◌,
}
use newt_esp.Extern.{EspErr, esp_ok, esp_fail, err_invalid_arg, is_ok, Nvs}
use newt_esp.Proto.Connect.{key_len}
use Prim.Native.Nat.{bit_and, bit_or}

-- `newt_wg_keypair_t`
pub record Keypair : Type 0 where
  pub priv : Bytes
  pub public : Bytes

-- The byte at an index is changed.
abbrev pub modify : ℕ → (ℕ → ℕ) → Bytes → Bytes
modify i f [] = []
modify zero f (b ∷ bs) = f b ∷ bs
modify (suc i) f (b ∷ bs) = b ∷ modify i f bs

abbrev pub clamp_low : ℕ → ℕ
clamp_low b = bit_and b 248

abbrev pub clamp_high : ℕ → ℕ
clamp_high b = bit_or (bit_and b 127) 64

unfoldable pub clamp_x25519 : Bytes → Bytes
clamp_x25519 k = modify 31 clamp_high (modify 0 clamp_low k)

-- `basepoint[NEWT_WG_KEY_LEN] = { 9 }`
abbrev pub zero_bytes : ℕ → Bytes
zero_bytes zero = []
zero_bytes (suc n) = 0 ∷ zero_bytes n

abbrev pub basepoint : Bytes
basepoint = 9 ∷ zero_bytes 31

-- `NVS_KEY`
abbrev pub nvs_key : Bytes
nvs_key = codes "wg_priv"

module _ (nvs : Nvs) where
  -- The storage behind the call, the pair of the caller, `s_local_pub` and the result. A null pointer
  -- for the pair is `none`.
  pub record Loaded : Type 0 where
    pub store : nvs.Store
    pub out : Option Keypair
    pub local_pub : Bytes
    pub ret : EspErr

  -- `nvs_set_blob` and `nvs_commit`, with the result of the first that fails.
  unfoldable pub persist : nvs.Store → Bytes → nvs.Store × Bool
  persist s priv = elim (nvs.set_blob s nvs_key priv) [
    | none ↦ (s, false)
    | some t ↦ elim (nvs.commit t) [ none ↦ (t, false) | some u ↦ (u, true) ]
  ]

  -- The public key of the private key that is in place.
  unfoldable pub derive : (Bytes → Bytes → Bytes) → nvs.Store → Bytes → Loaded
  derive scalarmult s priv =
      let q = scalarmult priv basepoint in
      record {
        store = s;
        out = some (record { priv = priv; public = q });
        local_pub = q;
        ret = esp_ok;
      }

  -- No key of the right length is stored: one is made.
  unfoldable pub generate : (Bytes → Bytes → Bytes) → Bytes → nvs.Store → Keypair → Bytes → Loaded
  unfolding persist derive
  generate scalarmult random s out local_pub =
      let priv = clamp_x25519 random in
      let (t, kept) = persist s priv in
      if kept then derive scalarmult t priv else record {
        store = t;
        out = some (record out { priv = priv });
        local_pub = local_pub;
        ret = esp_fail;
      }

  unfoldable pub load_with : (Bytes → Bytes → Bytes) → Bytes → nvs.Store → Keypair → Bytes → Loaded
  unfolding generate derive
  load_with scalarmult random s out local_pub = elim (nvs.get_blob s nvs_key key_len) [
    | none ↦ generate scalarmult random s out local_pub
    | some priv ↦
        if length priv == key_len
        then derive scalarmult s priv
        else generate scalarmult random s out local_pub
  ]

  -- `newt_wg_load_or_generate_keypair`; the first argument is the answer of `nvs_open`.
  unfoldable pub load_or_generate_keypair :
      EspErr → (Bytes → Bytes → Bytes) → Bytes → nvs.Store → Option Keypair → Bytes → Loaded
  unfolding load_with
  load_or_generate_keypair opened scalarmult random s none local_pub = record {
    store = s;
    out = none;
    local_pub = local_pub;
    ret = err_invalid_arg;
  }
  load_or_generate_keypair opened scalarmult random s (some out) local_pub =
      if is_ok opened
      then load_with scalarmult random s out local_pub
      else record { store = s; out = some out; local_pub = local_pub; ret = esp_fail }
