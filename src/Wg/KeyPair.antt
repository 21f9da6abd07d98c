-- ===== src/Wg/KeyPair.antt =====
-- newt_wg.c: a made key has the form that X25519 wants, and the key pair survives a restart.
use newt_esp.Base.{
  ℕ, zero, suc, ◌%◌, ◌<◌, ◌≤◌, ◌≡◌, refl, sym, subst, ◌∙◌, Bool, true, ◌&&◌, [], ◌∷◌, Option, none,
  some, Bytes, length, get_elem?, arith, ltb, leb, ◌==◌, Option-cases, Bool-cases, ◌⊎◌, inl, inr,
  ap,
}
use newt_esp.Extern.{EspErr, esp_ok, Nvs}
use newt_esp.Proto.Connect.{key_len}
use newt_esp.Wg.Keys.{
  Keypair, modify, clamp_low, clamp_high, clamp_x25519, nvs_key, basepoint, Loaded, persist, derive,
  generate, load_with, load_or_generate_keypair,
}

-- A test passes at every byte.
each_byte : (ℕ → Bool) → ℕ → Bool
each_byte test zero = true
each_byte test (suc n) = each_byte test n && test n

each_byte-lt : (test : ℕ → Bool) (n x : ℕ) → each_byte test n ≡ true → x < n → test x ≡ true
unfolding each_byte
each_byte-lt test zero x h lt = absurd (omega arith)
each_byte-lt test (suc n) x h lt = ground (arith, each_byte-lt test n x)

clamp_table :
    each_byte (λ b. clamp_low b % 8 == 0 && leb 64 (clamp_high b) && ltb (clamp_high b) 128) 256
    ≡ true
unfolding each_byte
clamp_table = refl

clamped : (b : ℕ) → b < 256 → (clamp_low b % 8 ≡ 0) × (64 ≤ clamp_high b) × (clamp_high b < 128)
clamped b h = ground (
  arith,
  each_byte-lt (λ (b : ℕ). clamp_low b % 8 == 0 && leb 64 (clamp_high b) && ltb (clamp_high b) 128)
      256 b clamp_table h,
)

-- The form of an X25519 scalar: a multiple of eight between 2^254 and 2^255, in 32 bytes.
pub record IsScalar (k : Bytes) : Type 0 where
  pub whole : length k ≡ key_len
  pub low : (b : ℕ) × (get_elem? k 0 ≡ some b) × (b % 8 ≡ 0)
  pub high : (b : ℕ) × (get_elem? k 31 ≡ some b) × (64 ≤ b) × (b < 128)

-- A private key of 32 bytes, each below 256.
pub record IsKey (k : Bytes) : Type 0 where
  pub whole : length k ≡ key_len
  pub bytes : (i b : ℕ) → get_elem? k i ≡ some b → b < 256

length-modify : (i : ℕ) (f : ℕ → ℕ) (k : Bytes) → length (modify i f k) ≡ length k
length-modify i f [] = refl
length-modify zero f (b ∷ k) = refl
length-modify (suc i) f (b ∷ k) = ap suc (length-modify i f k)

get_elem?-modify :
    (i : ℕ) (f : ℕ → ℕ) (k : Bytes) (b : ℕ)
    → get_elem? k i ≡ some b
    → get_elem? (modify i f k) i ≡ some (f b)
get_elem?-modify i f [] b h = cc
get_elem?-modify zero f (a ∷ k) b h = ground arith
get_elem?-modify (suc i) f (a ∷ k) b h = get_elem?-modify i f k b h

get_elem?_lt : (i : ℕ) (k : Bytes) → i < length k → (b : ℕ) × (get_elem? k i ≡ some b)
get_elem?_lt i [] h = absurd (omega arith)
get_elem?_lt zero (b ∷ k) h = (b, refl)
get_elem?_lt (suc i) (b ∷ k) h = get_elem?_lt i k (omega arith)

clamp_x25519-IsScalar : (k : Bytes) → IsKey k → IsScalar (clamp_x25519 k)
unfolding clamp_x25519
clamp_x25519-IsScalar [] v = absurd (omega (arith, v.whole))
clamp_x25519-IsScalar (b ∷ k) v =
    let (c, at) = get_elem?_lt 30 k (omega (arith, v.whole)) in
    record {
      whole = omega (arith, v.whole, length-modify 30 clamp_high k);
      low = (clamp_low b, refl, (clamped b (v.bytes 0 b refl)).0);
      high = (
        clamp_high c,
        get_elem?-modify 30 clamp_high k c at,
        (clamped c (v.bytes 31 c at)).1,
        (clamped c (v.bytes 31 c at)).2,
      );
    }

module _ (nvs : Nvs) (scalarmult : Bytes → Bytes → Bytes) where
  -- The storage keeps a key of the right length, and the call returned it with its public key.
  pub record IsKept (r : Loaded nvs) (priv : Bytes) : Type 0 where
    pub whole : length priv ≡ key_len
    pub stored : nvs.get_blob r.store nvs_key key_len ≡ some priv
    pub pair : r.out ≡ some (record { priv = priv; public = scalarmult priv basepoint })
    pub told : r.local_pub ≡ scalarmult priv basepoint
    pub done : r.ret ≡ esp_ok

  -- The key that was there, or the one made of the random bytes.
  abbrev pub Source : nvs.Store → Bytes → Bytes → Type 0
  Source s random priv =
      (nvs.get_blob s nvs_key key_len ≡ some priv) ⊎ ((priv ≡ clamp_x25519 random) × IsScalar priv)

  abbrev pub Keeps : nvs.Store → Bytes → Loaded nvs → Type 0
  Keeps s random r = (priv : Bytes) × IsKept r priv × Source s random priv

  persist_kept :
      (s : nvs.Store) (priv : Bytes)
      → length priv ≡ key_len
      → (persist nvs s priv).1 ≡ true
      → nvs.get_blob (persist nvs s priv).0 nvs_key key_len ≡ some priv
  unfolding persist
  persist_kept s priv n h = elim (Option-cases (nvs.set_blob s nvs_key priv)) [
    | inl bad ↦ cc (rw (bad, persist) at h)
    | inr (t, set) ↦ elim (Option-cases (nvs.commit t)) [
      | inl bad ↦ cc (rw (set, bad, persist) at h)
      | inr (u, kept) ↦
          rw (set, kept, persist)
            (nvs.get_blob-commit s t u nvs_key priv key_len set kept (omega (arith, n)))
    ]
  ]

  derive-IsKept :
      (s : nvs.Store) (priv : Bytes)
      → length priv ≡ key_len
      → nvs.get_blob s nvs_key key_len ≡ some priv
      → IsKept (derive nvs scalarmult s priv) priv
  unfolding derive
  derive-IsKept s priv n h = record { whole = n; stored = h; pair = refl; told = refl; done = refl }

  generate-Keeps :
      (random : Bytes) (s : nvs.Store) (out : Keypair) (local_pub : Bytes)
      → IsKey random
      → (generate nvs scalarmult random s out local_pub).ret ≡ esp_ok
      → Keeps s random (generate nvs scalarmult random s out local_pub)
  unfolding generate
  generate-Keeps random s out local_pub v h =
      let k = clamp_x25519-IsScalar random v in
      elim (Bool-cases (persist nvs s (clamp_x25519 random)).1) [
        | inl kept ↦
            rw (kept, generate)
              (
                clamp_x25519 random,
                derive-IsKept _ _ k.whole (persist_kept s (clamp_x25519 random) k.whole kept),
                inr (refl, k),
              )
        | inr lost ↦ cc (rw (lost, generate) at h)
      ]

  load_with-cases :
      (random : Bytes) (s : nvs.Store) (out : Keypair) (local_pub : Bytes)
      → (load_with nvs scalarmult random s out local_pub
          ≡ generate nvs scalarmult random s out local_pub)
        ⊎ ((priv : Bytes) × (nvs.get_blob s nvs_key key_len ≡ some priv)
            × (length priv ≡ key_len)
            × (load_with nvs scalarmult random s out local_pub ≡ derive nvs scalarmult s priv))
  unfolding load_with
  load_with-cases random s out local_pub = elim (Option-cases (nvs.get_blob s nvs_key key_len)) [
    | inl missing ↦ inl (rw (missing, load_with))
    | inr (priv, found) ↦ elim (Bool-cases (length priv == key_len)) [
      | inl whole ↦ inr (priv, found, ground arith, rw (found, load_with) (rw whole))
      | inr short ↦ inl (rw (found, load_with) (rw short))
    ]
  ]

  load_with-Keeps :
      (random : Bytes) (s : nvs.Store) (out : Keypair) (local_pub : Bytes)
      → IsKey random
      → (load_with nvs scalarmult random s out local_pub).ret ≡ esp_ok
      → Keeps s random (load_with nvs scalarmult random s out local_pub)
  load_with-Keeps random s out local_pub v h = elim (load_with-cases random s out local_pub) [
    | inl made ↦
        subst (Keeps s random) (sym made)
          (generate-Keeps random s out local_pub v (ap (λ r. r.ret) (sym made) ∙ h))
    | inr (priv, found, whole, same) ↦
        subst (Keeps s random) (sym same) (priv, derive-IsKept s priv whole found, inl found)
  ]

  -- When the call succeeds, a private key of 32 bytes is in the storage and is returned with its
  -- public key; it is the one that was stored, or a scalar in the form of X25519 made of the random
  -- bytes.
  pub load_or_generate_keypair-Keeps :
      (opened : EspErr) (random : Bytes) (s : nvs.Store) (out : Option Keypair) (local_pub : Bytes)
      → IsKey random
      → (load_or_generate_keypair nvs opened scalarmult random s out local_pub).ret ≡ esp_ok
      → Keeps s random (load_or_generate_keypair nvs opened scalarmult random s out local_pub)
  unfolding load_or_generate_keypair
  load_or_generate_keypair-Keeps opened random s none local_pub v h = cc
  load_or_generate_keypair-Keeps esp_ok random s (some out) local_pub v h =
      load_with-Keeps random s out local_pub v h
  load_or_generate_keypair-Keeps opened random s (some out) local_pub v h = cc

  load_with_stored :
      (random : Bytes) (s : nvs.Store) (out : Keypair) (local_pub : Bytes) (priv : Bytes)
      → nvs.get_blob s nvs_key key_len ≡ some priv
      → length priv ≡ key_len
      → load_with nvs scalarmult random s out local_pub ≡ derive nvs scalarmult s priv
  unfolding load_with
  load_with_stored random s out local_pub priv found whole = rw (found, load_with) (ground arith)

  IsKept-derive :
      (r : Loaded nvs) (priv : Bytes) → IsKept r priv → r ≡ derive nvs scalarmult r.store priv
  unfolding derive
  IsKept-derive r priv k = ground (arith, k.pair, k.told, k.done)

  load_stored :
      (random : Bytes) (s : nvs.Store) (out : Keypair) (local_pub : Bytes) (priv : Bytes)
      → nvs.get_blob s nvs_key key_len ≡ some priv
      → length priv ≡ key_len
      → load_or_generate_keypair nvs esp_ok scalarmult random s (some out) local_pub
        ≡ derive nvs scalarmult s priv
  unfolding load_or_generate_keypair
  load_stored random s out local_pub priv = load_with_stored random s out local_pub priv

  -- After a call that succeeds, every later one on the same storage returns the same pair, changes
  -- nothing there and uses none of its random bytes: the site keeps its identity over a restart.
  pub load_or_generate_keypair_again :
      (opened : EspErr) (random later_random : Bytes) (s : nvs.Store) (out later_out : Keypair)
      (local_pub later_pub : Bytes)
      → IsKey random
      → (load_or_generate_keypair nvs opened scalarmult random s (some out) local_pub).ret ≡ esp_ok
      → load_or_generate_keypair nvs esp_ok scalarmult later_random
          (load_or_generate_keypair nvs opened scalarmult random s (some out) local_pub).store
          (some later_out)
          later_pub
        ≡ load_or_generate_keypair nvs opened scalarmult random s (some out) local_pub
  load_or_generate_keypair_again opened random later_random s out later_out local_pub later_pub v
        h =
      let (priv, kept, source) =
        load_or_generate_keypair-Keeps opened random s (some out) local_pub v h in
      load_stored later_random _ later_out later_pub priv kept.stored kept.whole
      ∙ sym (IsKept-derive _ priv kept)
