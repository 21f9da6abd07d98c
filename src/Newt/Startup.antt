-- ===== src/Newt/Startup.antt =====
-- What `newt_init` has prepared when it returns ESP_OK.
use newt_esp.Base.{
  ◌≡◌, refl, sym, ap, subst, Bool, true, false, [], some, Bytes, negsuc, arith, Bool-cases, inl,
  inr, or_else, ◌∙◌,
}
use newt_esp.Extern.{esp_ok, is_ok, Nvs}
use newt_esp.Newt.Public.{
  no_bits, newt_callbacks, Newt, NewtConfig, InitEnv, Inited, init_proto, init_keys, init_texts,
  init,
}
use newt_esp.Newt.WgConfig.{strlcpy}
use newt_esp.Proto
use newt_esp.Proto.Connect.{key_len}
use newt_esp.Wg.KeyPair.{IsKey, load_or_generate_keypair-Keeps}
use newt_esp.Wg.Keys.{nvs_key, basepoint, Loaded, load_or_generate_keypair}

-- The protocol has its callbacks and no id in flight, and no bit of the event group is set.
pub record IsReset (n : Newt) : Type 0 where
  pub events : n.events ≡ some no_bits
  pub callbacks : n.proto.cb ≡ newt_callbacks
  pub version : n.proto.config_version ≡ 0
  pub register_id : n.proto.inflight_chain_register ≡ []
  pub request_id : n.proto.inflight_chain_ping_request ≡ []
  pub exit_node : n.proto.chosen_exit_node_id ≡ negsuc 0

-- The texts are those of the configuration, cut to their buffers.
pub record Named (endpoint newt_id newt_secret : Bytes) (n : Newt) : Type 0 where
  pub endpoint_text : n.endpoint ≡ strlcpy endpoint 256
  pub id_text : n.newt_id ≡ strlcpy newt_id 64
  pub secret_text : n.newt_secret ≡ strlcpy newt_secret 128

module _ (nvs : Nvs) where
  -- The pair in use is that of the private key in the storage.
  abbrev pub Identified : (Bytes → Bytes → Bytes) → Inited nvs → Type 0
  Identified scalarmult r =
      (priv : Bytes) × (nvs.get_blob r.store nvs_key key_len ≡ some priv)
      × (r.newt.kp ≡ record { priv = priv; public = scalarmult priv basepoint })

  init_proto-IsReset :
      (event_group : Bool) (s : nvs.Store) (n : Newt)
      → (init_proto nvs event_group s n).ret ≡ esp_ok
      → IsReset (init_proto nvs event_group s n).newt
        × ((init_proto nvs event_group s n).store ≡ s)
        × ((init_proto nvs event_group s n).newt.kp ≡ n.kp)
        × ((endpoint newt_id newt_secret : Bytes)
            → Named endpoint newt_id newt_secret n
            → Named endpoint newt_id newt_secret (init_proto nvs event_group s n).newt)
  unfolding init_proto Proto.State.init
  init_proto-IsReset true s n h = (ground arith, refl, refl, (λ e i c v. ground arith))
  init_proto-IsReset false s n h = cc

  abbrev keys : InitEnv nvs → Newt → Loaded nvs
  keys env n =
      load_or_generate_keypair nvs env.keys_open env.scalarmult env.random env.store (some n.kp)
        n.wg.local_pub

  abbrev keyed : InitEnv nvs → Newt → Newt
  keyed env n = record n {
    kp = or_else (keys env n).out n.kp;
    wg = record n.wg { local_pub = (keys env n).local_pub };
  }

  init_keys_ok :
      (env : InitEnv nvs) (n : Newt)
      → (init_keys nvs env n).ret ≡ esp_ok
      → ((keys env n).ret ≡ esp_ok)
        × (init_keys nvs env n ≡ init_proto nvs env.event_group (keys env n).store (keyed env n))
  unfolding init_keys
  init_keys_ok env n h = elim (Bool-cases (is_ok (keys env n).ret)) [
    | inl good ↦ (ground arith, rw (good, init_keys))
    | inr bad ↦ cc (rw (bad, init_keys) at h)
  ]

  -- The rest of `newt_init`, once the texts are in place.
  init_keys-IsReset :
      (env : InitEnv nvs) (n : Newt)
      → IsKey env.random
      → (init_keys nvs env n).ret ≡ esp_ok
      → IsReset (init_keys nvs env n).newt
        × Identified env.scalarmult (init_keys nvs env n)
        × ((endpoint newt_id newt_secret : Bytes)
            → Named endpoint newt_id newt_secret n
            → Named endpoint newt_id newt_secret (init_keys nvs env n).newt)
  init_keys-IsReset env n v h =
      let (loaded, same) = init_keys_ok env n h in
      let (priv, kept, source) =
        load_or_generate_keypair-Keeps nvs env.scalarmult env.keys_open env.random env.store
          (some n.kp) n.wg.local_pub v loaded in
      let (reset, stored, pair, named) =
        init_proto-IsReset env.event_group (keys env n).store (keyed env n)
          (ap (λ r. r.ret) (sym same) ∙ h) in
      subst
        (λ r.
          IsReset r.newt
          × Identified env.scalarmult r
          × ((endpoint newt_id newt_secret : Bytes)
              → Named endpoint newt_id newt_secret n
              → Named endpoint newt_id newt_secret r.newt))
        (sym same)
        (
          reset,
          (
            priv,
            ap (λ s. nvs.get_blob s nvs_key key_len) stored ∙ kept.stored,
            pair ∙ ap (λ o. or_else o n.kp) kept.pair,
          ),
          (λ e i c w. named e i c (ground arith)),
        )

  abbrev named : Bytes → Bytes → Bytes → Bool → Newt → Newt
  named endpoint newt_id newt_secret on_event n = record n {
    on_event = on_event;
    endpoint = strlcpy endpoint 256;
    newt_id = strlcpy newt_id 64;
    newt_secret = strlcpy newt_secret 128;
  }

  init_texts_ok :
      (env : InitEnv nvs) (endpoint newt_id newt_secret : Bytes) (on_event : Bool) (n : Newt)
      → (init_texts nvs env endpoint newt_id newt_secret on_event n).ret ≡ esp_ok
      → init_texts nvs env endpoint newt_id newt_secret on_event n
        ≡ init_keys nvs env (named endpoint newt_id newt_secret on_event n)
  unfolding init_texts
  init_texts_ok env endpoint newt_id newt_secret on_event n h =
      elim (Bool-cases (is_ok env.nvs_open)) [
        | inl good ↦ rw (good, init_texts)
        | inr bad ↦ cc (bad, ap is_ok (rw (bad, init_texts) at h))
      ]

  -- After ESP_OK the texts are in place, cut to their buffers; the protocol is reset, with the
  -- callbacks of newt.c; no bit is set; and the key pair is that of the private key in the storage.
  pub init-IsReset :
      (env : InitEnv nvs) (endpoint newt_id newt_secret : Bytes) (on_event : Bool) (n : Newt)
      → IsKey env.random
      → let cfg : NewtConfig = record {
        endpoint = some endpoint;
        newt_id = some newt_id;
        newt_secret = some newt_secret;
        on_event = on_event;
      } in
        (init nvs env (some cfg) n).ret ≡ esp_ok
        → IsReset (init nvs env (some cfg) n).newt
          × Named endpoint newt_id newt_secret (init nvs env (some cfg) n).newt
          × Identified env.scalarmult (init nvs env (some cfg) n)
  unfolding init
  init-IsReset env endpoint newt_id newt_secret on_event n v h =
      let m : Newt = named endpoint newt_id newt_secret on_event n in
      let same = init_texts_ok env endpoint newt_id newt_secret on_event n h in
      let (reset, identified, kept) = init_keys-IsReset env m v (ap (λ r. r.ret) (sym same) ∙ h) in
      subst
        (λ r.
          IsReset r.newt × Named endpoint newt_id newt_secret r.newt × Identified env.scalarmult r)
        (sym same) (reset, kept endpoint newt_id newt_secret (ground arith), identified)
