-- ===== src/Wg/Configure.antt =====
-- What `newt_wg_init` hands to the WireGuard library.
use newt_esp.Base.{◌^◌, ◌<◌, ◌≡◌, refl, true, [], ◌∷◌, some, arith, length, Bytes}
use newt_esp.Extern.{esp_ok, Base64}
use newt_esp.Newt.WgConfig.{WgConfig}
use newt_esp.Proto.Connect.{key_len}
use newt_esp.Wg.Address.{ip4_to_str, ip4_to_str-fits, read_ip4}
use newt_esp.Wg.Keys.{Keypair}
use newt_esp.Wg.Life.{b64_encode_key, fill_config, init_with, init}
use newt_esp.Wg.State.{Wg, TunnelConfig, tunnel_init, TcpipEnv, resolving}

-- The keys have 32 bytes, and the addresses 32 bits.
pub record IsComplete (cfg : WgConfig) (kp : Keypair) : Type 0 where
  pub priv_whole : length kp.priv ≡ key_len
  pub public_whole : length kp.public ≡ key_len
  pub server_whole : length cfg.server_pubkey ≡ key_len
  pub server_fits : cfg.server_ip < 2 ^ 32
  pub tunnel_fits : cfg.tunnel_ip < 2 ^ 32
  pub netmask_fits : cfg.tunnel_netmask < 2 ^ 32

-- The configuration of the library says what the one of the site does: endpoint, port and keepalive
-- as they are, keys of 44 characters in their buffers of 48, addresses that read back.
pub record Says (cfg : WgConfig) (c : TunnelConfig) : Type 0 where
  pub endpoint : c.endpoint ≡ cfg.endpoint
  pub port : c.port ≡ cfg.endpoint_port
  pub keepalive : c.persistent_keepalive ≡ cfg.keepalive_sec
  pub address : read_ip4 c.address ≡ some cfg.tunnel_ip
  pub netmask : read_ip4 c.netmask ≡ some cfg.tunnel_netmask
  pub private_key : length c.private_key ≡ 44
  pub public_key : length c.public_key ≡ 44

module _ (b : Base64) where
  encoded :
      (raw : Bytes)
      → length raw ≡ key_len
      → (out : Bytes) × (b64_encode_key b raw ≡ some out) × (length out ≡ 44)
  unfolding b64_encode_key
  encoded raw h =
      let (out, e) = b.encode-fits 48 raw (omega (arith, h)) in
      (out, e, omega (arith, h, b.length-encode 48 raw out e))

  fill_config-Says :
      (env : TcpipEnv) (cfg : WgConfig) (kp : Keypair) (w : Wg)
      → IsComplete cfg kp
      → length w.priv_b64 ≡ 44
      → length w.server_pub_b64 ≡ 44
      → env.semaphore ≡ true
      → env.callback ≡ true
      → (c : TunnelConfig) × ((fill_config env cfg w).calls ≡ tunnel_init c ∷ [])
        × Says cfg c
        × ((fill_config env cfg w).ret ≡ env.result)
        × (env.result ≡ esp_ok → (fill_config env cfg w).wg.state ≡ resolving)
  unfolding fill_config
  fill_config-Says env cfg kp w v p q s k = (
    record {
      private_key = w.priv_b64;
      public_key = w.server_pub_b64;
      address = ip4_to_str cfg.tunnel_ip;
      netmask = ip4_to_str cfg.tunnel_netmask;
      endpoint = cfg.endpoint;
      port = cfg.endpoint_port;
      persistent_keepalive = cfg.keepalive_sec;
    },
    ground arith,
    record {
      endpoint = refl;
      port = refl;
      keepalive = refl;
      address = (ip4_to_str-fits cfg.tunnel_ip v.tunnel_fits).1;
      netmask = (ip4_to_str-fits cfg.tunnel_netmask v.netmask_fits).1;
      private_key = p;
      public_key = q;
    },
    ground arith,
    ground arith,
  )

  -- With keys of the right length, and memory and the TCP/IP task there, `newt_wg_init` initialises
  -- the library once, with a configuration that says what the given one does; the result is the
  -- library's, and after ESP_OK the state is that of resolving the endpoint.
  pub init-Says :
      (env : TcpipEnv) (cfg : WgConfig) (kp : Keypair) (w : Wg)
      → IsComplete cfg kp
      → env.semaphore ≡ true
      → env.callback ≡ true
      → (c : TunnelConfig) × ((init b env (some cfg) (some kp) w).calls ≡ tunnel_init c ∷ [])
        × Says cfg c
        × ((init b env (some cfg) (some kp) w).ret ≡ env.result)
        × (env.result ≡ esp_ok → (init b env (some cfg) (some kp) w).wg.state ≡ resolving)
  unfolding init init_with
  init-Says env cfg kp w v s k =
      let (priv, e, n) = encoded kp.priv v.priv_whole in
      let (public, f, m) = encoded kp.public v.public_whole in
      let (server, g, l) = encoded cfg.server_pubkey v.server_whole in
      rw (e, f, g, init_with)
        (fill_config-Says env cfg kp
          (record w { priv_b64 = priv; pub_b64 = public; server_pub_b64 = server }) v n l s k)
