-- ===== src/Newt/WgConfig.antt =====
-- newt.c, `cb_wg_connect`: the received configuration is copied into the one for the tunnel. The
-- conversion of an address, `inet_pton`, is an argument: `none` leaves the old value.
use newt_esp.Base.{
  ℕ, ◌-◌, ◌≤◌, ◌<◌, ◌≡◌, ◌≢◌, refl, ap, Bool, true, Option, arith, length, Bytes, take, length-take,
  take-of_le, or_else,
}
use newt_esp.Newt.Supervisor.{NewtEvent, registered}
use newt_esp.Proto.Connect.{IsConfig}
use newt_esp.Proto.State.{WgConnect}

-- `NEWT_WG_ENDPOINT_MAX`
abbrev pub wg_endpoint_max : ℕ
wg_endpoint_max = 64

-- `newt_wg_config_t`; an address is its 32 bits.
pub record WgConfig : Type 0 where
  pub server_pubkey : Bytes
  pub endpoint : Bytes
  pub endpoint_port : ℕ
  pub server_ip : ℕ
  pub tunnel_ip : ℕ
  pub tunnel_netmask : ℕ
  pub keepalive_sec : ℕ

-- The static variables that the callback writes, with the bit that it sets.
pub record Site : Type 0 where
  pub wg_cfg : WgConfig
  pub tunnel_ip : ℕ
  pub server_ip : ℕ
  pub wg_configured_bit : Bool

-- `strlcpy(dst, src, size)`: at most `size - 1` characters and the terminator.
abbrev pub strlcpy : Bytes → ℕ → Bytes
strlcpy src size = take (size - 1) src

-- `cb_wg_connect`: the new state and the event told before the bit is set.
unfoldable pub cb_wg_connect : (Bytes → Option ℕ) → WgConnect → Site → Site × NewtEvent
cb_wg_connect inet_pton cfg s =
    let server = or_else (inet_pton cfg.server_ip) s.wg_cfg.server_ip in
    let tunnel = or_else (inet_pton cfg.tunnel_ip) s.wg_cfg.tunnel_ip in
    (
      record {
        wg_cfg = record {
          server_pubkey = cfg.server_pubkey;
          endpoint = strlcpy cfg.endpoint wg_endpoint_max;
          endpoint_port = cfg.endpoint_port;
          server_ip = server;
          tunnel_ip = tunnel;
          tunnel_netmask = 0xFFFFFFFF;
          keepalive_sec = 25;
        };
        tunnel_ip = tunnel;
        server_ip = server;
        wg_configured_bit = true;
      },
      registered,
    )

-- A configuration whose host fits the smaller buffer reaches the tunnel with host, port and key
-- unchanged.
pub cb_wg_connect-endpoint :
    (inet_pton : Bytes → Option ℕ) (cfg : WgConnect) (s : Site)
    → length cfg.endpoint < wg_endpoint_max
    → ((cb_wg_connect inet_pton cfg s).0.wg_cfg.endpoint ≡ cfg.endpoint)
      × ((cb_wg_connect inet_pton cfg s).0.wg_cfg.endpoint_port ≡ cfg.endpoint_port)
      × ((cb_wg_connect inet_pton cfg s).0.wg_cfg.server_pubkey ≡ cfg.server_pubkey)
unfolding cb_wg_connect
cb_wg_connect-endpoint inet_pton cfg s h = (take-of_le 63 cfg.endpoint (omega arith), refl, refl)

-- Any host of 64 characters or more, which the message handler accepts up to 127, is cut off
-- without notice: the tunnel gets another host than the server sent, of 63 characters.
pub cb_wg_connect_cut :
    (inet_pton : Bytes → Option ℕ) (cfg : WgConnect) (s : Site)
    → IsConfig cfg
    → wg_endpoint_max ≤ length cfg.endpoint
    → ((cb_wg_connect inet_pton cfg s).0.wg_cfg.endpoint ≢ cfg.endpoint)
      × (length (cb_wg_connect inet_pton cfg s).0.wg_cfg.endpoint ≡ 63)
unfolding cb_wg_connect
cb_wg_connect_cut inet_pton cfg s v h =
    let n : length (take 63 cfg.endpoint) ≡ 63 = omega (arith, length-take 63 cfg.endpoint) in
    ((λ e. absurd (omega (arith, n, ap length e))), n)
