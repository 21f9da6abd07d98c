-- ===== src/Newt/Tunnel.antt =====
-- From the message on the websocket to the configuration that the WireGuard library gets:
-- newt_proto.c `handle_wg_connect`, newt.c `cb_wg_connect`, newt_wg.c `newt_wg_init`.
use newt_esp.Base.{
  ℕ, ◌^◌, ◌<◌, ◌≡◌, refl, true, [], ◌∷◌, Option, some, Bytes, length, arith, ◌∙◌, ap,
}
use newt_esp.Extern.{Cjson, Base64}
use newt_esp.Newt.WgConfig.{WgConfig, Site, cb_wg_connect, cb_wg_connect-endpoint, wg_endpoint_max}
use newt_esp.Proto.Connect.{handle_wg_connect, handle_wg_connect-IsConfig, IsConfig, key_len}
use newt_esp.Proto.State.{WgConnect, wg_connect, Proto}
use newt_esp.Wg
use newt_esp.Wg.Address.{read_ip4}
use newt_esp.Wg.Configure.{IsComplete, init-Says}
use newt_esp.Wg.Keys.{Keypair}
use newt_esp.Wg.State.{Wg, TunnelConfig, tunnel_init, TcpipEnv}

module _ (c : Cjson) (b : Base64) (inet_pton : Bytes → Option ℕ) where
  -- The address of a configuration is the word `v` of 32 bits.
  abbrev pub Address : Bytes → ℕ → Type 0
  Address text v = (inet_pton text ≡ some v) × (v < 2 ^ 32)

  cb_wg_connect-IsComplete :
      (cfg : WgConnect) (s : Site) (kp : Keypair) (server tunnel : ℕ)
      → IsConfig cfg
      → Address cfg.server_ip server
      → Address cfg.tunnel_ip tunnel
      → length kp.priv ≡ key_len
      → length kp.public ≡ key_len
      → IsComplete (cb_wg_connect inet_pton cfg s).0.wg_cfg kp
  unfolding cb_wg_connect
  cb_wg_connect-IsComplete cfg s kp server tunnel v a t p q = record {
    priv_whole = p;
    public_whole = q;
    server_whole = v.key_whole;
    server_fits = rw a.0 a.1;
    tunnel_fits = rw t.0 t.1;
    netmask_fits = omega arith;
  }

  cb_wg_connect-fields :
      (cfg : WgConnect) (s : Site) (tunnel : ℕ)
      → Address cfg.tunnel_ip tunnel
      → let site = (cb_wg_connect inet_pton cfg s).0.wg_cfg in
        (site.tunnel_ip ≡ tunnel) × (site.tunnel_netmask ≡ 0xffffffff) × (site.keepalive_sec ≡ 25)
  unfolding cb_wg_connect
  cb_wg_connect-fields cfg s tunnel t = (rw t.0 refl, refl, refl)

  -- A configuration that a message delivers, with a host of at most 63 characters and addresses that
  -- inet_pton reads, reaches the WireGuard library as it was sent: host, port and tunnel address, with
  -- a mask of one host and a keepalive of 25 seconds, where the keys have 32 bytes, memory is there
  -- and the TCP/IP task takes the call.
  pub newt_wg_init-handle_wg_connect :
      (data_json : Bytes) (p : Proto) (cfg : WgConnect) (s : Site) (server tunnel : ℕ)
      (env : TcpipEnv) (kp : Keypair) (w : Wg)
      → (handle_wg_connect c b data_json p).calls ≡ wg_connect cfg ∷ []
      → length cfg.endpoint < wg_endpoint_max
      → Address cfg.server_ip server
      → Address cfg.tunnel_ip tunnel
      → length kp.priv ≡ key_len
      → length kp.public ≡ key_len
      → env.semaphore ≡ true
      → env.callback ≡ true
      → (t : TunnelConfig) × ((Wg.Life.init b env
            (some (cb_wg_connect inet_pton cfg s).0.wg_cfg)
            (some kp)
            w).calls
          ≡ tunnel_init t ∷ [])
        × (t.endpoint ≡ cfg.endpoint)
        × (t.port ≡ cfg.endpoint_port)
        × (read_ip4 t.address ≡ some tunnel)
        × (read_ip4 t.netmask ≡ some 0xffffffff)
        × (t.persistent_keepalive ≡ 25)
  newt_wg_init-handle_wg_connect data_json p cfg s server tunnel env kp w h host a n k q m l =
      let v = handle_wg_connect-IsConfig c b data_json p cfg h in
      let site : WgConfig = (cb_wg_connect inet_pton cfg s).0.wg_cfg in
      let (t, calls, says, ret, state) =
        init-Says b env site kp w (cb_wg_connect-IsComplete cfg s kp server tunnel v a n k q) m l in
      let (endpoint, port, key) = cb_wg_connect-endpoint inet_pton cfg s host in
      let (address, netmask, keepalive) = cb_wg_connect-fields cfg s tunnel n in
      (
        t,
        calls,
        says.endpoint ∙ endpoint,
        says.port ∙ port,
        says.address ∙ ap some address,
        says.netmask ∙ ap some netmask,
        says.keepalive ∙ keepalive,
      )
