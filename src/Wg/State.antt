-- ===== src/Wg/State.antt =====
-- newt_wg.c: the static variables, the calls of the WireGuard library, and `wg_call_on_tcpip`, which
-- runs such a call in the TCP/IP task.
use newt_esp.Base.{ℕ, Bool, not, List, [], ◌∷◌, Bytes, if◌then◌else◌}
use newt_esp.Extern.{EspErr, esp_fail, err_no_mem}

-- `newt_wg_state_t`
pub data WgState : Type 0 where
  down resolving handshaking up : WgState

-- `wireguard_config_t` as `newt_wg_init` fills it; the fields that stay zero are left out. The texts
-- are those of the static buffers that its pointers name.
pub record TunnelConfig : Type 0 where
  pub private_key : Bytes
  pub public_key : Bytes
  pub address : Bytes
  pub netmask : Bytes
  pub endpoint : Bytes
  pub port : ℕ
  pub persistent_keepalive : ℕ

-- The calls that reach the WireGuard library.
pub data TunnelCall : Type 0 where
  tunnel_init : TunnelConfig → TunnelCall
  tunnel_connect tunnel_disconnect tunnel_peer_is_up : TunnelCall
  tunnel_add_allowed_ip : Bytes → TunnelCall

-- The static variables. Handles are flags, a buffer is the text in it.
pub record Wg : Type 0 where
  pub priv_b64 : Bytes
  pub pub_b64 : Bytes
  pub server_pub_b64 : Bytes
  pub addr_str : Bytes
  pub mask_str : Bytes
  pub server_ip_str : Bytes
  pub endpoint : Bytes
  pub port : ℕ
  pub keepalive : ℕ
  pub state : WgState
  pub tunnel_ip : ℕ
  pub local_pub : Bytes
  pub poller : Bool
  pub poller_done : Bool
  pub poller_stop_requested : Bool

-- `s_wg_cfg`
abbrev pub wg_cfg : Wg → TunnelConfig
wg_cfg w = record {
  private_key = w.priv_b64;
  public_key = w.server_pub_b64;
  address = w.addr_str;
  netmask = w.mask_str;
  endpoint = w.endpoint;
  port = w.port;
  persistent_keepalive = w.keepalive;
}

-- What one `wg_call_on_tcpip` meets: whether the semaphore is made, whether the callback is taken,
-- and what the library then answers.
pub record TcpipEnv : Type 0 where
  pub semaphore : Bool
  pub callback : Bool
  pub result : EspErr

-- `wg_call_on_tcpip`: the result, and the call if it was made.
unfoldable pub wg_call_on_tcpip : TcpipEnv → TunnelCall → EspErr × List TunnelCall
wg_call_on_tcpip env call =
    if not env.semaphore
    then (err_no_mem, [])
    else if not env.callback
    then (esp_fail, [])
    else (env.result, call ∷ [])
