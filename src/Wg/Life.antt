-- ===== src/Wg/Life.antt =====
-- newt_wg.c: `newt_wg_init`, `newt_wg_start`, `newt_wg_stop` and what the interface tells of itself.
use newt_esp.Base.{
  ℕ, zero, suc, ◌+◌, Bool, true, false, not, ◌&&◌, List, [], ◌++◌, Option, none, some, Bytes, ltb,
  ◌==◌, if◌then◌else◌, ◌>>=◌,
}
use newt_esp.Extern.{
  EspErr, esp_ok, esp_fail, err_no_mem, err_retry, err_invalid_arg, err_invalid_state, is_ok,
  Base64,
}
use newt_esp.Newt.WgConfig.{WgConfig}
use newt_esp.Wg.Address.{ip4_to_str}
use newt_esp.Wg.Keys.{Keypair}
use newt_esp.Wg.State.{
  down, resolving, handshaking, up, TunnelCall, tunnel_init, tunnel_connect, tunnel_disconnect,
  tunnel_add_allowed_ip, Wg, wg_cfg, TcpipEnv, wg_call_on_tcpip,
}

-- The state behind a call, its result, and the calls of the WireGuard library that it made.
pub record WgDone : Type 0 where
  pub wg : Wg
  pub ret : EspErr
  pub calls : List TunnelCall

abbrev pub wg_done : Wg → EspErr → List TunnelCall → WgDone
wg_done w e cs = record { wg = w; ret = e; calls = cs }

-- `b64_encode_key` into a buffer of 48 bytes.
unfoldable pub b64_encode_key : Base64 → Bytes → Option Bytes
b64_encode_key b raw = b.encode 48 raw

-- The configuration is filled in and the library initialised. The source keeps the caller's pointer to
-- the host; `endpoint` is the text that it names at the time of this call.
unfoldable pub fill_config : TcpipEnv → WgConfig → Wg → WgDone
unfolding wg_call_on_tcpip
fill_config env cfg w =
    let w' = record w {
      addr_str = ip4_to_str cfg.tunnel_ip;
      mask_str = ip4_to_str cfg.tunnel_netmask;
      server_ip_str = ip4_to_str cfg.server_ip;
      endpoint = cfg.endpoint;
      port = cfg.endpoint_port;
      keepalive = cfg.keepalive_sec;
      tunnel_ip = cfg.tunnel_ip;
    } in
    let (e, calls) = wg_call_on_tcpip env (tunnel_init (wg_cfg w')) in
    if is_ok e then wg_done (record w' { state = resolving }) esp_ok calls else wg_done w' e calls

-- The three keys in turn; what is encoded before a failure stays in its buffer.
unfoldable pub init_with : Base64 → TcpipEnv → WgConfig → Keypair → Wg → WgDone
unfolding b64_encode_key fill_config
init_with b env cfg kp w = elim (b64_encode_key b kp.priv) [
  | none ↦ wg_done w esp_fail []
  | some priv ↦
      let w1 = record w { priv_b64 = priv } in
      elim (b64_encode_key b kp.public) [
        | none ↦ wg_done w1 esp_fail []
        | some public ↦
            let w2 = record w1 { pub_b64 = public } in
            elim (b64_encode_key b cfg.server_pubkey) [
              | none ↦ wg_done w2 esp_fail []
              | some server ↦ fill_config env cfg (record w2 { server_pub_b64 = server })
            ]
      ]
]

-- `newt_wg_init`; a null pointer is `none`.
unfoldable pub init : Base64 → TcpipEnv → Option WgConfig → Option Keypair → Wg → WgDone
unfolding init_with
init b env (some cfg) (some kp) w = init_with b env cfg kp w
init b env _ _ w = wg_done w err_invalid_arg []

abbrev pub is_retry : EspErr → Bool
is_retry err_retry = true
is_retry _ = false

-- The loop of `newt_wg_start`: `attempts` have asked for another one. The result is whether the last
-- answer was ESP_OK, and how many calls were made; `none` means that the fuel ran out.
unfoldable pub connect_loop : ℕ → ℕ → (ℕ → EspErr) → Option (Bool × ℕ)
connect_loop zero attempts answer = none
connect_loop (suc fuel) attempts answer =
    let rest = connect_loop fuel (attempts + 1) answer in
    if is_ok (answer attempts)
    then some (true, attempts + 1)
    else if is_retry (answer attempts) && ltb attempts 10
    then rest
    else some (false, attempts + 1)

-- What `newt_wg_start` meets: each connect, the call that adds the server's address, and whether
-- the semaphore and the task are made.
pub record StartEnv : Type 0 where
  pub connect : ℕ → TcpipEnv
  pub add_allowed_ip : TcpipEnv
  pub semaphore : Bool
  pub task : Bool

abbrev pub connect_answer : StartEnv → ℕ → EspErr
connect_answer env i = (wg_call_on_tcpip (env.connect i) tunnel_connect).0

-- The calls of the first `n` rounds that reached the library.
abbrev pub connect_calls : StartEnv → ℕ → List TunnelCall
connect_calls env zero = []
connect_calls env (suc n) =
    connect_calls env n ++ (wg_call_on_tcpip (env.connect n) tunnel_connect).1

-- The poller is started; its semaphore is made where it is missing.
unfoldable pub spawn_poller : StartEnv → Wg → Wg × EspErr
spawn_poller env w =
    if not w.poller_done && not env.semaphore
    then (w, err_no_mem)
    else (let ready = record w { poller_done = true; poller_stop_requested = false } in
        if env.task
        then (record ready { poller = true }, esp_ok)
        else (record ready { poller = false }, esp_fail))

-- Behind the loop: the tunnel is connected.
unfoldable pub connected : StartEnv → Wg → WgDone
unfolding spawn_poller wg_call_on_tcpip
connected env w =
    let (e, added) = wg_call_on_tcpip env.add_allowed_ip (tunnel_add_allowed_ip w.server_ip_str) in
    let (w', ret) = spawn_poller env (record w { state = handshaking }) in wg_done w' ret added

-- Enough for ten retries and the last call.
abbrev pub connect_fuel : ℕ
connect_fuel = 11

-- What follows the loop, which made `n` calls.
unfoldable pub finish_start : StartEnv → Wg → Bool × ℕ → WgDone
unfolding connected
finish_start env w (true, n) =
    let d = connected env w in record d { calls = connect_calls env n ++ d.calls }
finish_start env w (false, n) = wg_done w esp_fail (connect_calls env n)

-- `newt_wg_start`
unfoldable pub start : StartEnv → Wg → Option WgDone
unfolding finish_start
start env w = connect_loop connect_fuel 0 (connect_answer env) >>= λ r. some (finish_start env w r)

-- `newt_wg_stop`. The wait for the poller leaves no trace in the variables, since its result is ignored;
-- `poller` is the handle. Whether the task is gone behind the wait is the subject of Wg/Poller.
unfoldable pub stop : TcpipEnv → Wg → WgDone
unfolding wg_call_on_tcpip
stop env w =
    let (e, calls) = wg_call_on_tcpip env tunnel_disconnect in
    wg_done
      (record w {
        poller = false;
        poller_done = false;
        poller_stop_requested = false;
        state = down;
        priv_b64 = [];
      })
      e calls

-- `newt_wg_get_state` is the field; `newt_wg_is_connected`
unfoldable pub is_connected : Wg → Bool
is_connected w = elim w.state [ up ↦ true | _ ↦ false ]

-- `newt_wg_get_tunnel_ip`; the flag says whether the pointer is set.
unfoldable pub get_tunnel_ip : Bool → Wg → Option ℕ × EspErr
get_tunnel_ip out w =
    if not out
    then (none, err_invalid_arg)
    else if w.tunnel_ip == 0
    then (none, err_invalid_state)
    else (some w.tunnel_ip, esp_ok)

-- `newt_wg_get_local_pubkey`
unfoldable pub get_local_pubkey : Bool → Wg → Option Bytes × EspErr
get_local_pubkey out w = if out then (some w.local_pub, esp_ok) else (none, err_invalid_arg)
