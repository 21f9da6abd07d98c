-- ===== src/Newt/Public.antt =====
-- newt.c, the public interface: `newt_init`, `newt_start`, `newt_stop`, `newt_get_tunnel_ip`, and the
-- callbacks that `newt_init` gives to the protocol.
use newt_esp.Base.{
  ℕ, Bool, true, false, not, List, [], ◌∷◌, Option, none, some, or_else, is_some, Bytes, ◌==◌,
  if◌then◌else◌,
}
use newt_esp.Extern.{
  EspErr, esp_ok, esp_fail, err_no_mem, err_invalid_arg, err_invalid_state, is_ok, Nvs,
}
use newt_esp.Newt.Supervisor.{NewtEvent, offline}
use newt_esp.Newt.WgConfig.{WgConfig, strlcpy}
use newt_esp.Ping
use newt_esp.Ping.Session.{Ping, PingCall}
use newt_esp.Proto
use newt_esp.Proto.State.{
  Callbacks, Call, wg_connect, wg_reconnect, wg_terminate, exit_nodes, WgConnect, Proto,
}
use newt_esp.Wg
use newt_esp.Wg.Keys.{Keypair, zero_bytes, load_or_generate_keypair}
use newt_esp.Wg.State.{Wg, TcpipEnv, TunnelCall}
use newt_esp.Ws
use newt_esp.Ws.Envelope.{Link}
use newt_esp.Ws.State.{Ws}

-- The bits of the event group.
pub record EventBits : Type 0 where
  pub authed : Bool
  pub ws_conn : Bool
  pub wg_configured : Bool
  pub wg_up : Bool
  pub stop : Bool

abbrev pub no_bits : EventBits
no_bits = record {
  authed = false;
  ws_conn = false;
  wg_configured = false;
  wg_up = false;
  stop = false;
}

-- `newt_config_t`; a null pointer is `none`.
pub record NewtConfig : Type 0 where
  pub endpoint : Option Bytes
  pub newt_id : Option Bytes
  pub newt_secret : Option Bytes
  pub on_event : Bool

-- The static variables of newt.c, with those of the parts that it drives. A buffer is the text in it.
pub record Newt : Type 0 where
  pub on_event : Bool
  pub endpoint : Bytes
  pub newt_id : Bytes
  pub newt_secret : Bytes
  pub token : Bytes
  pub kp : Keypair
  pub wg_cfg : WgConfig
  pub tunnel_ip : ℕ
  pub server_ip : ℕ
  pub events : Option EventBits
  pub supervisor : Bool
  pub periodic_ping : Bool
  pub proto : Proto
  pub ws : Ws
  pub wg : Wg
  pub ping : Ping

-- What the callbacks do beside their own state; `creates_task` is the call of xTaskCreate for
-- `reconnect_task`, which may fail and whose result is ignored.
pub data Reaction : Type 0 where
  configures : WgConnect → Reaction
  creates_task sets_stop nothing : Reaction

-- `cb_wg_connect` (see WgConfig), `cb_wg_reconnect`, `cb_wg_terminate` and `cb_exit_nodes`
unfoldable pub react : Call → Reaction
react (wg_connect cfg) = configures cfg
react wg_reconnect = creates_task
react wg_terminate = sets_stop
react exit_nodes = nothing

-- `pcb`: all callbacks are set.
abbrev pub newt_callbacks : Callbacks
newt_callbacks = record {
  on_wg_connect = true;
  on_wg_reconnect = true;
  on_wg_terminate = true;
  on_exit_nodes = true;
}

module _ (nvs : Nvs) where
  -- The answers in one call of `newt_init`.
  pub record InitEnv : Type 0 where
    pub nvs_open : EspErr
    pub keys_open : EspErr
    pub scalarmult : Bytes → Bytes → Bytes
    pub random : Bytes
    pub store : nvs.Store
    pub event_group : Bool

  pub record Inited : Type 0 where
    pub store : nvs.Store
    pub newt : Newt
    pub ret : EspErr

  abbrev pub inited : nvs.Store → Newt → EspErr → Inited
  inited s n e = record { store = s; newt = n; ret = e }

  -- With the keys in place: the protocol and the event group.
  unfoldable pub init_proto : Bool → nvs.Store → Newt → Inited
  init_proto event_group s n =
      let o = Proto.State.init (some newt_callbacks) n.proto in
      let ready = record n { proto = o.proto } in
      if not (is_ok o.ret)
      then inited s ready esp_fail
      else if event_group
      then inited s (record ready { events = some no_bits }) esp_ok
      else inited s (record ready { events = none }) err_no_mem

  unfoldable pub init_keys : InitEnv → Newt → Inited
  unfolding init_proto
  init_keys env n =
      let r =
        load_or_generate_keypair nvs env.keys_open env.scalarmult env.random env.store (some n.kp)
          n.wg.local_pub in
      let keyed = record n {
        kp = or_else r.out n.kp;
        wg = record n.wg { local_pub = r.local_pub };
      } in
      if is_ok r.ret
      then init_proto env.event_group r.store keyed
      else inited r.store keyed esp_fail

  unfoldable pub init_texts : InitEnv → Bytes → Bytes → Bytes → Bool → Newt → Inited
  unfolding init_keys
  init_texts env endpoint newt_id newt_secret on_event n =
      let named = record n {
        on_event = on_event;
        endpoint = strlcpy endpoint 256;
        newt_id = strlcpy newt_id 64;
        newt_secret = strlcpy newt_secret 128;
      } in
      if is_ok env.nvs_open then init_keys env named else inited env.store named env.nvs_open

  unfoldable pub init_fields :
      InitEnv → Option Bytes → Option Bytes → Option Bytes → Bool → Newt → Inited
  unfolding init_texts
  init_fields env (some endpoint) (some newt_id) (some newt_secret) on_event n =
      init_texts env endpoint newt_id newt_secret on_event n
  init_fields env _ _ _ on_event n = inited env.store n err_invalid_arg

  -- `newt_init`
  unfoldable pub init : InitEnv → Option NewtConfig → Newt → Inited
  unfolding init_fields
  init env none n = inited env.store n err_invalid_arg
  init env (some cfg) n = init_fields env cfg.endpoint cfg.newt_id cfg.newt_secret cfg.on_event n

-- `newt_start`; the flag says whether the task is made.
unfoldable pub start : Bool → Newt → Newt × EspErr
start task n =
    if not (is_some n.events)
    then (n, err_invalid_state)
    else if n.supervisor
    then (n, err_invalid_state)
    else if task
    then (record n { supervisor = true }, esp_ok)
    else (n, esp_fail)

-- What `newt_stop` does outside: the text on the websocket, the calls of the tunnel and the ping
-- library, and the event told.
pub record Stopped : Type 0 where
  pub newt : Newt
  pub sent : Option Bytes
  pub tunnel_calls : List TunnelCall
  pub ping_calls : List PingCall
  pub told : List NewtEvent

-- `newt_stop`, which always returns ESP_OK.
unfoldable pub stop_parts : Link → TcpipEnv → EventBits → Newt → Stopped
stop_parts link env bits n =
    let (sent, ws, e) = Ws.Life.stop link n.proto n.ws in
    let w = Wg.Life.stop env n.wg in
    let p = Ping.Session.stop n.ping in
    record {
      newt = record n {
        events = some (record bits { stop = true });
        ws = ws;
        wg = w.wg;
        ping = p.ping;
        newt_secret = [];
        token = [];
        kp = record n.kp { priv = zero_bytes 32 };
      };
      sent = sent;
      tunnel_calls = w.calls;
      ping_calls = p.calls;
      told = if n.on_event then offline ∷ [] else [];
    }

unfoldable pub stop : Link → TcpipEnv → Newt → Stopped
unfolding stop_parts
stop link env n = elim n.events [
  | none ↦ record { newt = n; sent = none; tunnel_calls = []; ping_calls = []; told = [] }
  | some bits ↦ stop_parts link env bits n
]

-- `newt_get_tunnel_ip`; the flag says whether the pointer is set.
unfoldable pub get_tunnel_ip : Bool → Newt → Option ℕ × EspErr
get_tunnel_ip out n =
    if not out
    then (none, err_invalid_arg)
    else if n.tunnel_ip == 0
    then (none, err_invalid_state)
    else (some n.tunnel_ip, esp_ok)
