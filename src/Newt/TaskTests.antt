-- ===== src/Newt/TaskTests.antt =====
-- Runs of newt.c's tasks and public interface at concrete answers, and instances of the theorems.
use newt_esp.Base.{
  ◌≡◌, ◌↔◌, refl, ap, ◌==◌, true, false, [], ◌∷◌, List, none, some, codes, length, split_first,
  read_digits, arith, inr,
}
use newt_esp.Extern.{esp_ok}
use newt_esp.Extern.Sample.{fill_bytes, sample_nvs, get_blob, sample_base64}
use newt_esp.Newt.Order.{told}
use newt_esp.Newt.Public.{
  no_bits, newt_callbacks, Newt, NewtConfig, InitEnv, init, start, stop, sets_stop,
}
use newt_esp.Newt.Live.{online}
use newt_esp.Newt.Moves.{Crew, calls, lives}
use newt_esp.Newt.Rejoin.{clears, awaits}
use newt_esp.Newt.Reactions.{reactions, started, react-handle_message}
use newt_esp.Newt.Reconnect.{ReconnectEnv, reconnect_task, periodic_ping_task}
use newt_esp.Newt.Reports.{Reported, reconnect_task-Reported, pings, periodic_ping_task-pings}
use newt_esp.Newt.Shutdown.{IsShut, stop-IsShut, registers, start-stop}
use newt_esp.Newt.Startup.{IsReset, Named, Identified, init-IsReset}
use newt_esp.Newt.Supervisor.{Action, supervisor_task}
use newt_esp.Newt.Tests.{fresh, good}
use newt_esp.Newt.Tunnel.{newt_wg_init-handle_wg_connect}
use newt_esp.Newt.Twice.{Interleaves, doubled, reconnect_task_twice}
use newt_esp.Newt.WgConfig.{cb_wg_connect}
use newt_esp.Proto
use newt_esp.Proto.Message.{handle_message}
use newt_esp.Proto.State.{wg_reconnect, Proto}
use newt_esp.Proto.Tests.{json, state, config, handle_wg_connect_run}
use newt_esp.Wg
use newt_esp.Wg.Address.{read_ip4}
use newt_esp.Wg.Keys.{Keypair, load_or_generate_keypair}
use newt_esp.Wg.State.{TunnelConfig, tunnel_init}
use newt_esp.Wg.Tests.{boot, answering, curve, random-IsKey}
use newt_esp.Ws.Envelope.{Link}
use newt_esp.Ws.State.{Ws}

-- The tunnel is up at the sixth poll.
abbrev again : ReconnectEnv
again = record {
  stop_request = false;
  stop_register = false;
  configured = true;
  wg_init = esp_ok;
  wg_start = esp_ok;
  wg_up_at = λ i. i == 5;
  stop_at = λ i. false;
  stop_behind = false;
  wg_up_behind = true;
}

reconnect_task-Reported_example : Reported again (told (reconnect_task again))
reconnect_task-Reported_example = reconnect_task-Reported again refl refl refl

periodic_ping_task-pings_example : periodic_ping_task 9 0 (λ i. i == 2) ≡ (true, pings 2)
periodic_ping_task-pings_example =
    periodic_ping_task-pings 9 0 2 (λ i. i == 2) (omega arith) (λ j l. ground arith) refl

react-handle_message_example :
    let o = handle_message json sample_base64 (some (codes "newt/wg/reconnect")) none 3 state in
    ((started true o.calls ≡ clears ∷ []) ↔ (codes "newt/wg/reconnect" ≡ codes "newt/wg/reconnect"))
    × (started false o.calls ≡ [])
    × ((reactions o.calls ≡ sets_stop ∷ [])
        ↔ (codes "newt/wg/reconnect" ≡ codes "newt/wg/terminate"))
    × (o.proto.cb ≡ newt_callbacks)
react-handle_message_example =
    react-handle_message json sample_base64 (codes "newt/wg/reconnect") none 3 state refl

abbrev pub no_ws : Ws
no_ws = record {
  client = false;
  endpoint = none;
  token = none;
  on_msg = false;
  url = none;
  queue = none;
  worker = false;
  worker_done = false;
  worker_stop_requested = false;
  attempt = 0;
  rx_assembly = none;
  rx_assembly_len = 0;
  rx_assembly_cap = 0;
}

abbrev pub site : Newt
site = record {
  on_event = true;
  endpoint = codes "https://pangolin.example.org";
  newt_id = codes "abc";
  newt_secret = codes "secret";
  token = codes "token";
  kp = record { priv = fill_bytes 32 4; public = fill_bytes 32 5 };
  wg_cfg = fresh.wg_cfg;
  tunnel_ip = 0;
  server_ip = 0;
  events = some no_bits;
  supervisor = false;
  periodic_ping = false;
  proto = state;
  ws = no_ws;
  wg = boot;
  ping = record { session = some 7; cfg = none };
}

abbrev pub quiet_link : Link
quiet_link = record { client = false; connected = false; memory = true; send_ok = true }

stop-IsShut_example : IsShut (stop quiet_link (answering esp_ok) site).newt
stop-IsShut_example =
    stop-IsShut quiet_link (answering esp_ok) no_bits site refl (inr (ground arith))

start-stop_example :
    ((start true (stop quiet_link (answering esp_ok) site).newt).1 ≡ esp_ok)
    × (registers (supervisor_task (record good { stop_request = true })) ≡ false)
unfolding start stop
start-stop_example =
    start-stop quiet_link (answering esp_ok) no_bits site (record good { stop_request = true }) refl
      refl refl

abbrev powered : InitEnv sample_nvs
powered = record {
  nvs_open = esp_ok;
  keys_open = esp_ok;
  scalarmult = curve;
  random = fill_bytes 32 255;
  store = none;
  event_group = true;
}

abbrev config_of : NewtConfig
config_of = record {
  endpoint = some (codes "https://pangolin.example.org");
  newt_id = some (codes "abc");
  newt_secret = some (codes "secret");
  on_event = true;
}

init-powered : (init sample_nvs powered (some config_of) site).ret ≡ esp_ok
unfolding init load_or_generate_keypair get_blob Proto.State.init
init-powered = refl

init-IsReset_example :
    IsReset (init sample_nvs powered (some config_of) site).newt
    × Named
        (codes "https://pangolin.example.org")
        (codes "abc")
        (codes "secret")
        (init sample_nvs powered (some config_of) site).newt
    × Identified sample_nvs curve (init sample_nvs powered (some config_of) site)
init-IsReset_example =
    init-IsReset sample_nvs powered (codes "https://pangolin.example.org") (codes "abc")
      (codes "secret") true site random-IsKey init-powered

abbrev pair : Keypair
pair = record { priv = fill_bytes 32 4; public = fill_bytes 32 5 }

pair-whole : (length pair.priv ≡ 32) × (length pair.public ≡ 32)
unfolding fill_bytes
pair-whole = (refl, refl)

pub addresses :
    (read_ip4 config.server_ip ≡ some 0x01805964) × (read_ip4 config.tunnel_ip ≡ some 0x04805964)
unfolding split_first read_digits
addresses = (refl, refl)

newt_wg_init-handle_wg_connect_example :
    (t : TunnelConfig) × ((Wg.Life.init sample_base64
        (answering esp_ok)
        (some (cb_wg_connect read_ip4 config fresh).0.wg_cfg)
        (some pair)
        boot).calls
      ≡ tunnel_init t ∷ [])
    × (t.endpoint ≡ config.endpoint)
    × (t.port ≡ config.endpoint_port)
    × (read_ip4 t.address ≡ some 0x04805964)
    × (read_ip4 t.netmask ≡ some 0xffffffff)
    × (t.persistent_keepalive ≡ 25)
newt_wg_init-handle_wg_connect_example =
    newt_wg_init-handle_wg_connect json sample_base64 read_ip4 (codes "connect") state config fresh
      0x01805964 0x04805964 (answering esp_ok) pair boot (ap (λ o. o.calls) handle_wg_connect_run)
      (omega arith) (addresses.0, omega arith) (addresses.1, omega arith) pair-whole.0 pair-whole.1
      refl refl

reconnect_task_twice_example :
    let s : Crew = record { newt = site; phase = online; rejoins = awaits ∷ [] } in
    ((lives json sample_base64 read_ip4
        (calls wg_reconnect true ∷ calls wg_reconnect true ∷ [])
        s).rejoins
      ≡ awaits ∷ clears ∷ clears ∷ [])
    × (acts : List Action) × Interleaves (reconnect_task again) (reconnect_task again) acts
    × (doubled false acts ≡ true)
reconnect_task_twice_example =
    reconnect_task_twice json sample_base64 read_ip4
      (record { newt = site; phase = online; rejoins = awaits ∷ [] }) again again
      (record { request = refl; register = refl; configured = refl; ready = refl })
      (record { request = refl; register = refl; configured = refl; ready = refl })
