-- ===== src/Newt/Tests.antt =====
-- Runs of newt.c's supervisor and connect callback on concrete answers, and instances of the
-- theorems on them.
use newt_esp.Base.{
  ℕ, ◌≡◌, ◌≢◌, refl, true, false, [], ◌∷◌, Option, some, arith, length, Bytes, codes, if◌then◌else◌,
  ◌==◌, ltb,
}
use newt_esp.Extern.Sample.{fill_bytes}
use newt_esp.Extern.{esp_ok, esp_fail}
use newt_esp.Newt.Order.{
  told, Starts, way_online, supervisor_task-Starts, supervisor_task_unauthorised,
  supervisor_task_online,
}
use newt_esp.Newt.Supervisor.{
  SupervisorEnv, authed, emit, error, supervisor_task, auth_loop, poll_loop, open_ws,
}
use newt_esp.Newt.WgConfig.{Site, cb_wg_connect, cb_wg_connect-endpoint, cb_wg_connect_cut}
use newt_esp.Proto.State.{WgConnect}
use newt_esp.Proto.Connect.{IsConfig}

-- Two failed requests, then all goes well; the tunnel is up at the fourth poll.
abbrev pub good : SupervisorEnv
good = record {
  get_token = λ i. if ltb i 2 then esp_fail else esp_ok;
  stop_auth = λ i. false;
  ws_init = esp_ok;
  ws_start = esp_ok;
  ws_connected_at = λ i. true;
  stop_ws = λ i. false;
  ws_connected_behind = true;
  stop_request = false;
  stop_register = false;
  configured = true;
  wg_init = esp_ok;
  wg_start = esp_ok;
  wg_up_at = λ i. i == 3;
  stop_wg = λ i. false;
  wg_up_behind = true;
}

abbrev no_token : SupervisorEnv
no_token = record good { get_token = λ i. esp_fail }

supervisor_task-Starts_example : Starts way_online (told (supervisor_task good))
supervisor_task-Starts_example = supervisor_task-Starts good

supervisor_task_unauthorised_example : supervisor_task no_token ≡ emit error ∷ []
supervisor_task_unauthorised_example = supervisor_task_unauthorised no_token (ground arith)

supervisor_task_online_example : told (supervisor_task good) ≡ way_online
unfolding poll_loop
supervisor_task_online_example =
    supervisor_task_online good 2 (omega arith) (refl, refl, (refl, refl, tt)) refl refl refl refl
      refl refl refl refl refl refl refl refl

-- The websocket cannot be opened: the task ends without an error event.
supervisor_task_quiet :
    told (supervisor_task (record good { ws_init = esp_fail })) ≡ told (emit authed ∷ [])
unfolding supervisor_task auth_loop open_ws
supervisor_task_quiet = refl

abbrev pub config_with : Bytes → WgConnect
config_with host = record {
  endpoint = host;
  endpoint_port = 51820;
  server_pubkey = fill_bytes 32 7;
  server_ip = codes "100.89.128.1";
  tunnel_ip = codes "100.89.128.4";
}

abbrev pub fresh : Site
fresh = record {
  wg_cfg = record {
    server_pubkey = [];
    endpoint = [];
    endpoint_port = 0;
    server_ip = 0;
    tunnel_ip = 0;
    tunnel_netmask = 0;
    keepalive_sec = 0;
  };
  tunnel_ip = 0;
  server_ip = 0;
  wg_configured_bit = false;
}

abbrev pub address : Bytes → Option ℕ
address s = some 0x018c5964

cb_wg_connect-endpoint_example :
    ((cb_wg_connect address (config_with (codes "vpn.example.org")) fresh).0.wg_cfg.endpoint
      ≡ codes "vpn.example.org")
    × ((cb_wg_connect address (config_with (codes "vpn.example.org")) fresh).0.wg_cfg.endpoint_port
        ≡ 51820)
    × ((cb_wg_connect address (config_with (codes "vpn.example.org")) fresh).0.wg_cfg.server_pubkey
        ≡ fill_bytes 32 7)
cb_wg_connect-endpoint_example =
    cb_wg_connect-endpoint address (config_with (codes "vpn.example.org")) fresh (omega arith)

abbrev long_host : Bytes
long_host = codes "gateway-0123456789012345678901234567890123456789.region.example.org"

long-IsConfig : IsConfig (config_with long_host)
unfolding fill_bytes
long-IsConfig = omega arith

cb_wg_connect_cut_example :
    ((cb_wg_connect address (config_with long_host) fresh).0.wg_cfg.endpoint ≢ long_host)
    × (length (cb_wg_connect address (config_with long_host) fresh).0.wg_cfg.endpoint ≡ 63)
cb_wg_connect_cut_example =
    cb_wg_connect_cut address (config_with long_host) fresh long-IsConfig (omega arith)
