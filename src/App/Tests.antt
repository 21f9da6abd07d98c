-- ===== src/App/Tests.antt =====
-- examples/basic/main/main.c: runs at concrete answers, and instances of the theorems on them.
use newt_esp.App.Background.{
  acts, gets, wait_ms, wifi_disconnect, wifi_connect, delete_task, Moment, pass,
  pass-wifi_disconnect_test_task,
}
use newt_esp.App.Credentials.{strncpy, wifi_credentials, field_text, wifi_credentials-whole}
use newt_esp.App.Boot.{stale, BootEnv, epoch_min, app_main}
use newt_esp.App.Clock.{initialises, seconds, app_main-Synced}
use newt_esp.App.Hello.{esp32c3, chip_name, hello_text, hello_handler}
use newt_esp.App.Start.{app_main_set}
use newt_esp.App.Wifi.{
  sta_start, sta_disconnected, sta_got_ip, handle_all, holds_ip, attempts, handle_all-holds_ip,
  on_events, probes, probes-on_events,
}
use newt_esp.Base.{
  ℕ, ◌<◌, ◌≤◌, ◌≡◌, refl, true, false, [], ◌∷◌, codes, decimal, List, length, arith, ltb,
  if◌then◌else◌,
}
use newt_esp.Extern.{esp_ok, esp_fail}
use newt_esp.Newt.Supervisor.{authed, online, offline}

-- The clock is set at the fourth read.
abbrev smooth : BootEnv
smooth = record {
  nvs = stale;
  nvs_erase = esp_ok;
  nvs_again = esp_ok;
  netif = esp_ok;
  event_loop = esp_ok;
  wifi_handler = esp_ok;
  ip_handler = esp_ok;
  wifi_init = esp_ok;
  wifi_mode = esp_ok;
  wifi_config = esp_ok;
  wifi_start = esp_ok;
  time = λ i. if ltb i 3 then 0 else 1764137326;
  newt_init = esp_ok;
  newt_start = esp_ok;
}

app_main-Synced_example :
    (initialises (app_main smooth) ≡ true → (i : ℕ) × (i < 60) × (epoch_min ≤ smooth.time i))
    × (seconds (app_main smooth) ≤ 60)
app_main-Synced_example = app_main-Synced smooth

app_main_set_example : (initialises (app_main smooth) ≡ true) × (seconds (app_main smooth) ≡ 4)
app_main_set_example =
    app_main_set smooth 3
      (record {
        nvs_erase = refl;
        nvs_again = refl;
        netif = refl;
        event_loop = refl;
        wifi_handler = refl;
        ip_handler = refl;
        wifi_init = refl;
        wifi_mode = refl;
        wifi_config = refl;
        wifi_start = refl;
      })
      (omega arith) (λ j l. ground arith) (omega arith)

-- A network that cannot be set up aborts before anything else is called.
app_main_aborts : initialises (app_main (record smooth { netif = esp_fail })) ≡ false
unfolding app_main
app_main_aborts = refl

hello_handler_text : hello_handler esp32c3 61500000 ≡ codes "{\"chip\":\"esp32c3\",\"uptime\":61}"
unfolding hello_handler hello_text chip_name decimal
hello_handler_text = refl

handle_all-holds_ip_example :
    handle_all (sta_start ∷ sta_got_ip ∷ sta_disconnected ∷ sta_got_ip ∷ []) (false, 0) ≡ (
      holds_ip false (sta_start ∷ sta_got_ip ∷ sta_disconnected ∷ sta_got_ip ∷ []),
      attempts (sta_start ∷ sta_got_ip ∷ sta_disconnected ∷ sta_got_ip ∷ []),
    )
handle_all-holds_ip_example =
    handle_all-holds_ip (sta_start ∷ sta_got_ip ∷ sta_disconnected ∷ sta_got_ip ∷ []) false 0

probes-on_events_example :
    probes (
      on_events false
        ((authed, true) ∷ (online, true) ∷ (offline, true) ∷ (online, false) ∷ [])
        false)
    ≡ 1
probes-on_events_example =
    probes-on_events false
      ((authed, true) ∷ (online, true) ∷ (offline, true) ∷ (online, false) ∷ [])

-- The handler has connected again before the test does.
abbrev tested : List Moment
tested =
    acts (wait_ms 90000)
    ∷ acts wifi_disconnect
    ∷ gets sta_disconnected
    ∷ gets sta_got_ip
    ∷ acts (wait_ms 20000)
    ∷ acts wifi_connect
    ∷ acts delete_task
    ∷ []

pass-wifi_disconnect_test_task_example : pass tested (true, 1) ≡ (true, 3)
pass-wifi_disconnect_test_task_example = pass-wifi_disconnect_test_task tested true 1 refl

wifi_credentials-whole_example :
    let w = wifi_credentials 4 8 (codes "home") (codes "secret") in
    (length w.ssid ≡ 4)
    × (length w.password ≡ 8)
    × (field_text w.ssid ≡ codes "home")
    × (field_text w.password ≡ codes "secret")
wifi_credentials-whole_example =
    wifi_credentials-whole 4 8 (codes "home") (codes "secret") (ground arith) (ground arith)
      (omega arith) (omega arith)

-- A longer text is cut.
strncpy_cut : field_text (strncpy 3 (codes "home")) ≡ codes "hom"
unfolding strncpy
strncpy_cut = refl
