-- ===== src/App/Boot.antt =====
-- main.c, `app_main`: the steps from power-on to the running library, as the trace of what is called
-- for given answers. A failed ESP_ERROR_CHECK aborts.
use newt_esp.Base.{ℕ, zero, suc, ◌+◌, List, [], ◌∷◌, ltb, if◌then◌else◌}
use newt_esp.Extern.{EspErr, is_ok}

pub data BootAction : Type 0 where
  init_nvs erase_nvs init_netif create_loop register_wifi register_ip init_wifi : BootAction
  set_wifi_mode set_wifi_config start_wifi wait_for_ip start_sntp wait_second : BootAction
  abort restart init_newt start_newt : BootAction

-- The first answer of nvs_flash_init: fine, no free pages or a new version, or another error, which
-- is ignored.
pub data NvsFlash : Type 0 where
  usable stale broken : NvsFlash

-- The answers; `time` gives the clock at each read.
pub record BootEnv : Type 0 where
  pub nvs : NvsFlash
  pub nvs_erase : EspErr
  pub nvs_again : EspErr
  pub netif : EspErr
  pub event_loop : EspErr
  pub wifi_handler : EspErr
  pub ip_handler : EspErr
  pub wifi_init : EspErr
  pub wifi_mode : EspErr
  pub wifi_config : EspErr
  pub wifi_start : EspErr
  pub time : ℕ → ℕ
  pub newt_init : EspErr
  pub newt_start : EspErr

-- `ESP_ERROR_CHECK(call)` and what follows it.
abbrev pub checked : BootAction → EspErr → List BootAction → List BootAction
checked call e rest = call ∷ (if is_ok e then rest else abort ∷ [])

-- The clock must show at least this time.
abbrev pub epoch_min : ℕ
epoch_min = 1700000000

-- `while (now < epoch_min && wait < rounds) { delay; time(&now); wait++; }`: the clock behind the loop
-- and the rounds made, from read number `i` on.
unfoldable pub clock_loop : ℕ → ℕ → (ℕ → ℕ) → ℕ → ℕ × ℕ
clock_loop zero i time now = (now, i)
clock_loop (suc rounds) i time now =
    let rest = clock_loop rounds (i + 1) time (time i) in
    if ltb now epoch_min then rest else (now, i)

abbrev pub waits : ℕ → List BootAction → List BootAction
waits zero rest = rest
waits (suc n) rest = wait_second ∷ waits n rest

unfoldable pub start_library : BootEnv → List BootAction
start_library env = checked init_newt env.newt_init (checked start_newt env.newt_start [])

unfoldable pub synchronise : BootEnv → List BootAction
unfolding start_library
synchronise env =
    let (now, rounds) = clock_loop 60 0 env.time 0 in
    start_sntp ∷ waits rounds (if ltb now epoch_min then restart ∷ [] else start_library env)

unfoldable pub connect_wifi : BootEnv → List BootAction
unfolding synchronise
connect_wifi env = checked init_netif env.netif (
    checked create_loop env.event_loop (
      checked register_wifi env.wifi_handler (
        checked register_ip env.ip_handler (
          checked init_wifi env.wifi_init (
            checked set_wifi_mode env.wifi_mode (
              checked set_wifi_config env.wifi_config
                (checked start_wifi env.wifi_start (wait_for_ip ∷ synchronise env))))))))

-- `app_main`
unfoldable pub app_main : BootEnv → List BootAction
unfolding connect_wifi
app_main env = init_nvs ∷ elim env.nvs [
  | stale ↦ checked erase_nvs env.nvs_erase (checked init_nvs env.nvs_again (connect_wifi env))
  | _ ↦ connect_wifi env
]
