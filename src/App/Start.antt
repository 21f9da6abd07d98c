-- ===== src/App/Start.antt =====
-- When all goes well, the library is started as soon as the clock is set.
use newt_esp.App.Boot.{
  BootAction, init_nvs, erase_nvs, init_netif, create_loop, register_wifi, register_ip, init_wifi,
  set_wifi_mode, set_wifi_config, start_wifi, wait_for_ip, NvsFlash, usable, stale, broken, BootEnv,
  checked, epoch_min, clock_loop, start_library, synchronise, connect_wifi, app_main,
}
use newt_esp.App.Clock.{
  initialises, seconds, clock_loop_set, initialises-waits, seconds-waits, seconds-start_library,
}
use newt_esp.Base.{
  ℕ, suc, ◌≤◌, ◌<◌, ◌≡◌, refl, ap, subst, ◌∙◌, le→ltb_false, true, List, ◌∷◌, arith,
}
use newt_esp.Extern.{esp_ok}

-- Nothing fails on the way: every checked call answers ESP_OK.
pub record Smooth (env : BootEnv) : Type 0 where
  pub nvs_erase : env.nvs_erase ≡ esp_ok
  pub nvs_again : env.nvs_again ≡ esp_ok
  pub netif : env.netif ≡ esp_ok
  pub event_loop : env.event_loop ≡ esp_ok
  pub wifi_handler : env.wifi_handler ≡ esp_ok
  pub ip_handler : env.ip_handler ≡ esp_ok
  pub wifi_init : env.wifi_init ≡ esp_ok
  pub wifi_mode : env.wifi_mode ≡ esp_ok
  pub wifi_config : env.wifi_config ≡ esp_ok
  pub wifi_start : env.wifi_start ≡ esp_ok

initialises-start_library : (env : BootEnv) → initialises (start_library env) ≡ true
unfolding start_library
initialises-start_library env = refl

synchronise_set :
    (env : BootEnv) (n : ℕ)
    → n < 60
    → ((j : ℕ) → j < n → env.time j < epoch_min)
    → epoch_min ≤ env.time n
    → (initialises (synchronise env) ≡ true) × (seconds (synchronise env) ≡ suc n)
unfolding synchronise
synchronise_set env n lt early set =
    let read : clock_loop 60 0 env.time 0 ≡ (env.time n, suc n) =
      clock_loop_set 60 0 n env.time 0 (omega arith) lt
        (λ j l. subst (λ k. env.time k < epoch_min) (omega arith) (early j l))
        (subst (λ k. epoch_min ≤ env.time k) (omega arith) set)
      ∙ ap (λ k. (env.time k, suc k)) (omega arith) in
    rw (read, le→ltb_false (env.time n) epoch_min set)
      (
        initialises-waits n (start_library env) ∙ initialises-start_library env,
        omega (arith, seconds-waits n (start_library env), seconds-start_library env),
      )

connect_wifi-synchronise :
    (env : BootEnv)
    → Smooth env
    → connect_wifi env
      ≡ init_netif
        ∷ create_loop
        ∷ register_wifi
        ∷ register_ip
        ∷ init_wifi
        ∷ set_wifi_mode
        ∷ set_wifi_config
        ∷ start_wifi
        ∷ wait_for_ip
        ∷ synchronise env
unfolding connect_wifi
connect_wifi-synchronise env v = rw (
  v.netif, v.event_loop, v.wifi_handler, v.ip_handler, v.wifi_init, v.wifi_mode, v.wifi_config,
  v.wifi_start,
)

app_main-synchronise :
    (env : BootEnv)
    → Smooth env
    → (initialises (app_main env) ≡ initialises (synchronise env))
      × (seconds (app_main env) ≡ seconds (synchronise env))
unfolding app_main
app_main-synchronise env v = go env.nvs
  where
    behind_nvs : NvsFlash → List BootAction
    behind_nvs nvs = elim nvs [
      | stale ↦ checked erase_nvs env.nvs_erase (checked init_nvs env.nvs_again (connect_wifi env))
      | _ ↦ connect_wifi env
    ]

    go :
        (nvs : NvsFlash)
        → (initialises (behind_nvs nvs) ≡ initialises (synchronise env))
          × (seconds (behind_nvs nvs) ≡ seconds (synchronise env))
    go stale =
        let e = connect_wifi-synchronise env v in
        rw (v.nvs_erase, v.nvs_again) (ap initialises e, ap seconds e)
    go usable = let e = connect_wifi-synchronise env v in (ap initialises e, ap seconds e)
    go broken = let e = connect_wifi-synchronise env v in (ap initialises e, ap seconds e)

-- When every call on the way answers ESP_OK and the clock is set at read number `n` of the first 60
-- and not before, the library is initialised, after `n + 1` seconds of waiting.
pub app_main_set :
    (env : BootEnv) (n : ℕ)
    → Smooth env
    → n < 60
    → ((j : ℕ) → j < n → env.time j < epoch_min)
    → epoch_min ≤ env.time n
    → (initialises (app_main env) ≡ true) × (seconds (app_main env) ≡ suc n)
app_main_set env n v lt early set =
    let (same, waited) = app_main-synchronise env v in
    let (done, after) = synchronise_set env n lt early set in (same ∙ done, waited ∙ after)
