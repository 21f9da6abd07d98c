-- ===== src/Ws/Lifecycle/Opening.antt =====
-- What `newt_ws_init` makes of the queue, and what it does to a websocket that is open.
use newt_esp.Base.{◌≡◌, refl, Bool, true, false, [], Option, none, some, arith, Bytes}
use newt_esp.Extern.{esp_ok, is_ok}
use newt_esp.Ws.Life.{
  WsConfig, InitEnv, fail_init, create_handles, build_and_create, init_with, init_config, init,
}
use newt_esp.Ws.Lifecycle.{IsOpen, init_config_open}
use newt_esp.Ws.State.{Ws}
use newt_esp.Ws.Url.{build_ws_url, url_max}

-- The queue of a websocket that has just been made is empty.
create_handles-queue :
    (env : InitEnv) (w : Ws)
    → (create_handles env w).1 ≡ esp_ok
    → (create_handles env w).0.queue ≡ some []
unfolding create_handles
create_handles-queue env w h = ground arith

build_and_create-queue :
    (env : InitEnv) (e t : Bytes) (w : Ws)
    → (build_and_create env e t w).1 ≡ esp_ok
    → (build_and_create env e t w).0.queue ≡ some []
unfolding build_and_create fail_init
build_and_create-queue env e t w h =
    let built = build_ws_url env.url_memory e t url_max in
    ground (arith, create_handles-queue env (record w { url = built.1 }))

init_with-queue :
    (env : InitEnv) (e t : Bytes) (w : Ws)
    → (init_with env e t w).1 ≡ esp_ok
    → (init_with env e t w).0.queue ≡ some []
unfolding init_with
init_with-queue env e t w h = ground (
  arith,
  build_and_create-queue env e t (record w { endpoint = some e; token = some t; on_msg = true }),
)

init_config-queue :
    (env : InitEnv) (e t : Option Bytes) (on_msg : Bool) (w : Ws)
    → (init_config env e t on_msg w).1 ≡ esp_ok
    → (init_config env e t on_msg w).0.queue ≡ some []
unfolding init_config
init_config-queue env (some e) (some t) true w h = init_with-queue env e t w h
init_config-queue env _ _ _ w h = cc

pub init-queue :
    (env : InitEnv) (cfg : Option WsConfig) (w : Ws)
    → (init env cfg w).1 ≡ esp_ok
    → (init env cfg w).0.queue ≡ some []
unfolding init
init-queue env none w h = cc
init-queue env (some cfg) w h = init_config-queue env cfg.endpoint cfg.token cfg.on_msg w h

init_config_open-failed :
    (env : InitEnv) (e t : Option Bytes) (on_msg : Bool) (w : Ws)
    → IsOpen w
    → is_ok (init_config env e t on_msg w).1 ≡ false
unfolding init_config
init_config_open-failed env (some e) (some t) true w v = rw (v.client, init_with)
init_config_open-failed env _ _ _ w v = refl

-- On an open websocket it fails and changes nothing, whatever the arguments.
pub init_open :
    (env : InitEnv) (cfg : Option WsConfig) (w : Ws)
    → IsOpen w
    → ((init env cfg w).0 ≡ w) × (is_ok (init env cfg w).1 ≡ false)
unfolding init
init_open env none w v = (refl, refl)
init_open env (some cfg) w v = (
  init_config_open env cfg.endpoint cfg.token cfg.on_msg w v,
  init_config_open-failed env cfg.endpoint cfg.token cfg.on_msg w v,
)
