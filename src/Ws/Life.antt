-- ===== src/Ws/Life.antt =====
-- newt_ws.c, `newt_ws_init`, `newt_ws_start`, `newt_ws_stop` and `newt_ws_is_connected`.
use newt_esp.Base.{Bool, true, false, not, ◌||◌, [], Option, none, some, if◌then◌else◌, Bytes}
use newt_esp.Extern.{
  EspErr, esp_ok, esp_fail, err_no_mem, err_invalid_arg, err_invalid_state, is_ok,
}
use newt_esp.Proto.Send.{send_disconnecting}
use newt_esp.Proto.State.{Proto}
use newt_esp.Ws.Envelope.{Link}
use newt_esp.Ws.State.{Ws, queue_send?}
use newt_esp.Ws.Url.{build_ws_url, url_max}

-- `newt_ws_config_t`; `none` is a null pointer.
pub record WsConfig : Type 0 where
  pub endpoint : Option Bytes
  pub token : Option Bytes
  pub on_msg : Bool

-- The answers of the allocator and the system in one call of `newt_ws_init`.
pub record InitEnv : Type 0 where
  pub dup_endpoint : Bool
  pub dup_token : Bool
  pub url_memory : Bool
  pub queue : Bool
  pub semaphore : Bool
  pub client : Bool
  pub register_events : EspErr
  pub task : Bool

-- The label `fail`: every handle that is set is released.
unfoldable pub fail_init : Ws → EspErr → Ws × EspErr
fail_init w e = (
  record w { client = false; queue = none; worker_done = false; endpoint = none; token = none },
  e,
)

-- From the queue on, with the URL built.
unfoldable pub create_handles : InitEnv → Ws → Ws × EspErr
unfolding fail_init
create_handles env w =
    if not env.queue
    then fail_init (record w { queue = none }) err_no_mem
    else (let queued = record w { queue = some [] } in
        if not env.semaphore
        then fail_init (record queued { worker_done = false }) err_no_mem
        else (let ready = record queued { worker_done = true; worker_stop_requested = false } in
            if not env.client
            then fail_init (record ready { client = false }) esp_fail
            else (let connected = record ready { client = true } in
                if not (is_ok env.register_events)
                then fail_init connected env.register_events
                else if not env.task
                then fail_init connected err_no_mem
                else (record connected { worker = true }, esp_ok))))

-- The URL that `s_url` holds whole: none behind a text that was cut off.
unfoldable pub build_and_create : InitEnv → Bytes → Bytes → Ws → Ws × EspErr
unfolding create_handles
build_and_create env endpoint token w =
    let (e, url) = build_ws_url env.url_memory endpoint token url_max in
    if is_ok e
    then create_handles env (record w { url = url })
    else fail_init (if env.url_memory then record w { url = none } else w) e

-- With the arguments checked.
unfoldable pub init_with : InitEnv → Bytes → Bytes → Ws → Ws × EspErr
init_with env endpoint token w =
    if w.client
    then (w, err_invalid_state)
    else if not env.dup_endpoint || not env.dup_token
    then (record w { endpoint = none; token = none }, err_no_mem)
    else build_and_create env endpoint token
        (record w { endpoint = some endpoint; token = some token; on_msg = true })

unfoldable pub init_config : InitEnv → Option Bytes → Option Bytes → Bool → Ws → Ws × EspErr
unfolding init_with
init_config env (some endpoint) (some token) true w = init_with env endpoint token w
init_config env _ _ _ w = (w, err_invalid_arg)

-- `newt_ws_init`; the argument is `none` for a null pointer.
unfoldable pub init : InitEnv → Option WsConfig → Ws → Ws × EspErr
unfolding init_config
init env none w = (w, err_invalid_arg)
init env (some cfg) w = init_config env cfg.endpoint cfg.token cfg.on_msg w

-- `newt_ws_start`, with the client's answer.
unfoldable pub start : EspErr → Ws → Ws × EspErr
start answer w = if not w.client then (w, err_invalid_state) else (record w { attempt = 0 }, answer)

-- `newt_ws_is_connected`
unfoldable pub is_connected : Bool → Ws → Bool
is_connected connected w = if w.client then connected else false

-- What `newt_ws_stop` sends before it closes the connection.
unfoldable pub farewell : Link → Proto → Option Bytes
farewell link p = if link.connected then (send_disconnecting link p).text else none

-- The state at each point of `newt_ws_stop`: the client is destroyed, the worker is told to stop and
-- waited for, and what is left is released.
unfoldable pub signal_worker : Ws → Ws
signal_worker w =
    if w.worker
    then record w { worker_stop_requested = true; queue = queue_send? w.queue none; worker = false }
    else w

unfoldable pub release_all : Ws → Ws
release_all w = record w {
  worker_done = false;
  queue = none;
  rx_assembly = none;
  rx_assembly_cap = 0;
  rx_assembly_len = 0;
  endpoint = none;
  token = none;
  worker_stop_requested = false;
}

-- `newt_ws_stop`: the text that was sent, the state and the result.
unfoldable pub stop : Link → Proto → Ws → Option Bytes × Ws × EspErr
unfolding farewell signal_worker release_all
stop link p w =
    if not w.client
    then (none, w, err_invalid_state)
    else (farewell link p, release_all (signal_worker (record w { client = false })), esp_ok)
