-- ===== src/Ws/Lifecycle.antt =====
-- Which handles are set after each call of the websocket's life cycle.
pub mod Opening
use newt_esp.Base.{
  ◌≡◌, ◌≢◌, refl, Bool, true, false, List, [], ◌∷◌, Option, none, some, arith, if◌then◌else◌, Bytes,
  is_some, ◌⊎◌, inl, inr, Bool-cases, ap, sym, ◌∙◌,
}
use newt_esp.Extern.{EspErr, esp_ok, err_no_mem, err_invalid_state, is_ok}
use newt_esp.Proto.State.{Proto}
use newt_esp.Ws.Envelope.{Link}
use newt_esp.Ws.Life.{
  WsConfig, InitEnv, fail_init, create_handles, build_and_create, init_with, init_config, init,
  start, stop,
}
use newt_esp.Ws.State.{Ws}
use newt_esp.Ws.Url.{build_ws_url, url_max}

-- Nothing is held: no handle, no copied text, no stop request, no assembly buffer.
pub record IsClosed (w : Ws) : Type 0 where
  pub client : w.client ≡ false
  pub queue : w.queue ≡ none
  pub worker : w.worker ≡ false
  pub worker_done : w.worker_done ≡ false
  pub endpoint : w.endpoint ≡ none
  pub token : w.token ≡ none
  pub stop_requested : w.worker_stop_requested ≡ false
  pub assembly : w.rx_assembly ≡ none

-- Every handle is set, and no stop is requested.
pub record IsOpen (w : Ws) : Type 0 where
  pub client : w.client ≡ true
  pub queue : is_some w.queue ≡ true
  pub worker : w.worker ≡ true
  pub worker_done : w.worker_done ≡ true
  pub endpoint : is_some w.endpoint ≡ true
  pub token : is_some w.token ≡ true
  pub on_msg : w.on_msg ≡ true
  pub stop_requested : w.worker_stop_requested ≡ false

abbrev pub After : Ws × EspErr → Type 0
After r = ((r.1 ≡ esp_ok) × IsOpen r.0) ⊎ ((r.1 ≢ esp_ok) × IsClosed r.0)

create_handles-After :
    (env : InitEnv) (w : Ws) (e t : Bytes)
    → IsClosed (record w { endpoint = none; token = none })
    → w.endpoint ≡ some e
    → w.token ≡ some t
    → w.on_msg ≡ true
    → After (create_handles env w)
unfolding create_handles
create_handles-After env w e t v he ht ho = ground arith

is_ok-false : (e : EspErr) → is_ok e ≡ false → e ≢ esp_ok
is_ok-false e h = ground arith

abbrev Released : Ws → Ws
Released w = record w {
  endpoint = none;
  token = none;
  queue = none;
  worker_done = false;
  client = false;
}

forget_url :
    (b : Bool) (w : Ws)
    → IsClosed (record w { endpoint = none; token = none })
    → IsClosed (Released (if b then record w { url = none } else w))
forget_url b w v = ground arith

fail_init-After :
    (w : Ws) (err : EspErr) → (err ≢ esp_ok) → IsClosed (Released w) → After (fail_init w err)
unfolding fail_init
fail_init-After w err n v = inr (
  n,
  record {
    client = refl;
    queue = refl;
    worker = v.worker;
    worker_done = refl;
    endpoint = refl;
    token = refl;
    stop_requested = v.stop_requested;
    assembly = v.assembly;
  },
)

build_and_create-After :
    (env : InitEnv) (e t : Bytes) (w : Ws)
    → IsClosed (record w { endpoint = none; token = none })
    → w.endpoint ≡ some e
    → w.token ≡ some t
    → w.on_msg ≡ true
    → After (build_and_create env e t w)
unfolding build_and_create
build_and_create-After env e t w v he ht ho =
    let built = build_ws_url env.url_memory e t url_max in
    elim (Bool-cases (is_ok built.0)) [
      | inl good ↦
          rw (good, build_and_create)
            (create_handles-After env (record w { url = built.1 }) e t (ground arith) he ht ho)
      | inr bad ↦
          rw (bad, build_and_create)
            (fail_init-After (if env.url_memory then record w { url = none } else w) built.0
              (is_ok-false built.0 bad) (forget_url env.url_memory w v))
    ]

init_with-cases :
    (env : InitEnv) (e t : Bytes) (w : Ws)
    → w.client ≡ false
    → (init_with env e t w ≡ (record w { endpoint = none; token = none }, err_no_mem))
      ⊎ (init_with env e t w
          ≡ build_and_create env e t
              (record w { endpoint = some e; token = some t; on_msg = true }))
unfolding init_with
init_with-cases env e t w h = ground arith

init_with-After : (env : InitEnv) (e t : Bytes) (w : Ws) → IsClosed w → After (init_with env e t w)
init_with-After env e t w v = elim (init_with-cases env e t w v.client) [
  | inl lost ↦ rw lost (inr ((λ x. cc), ground arith))
  | inr kept ↦ rw kept (
      build_and_create-After env e t (record w { endpoint = some e; token = some t; on_msg = true })
        (ground arith) refl refl refl)
]

init_config-After :
    (env : InitEnv) (e t : Option Bytes) (on_msg : Bool) (w : Ws)
    → IsClosed w
    → After (init_config env e t on_msg w)
unfolding init_config
init_config-After env (some e) (some t) true w v = init_with-After env e t w v
init_config-After env _ _ _ w v = inr ((λ x. cc), v)

-- From a closed state `newt_ws_init` either succeeds with every handle set, or fails and holds
-- nothing, whichever allocation, encoding or registration went wrong.
pub init-After :
    (env : InitEnv) (cfg : Option WsConfig) (w : Ws) → IsClosed w → After (init env cfg w)
unfolding init
init-After env none w v = inr ((λ x. cc), v)
init-After env (some cfg) w v = init_config-After env cfg.endpoint cfg.token cfg.on_msg w v

-- A second `newt_ws_init` with valid arguments changes nothing and says so.
pub init-IsOpen :
    (env : InitEnv) (e t : Bytes) (w : Ws)
    → IsOpen w
    → init env (some (record { endpoint = some e; token = some t; on_msg = true })) w
      ≡ (w, err_invalid_state)
unfolding init
init-IsOpen env e t w v = rw (v.client, init_with)

pub stop-IsClosed : (link : Link) (p : Proto) (w : Ws) → IsOpen w → IsClosed (stop link p w).1
unfolding stop
stop-IsClosed link p w v = ground arith

-- One call of the life cycle, with what the system answers.
pub data LifeCall : Type 0 where
  inits : InitEnv → Option WsConfig → LifeCall
  starts : EspErr → LifeCall
  stops : Link → Proto → LifeCall

pub step : LifeCall → Ws → Ws
step (inits env cfg) w = (init env cfg w).0
step (starts answer) w = (start answer w).0
step (stops link p) w = (stop link p w).1

pub steps : List LifeCall → Ws → Ws
steps [] w = w
steps (x ∷ xs) w = steps xs (step x w)

abbrev pub IsSettled : Ws → Type 0
IsSettled w = IsOpen w ⊎ IsClosed w

settled : (r : Ws × EspErr) → After r → IsSettled r.0
settled r (inl h) = inl h.1
settled r (inr h) = inr h.1

init_config_open :
    (env : InitEnv) (e t : Option Bytes) (on_msg : Bool) (w : Ws)
    → IsOpen w
    → (init_config env e t on_msg w).0 ≡ w
unfolding init_config
init_config_open env (some e) (some t) true w v = rw (v.client, init_with)
init_config_open env _ _ _ w v = refl

pub start-IsOpen : (answer : EspErr) (w : Ws) → IsOpen w → IsOpen (start answer w).0
unfolding start
start-IsOpen answer w o = ground arith

start-IsClosed : (answer : EspErr) (w : Ws) → IsClosed w → IsClosed (start answer w).0
unfolding start
start-IsClosed answer w v = ground arith

stop-IsClosed_again : (link : Link) (p : Proto) (w : Ws) → IsClosed w → IsClosed (stop link p w).1
unfolding stop
stop-IsClosed_again link p w v = ground arith

step-IsSettled : (x : LifeCall) (w : Ws) → IsSettled w → IsSettled (step x w)
unfolding step init
step-IsSettled (inits env none) w s = s
step-IsSettled (inits env (some cfg)) w (inl o) =
    inl (rw (init_config_open env cfg.endpoint cfg.token cfg.on_msg w o) o)
step-IsSettled (inits env (some cfg)) w (inr v) =
    settled _ (init_config-After env cfg.endpoint cfg.token cfg.on_msg w v)
step-IsSettled (starts answer) w (inl o) = inl (start-IsOpen answer w o)
step-IsSettled (starts answer) w (inr v) = inr (start-IsClosed answer w v)
step-IsSettled (stops link p) w (inl o) = inr (stop-IsClosed link p w o)
step-IsSettled (stops link p) w (inr v) = inr (stop-IsClosed_again link p w v)

-- Whatever calls are made, in whatever order and with whatever answers, the websocket holds either
-- all of its handles or none of them.
pub steps-IsSettled : (xs : List LifeCall) (w : Ws) → IsSettled w → IsSettled (steps xs w)
unfolding steps
steps-IsSettled [] w s = s
steps-IsSettled (x ∷ xs) w s = steps-IsSettled xs (step x w) (step-IsSettled x w s)

-- The three calls one by one.
pub init-IsSettled :
    (env : InitEnv) (cfg : Option WsConfig) (w : Ws) → IsSettled w → IsSettled (init env cfg w).0
unfolding step
init-IsSettled env cfg w s = step-IsSettled (inits env cfg) w s

pub start-IsSettled : (answer : EspErr) (w : Ws) → IsSettled w → IsSettled (start answer w).0
unfolding step
start-IsSettled answer w s = step-IsSettled (starts answer) w s

pub stop-IsSettled : (link : Link) (p : Proto) (w : Ws) → IsSettled w → IsSettled (stop link p w).1
unfolding step
stop-IsSettled link p w s = step-IsSettled (stops link p) w s

-- Where it returns ESP_OK, the websocket is open.
pub init_ok-IsOpen :
    (env : InitEnv) (e t : Bytes) (w : Ws)
    → IsSettled w
    → (init env (some (record { endpoint = some e; token = some t; on_msg = true })) w).1 ≡ esp_ok
    → IsOpen (init env (some (record { endpoint = some e; token = some t; on_msg = true })) w).0
init_ok-IsOpen env e t w (inl o) h =
    let same = init-IsOpen env e t w o in absurd (invalid-ne (sym (ap (λ r. r.1) same) ∙ h))
  where
    invalid-ne : err_invalid_state ≢ esp_ok
    invalid-ne x = cc
init_ok-IsOpen env e t w (inr v) h = good _ (init-After env _ w v) h
  where
    good : (r : Ws × EspErr) → After r → r.1 ≡ esp_ok → IsOpen r.0
    good r (inl k) x = k.1
    good r (inr k) x = absurd (k.0 x)
