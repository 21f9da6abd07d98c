-- ===== src/Newt/Supervisor.antt =====
-- newt.c, `supervisor_task`: the steps from authentication to the running tunnel, as the trace of
-- what the task does for given answers of the calls that it makes.
use newt_esp.Base.{ℕ, zero, suc, ◌+◌, Bool, not, List, [], ◌∷◌, if◌then◌else◌}
use newt_esp.Extern.{EspErr, is_ok}

-- `newt_event_t`
pub data NewtEvent : Type 0 where
  authed ws_connected registered wg_configured wg_handshaked online offline error : NewtEvent

-- The bits of the event group; the stop bit is not among those that the tasks of this module set.
pub data Bit : Type 0 where
  bit_authed bit_ws_conn bit_wg_configured bit_wg_up : Bit

-- What the tasks do, in order; the waits and polls of the supervisor are not listed.
pub data Action : Type 0 where
  emit : NewtEvent → Action
  set_bit clear_bit : Bit → Action
  init_ws start_ws send_ping_request send_register send_ping init_wg start_wg stop_wg : Action
  init_ping start_ping spawn_periodic_ping delay : Action

-- The answers, the polls and waits by their number: the token request and the stop bit behind each
-- failed one, the websocket, the stop bit behind the ping request, the bits behind the
-- registration, and the WireGuard interface.
pub record SupervisorEnv : Type 0 where
  pub get_token : ℕ → EspErr
  pub stop_auth : ℕ → Bool
  pub ws_init : EspErr
  pub ws_start : EspErr
  pub ws_connected_at : ℕ → Bool
  pub stop_ws : ℕ → Bool
  pub ws_connected_behind : Bool
  pub stop_request : Bool
  pub stop_register : Bool
  pub configured : Bool
  pub wg_init : EspErr
  pub wg_start : EspErr
  pub wg_up_at : ℕ → Bool
  pub stop_wg : ℕ → Bool
  pub wg_up_behind : Bool

-- How the loop of requests ends.
pub data AuthEnd : Type 0 where
  token : ℕ → AuthEnd
  auth_stopped auth_exhausted : AuthEnd

-- `rounds` attempts are left, and the next is number `i`.
unfoldable pub auth_loop : ℕ → ℕ → (ℕ → EspErr) → (ℕ → Bool) → AuthEnd
auth_loop zero i get_token stop = auth_exhausted
auth_loop (suc rounds) i get_token stop =
    let rest = auth_loop rounds (i + 1) get_token stop in
    if is_ok (get_token i) then token i else if stop i then auth_stopped else rest

pub data PollEnd : Type 0 where
  poll_stopped poll_over : PollEnd

-- `while (!ready() && wait < rounds) { if (stop) goto err; wait++; }`
unfoldable pub poll_loop : ℕ → ℕ → (ℕ → Bool) → (ℕ → Bool) → PollEnd
poll_loop zero i ready stop = poll_over
poll_loop (suc rounds) i ready stop =
    let rest = poll_loop rounds (i + 1) ready stop in
    if ready i then poll_over else if stop i then poll_stopped else rest

-- Online: the wake ping and the periodic ping are started, and the task waits for the stop bit.
abbrev pub go_online : List Action
go_online =
    set_bit bit_wg_up
    ∷ emit wg_handshaked
    ∷ emit online
    ∷ init_ping
    ∷ start_ping
    ∷ spawn_periodic_ping
    ∷ []

unfoldable pub handshake : SupervisorEnv → List Action
handshake env =
    start_wg
    ∷ (if not (is_ok env.wg_start) then [] else elim (poll_loop 120 0 env.wg_up_at env.stop_wg) [
      | poll_stopped ↦ []
      | poll_over ↦ if env.wg_up_behind then go_online else emit error ∷ []
    ])

unfoldable pub configure : SupervisorEnv → List Action
configure env =
    if env.stop_register
    then []
    else if not env.configured
    then emit error ∷ []
    else init_wg ∷ (if is_ok env.wg_init then emit wg_configured ∷ handshake env else [])

unfoldable pub register : SupervisorEnv → List Action
register env = send_ping_request ∷ (if env.stop_request then [] else send_register ∷ configure env)

unfoldable pub connect_ws : SupervisorEnv → List Action
connect_ws env = elim (poll_loop 60 0 env.ws_connected_at env.stop_ws) [
  | poll_stopped ↦ []
  | poll_over ↦
      if env.ws_connected_behind
      then set_bit bit_ws_conn ∷ emit ws_connected ∷ register env
      else emit error ∷ []
]

unfoldable pub open_ws : SupervisorEnv → List Action
open_ws env =
    init_ws
    ∷ (if not (is_ok env.ws_init)
        then []
        else start_ws ∷ (if not (is_ok env.ws_start) then [] else connect_ws env))

-- `supervisor_task`
unfoldable pub supervisor_task : SupervisorEnv → List Action
supervisor_task env = elim (auth_loop 10 0 env.get_token env.stop_auth) [
  | token i ↦ set_bit bit_authed ∷ emit authed ∷ open_ws env
  | auth_stopped ↦ []
  | auth_exhausted ↦ emit error ∷ []
]
