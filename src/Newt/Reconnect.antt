-- ===== src/Newt/Reconnect.antt =====
-- newt.c: `reconnect_task`, which one `newt/wg/reconnect` message starts, and `periodic_ping_task`.
use newt_esp.Base.{
  ℕ, zero, suc, ◌+◌, Bool, true, false, not, ◌||◌, List, [], ◌∷◌, ◌++◌, if◌then◌else◌,
}
use newt_esp.Extern.{EspErr, is_ok}
use newt_esp.Newt.Supervisor.{
  registered, wg_configured, wg_handshaked, online, error, bit_wg_configured, bit_wg_up, Action,
  emit, set_bit, clear_bit, send_ping_request, send_register, send_ping, init_wg, start_wg, stop_wg,
  delay,
}

-- The answers: the stop bit behind the ping request, the bits behind the registration, the calls of
-- the interface, the reads of the loop by their number, and the two reads behind the loop.
pub record ReconnectEnv : Type 0 where
  pub stop_request : Bool
  pub stop_register : Bool
  pub configured : Bool
  pub wg_init : EspErr
  pub wg_start : EspErr
  pub wg_up_at : ℕ → Bool
  pub stop_at : ℕ → Bool
  pub stop_behind : Bool
  pub wg_up_behind : Bool

-- `while (state != UP && wait < rounds && !stop) { delay; wait++; }`
unfoldable pub delay_loop : ℕ → ℕ → (ℕ → Bool) → (ℕ → Bool) → List Action
delay_loop zero i up stop = []
delay_loop (suc rounds) i up stop =
    let rest = delay_loop rounds (i + 1) up stop in if up i || stop i then [] else delay ∷ rest

unfoldable pub back_online : ReconnectEnv → List Action
back_online env =
    if env.stop_behind
    then []
    else if not env.wg_up_behind
    then emit error ∷ []
    else set_bit bit_wg_up ∷ emit registered ∷ emit wg_handshaked ∷ emit online ∷ []

unfoldable pub restart_wg : ReconnectEnv → List Action
unfolding back_online
restart_wg env =
    start_wg
    ∷ (if is_ok env.wg_start
        then delay_loop 120 0 env.wg_up_at env.stop_at ++ back_online env
        else emit error ∷ [])

unfoldable pub reconfigure : ReconnectEnv → List Action
unfolding restart_wg
reconfigure env =
    if env.stop_register
    then []
    else if not env.configured
    then emit error ∷ []
    else init_wg
      ∷ (if is_ok env.wg_init then emit wg_configured ∷ restart_wg env else emit error ∷ [])

-- `reconnect_task`
unfoldable pub reconnect_task : ReconnectEnv → List Action
unfolding reconfigure
reconnect_task env =
    clear_bit bit_wg_up
    ∷ clear_bit bit_wg_configured
    ∷ stop_wg
    ∷ send_ping_request
    ∷ (if env.stop_request then [] else send_register ∷ reconfigure env)

-- `periodic_ping_task` for as many rounds as are watched: whether it has ended, and what it sent.
unfoldable pub periodic_ping_task : ℕ → ℕ → (ℕ → Bool) → Bool × List Action
periodic_ping_task zero i stop = (false, [])
periodic_ping_task (suc rounds) i stop =
    let rest = periodic_ping_task rounds (i + 1) stop in
    if stop i then (true, []) else (rest.0, send_ping ∷ rest.1)
