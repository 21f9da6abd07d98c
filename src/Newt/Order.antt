-- ===== src/Newt/Order.antt =====
-- The order in which the supervisor tells its events, and when it gets online.
use newt_esp.Base.{
  ℕ, zero, suc, ◌+◌, ◌<◌, ◌≡◌, refl, ap, Bool, true, false, not, List, [], ◌∷◌, ◌++◌, if◌then◌else◌,
  ◌⊎◌, inl, inr, arith, take,
}
use newt_esp.Extern.{EspErr, esp_ok, is_ok}
use newt_esp.Newt.Supervisor.{
  NewtEvent, bit_authed, bit_ws_conn, authed, ws_connected, wg_configured, wg_handshaked, online,
  error, Action, emit, set_bit, send_register, SupervisorEnv, AuthEnd, token, auth_stopped,
  auth_exhausted, auth_loop, PollEnd, poll_stopped, poll_over, poll_loop, handshake, configure,
  register, connect_ws, open_ws, supervisor_task, go_online,
}

-- The events that a trace tells.
abbrev pub told : List Action → List NewtEvent
told [] = []
told (emit e ∷ acts) = e ∷ told acts
told (_ ∷ acts) = told acts

-- A start of `full`, or a start of it with an error behind.
abbrev pub Starts : List NewtEvent → List NewtEvent → Type 0
Starts full es = (k : ℕ) × ((es ≡ take k full) ⊎ (es ≡ take k full ++ error ∷ []))

-- All events of the way online, in their order.
abbrev pub way_online : List NewtEvent
way_online = authed ∷ ws_connected ∷ wg_configured ∷ wg_handshaked ∷ online ∷ []

Starts-cons :
    (e : NewtEvent) (full es : List NewtEvent) → Starts full es → Starts (e ∷ full) (e ∷ es)
Starts-cons e full es (k, inl h) = (suc k, inl (ap (◌∷◌ e) h))
Starts-cons e full es (k, inr h) = (suc k, inr (ap (◌∷◌ e) h))

Starts-nil : (full : List NewtEvent) → Starts full []
Starts-nil full = (0, inl refl)

Starts-error : (full : List NewtEvent) → Starts full (error ∷ [])
Starts-error full = (0, inr refl)

polled :
    (full : List NewtEvent) (r : PollEnd) (go_on : Bool) (acts : List Action)
    → Starts full (told acts)
    → Starts full
        (told (elim r [ poll_stopped ↦ [] | poll_over ↦ if go_on then acts else emit error ∷ [] ]))
polled full poll_stopped go_on acts h = Starts-nil full
polled full poll_over true acts h = h
polled full poll_over false acts h = Starts-error full

either :
    (full : List NewtEvent) (b : Bool) (acts others : List Action)
    → Starts full (told acts)
    → Starts full (told others)
    → Starts full (told (if b then acts else others))
either full true acts others h k = h
either full false acts others h k = k

module _ (env : SupervisorEnv) where
  handshake-Starts : Starts (wg_handshaked ∷ online ∷ []) (told (handshake env))
  unfolding handshake
  handshake-Starts =
      either _ (not (is_ok env.wg_start)) [] _ (Starts-nil _) (
        polled _ (poll_loop 120 0 env.wg_up_at env.stop_wg) env.wg_up_behind go_online
          (2, inl refl))

  configure-Starts : Starts (wg_configured ∷ wg_handshaked ∷ online ∷ []) (told (configure env))
  unfolding configure
  configure-Starts = either _ env.stop_register [] _ (Starts-nil _) (
      either _ (not env.configured) (emit error ∷ []) _ (Starts-error _) (
        either _ (is_ok env.wg_init) (emit wg_configured ∷ handshake env) []
          (Starts-cons wg_configured _ _ handshake-Starts) (Starts-nil _)))

  register-Starts : Starts (wg_configured ∷ wg_handshaked ∷ online ∷ []) (told (register env))
  unfolding register
  register-Starts =
      either _ env.stop_request [] (send_register ∷ configure env) (Starts-nil _) configure-Starts

  connect_ws-Starts :
      Starts (ws_connected ∷ wg_configured ∷ wg_handshaked ∷ online ∷ []) (told (connect_ws env))
  unfolding connect_ws
  connect_ws-Starts =
      polled _ (poll_loop 60 0 env.ws_connected_at env.stop_ws) env.ws_connected_behind
        (set_bit bit_ws_conn ∷ emit ws_connected ∷ register env)
        (Starts-cons ws_connected _ _ register-Starts)

  open_ws-Starts :
      Starts (ws_connected ∷ wg_configured ∷ wg_handshaked ∷ online ∷ []) (told (open_ws env))
  unfolding open_ws
  open_ws-Starts =
      either _ (not (is_ok env.ws_init)) [] _ (Starts-nil _)
        (either _ (not (is_ok env.ws_start)) [] (connect_ws env) (Starts-nil _) connect_ws-Starts)

authenticated :
    (env : SupervisorEnv) (r : AuthEnd)
    → Starts way_online (
        told (elim r [
          | token i ↦ set_bit bit_authed ∷ emit authed ∷ open_ws env
          | auth_stopped ↦ []
          | auth_exhausted ↦ emit error ∷ []
        ]))
authenticated env (token i) = Starts-cons authed _ _ (open_ws-Starts env)
authenticated env auth_stopped = Starts-nil _
authenticated env auth_exhausted = Starts-error _

-- Whatever the calls answer, the supervisor tells the events on the way online in their order with
-- none left out, and stops with at most one error behind them.
pub supervisor_task-Starts : (env : SupervisorEnv) → Starts way_online (told (supervisor_task env))
unfolding supervisor_task
supervisor_task-Starts env = authenticated env (auth_loop 10 0 env.get_token env.stop_auth)

-- The first `n` requests from number `i` on fail, with no stop behind them.
abbrev pub Failing : ℕ → ℕ → (ℕ → EspErr) → (ℕ → Bool) → Type 0
Failing zero i get_token stop = Unit {0}
Failing (suc n) i get_token stop =
    (is_ok (get_token i) ≡ false) × (stop i ≡ false) × Failing n (i + 1) get_token stop

auth_loop-token :
    (n rounds i j : ℕ) (get_token : ℕ → EspErr) (stop : ℕ → Bool)
    → Failing n i get_token stop
    → i + n ≡ j
    → n < rounds
    → get_token j ≡ esp_ok
    → auth_loop rounds i get_token stop ≡ token j
unfolding auth_loop
auth_loop-token n zero i j g s f e h o = elim h [ ]
auth_loop-token zero (suc rounds) i j g s f e h o = let same : i ≡ j = omega arith in rw same (rw o)
auth_loop-token (suc n) (suc rounds) i j g s f e h o =
    rw (f.0, f.1, auth_loop)
      (auth_loop-token n rounds (i + 1) j g s f.2 (omega arith) (omega arith) o)

auth_loop_exhausted :
    (rounds i : ℕ) (get_token : ℕ → EspErr) (stop : ℕ → Bool)
    → Failing rounds i get_token stop
    → auth_loop rounds i get_token stop ≡ auth_exhausted
unfolding auth_loop
auth_loop_exhausted zero i g s f = refl
auth_loop_exhausted (suc rounds) i g s f =
    rw (f.0, f.1, auth_loop) (auth_loop_exhausted rounds (i + 1) g s f.2)

-- Ten failed requests and no stop: the supervisor reports an error and does nothing else, so it
-- never opens the websocket without a token.
pub supervisor_task_unauthorised :
    (env : SupervisorEnv)
    → Failing 10 0 env.get_token env.stop_auth
    → supervisor_task env ≡ emit error ∷ []
unfolding supervisor_task
supervisor_task_unauthorised env f =
    rw (supervisor_task, auth_loop_exhausted 10 0 env.get_token env.stop_auth f)

-- Up to nine failed requests, then a token: when the websocket and the tunnel come up within their
-- waits and no stop is set, the supervisor does all of its steps and gets online.
pub supervisor_task_online :
    (env : SupervisorEnv) (n : ℕ)
    → n < 10
    → Failing n 0 env.get_token env.stop_auth
    → env.get_token n ≡ esp_ok
    → env.ws_init ≡ esp_ok
    → env.ws_start ≡ esp_ok
    → poll_loop 60 0 env.ws_connected_at env.stop_ws ≡ poll_over
    → env.ws_connected_behind ≡ true
    → env.stop_request ≡ false
    → env.stop_register ≡ false
    → env.configured ≡ true
    → env.wg_init ≡ esp_ok
    → env.wg_start ≡ esp_ok
    → poll_loop 120 0 env.wg_up_at env.stop_wg ≡ poll_over
    → env.wg_up_behind ≡ true
    → told (supervisor_task env) ≡ way_online
unfolding supervisor_task open_ws connect_ws register configure handshake
supervisor_task_online env n h f t i s p b r g c w x q u =
    ground (arith, auth_loop-token n 10 0 n env.get_token env.stop_auth f (omega arith) h t)
