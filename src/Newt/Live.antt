-- ===== src/Newt/Live.antt =====
-- newt.c, `supervisor_task` on the static variables: each move is one call or wait of the task.
-- Supervisor has the same task as the trace of its actions. What is sent and told is left out here.
use newt_esp.Auth.Request.{HttpEnv}
use newt_esp.Auth.Token.{Fetched, get_token}
use newt_esp.Base.{
  ℕ, ◌+◌, Bool, true, false, not, ◌&&◌, List, [], ◌∷◌, none, some, Bytes, ltb, if◌then◌else◌,
}
use newt_esp.Extern.{EspErr, is_ok, Cjson, Base64}
use newt_esp.Newt.Public.{EventBits, Newt}
use newt_esp.Newt.Shutdown.{stop_bit}
use newt_esp.Ping
use newt_esp.Ping.Session.{PingConfig, NewSession}
use newt_esp.Wg
use newt_esp.Wg.Life.{StartEnv}
use newt_esp.Proto.Send.{send_ping_request, send_register}
use newt_esp.Wg.State.{TcpipEnv}
use newt_esp.Ws.Envelope.{Link}
use newt_esp.Ws
use newt_esp.Ws.Life.{InitEnv}

-- `NEWT_AUTH_TOKEN_MAX`
abbrev pub token_max : ℕ
token_max = 512

-- Where the task is. A request for the token that waits for its answer has read the secret already.
pub data Phase : Type 0 where
  requesting : ℕ → Phase
  awaiting : ℕ → Bytes → Phase
  resting : ℕ → Phase
  opening starting : Phase
  polling : ℕ → Phase
  asking asked registering configuring tunnelling raising : Phase
  climbing : ℕ → Phase
  pinging online ended : Phase

-- The answers in one move of the task.
pub record Turn : Type 0 where
  pub http : HttpEnv
  pub url_memory : Bool
  pub ws : InitEnv
  pub client_start : EspErr
  pub connected : Bool
  pub connected_behind : Bool
  pub link : Link
  pub r0 : ℕ
  pub r1 : ℕ
  pub tcpip : TcpipEnv
  pub wg_start : StartEnv
  pub new_session : NewSession
  pub ping_start : EspErr
  pub task : Bool

-- `xEventGroupSetBits`
abbrev pub with_bits : (EventBits → EventBits) → Newt → Newt
with_bits f n = elim n.events [ none ↦ n | some bits ↦ record n { events = some (f bits) } ]

-- The text that a call wrote to a buffer, or what the buffer held.
abbrev pub written_or : List Bytes → Bytes → Bytes
written_or [] old = old
written_or (v ∷ _) old = v

-- The label `err`: the task forgets its handle and ends.
unfoldable pub finish : Newt → Newt × Phase
finish n = (record n { supervisor = false }, ended)

-- A request for the token has its answer.
unfoldable pub answered : ℕ → Fetched → Newt → Newt × Phase
answered k f n =
    let kept = record n { token = written_or f.written n.token } in
    if is_ok f.ret
    then (with_bits (λ bits. record bits { authed = true }) kept, opening)
    else (kept, resting k)

-- `newt_ws_init` and `newt_ws_start`
unfoldable pub open_live : InitEnv → Newt → Newt × Phase
unfolding finish
open_live env n =
    let (w, e) =
      Ws.Life.init env
        (some (record { endpoint = some n.endpoint; token = some n.token; on_msg = true })) n.ws in
    if is_ok e then (record n { ws = w }, starting) else finish (record n { ws = w })

unfoldable pub start_live : EspErr → Newt → Newt × Phase
unfolding finish
start_live answer n =
    let (w, e) = Ws.Life.start answer n.ws in
    if is_ok e then (record n { ws = w }, polling 0) else finish (record n { ws = w })

-- One round of the loop that waits for the connection, and what follows the last one.
unfoldable pub poll_live : Bool → Bool → ℕ → Newt → Newt × Phase
unfolding finish
poll_live connected connected_behind k n =
    if not (Ws.Life.is_connected connected n.ws) && ltb k 60
    then (if stop_bit n then finish n else (n, polling (k + 1)))
    else if Ws.Life.is_connected connected_behind n.ws
    then (with_bits (λ bits. record bits { ws_conn = true }) n, asking)
    else finish n

-- Behind the registration: the wait for the configuration.
unfoldable pub configured_live : Newt → Newt × Phase
unfolding finish
configured_live n = elim n.events [
  | none ↦ finish n
  | some bits ↦
      if bits.stop then finish n else if bits.wg_configured then (n, tunnelling) else finish n
]

-- `newt_wg_init` and `newt_wg_start`
unfoldable pub tunnel_live : Base64 → TcpipEnv → Newt → Newt × Phase
unfolding finish
tunnel_live b env n =
    let d = Wg.Life.init b env (some n.wg_cfg) (some n.kp) n.wg in
    if is_ok d.ret then (record n { wg = d.wg }, raising) else finish (record n { wg = d.wg })

unfoldable pub raise_live : StartEnv → Newt → Newt × Phase
unfolding finish
raise_live env n = elim (Wg.Life.start env n.wg) [
  | none ↦ (n, raising)
  | some d ↦
      if is_ok d.ret then (record n { wg = d.wg }, climbing 0) else finish (record n { wg = d.wg })
]

-- One round of the loop that waits for the handshake, and what follows the last one. The state is
-- read once a move.
unfoldable pub climb_live : ℕ → Newt → Newt × Phase
unfolding finish
climb_live k n =
    if not (Wg.Life.is_connected n.wg) && ltb k 120
    then (if stop_bit n then finish n else (n, climbing (k + 1)))
    else if Wg.Life.is_connected n.wg
    then (with_bits (λ bits. record bits { wg_up = true }) n, pinging)
    else finish n

-- `ping_cfg`
abbrev pub ping_cfg : Newt → PingConfig
ping_cfg n = record {
  target = n.server_ip;
  interval_ms = 2000;
  timeout_ms = 1000;
  max_attempts = 0;
  on_reply = true;
}

-- The wake ping and the task of the periodic ping; their answers are ignored.
unfoldable pub ping_live : NewSession → EspErr → Bool → Newt → Newt × Phase
ping_live answer started task n =
    let p = Ping.Session.start started (Ping.Session.init answer (some (ping_cfg n)) n.ping).ping in
    (record n { ping = p.ping; periodic_ping = if task then true else n.periodic_ping }, online)

module _ (c : Cjson) (b : Base64) where
  -- One move of `supervisor_task`.
  unfoldable pub supervise : Turn → Phase → Newt → Newt × Phase
  unfolding finish answered open_live start_live poll_live configured_live tunnel_live raise_live
      climb_live ping_live
  supervise t (requesting k) n = if ltb k 10 then (n, awaiting k n.newt_secret) else finish n
  supervise t (awaiting k secret) n =
      elim (get_token c t.http t.url_memory (some n.endpoint) (some n.newt_id) (some secret) true
        token_max) [ none ↦ (n, awaiting k secret) | some f ↦ answered k f n ]
  supervise t (resting k) n = if stop_bit n then finish n else (n, requesting (k + 1))
  supervise t opening n = open_live t.ws n
  supervise t starting n = start_live t.client_start n
  supervise t (polling k) n = poll_live t.connected t.connected_behind k n
  supervise t asking n =
      (record n { proto = (send_ping_request t.link t.r0 t.r1 n.proto).0 }, asked)
  supervise t asked n = if stop_bit n then finish n else (n, registering)
  supervise t registering n = (
    record n { proto = (send_register b t.link t.r0 t.r1 (some n.kp.public) n.proto).0 },
    configuring,
  )
  supervise t configuring n = configured_live n
  supervise t tunnelling n = tunnel_live b t.tcpip n
  supervise t raising n = raise_live t.wg_start n
  supervise t (climbing k) n = climb_live k n
  supervise t pinging n = ping_live t.new_session t.ping_start t.task n
  supervise t online n = if stop_bit n then finish n else (n, online)
  supervise t ended n = (n, ended)
