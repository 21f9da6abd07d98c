-- ===== src/Newt/Shutdown.antt =====
-- What `newt_stop` leaves behind, and how a start behind a stop ends.
use newt_esp.Base.{◌≡◌, refl, Bool, true, false, List, [], ◌∷◌, none, some, arith, inl, inr, ◌∙◌}
use newt_esp.Extern.{esp_ok}
use newt_esp.Newt.Public.{EventBits, Newt, start, stop, stop_parts}
use newt_esp.Newt.Supervisor.{
  Action, send_register, SupervisorEnv, connect_ws, open_ws, supervisor_task, register,
}
use newt_esp.Ping
use newt_esp.Proto.State.{Proto}
use newt_esp.Wg.Keys.{zero_bytes}
use newt_esp.Wg
use newt_esp.Wg.State.{TcpipEnv, down}
use newt_esp.Ws.Envelope.{Link}
use newt_esp.Ws
use newt_esp.Ws.Lifecycle.{IsClosed, IsSettled, stop-IsClosed}
use newt_esp.Ws.State.{Ws}

-- The variables of the handles are clear, and so are those of the secrets but the websocket's URL.
pub record IsShut (n : Newt) : Type 0 where
  pub ws : IsClosed n.ws
  pub poller : n.wg.poller ≡ false
  pub poller_done : n.wg.poller_done ≡ false
  pub state : n.wg.state ≡ down
  pub wg_key : n.wg.priv_b64 ≡ []
  pub session : n.ping.session ≡ none
  pub secret : n.newt_secret ≡ []
  pub token : n.token ≡ []
  pub priv : n.kp.priv ≡ zero_bytes 32
  pub stopping : (bits : EventBits) × (n.events ≡ some bits) × (bits.stop ≡ true)

ws_stop-IsClosed :
    (link : Link) (p : Proto) (w : Ws) → IsSettled w → IsClosed (Ws.Life.stop link p w).1
unfolding Ws.Life.stop
ws_stop-IsClosed link p w (inl opened) = stop-IsClosed link p w opened
ws_stop-IsClosed link p w (inr closed) = simp closed.client closed

stop_parts-IsShut :
    (link : Link) (env : TcpipEnv) (bits : EventBits) (n : Newt)
    → IsSettled n.ws
    → IsShut (stop_parts link env bits n).newt
unfolding stop_parts Wg.Life.stop Ping.Session.stop
stop_parts-IsShut link env bits n v = record {
  ws = ws_stop-IsClosed link n.proto n.ws v;
  poller = ground arith;
  poller_done = ground arith;
  state = ground arith;
  wg_key = ground arith;
  session = ground arith;
  secret = refl;
  token = refl;
  priv = refl;
  stopping = (record bits { stop = true }, refl, refl);
}

-- From any state whose websocket is settled, as it is after every sequence of its own calls,
-- `newt_stop` behind `newt_init` clears the variables: the websocket's handles and texts, the poller's
-- handle, with the state down, the ping session, the secret, the token and both copies of the private
-- key; the stop bit is set.
pub stop-IsShut :
    (link : Link) (env : TcpipEnv) (bits : EventBits) (n : Newt)
    → n.events ≡ some bits
    → IsSettled n.ws
    → IsShut (stop link env n).newt
unfolding stop
stop-IsShut link env bits n e v = rw (e, stop) (stop_parts-IsShut link env bits n v)

-- The URL that the websocket was opened with, token included, is left in its buffer.
pub stop-url : (link : Link) (env : TcpipEnv) (n : Newt) → (stop link env n).newt.ws.url ≡ n.ws.url
unfolding stop stop_parts Ws.Life.stop
stop-url link env n = ground arith

abbrev pub registers : List Action → Bool
registers [] = false
registers (send_register ∷ acts) = true
registers (_ ∷ acts) = registers acts

connect_ws_stopping :
    (env : SupervisorEnv) → env.stop_request ≡ true → registers (connect_ws env) ≡ false
unfolding connect_ws register
connect_ws_stopping env h = ground arith

open_ws_stopping : (env : SupervisorEnv) → env.stop_request ≡ true → registers (open_ws env) ≡ false
unfolding open_ws
open_ws_stopping env h = ground (arith, connect_ws_stopping env h)

supervisor_task_stopping :
    (env : SupervisorEnv) → env.stop_request ≡ true → registers (supervisor_task env) ≡ false
unfolding supervisor_task
supervisor_task_stopping env h = ground (arith, open_ws_stopping env h)

-- The stop bit, which is clear where there is no event group.
abbrev pub stop_bit : Newt → Bool
stop_bit n = elim n.events [ none ↦ false | some bits ↦ bits.stop ]

-- `newt_start` behind `newt_stop`, with no `newt_init` between: it returns ESP_OK where the task is
-- made and no supervisor runs, but a supervisor whose wait behind the ping request reads the stop bit
-- as it was left never registers.
pub start-stop :
    (link : Link) (tcpip : TcpipEnv) (bits : EventBits) (n : Newt) (env : SupervisorEnv)
    → n.events ≡ some bits
    → n.supervisor ≡ false
    → env.stop_request ≡ stop_bit (start true (stop link tcpip n).newt).0
    → ((start true (stop link tcpip n).newt).1 ≡ esp_ok) × (registers (supervisor_task env) ≡ false)
unfolding start stop stop_parts
start-stop link tcpip bits n env e idle h =
    (ground arith, supervisor_task_stopping env (h ∙ ground arith))
