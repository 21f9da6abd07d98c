-- ===== src/Newt/Moves.antt =====
-- newt.c, the supervisor beside the others that change the static variables: the reconnect tasks,
-- `newt_stop`, the websocket's events and worker, the protocol's callbacks, the periodic ping and the
-- tunnel's poller. One move is a call or a wait of the supervisor, of a reconnect task or of the
-- periodic ping, a poll, or one whole `newt_stop`, event, round of the worker or callback.
use newt_esp.Base.{
  ℕ, Bool, true, false, List, [], ◌∷◌, ◌++◌, Option, none, some, Bytes, if◌then◌else◌,
}
use newt_esp.Extern.{Cjson, Base64}
use newt_esp.Newt.Live.{Phase, Turn, with_bits, supervise}
use newt_esp.Newt.Public
use newt_esp.Newt.Public.{EventBits, Newt, react, configures, creates_task, sets_stop, nothing}
use newt_esp.Newt.Rejoin.{Rejoin, clears, rejoin_at}
use newt_esp.Newt.Shutdown.{stop_bit}
use newt_esp.Newt.WgConfig.{cb_wg_connect}
use newt_esp.Proto.State.{Call}
use newt_esp.Wg.State.{TcpipEnv, up}
use newt_esp.Ws.Envelope.{Link}
use newt_esp.Ws.Backoff.{Event, ws_event_handler}
use newt_esp.Ws.Frame.{Heap}
use newt_esp.Ws.Worker.{Delivered, worker_turn}
use newt_esp.Proto.Message.{handle_message}

-- The callbacks of the protocol, on the static variables.
unfoldable pub receive_call : (Bytes → Option ℕ) → Call → Newt → Newt
unfolding cb_wg_connect react
receive_call inet_pton call n = elim (react call) [
  | configures cfg ↦
      let s =
        (cb_wg_connect inet_pton cfg (record {
          wg_cfg = n.wg_cfg;
          tunnel_ip = n.tunnel_ip;
          server_ip = n.server_ip;
          wg_configured_bit = false;
        })).0 in
      with_bits (λ bits. record bits { wg_configured = s.wg_configured_bit })
        (record n { wg_cfg = s.wg_cfg; tunnel_ip = s.tunnel_ip; server_ip = s.server_ip })
  | creates_task ↦ n
  | sets_stop ↦ with_bits (λ bits. record bits { stop = true }) n
  | nothing ↦ n
]

-- One wait of `periodic_ping_task`: at the stop bit it forgets its handle and ends.
unfoldable pub ping_round : Newt → Newt
ping_round n = if stop_bit n then record n { periodic_ping = false } else n

-- `wg_poll_task` at a peer that is up.
unfoldable pub see_peer : Newt → Newt
see_peer n = if n.wg.poller then record n { wg = record n.wg { state = up } } else n

-- The task that a callback spawns, where it can be made.
unfoldable pub spawned : Call → Bool → List Rejoin
unfolding react
spawned call task = elim (react call) [ creates_task ↦ if task then clears ∷ [] else [] | _ ↦ [] ]

-- The static variables, the supervisor, and the reconnect tasks, oldest first.
pub record Crew : Type 0 where
  pub newt : Newt
  pub phase : Phase
  pub rejoins : List Rejoin

-- `ws_event_handler`; the client tells its events only while it is there.
unfoldable pub event_in : Heap → Event → Newt → Newt
event_in h e n = if n.ws.client then record n { ws = (ws_event_handler h e n.ws).ws } else n

module _ (c : Cjson) (b : Base64) (inet_pton : Bytes → Option ℕ) where
  -- The callbacks that a message asks for, in order; the flag is whether a task can be made.
  unfoldable pub receive_calls : Bool → List Call → Crew → Crew
  receive_calls task [] s = s
  receive_calls task (call ∷ cs) s = receive_calls task cs (record s {
    newt = receive_call inet_pton call s.newt;
    rejoins = s.rejoins ++ spawned call task;
  })

  -- `cb_ws_msg`: the protocol handles the message and calls back.
  unfoldable pub hand_over : Bool → Delivered → Crew → Crew
  unfolding receive_calls
  hand_over task m s =
      let o = handle_message c b (some m.type_) (some m.data_json) m.config_version s.newt.proto in
      receive_calls task o.calls (record s { newt = record s.newt { proto = o.proto } })

  -- What the worker has received, if it calls back at all.
  unfoldable pub hand_over? : Bool → Option Delivered → Crew → Crew
  unfolding hand_over
  hand_over? task none s = s
  hand_over? task (some m) s = hand_over task m s

  -- The queue behind a receive.
  abbrev pub taken : List (Option Bytes) → Crew → Crew
  taken rest s = record s { newt = record s.newt { ws = record s.newt.ws { queue = some rest } } }

  -- A round of the websocket's worker, with the callbacks that it makes.
  unfoldable pub deliver_next : Bool → Crew → Crew
  unfolding hand_over?
  deliver_next task s = elim s.newt.ws.queue [
    | none ↦ s
    | some q ↦
        let r =
          worker_turn c s.newt.ws.worker_stop_requested s.newt.ws.worker_stop_requested
            s.newt.ws.on_msg q in
        hand_over? task r.1 (taken r.2 s)
  ]

  -- The supervisor, a reconnect task by its number, `newt_stop`, an event of the websocket's client,
  -- a round of the worker, a callback of the protocol on its own, a wait of the periodic ping, and the poller of the tunnel
  -- when it sees the peer. The flags are whether a task can be made.
  pub data LiveMove : Type 0 where
    supervises : Turn → LiveMove
    reconnects : ℕ → Turn → LiveMove
    stops : Link → TcpipEnv → LiveMove
    notifies : Heap → Event → LiveMove
    delivers : Bool → LiveMove
    calls : Call → Bool → LiveMove
    pings peer_up : LiveMove

  unfoldable pub live : LiveMove → Crew → Crew
  live (supervises t) s =
      let (n, p) = supervise c b t s.phase s.newt in record s { newt = n; phase = p }
  live (reconnects i t) s =
      let (n, rs) = rejoin_at b i t s.rejoins s.newt in record s { newt = n; rejoins = rs }
  live (stops link env) s = record s { newt = (Public.stop link env s.newt).newt }
  live (notifies h e) s = record s { newt = event_in h e s.newt }
  live (delivers task) s = deliver_next task s
  live (calls call task) s = record s {
    newt = receive_call inet_pton call s.newt;
    rejoins = s.rejoins ++ spawned call task;
  }
  live pings s = record s { newt = ping_round s.newt }
  live peer_up s = record s { newt = see_peer s.newt }

  unfoldable pub lives : List LiveMove → Crew → Crew
  lives [] s = s
  lives (m ∷ ms) s = lives ms (live m s)
