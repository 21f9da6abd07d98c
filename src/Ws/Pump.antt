-- ===== src/Ws/Pump.antt =====
-- newt_ws.c: `worker_task` beside the event handler and a caller of `newt_ws_stop`, one access of the
-- shared variables at a time. Destroying the client ends its events. A schedule says who moves. There
-- is room for one worker: of a `newt_ws_init` beside a worker that lives, only the new one is followed.
use newt_esp.Base.{
  ℕ, ◌+◌, ◌≡◌, Bool, true, false, not, ◌&&◌, ◌||◌, List, [], ◌∷◌, Option, none, some, Bytes, length,
  ltb, if◌then◌else◌,
}
use newt_esp.Extern.{is_ok}
use newt_esp.Ws.Life
use newt_esp.Ws.Life.{InitEnv, WsConfig}
use newt_esp.Ws.State.{Ws, queue_depth, queue_send, queue_send?}

-- Where `worker_task` stands: at its check of the stop request, before its receive, with a message in
-- hand, behind the second check, before it gives the semaphore, or deleted.
pub data WorkerAt : Type 0 where
  checking receiving : WorkerAt
  taken : Option Bytes → WorkerAt
  handling giving ended : WorkerAt

-- Where `newt_ws_stop` stands: not called, behind the end of the client, behind the request, waiting
-- for the worker, behind the wait, behind the semaphore, behind the queue.
pub data CallerAt : Type 0 where
  idle closing signalling waiting releasing draining freeing : CallerAt

-- `given`: the semaphore can be taken. `late`: a wait ended by its timeout. `fault`: a semaphore or a
-- queue that does not exist was used. The last two count the payloads that were allocated and freed.
pub record Pump : Type 0 where
  pub ws : Ws
  pub worker : WorkerAt
  pub caller : CallerAt
  pub given : Bool
  pub late : Bool
  pub fault : Bool
  pub allocated : ℕ
  pub freed : ℕ

-- The payloads that a message or a queue holds.
abbrev pub held : Option Bytes → ℕ
held none = 0
held (some buf) = 1

abbrev pub queued : List (Option Bytes) → ℕ
queued [] = 0
queued (m ∷ q) = held m + queued q

abbrev pub queued? : Option (List (Option Bytes)) → ℕ
queued? none = 0
queued? (some q) = queued q

-- `xQueueReceive` with no end of its wait, and the message in hand.
unfoldable pub receive_move : Pump → Pump
receive_move s = elim s.ws.queue [
  | none ↦ record s { fault = true }
  | some q ↦ elim q [
    | [] ↦ s
    | m ∷ rest ↦ record s { ws = record s.ws { queue = some rest }; worker = taken m }
  ]
]

unfoldable pub take_move : Option Bytes → Pump → Pump
take_move m s =
    if s.ws.worker_stop_requested
    then record s { worker = giving; freed = s.freed + held m }
    else record s { worker = elim m [ none ↦ checking | some buf ↦ handling ] }

-- One move of `worker_task`. The callback and the parser have no part in this.
unfoldable pub worker_move : Pump → Pump
unfolding receive_move take_move
worker_move s = elim s.worker [
  | checking ↦ record s { worker = if s.ws.worker_stop_requested then giving else receiving }
  | receiving ↦ receive_move s
  | taken m ↦ take_move m s
  | handling ↦ record s { worker = checking; freed = s.freed + 1 }
  | giving ↦ record s { worker = ended; given = true; fault = s.fault || not s.ws.worker_done }
  | ended ↦ s
]

-- `enqueue_payload` in the client's task; the flag is whether `malloc` succeeds.
unfoldable pub event_move : Bool → Bytes → Pump → Pump
event_move memory buf s =
    if s.ws.client && memory
    then (elim s.ws.queue [
      | none ↦ record s { fault = true }
      | some q ↦
          if ltb (length q) queue_depth
          then record s {
            ws = record s.ws { queue = some (queue_send q (some buf)) };
            allocated = s.allocated + 1;
          }
          else record s { allocated = s.allocated + 1; freed = s.freed + 1 }
    ])
    else s

-- The wait of `newt_ws_stop`; the flag is whether its time is over. Without a semaphore there is no
-- wait.
unfoldable pub wait_worker : Bool → Pump → Pump
wait_worker over s =
    let gone = record s { ws = record s.ws { worker = false }; caller = releasing } in
    if not s.ws.worker_done
    then gone
    else if s.given
    then record gone { given = false }
    else if over
    then record gone { late = true }
    else s

-- One move of `newt_ws_stop`; where no client is there it returns at once.
unfoldable pub stopping_move : Bool → Pump → Pump
unfolding wait_worker
stopping_move over s = elim s.caller [
  | idle ↦
      if s.ws.client then record s { ws = record s.ws { client = false }; caller = closing } else s
  | closing ↦
      if s.ws.worker
      then record s { ws = record s.ws { worker_stop_requested = true }; caller = signalling }
      else record s { caller = releasing }
  | signalling ↦ record s {
    ws = record s.ws { queue = queue_send? s.ws.queue none };
    caller = waiting;
  }
  | waiting ↦ wait_worker over s
  | releasing ↦ record s {
    ws = record s.ws { worker_done = false };
    given = false;
    caller = draining;
  }
  | draining ↦ record s {
    ws = record s.ws { queue = none };
    freed = s.freed + queued? s.ws.queue;
    caller = freeing;
  }
  | freeing ↦ record s {
    ws = record s.ws {
      rx_assembly = none;
      rx_assembly_cap = 0;
      rx_assembly_len = 0;
      endpoint = none;
      token = none;
      worker_stop_requested = false;
    };
    caller = idle;
  }
]

-- A whole `newt_ws_init`.
unfoldable pub opening_move : InitEnv → Option WsConfig → Pump → Pump
opening_move env cfg s =
    let (w, e) = Life.init env cfg s.ws in
    record s {
      ws = w;
      worker = if is_ok e then checking else s.worker;
      given = if is_ok e then false else s.given;
    }

pub data PumpMove : Type 0 where
  works : PumpMove
  arrives : Bool → Bytes → PumpMove
  stops : Bool → PumpMove
  opens : InitEnv → Option WsConfig → PumpMove

unfoldable pub pump : PumpMove → Pump → Pump
unfolding worker_move event_move stopping_move opening_move
pump works s = worker_move s
pump (arrives memory buf) s = event_move memory buf s
pump (stops over) s = stopping_move over s
pump (opens env cfg) s = opening_move env cfg s

unfoldable pub pumps : List PumpMove → Pump → Pump
pumps [] s = s
pumps (m ∷ ms) s = pumps ms (pump m s)

abbrev pub is_idle : CallerAt → Bool
is_idle idle = true
is_idle _ = false

abbrev pub opens_ws : PumpMove → Bool
opens_ws (opens env cfg) = true
opens_ws _ = false

-- Along the run `newt_ws_init` is called only where no `newt_ws_stop` is under way.
abbrev pub InTurn : List PumpMove → Pump → Type 0
InTurn [] s = Unit {0}
InTurn (m ∷ ms) s = ((opens_ws m && not (is_idle s.caller)) ≡ false) × InTurn ms (pump m s)
