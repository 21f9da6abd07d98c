-- ===== src/Wg/Poller.antt =====
-- newt_wg.c: `wg_poll_task` beside a caller of `newt_wg_stop`, one access of the shared variables at
-- a time. A schedule says who moves, and with which answer. There is room for one poller: of a start
-- beside a poller that lives, only the new one is followed.
use newt_esp.Base.{Bool, true, false, not, ◌||◌, ◌&&◌, ◌≡◌, List, [], ◌∷◌, if◌then◌else◌}
use newt_esp.Extern.{is_ok}
use newt_esp.Wg.Life.{StartEnv, spawn_poller}
use newt_esp.Wg.State.{down, resolving, handshaking, up, Wg}

-- Where `wg_poll_task` stands: at its first check of the stop flag, in its delay, in the call that
-- asks for the peer, before it gives the semaphore, or deleted.
pub data PollerAt : Type 0 where
  checking sleeping asking giving ended : PollerAt

-- Where `newt_wg_stop` stands: not called, waiting for the poller, behind the wait, behind the
-- release of the semaphore.
pub data CallerAt : Type 0 where
  idle waiting releasing disconnecting : CallerAt

-- `given`: the semaphore can be taken. `late`: a wait ended by its timeout. `fault`: a semaphore
-- that does not exist was given.
pub record System : Type 0 where
  pub wg : Wg
  pub poller : PollerAt
  pub caller : CallerAt
  pub given : Bool
  pub late : Bool
  pub fault : Bool

-- One move of `wg_poll_task`; the flag is whether the peer is up.
unfoldable pub poll_move : Bool → System → System
poll_move peer_up s = elim s.poller [
  | checking ↦ record s { poller = if s.wg.poller_stop_requested then giving else sleeping }
  | sleeping ↦ record s { poller = if s.wg.poller_stop_requested then giving else asking }
  | asking ↦
      if peer_up
      then record s { wg = record s.wg { state = up }; poller = giving }
      else record s { poller = checking }
  | giving ↦ record s { poller = ended; given = true; fault = s.fault || not s.wg.poller_done }
  | ended ↦ s
]

-- The wait of `newt_wg_stop`; the flag is whether its time is over. Without a semaphore there is no
-- wait.
unfoldable pub wait_move : Bool → System → System
wait_move over s =
    let gone = record s { wg = record s.wg { poller = false }; caller = releasing } in
    if not s.wg.poller_done
    then gone
    else if s.given
    then record gone { given = false }
    else if over
    then record gone { late = true }
    else s

-- One move of `newt_wg_stop`.
unfoldable pub stop_move : Bool → System → System
unfolding wait_move
stop_move over s = elim s.caller [
  | idle ↦
      if s.wg.poller
      then record s { wg = record s.wg { poller_stop_requested = true }; caller = waiting }
      else record s { caller = releasing }
  | waiting ↦ wait_move over s
  | releasing ↦ record s {
    wg = record s.wg { poller_done = false; poller_stop_requested = false };
    given = false;
    caller = disconnecting;
  }
  | disconnecting ↦ record s { wg = record s.wg { state = down; priv_b64 = [] }; caller = idle }
]

-- The end of `newt_wg_init`, and of `newt_wg_start` once connected.
unfoldable pub init_move : System → System
init_move s = record s { wg = record s.wg { state = resolving } }

unfoldable pub start_move : StartEnv → System → System
unfolding spawn_poller
start_move env s =
    let (w, e) = spawn_poller env (record s.wg { state = handshaking }) in
    record s { wg = w; poller = if is_ok e then checking else s.poller }

pub data Turn : Type 0 where
  polls : Bool → Turn
  stops : Bool → Turn
  inits : Turn
  starts : StartEnv → Turn

unfoldable pub move : Turn → System → System
unfolding poll_move stop_move init_move start_move
move (polls peer_up) s = poll_move peer_up s
move (stops over) s = stop_move over s
move inits s = init_move s
move (starts env) s = start_move env s

unfoldable pub run : List Turn → System → System
run [] s = s
run (t ∷ ts) s = run ts (move t s)

-- No stop is under way and no poller's handle is set.
abbrev pub free : System → Bool
free s = elim s.caller [ idle ↦ not s.wg.poller | _ ↦ false ]

-- Whether a move wants the interface free.
abbrev pub wants_free : Turn → Bool
wants_free inits = true
wants_free (starts env) = true
wants_free _ = false

-- Along the run the interface is initialised and started only where it is free.
abbrev pub InTurn : List Turn → System → Type 0
InTurn [] s = Unit {0}
InTurn (t ∷ ts) s = ((wants_free t && not (free s)) ≡ false) × InTurn ts (move t s)
