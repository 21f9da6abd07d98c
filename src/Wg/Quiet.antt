-- ===== src/Wg/Quiet.antt =====
-- When `newt_wg_stop` returns, the poller has ended: it gives no deleted semaphore and does not set
-- the state again. This rests on the wait; where the wait is given up, both can happen.
use newt_esp.Base.{◌≡◌, ◌≢◌, refl, Bool, true, false, not, ◌&&◌, List, [], ◌∷◌, arith}
use newt_esp.Wg.Poller.{
  asking, ended, idle, waiting, releasing, disconnecting, System, poll_move, stop_move, init_move,
  start_move, free, wants_free, InTurn, Turn, polls, stops, inits, starts, move, run,
}
use newt_esp.Wg.Life.{StartEnv}
use newt_esp.Wg.State.{up}

-- While the poller lives its handle is set, its semaphore is there and not yet given, and the caller
-- is not past the wait; where no handle is set it has ended.
pub record IsQuiet (s : System) : Type 0 where
  pub faultless : s.fault ≡ false
  pub guarded : s.wg.poller ≡ true → s.wg.poller_done ≡ true
  pub pending : s.poller ≢ ended → s.given ≡ false
  pub handled : s.poller ≢ ended → s.wg.poller ≡ true
  pub waits : s.caller ≡ waiting → s.wg.poller ≡ true
  pub releases : s.caller ≡ releasing → s.wg.poller ≡ false
  pub disconnects : s.caller ≡ disconnecting → s.wg.poller ≡ false
  pub fresh : s.wg.poller ≡ false → s.given ≡ false
  pub settled : s.caller ≡ idle → s.wg.poller ≡ false → s.wg.state ≢ up

poll_move-IsQuiet : (peer_up : Bool) (s : System) → IsQuiet s → IsQuiet (poll_move peer_up s)
unfolding poll_move
poll_move-IsQuiet peer_up s v = ground arith

stop_move-IsQuiet :
    (over : Bool) (s : System)
    → IsQuiet s
    → (stop_move over s).late ≡ false
    → IsQuiet (stop_move over s)
unfolding stop_move
stop_move-IsQuiet over s v h = ground arith

init_move-IsQuiet : (s : System) → free s ≡ true → IsQuiet s → IsQuiet (init_move s)
unfolding init_move
init_move-IsQuiet s f v = ground arith

start_move-IsQuiet :
    (env : StartEnv) (s : System) → free s ≡ true → IsQuiet s → IsQuiet (start_move env s)
unfolding start_move
start_move-IsQuiet env s f v = ground arith

free_of : (s : System) → not (free s) ≡ false → free s ≡ true
free_of s h = ground arith

move-IsQuiet :
    (t : Turn) (s : System)
    → (wants_free t && not (free s)) ≡ false
    → IsQuiet s
    → (move t s).late ≡ false
    → IsQuiet (move t s)
unfolding move
move-IsQuiet (polls peer_up) s f v h = poll_move-IsQuiet peer_up s v
move-IsQuiet (stops over) s f v h = stop_move-IsQuiet over s v h
move-IsQuiet inits s f v h = init_move-IsQuiet s (free_of s f) v
move-IsQuiet (starts env) s f v h = start_move-IsQuiet env s (free_of s f) v

late-move : (t : Turn) (s : System) → s.late ≡ true → (move t s).late ≡ true
unfolding move
late-move t s h = ground arith

late-run : (ts : List Turn) (s : System) → s.late ≡ true → (run ts s).late ≡ true
unfolding run
late-run [] s h = h
late-run (t ∷ ts) s h = late-run ts (move t s) (late-move t s h)

-- Whatever the poller, a caller of `newt_wg_stop` and the library do and however their moves fall, as
-- long as no wait for the poller is given up and the interface is initialised and started only where
-- no stop is under way and no poller's handle is set: no semaphore is given that does not exist, and
-- where nobody stops the interface and no poller's handle is set, the poller has ended and the state is
-- not up.
pub run-IsQuiet :
    (ts : List Turn) (s : System)
    → InTurn ts s
    → IsQuiet s
    → (run ts s).late ≡ false
    → IsQuiet (run ts s)
unfolding run
run-IsQuiet [] s f v h = v
run-IsQuiet (t ∷ ts) s f v h =
    run-IsQuiet ts (move t s) f.1
      (move-IsQuiet t s f.0 v (in_time (move t s).late (late-run ts (move t s)))) h
  where
    in_time : (b : Bool) → (b ≡ true → (run ts (move t s)).late ≡ true) → b ≡ false
    in_time true overdue = cc (overdue refl, h)
    in_time false overdue = refl

-- A wait that is given up: the poller that is still asking then sets the state to up behind the stop,
-- and gives the semaphore that was deleted.
pub run_late :
    (s : System)
    → s.poller ≡ asking
    → s.caller ≡ waiting
    → s.wg.poller_done ≡ true
    → s.given ≡ false
    → let t = run (stops true ∷ stops false ∷ stops false ∷ polls true ∷ polls true ∷ []) s in
      (t.caller ≡ idle) × (t.wg.poller ≡ false) × (t.wg.state ≡ up) × (t.fault ≡ true)
unfolding run move
run_late s a c d g = ground arith
