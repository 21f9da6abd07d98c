-- ===== src/Newt/Ends.antt =====
-- The supervisor ends behind a stop, wherever the stop found it; Run has the theorem.
pub mod Beside
pub mod Rejoins
pub mod Run
pub mod Gone
use newt_esp.Auth.Token.{Fetched}
use newt_esp.Auth.Wiping.{get_token-Clean}
use newt_esp.Base.{ℕ, Bytes, Option, suc, ◌≤◌, ◌≡◌, Bool, true, false, List, [], ◌∷◌, some, arith}
use newt_esp.Extern.{EspErr, Cjson, Base64}
use newt_esp.Newt.Live.{
  Phase, requesting, awaiting, resting, opening, starting, polling, asking, asked, registering,
  configuring, tunnelling, raising, climbing, pinging, online, ended, Turn, tunnel_live, raise_live,
  climb_live, answered, open_live, start_live, poll_live, configured_live, supervise,
}
use newt_esp.Newt.Moves.{
  LiveMove, supervises, stops, calls, pings, peer_up, receive_call, ping_round, see_peer, live,
  lives,
}
use newt_esp.Proto.State.{Call}
use newt_esp.Wg
use newt_esp.Wg.Connect.{start-Settles}
use newt_esp.Wg.Life.{StartEnv, WgDone}
use newt_esp.Newt.Public.{Newt, stop, stop_parts}
use newt_esp.Newt.Shutdown.{stop_bit}
use newt_esp.Wg.State.{TcpipEnv}
use newt_esp.Ws.Envelope.{Link}
use newt_esp.Ws.Life.{InitEnv}

-- The moves that a task at this point makes at most, once the stop bit is set.
abbrev remaining : Phase → ℕ
remaining (requesting k) = 7
remaining (awaiting k secret) = 6
remaining (resting k) = 1
remaining opening = 5
remaining starting = 4
remaining (polling k) = 3
remaining asking = 2
remaining asked = 1
remaining registering = 2
remaining configuring = 1
remaining tunnelling = 5
remaining raising = 4
remaining (climbing k) = 3
remaining pinging = 2
remaining online = 1
remaining ended = 0

-- Whether the task holds its handle.
abbrev pub runs : Phase → Bool
runs ended = false
runs _ = true

-- The stop bit is set, and `m` moves of the task are left at most.
record Leaving (m : ℕ) (s : Newt × Phase) : Type 0 where
  stopping : stop_bit s.0 ≡ true
  due : remaining s.1 ≤ m
  handle : s.0.supervisor ≡ runs s.1

answered-Leaving :
    (m k : ℕ) (f : Fetched) (n : Newt)
    → stop_bit n ≡ true
    → n.supervisor ≡ true
    → 5 ≤ m
    → Leaving m (answered k f n)
unfolding answered
answered-Leaving m k f n s h d = ground arith

open_live-Leaving :
    (m : ℕ) (env : InitEnv) (n : Newt)
    → stop_bit n ≡ true
    → n.supervisor ≡ true
    → 4 ≤ m
    → Leaving m (open_live env n)
unfolding open_live
open_live-Leaving m env n s h d = ground arith

start_live-Leaving :
    (m : ℕ) (answer : EspErr) (n : Newt)
    → stop_bit n ≡ true
    → n.supervisor ≡ true
    → 3 ≤ m
    → Leaving m (start_live answer n)
unfolding start_live
start_live-Leaving m answer n s h d = ground arith

poll_live-Leaving :
    (m : ℕ) (connected behind : Bool) (k : ℕ) (n : Newt)
    → stop_bit n ≡ true
    → n.supervisor ≡ true
    → 2 ≤ m
    → Leaving m (poll_live connected behind k n)
unfolding poll_live
poll_live-Leaving m connected behind k n s h d = ground arith

configured_live-Leaving :
    (m : ℕ) (n : Newt) → stop_bit n ≡ true → n.supervisor ≡ true → Leaving m (configured_live n)
unfolding configured_live
configured_live-Leaving m n s h = ground arith

tunnel_live-Leaving :
    (m : ℕ) (b : Base64) (env : TcpipEnv) (n : Newt)
    → stop_bit n ≡ true
    → n.supervisor ≡ true
    → 4 ≤ m
    → Leaving m (tunnel_live b env n)
unfolding tunnel_live
tunnel_live-Leaving m b env n s h d = ground arith

raised-Leaving :
    (m : ℕ) (env : StartEnv) (d : WgDone) (n : Newt)
    → stop_bit n ≡ true
    → n.supervisor ≡ true
    → 3 ≤ m
    → Wg.Life.start env n.wg ≡ some d
    → Leaving m (raise_live env n)
unfolding raise_live
raised-Leaving m env d n s h l e = ground arith

raise_live-Leaving :
    (m : ℕ) (env : StartEnv) (n : Newt)
    → stop_bit n ≡ true
    → n.supervisor ≡ true
    → 3 ≤ m
    → Leaving m (raise_live env n)
raise_live-Leaving m env n s h l =
    let (_, d, _, e, _, _) = start-Settles env n.wg in raised-Leaving m env d n s h l e

climb_live-Leaving :
    (m k : ℕ) (n : Newt)
    → stop_bit n ≡ true
    → n.supervisor ≡ true
    → 2 ≤ m
    → Leaving m (climb_live k n)
unfolding climb_live
climb_live-Leaving m k n s h d = ground arith
