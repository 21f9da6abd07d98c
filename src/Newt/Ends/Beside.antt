-- ===== src/Newt/Ends/Beside.antt =====
-- What the others leave of the stop bit and of the supervisor's handle.
use newt_esp.Base.{ℕ, Bytes, Option, ◌≤◌, ◌≡◌, ◌∙◌, true, arith}
use newt_esp.Newt.Ends.{remaining, Leaving}
use newt_esp.Newt.Live.{Phase}
use newt_esp.Newt.Moves.{receive_call, ping_round, see_peer, event_in}
use newt_esp.Ws.Backoff.{Event}
use newt_esp.Ws.Frame.{Heap}
use newt_esp.Newt.Public.{Newt, stop, stop_parts}
use newt_esp.Newt.Shutdown.{stop_bit}
use newt_esp.Proto.State.{Call}
use newt_esp.Wg.State.{TcpipEnv}
use newt_esp.Ws.Envelope.{Link}

-- The stop bit is still set, and the supervisor's handle is as it was.
pub record Kept (n n' : Newt) : Type 0 where
  pub stopping : stop_bit n' ≡ true
  pub handle : n'.supervisor ≡ n.supervisor

-- A move of another task leaves the supervisor where it is.
pub Kept-Leaving :
    (m : ℕ) (p : Phase) (n n' : Newt) → Leaving m (n, p) → Kept n n' → Leaving m (n', p)
Kept-Leaving m p n n' v k = record {
  stopping = k.stopping;
  due = v.due;
  handle = k.handle ∙ v.handle;
}

pub stop-Kept :
    (link : Link) (env : TcpipEnv) (n : Newt) → stop_bit n ≡ true → Kept n (stop link env n).newt
unfolding stop stop_parts
stop-Kept link env n s = ground arith

pub receive_call-Kept :
    (inet_pton : Bytes → Option ℕ) (call : Call) (n : Newt)
    → stop_bit n ≡ true
    → Kept n (receive_call inet_pton call n)
unfolding receive_call
receive_call-Kept inet_pton call n s = ground arith

pub ping_round-Kept : (n : Newt) → stop_bit n ≡ true → Kept n (ping_round n)
unfolding ping_round
ping_round-Kept n s = ground arith

pub see_peer-Kept : (n : Newt) → stop_bit n ≡ true → Kept n (see_peer n)
unfolding see_peer
see_peer-Kept n s = ground arith

pub event_in-Kept : (h : Heap) (e : Event) (n : Newt) → stop_bit n ≡ true → Kept n (event_in h e n)
unfolding event_in
event_in-Kept h e n s = ground arith

-- A change of the fields that neither reads.
pub same-Kept :
    (n n' : Newt)
    → stop_bit n ≡ true
    → n'.events ≡ n.events
    → n'.supervisor ≡ n.supervisor
    → Kept n n'
same-Kept n n' s e h = record { stopping = rw e s; handle = h }

pub remaining-le : (p : Phase) → remaining p ≤ 7
remaining-le p = ground arith
