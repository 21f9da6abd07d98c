-- ===== src/Newt/Sound/Run.antt =====
-- The invariant along a run of supervisor_task, newt_stop and the other parts of newt.c.
use newt_esp.Auth.Token.{get_token}
use newt_esp.Auth.Wiping.{get_token-Clean}
use newt_esp.Base.{Option, ℕ, ◌+◌, ltb, ◌≡◌, refl, true, List, [], ◌∷◌, some, arith, Bytes}
use newt_esp.Extern.{Cjson, Base64}
use newt_esp.Newt.Live.{
  Phase, requesting, awaiting, resting, opening, starting, polling, asking, asked, registering,
  configuring, tunnelling, raising, climbing, pinging, online, ended, Turn, supervise,
}
use newt_esp.Newt.Moves.{
  LiveMove, supervises, reconnects, stops, notifies, delivers, calls, pings, peer_up, Crew, live,
  lives,
}
use newt_esp.Newt.Sound.Again.{rejoin_at-IsSound}
use newt_esp.Wg.State.{TcpipEnv}
use newt_esp.Newt.Public.{Newt, stop, stop_parts}
use newt_esp.Newt.Shutdown.{stop_bit, IsShut, stop-IsShut, stop-url}
use newt_esp.Ws.Envelope.{Link}
use newt_esp.Ws.Lifecycle.{stop-IsSettled}
use newt_esp.Newt.Sound.{IsSound, moved, finish-IsSound, with_proto, either-IsSound}
use newt_esp.Newt.Sound.Reach.{
  answered-IsSound, open_live-IsSound, start_live-IsSound, poll_live-IsSound,
  configured_live-IsSound,
}
use newt_esp.Newt.Sound.Raise.{
  tunnel_live-IsSound, raise_live-IsSound, climb_live-IsSound, ping_live-IsSound,
}
use newt_esp.Newt.Sound.Calls.{
  receive_call-IsSound, ping_round-IsSound, see_peer-IsSound, taken-IsSound, event_in-IsSound,
}
use newt_esp.Newt.Delivery.{IsKept, deliver_next-IsKept}

module _ (c : Cjson) (b : Base64) (inet_pton : Bytes → Option ℕ) where
  supervise-IsSound :
      (t : Turn) (p : Phase) (n : Newt) → IsSound (n, p) → IsSound (supervise c b t p n)
  unfolding supervise get_token
  supervise-IsSound t (requesting k) n v =
      either-IsSound (ltb k 10) _ _
        (moved n (requesting k) (awaiting k n.newt_secret) v refl refl refl refl refl)
        (finish-IsSound n (requesting k) v)
  supervise-IsSound t (awaiting k secret) n v =
      let (f, e, _, fits) =
        get_token-Clean c t.http t.url_memory (some n.endpoint) (some n.newt_id) (some secret) true
          512 in
      rw (e, supervise) (answered-IsSound k f n secret fits v)
  supervise-IsSound t (resting k) n v =
      either-IsSound (stop_bit n) _ _ (finish-IsSound n (resting k) v)
        (moved n (resting k) (requesting (k + 1)) v refl refl refl refl refl)
  supervise-IsSound t opening n v = open_live-IsSound t.ws n v
  supervise-IsSound t starting n v = start_live-IsSound t.client_start n v
  supervise-IsSound t (polling k) n v = poll_live-IsSound t.connected t.connected_behind k n v
  supervise-IsSound t asking n v =
      with_proto n asked _ (moved n asking asked v refl refl refl refl refl)
  supervise-IsSound t asked n v =
      either-IsSound (stop_bit n) _ _ (finish-IsSound n asked v)
        (moved n asked registering v refl refl refl refl refl)
  supervise-IsSound t registering n v =
      with_proto n configuring _ (moved n registering configuring v refl refl refl refl refl)
  supervise-IsSound t configuring n v = configured_live-IsSound n v
  supervise-IsSound t tunnelling n v = tunnel_live-IsSound b t.tcpip n v
  supervise-IsSound t raising n v = raise_live-IsSound t.wg_start n v
  supervise-IsSound t (climbing k) n v = climb_live-IsSound k n v
  supervise-IsSound t pinging n v = ping_live-IsSound t.new_session t.ping_start t.task n v
  supervise-IsSound t online n v = either-IsSound (stop_bit n) _ _ (finish-IsSound n online v) v
  supervise-IsSound t ended n v = v

  stop-IsSound :
      (link : Link) (env : TcpipEnv) (p : Phase) (n : Newt)
      → IsSound (n, p)
      → IsSound ((stop link env n).newt, p)
  unfolding stop stop_parts
  stop-IsSound link env p n v =
      rw (v.held, stop)
        (record {
          ws = stop-IsSettled link n.proto n.ws v.ws;
          token = omega arith;
          handle = v.handle;
          bits = record v.bits { stop = true };
          held = refl;
          authed = v.authed;
          connected = v.connected;
          kept_open = ground arith;
          given = v.given;
          configured = v.configured;
        })

  delivery-IsKept : IsKept c b inet_pton (λ s. IsSound (s.newt, s.phase))
  delivery-IsKept = record {
    called = λ call task s v. receive_call-IsSound inet_pton call s.phase s.newt v;
    handled = λ proto s v. with_proto s.newt s.phase proto v;
    received = λ q rest s e v. taken-IsSound q rest s.phase s.newt e v;
  }

  -- At every point of the supervisor's way online, whatever the calls answer and however reconnect
  -- tasks, calls of `newt_stop`, events of the client, rounds of the worker, callbacks, rounds of the periodic
  -- ping and polls fall between its moves: the websocket holds all of its handles or none, and once it is made it is closed only where
  -- the stop bit is set; the token fits its buffer; the supervisor's handle is set exactly until it
  -- ends; the bits for the token and for the connection are set where it is past them; and it is past
  -- its wait for the configuration only with the mask and the keepalive that `cb_wg_connect` writes.
  pub lives-IsSound :
      (ms : List (LiveMove c b inet_pton)) (s : Crew)
      → IsSound (s.newt, s.phase)
      → IsSound ((lives c b inet_pton ms s).newt, (lives c b inet_pton ms s).phase)
  unfolding lives live
  lives-IsSound [] s v = v
  lives-IsSound (supervises t ∷ ms) s v = lives-IsSound ms _ (supervise-IsSound t s.phase s.newt v)
  lives-IsSound (reconnects i t ∷ ms) s v =
      lives-IsSound ms _ (rejoin_at-IsSound b i t s.rejoins s.phase s.newt v)
  lives-IsSound (stops link env ∷ ms) s v =
      lives-IsSound ms _ (stop-IsSound link env s.phase s.newt v)
  lives-IsSound (notifies h e ∷ ms) s v = lives-IsSound ms _ (event_in-IsSound h e s.phase s.newt v)
  lives-IsSound (delivers task ∷ ms) s v =
      lives-IsSound ms _ (
        deliver_next-IsKept c b inet_pton (λ s. IsSound (s.newt, s.phase)) delivery-IsKept task s v)
  lives-IsSound (calls call task ∷ ms) s v =
      lives-IsSound ms _ (receive_call-IsSound inet_pton call s.phase s.newt v)
  lives-IsSound (pings ∷ ms) s v = lives-IsSound ms _ (ping_round-IsSound s.phase s.newt v)
  lives-IsSound (peer_up ∷ ms) s v = lives-IsSound ms _ (see_peer-IsSound s.phase s.newt v)

  -- Whatever has happened on the supervisor's way online, reconnect tasks included, when `newt_stop`
  -- returns the stop bit is set, the websocket's handles, copied texts and assembly buffer are gone, the
  -- tunnel's state is down with no poller's handle, no ping session is held, and the variables of the
  -- secret, the token and both copies of the private key are cleared. The websocket's URL, which has the
  -- token in it, stays as it was. Whether the worker and the poller have ended too rests on the waits
  -- for them, and what a request under way holds is not counted.
  pub lives-IsShut :
      (ms : List (LiveMove c b inet_pton)) (s : Crew) (link : Link) (env : TcpipEnv)
      → IsSound (s.newt, s.phase)
      → let n = (lives c b inet_pton ms s).newt in
        IsShut (stop link env n).newt × ((stop link env n).newt.ws.url ≡ n.ws.url)
  lives-IsShut ms s link env h =
      let v = lives-IsSound ms s h in
      let n = (lives c b inet_pton ms s).newt in
      (stop-IsShut link env v.bits n v.held v.ws, stop-url link env n)
