-- ===== src/Newt/Sound.antt =====
-- What holds of newt.c's static variables at every point of the supervisor's way online, whatever the
-- other parts do between its moves; Run has the theorem.
pub mod Reach
pub mod Raise
pub mod Calls
pub mod Again
pub mod Run
use newt_esp.Base.{
  ◌∙◌, ◌<◌, ◌≡◌, refl, Bool, true, false, not, ◌&&◌, ◌||◌, ◌==◌, some, arith, length, if◌then◌else◌,
}
use newt_esp.Newt.Ends.{runs}
use newt_esp.Newt.Live.{
  Phase, requesting, awaiting, resting, starting, polling, asking, asked, registering, configuring,
  tunnelling, raising, climbing, pinging, online, ended, token_max, finish,
}
use newt_esp.Newt.Public.{EventBits, Newt}
use newt_esp.Newt.WgConfig.{WgConfig}
use newt_esp.Proto.State.{Proto}
use newt_esp.Wg.State.{Wg}
use newt_esp.Ws.Lifecycle.{IsSettled}
use newt_esp.Ws.State.{Ws}

-- The token has been received, and the websocket has been made.
abbrev pub has_token : Phase → Bool
has_token (requesting k) = false
has_token (awaiting k secret) = false
has_token (resting k) = false
has_token ended = false
has_token _ = true

abbrev pub has_ws : Phase → Bool
has_ws starting = true
has_ws (polling k) = true
has_ws asking = true
has_ws asked = true
has_ws registering = true
has_ws configuring = true
has_ws tunnelling = true
has_ws raising = true
has_ws (climbing k) = true
has_ws pinging = true
has_ws online = true
has_ws _ = false

-- The connection has been seen.
abbrev pub has_link : Phase → Bool
has_link asking = true
has_link asked = true
has_link registering = true
has_link configuring = true
has_link tunnelling = true
has_link raising = true
has_link (climbing k) = true
has_link pinging = true
has_link online = true
has_link _ = false

-- The configuration has arrived.
abbrev pub has_config : Phase → Bool
has_config tunnelling = true
has_config raising = true
has_config (climbing k) = true
has_config pinging = true
has_config online = true
has_config _ = false

abbrev pub implies : Bool → Bool → Bool
implies a b = not a || b

-- The configuration has been written by `cb_wg_connect`, which alone writes these two.
abbrev pub is_given : WgConfig → Bool
is_given cfg = cfg.keepalive_sec == 25 && cfg.tunnel_netmask == 0xFFFFFFFF

pub record IsSound (s : Newt × Phase) : Type 0 where
  pub ws : IsSettled s.0.ws
  pub token : length s.0.token < token_max
  pub handle : s.0.supervisor ≡ runs s.1
  pub bits : EventBits
  pub held : s.0.events ≡ some bits
  pub authed : implies (has_token s.1) bits.authed ≡ true
  pub connected : implies (has_link s.1) bits.ws_conn ≡ true
  pub kept_open : implies (has_ws s.1) (bits.stop || s.0.ws.client) ≡ true
  pub given : implies bits.wg_configured (is_given s.0.wg_cfg) ≡ true
  pub configured : implies (has_config s.1) (is_given s.0.wg_cfg) ≡ true

-- A move to `p` that changes neither the token, the websocket nor the event bits.
moved :
    (n : Newt) (p p' : Phase)
    → IsSound (n, p)
    → runs p' ≡ runs p
    → implies (has_token p') (has_token p) ≡ true
    → implies (has_ws p') (has_ws p) ≡ true
    → implies (has_link p') (has_link p) ≡ true
    → implies (has_config p') (has_config p) ≡ true
    → IsSound (n, p')
moved n p p' v r a w l g =
    let av = v.authed in
    let lv = v.connected in
    let ov = v.kept_open in
    let cv = v.configured in
    record {
      ws = v.ws;
      token = v.token;
      handle = let h = v.handle in cc;
      bits = v.bits;
      held = v.held;
      authed = ground arith;
      connected = ground arith;
      kept_open = ground arith;
      given = v.given;
      configured = ground arith;
    }

finish-IsSound : (n : Newt) (p : Phase) → IsSound (n, p) → IsSound (finish n)
unfolding finish
finish-IsSound n p v = record {
  ws = v.ws;
  token = v.token;
  handle = refl;
  bits = v.bits;
  held = v.held;
  authed = refl;
  connected = refl;
  kept_open = refl;
  given = v.given;
  configured = refl;
}

-- The task's static variables with another state of the websocket, which is open if need be.
with_ws :
    (n : Newt) (p p' : Phase) (w : Ws)
    → IsSound (n, p)
    → IsSettled w
    → runs p' ≡ runs p
    → implies (has_token p') (has_token p) ≡ true
    → implies (has_link p') (has_link p) ≡ true
    → implies (has_ws p') w.client ≡ true
    → implies (has_config p') (has_config p) ≡ true
    → IsSound (record n { ws = w }, p')
with_ws n p p' w v s r a l o g =
    let av = v.authed in
    let lv = v.connected in
    let cv = v.configured in
    record {
      ws = s;
      token = v.token;
      handle = let h = v.handle in cc;
      bits = v.bits;
      held = v.held;
      authed = ground arith;
      connected = ground arith;
      kept_open = ground arith;
      given = v.given;
      configured = ground arith;
    }

-- A change of the fields that the invariant does not read.
frame :
    (n n' : Newt) (p : Phase)
    → IsSound (n, p)
    → n'.ws ≡ n.ws
    → n'.token ≡ n.token
    → n'.supervisor ≡ n.supervisor
    → n'.events ≡ n.events
    → n'.wg_cfg ≡ n.wg_cfg
    → IsSound (n', p)
frame n n' p v w t s e c = record {
  ws = rw w v.ws;
  token = rw t v.token;
  handle = s ∙ v.handle;
  bits = v.bits;
  held = e ∙ v.held;
  authed = v.authed;
  connected = v.connected;
  kept_open = rw w v.kept_open;
  given = rw c v.given;
  configured = rw c v.configured;
}

with_wg : (n : Newt) (p : Phase) (wg : Wg) → IsSound (n, p) → IsSound (record n { wg = wg }, p)
with_wg n p wg v = frame n _ p v refl refl refl refl refl

with_proto :
    (n : Newt) (p : Phase) (proto : Proto)
    → IsSound (n, p)
    → IsSound (record n { proto = proto }, p)
with_proto n p proto v = frame n _ p v refl refl refl refl refl

either_newt :
    (x : Bool) (n n' : Newt) (p : Phase)
    → IsSound (n, p)
    → IsSound (n', p)
    → IsSound (if x then n else n', p)
either_newt true n n' p v u = v
either_newt false n n' p v u = u

either-IsSound :
    (x : Bool) (s s' : Newt × Phase) → IsSound s → IsSound s' → IsSound (if x then s else s')
either-IsSound true s s' v u = v
either-IsSound false s s' v u = u
