-- ===== src/Newt/Sound/Calls.antt =====
-- The moves of the protocol's callbacks, the periodic ping and the poller.
use newt_esp.Base.{
  Option, ℕ, none, ◌≡◌, refl, true, arith, Bytes, List, some, ◌⊎◌, inl, inr, sym, ◌∙◌,
}
use newt_esp.Newt.Live.{Phase, with_bits}
use newt_esp.Newt.Moves.{receive_call, ping_round, see_peer, event_in}
use newt_esp.Ws.Lifecycle.{IsOpen, IsSettled}
use newt_esp.Ws.Frame.{Heap, Frame, handle_text_frame}
use newt_esp.Ws.Backoff.{
  Event, connected, disconnected, error, received_data, other, ws_event_handler,
}
use newt_esp.Ws.State.{Ws}
use newt_esp.Proto.State.{Call, wg_connect, wg_reconnect, wg_terminate, exit_nodes}
use newt_esp.Newt.WgConfig.{WgConfig}
use newt_esp.Newt.Public.{Newt}
use newt_esp.Newt.Shutdown.{stop_bit}
use newt_esp.Newt.Sound.{is_given, IsSound, frame, either_newt}

called :
    (n : Newt) (p : Phase) (cfg : WgConfig) (tunnel_ip server_ip : ℕ)
    → is_given cfg ≡ true
    → IsSound (n, p)
    → IsSound (
      with_bits
          (λ bits. record bits { wg_configured = true })
          (record n { wg_cfg = cfg; tunnel_ip = tunnel_ip; server_ip = server_ip }),
      p,
    )
called n p cfg tunnel_ip server_ip g v = rw v.held (record {
  ws = v.ws;
  token = v.token;
  handle = v.handle;
  bits = record v.bits { wg_configured = true };
  held = refl;
  authed = v.authed;
  connected = v.connected;
  kept_open = v.kept_open;
  given = g;
  configured = ground arith;
})

terminated :
    (n : Newt) (p : Phase)
    → IsSound (n, p)
    → IsSound (with_bits (λ bits. record bits { stop = true }) n, p)
terminated n p v = rw v.held (record {
  ws = v.ws;
  token = v.token;
  handle = v.handle;
  bits = record v.bits { stop = true };
  held = refl;
  authed = v.authed;
  connected = v.connected;
  kept_open = ground arith;
  given = v.given;
  configured = v.configured;
})

pub receive_call-IsSound :
    (inet_pton : Bytes → Option ℕ) (call : Call) (p : Phase) (n : Newt)
    → IsSound (n, p)
    → IsSound (receive_call inet_pton call n, p)
unfolding receive_call
receive_call-IsSound inet_pton (wg_connect cfg) p n v = called n p _ _ _ refl v
receive_call-IsSound inet_pton wg_reconnect p n v = v
receive_call-IsSound inet_pton wg_terminate p n v = terminated n p v
receive_call-IsSound inet_pton exit_nodes p n v = v

pub ping_round-IsSound : (p : Phase) (n : Newt) → IsSound (n, p) → IsSound (ping_round n, p)
unfolding ping_round
ping_round-IsSound p n v = either_newt (stop_bit n) _ n p (frame n _ p v refl refl refl refl refl) v

pub see_peer-IsSound : (p : Phase) (n : Newt) → IsSound (n, p) → IsSound (see_peer n, p)
unfolding see_peer
see_peer-IsSound p n v = either_newt n.wg.poller _ n p (frame n _ p v refl refl refl refl refl) v

-- The websocket's state with other messages in its queue, or in the course of an assembly.
received_into :
    (n : Newt) (p : Phase) (w : Ws)
    → IsSound (n, p)
    → IsSettled w
    → w.client ≡ n.ws.client
    → IsSound (record n { ws = w }, p)
received_into n p w v s e = record {
  ws = s;
  token = v.token;
  handle = v.handle;
  bits = v.bits;
  held = v.held;
  authed = v.authed;
  connected = v.connected;
  kept_open = rw e v.kept_open;
  given = v.given;
  configured = v.configured;
}

settled-IsOpen : (w : Ws) → IsSettled w → w.client ≡ true → IsOpen w
settled-IsOpen w v e = ground arith

taken-IsSettled :
    (w : Ws) (q rest : List (Option Bytes))
    → IsSettled w
    → w.queue ≡ some q
    → IsSettled (record w { queue = some rest })
taken-IsSettled w q rest v e = ground arith

pub taken-IsSound :
    (q rest : List (Option Bytes)) (p : Phase) (n : Newt)
    → n.ws.queue ≡ some q
    → IsSound (n, p)
    → IsSound (record n { ws = record n.ws { queue = some rest } }, p)
taken-IsSound q rest p n e v = received_into n p _ v (taken-IsSettled n.ws q rest v.ws e) refl

handle_text_frame-IsOpen :
    (h : Heap) (d : Frame) (w : Ws) → IsOpen w → IsOpen (handle_text_frame h d w)
unfolding handle_text_frame
handle_text_frame-IsOpen h d w v = ground arith

ws_event_handler-IsOpen :
    (h : Heap) (e : Event) (w : Ws) → IsOpen w → IsOpen (ws_event_handler h e w).ws
unfolding ws_event_handler
ws_event_handler-IsOpen h connected w v = ground arith
ws_event_handler-IsOpen h disconnected w v = ground arith
ws_event_handler-IsOpen h error w v = ground arith
ws_event_handler-IsOpen h other w v = v
ws_event_handler-IsOpen h (received_data none) w v = v
ws_event_handler-IsOpen h (received_data (some (op_code, d))) w v =
    let o = handle_text_frame-IsOpen h d w v in ground arith

event_in-cases :
    (h : Heap) (e : Event) (n : Newt)
    → (event_in h e n ≡ n)
      ⊎ ((event_in h e n ≡ record n { ws = (ws_event_handler h e n.ws).ws }) × (n.ws.client ≡ true))
unfolding event_in
event_in-cases h e n = ground arith

pub event_in-IsSound :
    (h : Heap) (e : Event) (p : Phase) (n : Newt) → IsSound (n, p) → IsSound (event_in h e n, p)
event_in-IsSound h e p n v = elim (event_in-cases h e n) [
  | inl off ↦ rw off v
  | inr (on, l) ↦
      let o = ws_event_handler-IsOpen h e n.ws (settled-IsOpen n.ws v.ws l) in
      rw on (received_into n p _ v (inl o) (o.client ∙ sym l))
]
