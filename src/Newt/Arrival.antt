-- ===== src/Newt/Arrival.antt =====
-- From the registration to the tunnel: newt.c's supervisor_task, the events and the worker of
-- newt_ws.c, the message handler of newt_proto.c and `cb_wg_connect`, one behind the other; Exchange
-- has the whole way.
pub mod Exchange
use newt_esp.Base.{
  ℕ, ◌≤◌, ◌<◌, ◌≡◌, ◌≢◌, refl, ap, ◌∙◌, Bool, true, false, List, [], ◌∷◌, ◌++◌, Option, none, some,
  arith, length, Bytes, codes, max, map, bytes_eq,
}
use newt_esp.Extern.{Cjson, Base64, esp_ok}
use newt_esp.Newt.Delivery.{deliver_next-some}
use newt_esp.Newt.Live.{Turn, registering, configuring, tunnelling, configured_live, supervise}
use newt_esp.Newt.Moves.{
  LiveMove, supervises, notifies, delivers, Crew, event_in, receive_call, receive_calls, spawned,
  hand_over, hand_over?, taken, deliver_next, live, lives,
}
use newt_esp.Newt.Rejoin.{Rejoin}
use newt_esp.Newt.Public.{EventBits, Newt}
use newt_esp.Newt.WgConfig.{Site, cb_wg_connect}
use newt_esp.Proto.ChainId.{chain_id_new, length-chain_id_new}
use newt_esp.Proto.Connect.{key_len, read_config, handle_wg_connect, handle_wg_connect_matched}
use newt_esp.Proto.Message.{dispatch, handle_message, note_version, note_version-max}
use newt_esp.Proto.Send.{send_register, send_register-fits, IsInt}
use newt_esp.Proto.State.{WgConnect, wg_connect, Proto, Outcome, outcome, string_member}
use newt_esp.Ws.Assembly.{fragments, concat, receive, received, receive-fragments, able, AllFilled}
use newt_esp.Ws.Backoff.{Event, received_data, ws_event_handler}
use newt_esp.Ws.Frame.{Frame, handle_text_frame}
use newt_esp.Ws.State.{Ws, rx_max}
use newt_esp.Ws.Worker.{
  Delivered, with_data_len, version_of, deliver, deliver_root, data_of, worker_turn,
}

-- The event by which the client passes on a piece of a text.
abbrev pub text_event : Frame → Event
text_event d = received_data (some (1, d))

handle_text_frame-client : (d : Frame) (w : Ws) → (handle_text_frame able d w).client ≡ w.client
unfolding handle_text_frame
handle_text_frame-client d w = ground arith

event_in-text :
    (d : Frame) (n : Newt)
    → n.ws.client ≡ true
    → event_in able (text_event d) n ≡ record n { ws = handle_text_frame able d n.ws }
unfolding event_in ws_event_handler
event_in-text d n e = ground arith

module _ (c : Cjson) (b : Base64) (inet_pton : Bytes → Option ℕ) where
  abbrev pub text_moves : List Frame → List (LiveMove c b inet_pton)
  text_moves [] = []
  text_moves (d ∷ ds) = notifies able (text_event d) ∷ text_moves ds

  -- The pieces of a text, as they reach the websocket's state.
  lives-text_moves :
      (ds : List Frame) (ms : List (LiveMove c b inet_pton)) (s : Crew)
      → s.newt.ws.client ≡ true
      → lives c b inet_pton (text_moves ds ++ ms) s
        ≡ lives c b inet_pton ms
            (record s { newt = record s.newt { ws = receive able ds s.newt.ws } })
  unfolding lives live receive
  lives-text_moves [] ms s e = refl
  lives-text_moves (d ∷ ds) ms s e =
      ap (λ n. lives c b inet_pton (text_moves ds ++ ms) (record s { newt = n }))
        (event_in-text d s.newt e)
      ∙ lives-text_moves ds ms _ (handle_text_frame-client d s.newt.ws ∙ e)

  -- `payload` is a `newt/wg/connect` message with data for the registration `id`, which holds the
  -- configuration `w`.
  pub record IsAnswer (payload id : Bytes) (w : WgConnect) : Type 0 where
    pub root : c.Item
    pub jdata : c.Item
    pub printed : Bytes
    pub inner : c.Item
    pub parsed : c.parse payload ≡ some root
    pub is_connect : string_member c root (codes "type") ≡ some (codes "newt/wg/connect")
    pub member : c.get_item root (codes "data") ≡ some jdata
    pub object : c.is_object jdata ≡ true
    pub prints : c.print_unformatted jdata ≡ some printed
    pub parsed_again : c.parse printed ≡ some inner
    pub chain : string_member c inner (codes "chainId") ≡ some id
    pub config : read_config c b inner ≡ some w

  module _ (payload id : Bytes) (w : WgConnect) (a : IsAnswer payload id w) where
    deliver-answer :
        deliver c true payload
        ≡ some (with_data_len (codes "newt/wg/connect") (some a.printed) (version_of c a.root))
    unfolding deliver deliver_root data_of
    deliver-answer =
        let h1 = a.parsed in
        let h2 = a.is_connect in
        let h3 = a.member in let h4 = a.object in let h5 = a.prints in ground arith

    dispatch-connect :
        (text : Bytes) (p : Proto)
        → dispatch c b (codes "newt/wg/connect") (some text) p ≡ handle_wg_connect c b text p
    unfolding dispatch bytes_eq
    dispatch-connect text p = refl

    handle_message-answer :
        (v : ℕ) (p : Proto)
        → p.inflight_chain_register ≡ id
        → id ≢ []
        → p.cb.on_wg_connect ≡ true
        → handle_message c b (some (codes "newt/wg/connect")) (some a.printed) v p
          ≡ outcome
              (record p { config_version = max p.config_version v; inflight_chain_register = [] })
              (wg_connect w ∷ [])
              esp_ok
    unfolding handle_message
    handle_message-answer v p e ne h =
        dispatch-connect a.printed (note_version v p)
        ∙ rw (note_version-max v p) (
            handle_wg_connect_matched c b a.printed a.inner
              (record p { config_version = max p.config_version v }) a.parsed_again w (rw e a.chain)
              (rw e ne) a.config
            ∙ rw h refl)

    -- The variables once the message has been handled, and once the callback has been made too.
    abbrev handled : Newt → Newt
    handled n = record n {
      ws = record n.ws { queue = some [] };
      proto = record n.proto {
        config_version = max n.proto.config_version (version_of c a.root);
        inflight_chain_register = [];
      };
    }

    abbrev told : Newt → Newt
    told n = receive_call inet_pton (wg_connect w) (handled n)

    hand_over-answer :
        (task : Bool) (s : Crew)
        → s.newt.proto.inflight_chain_register ≡ id
        → id ≢ []
        → s.newt.proto.cb.on_wg_connect ≡ true
        → hand_over c b inet_pton task
            (with_data_len (codes "newt/wg/connect") (some a.printed) (version_of c a.root))
            (taken c b inet_pton [] s)
          ≡ record s { newt = told s.newt; rejoins = s.rejoins ++ [] }
    unfolding hand_over receive_calls spawned
    hand_over-answer task s e ne h =
        ap
          (λ o. receive_calls c b inet_pton task o.calls (record s {
            newt = record s.newt { ws = record s.newt.ws { queue = some [] }; proto = o.proto };
          }))
          (handle_message-answer (version_of c a.root) s.newt.proto e ne h)

    deliver_next-answer :
        (task : Bool) (s : Crew)
        → s.newt.ws.queue ≡ some (some payload ∷ [])
        → s.newt.ws.on_msg ≡ true
        → s.newt.ws.worker_stop_requested ≡ false
        → s.newt.proto.inflight_chain_register ≡ id
        → id ≢ []
        → s.newt.proto.cb.on_wg_connect ≡ true
        → deliver_next c b inet_pton task s
          ≡ record s { newt = told s.newt; rejoins = s.rejoins ++ [] }
    unfolding hand_over?
    deliver_next-answer task s q o r e ne h =
        deliver_next-some c b inet_pton payload [] task s q o r
        ∙ ap (λ m. hand_over? c b inet_pton task m (taken c b inet_pton [] s)) deliver-answer
        ∙ hand_over-answer task s e ne h

  configured_live-told :
      (w : WgConnect) (n : Newt) (bits : EventBits)
      → n.events ≡ some bits
      → bits.stop ≡ false
      → configured_live (receive_call inet_pton (wg_connect w) n)
        ≡ (receive_call inet_pton (wg_connect w) n, tunnelling)
  unfolding configured_live receive_call
  configured_live-told w n bits e h = rw (e, h) refl
