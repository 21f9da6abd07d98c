-- ===== src/Newt/Arrival/Exchange.antt =====
-- The supervisor's registration, the answer in pieces, a round of the worker, and the supervisor's next
-- look at the event bits (newt.c, newt_ws.c, newt_proto.c, newt_wg.c).
use newt_esp.Base.{
  ℕ, ◌≤◌, ◌<◌, ◌≡◌, ◌≢◌, refl, ap, ◌∙◌, Bool, true, false, List, [], ◌∷◌, ◌++◌, Option, some, arith,
  length, Bytes,
}
use newt_esp.Extern.{Cjson, Base64, esp_ok}
use newt_esp.Newt.Live.{Turn, registering, configuring, tunnelling, supervise}
use newt_esp.Newt.Moves.{LiveMove, supervises, delivers, receive_call, live, lives}
use newt_esp.Newt.Rejoin.{Rejoin}
use newt_esp.Newt.Public.{EventBits, Newt}
use newt_esp.Newt.WgConfig.{Site, cb_wg_connect}
use newt_esp.Proto.ChainId.{chain_id_new, length-chain_id_new}
use newt_esp.Proto.Connect.{key_len, handle_wg_connect_matched}
use newt_esp.Proto.Send.{send_register-fits, IsInt}
use newt_esp.Proto.State.{WgConnect, wg_connect, outcome}
use newt_esp.Ws.Assembly.{fragments, concat, received, receive-fragments, AllFilled}
use newt_esp.Ws.State.{rx_max}
use newt_esp.Newt.Arrival.{
  text_moves, lives-text_moves, IsAnswer, handled, told, deliver_next-answer, configured_live-told,
}
use newt_esp.Newt.Tunnel.{Address, newt_wg_init-handle_wg_connect}
use newt_esp.Newt.WgConfig.{wg_endpoint_max}
use newt_esp.Proto.State.{call_if}
use newt_esp.Wg
use newt_esp.Wg.Address.{read_ip4}
use newt_esp.Wg.State.{TunnelConfig, tunnel_init, TcpipEnv}

abbrev site_of : Newt → Site
site_of n = record {
  wg_cfg = n.wg_cfg;
  tunnel_ip = n.tunnel_ip;
  server_ip = n.server_ip;
  wg_configured_bit = false;
}

module _ (c : Cjson) (b : Base64) (inet_pton : Bytes → Option ℕ) where
  registered_by :
      (t : Turn) (n : Newt) (b64 : Bytes)
      → length n.kp.public ≡ key_len
      → b.encode 64 n.kp.public ≡ some b64
      → IsInt n.proto.chosen_exit_node_id
      → supervise c b t registering n ≡ (
        record n { proto = record n.proto { inflight_chain_register = chain_id_new t.r0 t.r1 } },
        configuring,
      )
  unfolding supervise
  registered_by t n b64 k e i =
      ap (λ r. (record n { proto = r.0 }, configuring))
        (send_register-fits b t.link t.r0 t.r1 n.kp.public b64 n.proto k e i)

  -- The supervisor may register: no stop, the websocket open with nothing queued, a whole key pair and
  -- the callback set.
  pub record IsReady (n : Newt) : Type 0 where
    pub bits : EventBits
    pub b64 : Bytes
    pub held : n.events ≡ some bits
    pub going : bits.stop ≡ false
    pub client : n.ws.client ≡ true
    pub queue : n.ws.queue ≡ some []
    pub on_msg : n.ws.on_msg ≡ true
    pub no_stop : n.ws.worker_stop_requested ≡ false
    pub priv_whole : length n.kp.priv ≡ key_len
    pub public_whole : length n.kp.public ≡ key_len
    pub encodes : b.encode 64 n.kp.public ≡ some b64
    pub int : IsInt n.proto.chosen_exit_node_id
    pub callback : n.proto.cb.on_wg_connect ≡ true

  -- What `cb_wg_connect` leaves and what it writes.
  record IsWritten (w : WgConnect) (n n' : Newt) : Type 0 where
    ws : n'.ws ≡ n.ws
    proto : n'.proto ≡ n.proto
    kp : n'.kp ≡ n.kp
    wg : n'.wg ≡ n.wg
    wg_cfg : n'.wg_cfg ≡ (cb_wg_connect inet_pton w (site_of n)).0.wg_cfg

  receive_call-connect :
      (w : WgConnect) (n : Newt) → IsWritten w n (receive_call inet_pton (wg_connect w) n)
  unfolding receive_call
  receive_call-connect w n = ground arith

  id-ne-nil : (r0 r1 : ℕ) → chain_id_new r0 r1 ≢ []
  id-ne-nil r0 r1 e = absurd (omega (arith, ap length e, length-chain_id_new r0 r1))

  module _ (t t' : Turn) (task : Bool) (n : Newt) (rs : List Rejoin) (first second : Bytes)
      (rest : List Bytes) (w : WgConnect) where
    -- The text that arrives, and the moves: the registration, the pieces of the text, a round of the
    -- worker, and the supervisor's look at the bits.
    abbrev pub message_text : Bytes
    message_text = concat (first ∷ second ∷ rest)

    abbrev pub registration_moves : List (LiveMove c b inet_pton)
    registration_moves =
        supervises t
        ∷ (text_moves c b inet_pton (fragments (length message_text) 0 (first ∷ second ∷ rest))
            ++ (delivers task ∷ supervises t' ∷ []))

    module _ (v : IsReady n) (f : AllFilled (first ∷ second ∷ rest))
        (m : length message_text ≤ rx_max)
        (a : IsAnswer c b inet_pton message_text (chain_id_new t.r0 t.r1) w) where
      abbrev asking_newt : Newt
      asking_newt = record n {
        proto = record n.proto { inflight_chain_register = chain_id_new t.r0 t.r1 };
      }

      abbrev queued_newt : Newt
      queued_newt = record asking_newt { ws = received message_text [] n.ws }

      abbrev given_newt : Newt
      given_newt = told c b inet_pton message_text (chain_id_new t.r0 t.r1) w a queued_newt

      lives-exchange :
          lives c b inet_pton registration_moves
            (record { newt = n; phase = registering; rejoins = rs })
          ≡ record { newt = given_newt; phase = tunnelling; rejoins = rs ++ [] }
      unfolding lives live supervise
      lives-exchange =
          ap
            (λ r.
              lives c b inet_pton
                (text_moves c b inet_pton
                    (fragments (length message_text) 0 (first ∷ second ∷ rest))
                  ++ (delivers task ∷ supervises t' ∷ []))
                (record { newt = r.0; phase = r.1; rejoins = rs }))
            (registered_by t n v.b64 v.public_whole v.encodes v.int)
          ∙ lives-text_moves c b inet_pton
              (fragments (length message_text) 0 (first ∷ second ∷ rest))
              (delivers task ∷ supervises t' ∷ [])
              (record { newt = asking_newt; phase = configuring; rejoins = rs }) v.client
          ∙ ap
              (λ x. lives c b inet_pton (delivers task ∷ supervises t' ∷ []) (record {
                newt = record asking_newt { ws = x };
                phase = configuring;
                rejoins = rs;
              }))
              (receive-fragments first second rest [] n.ws f m v.queue)
          ∙ ap (lives c b inet_pton (supervises t' ∷ [])) (
              deliver_next-answer c b inet_pton message_text (chain_id_new t.r0 t.r1) w a task
                (record { newt = queued_newt; phase = configuring; rejoins = rs }) refl v.on_msg
                v.no_stop refl (id-ne-nil t.r0 t.r1) v.callback)
          ∙ ap (λ r. record { newt = r.0; phase = r.1; rejoins = rs ++ [] })
              (configured_live-told c b inet_pton w _ v.bits v.held v.going)

      -- The supervisor registers, with no stop requested, the websocket open with nothing queued, both
      -- keys whole and the callback set. Then the text of a `newt/wg/connect` message with the id of
      -- that registration and a configuration comes, in two or more pieces that are not empty, within
      -- the limit and with memory there. A round of the worker and a look at the event bits later, with
      -- no other move between, the supervisor goes on to the tunnel, nothing waits in the queue and the
      -- id is consumed; and `newt_wg_init` gives the WireGuard library what the message says: host, port
      -- and tunnel address, with a mask of one host and a keepalive of 25 seconds, where the host has at
      -- most 63 characters, inet_pton reads the addresses, and memory and the TCP/IP task are there.
      pub lives-tunnel_init :
          (server tunnel : ℕ) (env : TcpipEnv)
          → length w.endpoint < wg_endpoint_max
          → Address c b inet_pton w.server_ip server
          → Address c b inet_pton w.tunnel_ip tunnel
          → env.semaphore ≡ true
          → env.callback ≡ true
          → let s =
              lives c b inet_pton registration_moves
                (record { newt = n; phase = registering; rejoins = rs }) in
            (s.phase ≡ tunnelling)
            × (s.newt.ws.queue ≡ some [])
            × (s.newt.proto.inflight_chain_register ≡ [])
            × (u : TunnelConfig) × ((Wg.Life.init b env
                  (some s.newt.wg_cfg)
                  (some s.newt.kp)
                  s.newt.wg).calls
                ≡ tunnel_init u ∷ [])
            × (u.endpoint ≡ w.endpoint)
            × (u.port ≡ w.endpoint_port)
            × (read_ip4 u.address ≡ some tunnel)
            × (read_ip4 u.netmask ≡ some 0xffffffff)
            × (u.persistent_keepalive ≡ 25)
      lives-tunnel_init server tunnel env host sa ta k l =
          let (u, calls, host_eq, port, address, netmask, keepalive) =
            newt_wg_init-handle_wg_connect c b inet_pton a.printed asking_newt.proto w (site_of n)
              server tunnel env n.kp n.wg
              (ap (λ o. o.calls)
                (handle_wg_connect_matched c b a.printed a.inner asking_newt.proto a.parsed_again w
                    a.chain (id-ne-nil t.r0 t.r1) a.config
                  ∙ ap
                      (λ x.
                        outcome (record asking_newt.proto { inflight_chain_register = [] })
                          (call_if x (wg_connect w)) esp_ok)
                      v.callback))
              host sa ta v.priv_whole v.public_whole k l in
          let r =
            receive_call-connect w
              (handled c b inet_pton message_text (chain_id_new t.r0 t.r1) w a queued_newt) in
          rw (lives-exchange, r.ws, r.proto, r.kp, r.wg, r.wg_cfg)
            (refl, refl, refl, u, calls, host_eq, port, address, netmask, keepalive)
