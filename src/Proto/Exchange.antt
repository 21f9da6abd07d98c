-- ===== src/Proto/Exchange.antt =====
-- A registration and the messages that answer it: `newt_proto_send_register` together with
-- `handle_wg_connect`.
use newt_esp.Base.{ℕ, ◌≡◌, ◌≢◌, ap, [], some, arith, length, Bytes, codes}
use newt_esp.Extern.{esp_ok, Cjson, Base64}
use newt_esp.Proto.ChainId.{chain_id_new, length-chain_id_new}
use newt_esp.Proto.Connect.{
  key_len, read_config, handle_wg_connect, handle_wg_connect_matched, handle_wg_connect_dropped,
}
use newt_esp.Proto.Send.{send_register, send_register-fits, IsInt}
use newt_esp.Proto.State.{WgConnect, wg_connect, Proto, outcome, call_if, string_member}
use newt_esp.Ws.Envelope.{Link}

module _ (c : Cjson) (b : Base64) (link : Link) (r0 r1 : ℕ) (local_pubkey b64 : Bytes) (p : Proto)
    (key : length local_pubkey ≡ key_len) (enc : b.encode 64 local_pubkey ≡ some b64)
    (int : IsInt p.chosen_exit_node_id) where
  -- The state that a registration leaves.
  abbrev registered : Proto
  registered = (send_register b link r0 r1 (some local_pubkey) p).0

  inflight-registered : registered ≡ record p { inflight_chain_register = chain_id_new r0 r1 }
  inflight-registered =
      ap (λ x. x.0) (send_register-fits b link r0 r1 local_pubkey b64 p key enc int)

  id-ne-nil : chain_id_new r0 r1 ≢ []
  id-ne-nil e = absurd (omega (arith, ap length e, length-chain_id_new r0 r1))

  module _ (data_json : Bytes) (root : c.Item) (parsed : c.parse data_json ≡ some root) where
    -- After a registration, the answer with its id delivers the configuration that it holds and
    -- leaves no id in flight.
    pub send_register-handle_wg_connect :
        (w : WgConnect)
        → string_member c root (codes "chainId") ≡ some (chain_id_new r0 r1)
        → read_config c b root ≡ some w
        → handle_wg_connect c b data_json registered
          ≡ outcome
              (record p { inflight_chain_register = [] })
              (call_if p.cb.on_wg_connect (wg_connect w))
              esp_ok
    send_register-handle_wg_connect w s r =
        rw inflight-registered
          (handle_wg_connect_matched c b data_json root _ parsed w s id-ne-nil r)

    -- An answer with any other id is dropped, and the registration still waits.
    pub send_register-handle_wg_connect_other :
        (other : Bytes)
        → string_member c root (codes "chainId") ≡ some other
        → other ≢ []
        → other ≢ chain_id_new r0 r1
        → handle_wg_connect c b data_json registered ≡ outcome registered [] esp_ok
    send_register-handle_wg_connect_other other s ne d =
        rw inflight-registered
          (handle_wg_connect_dropped c b data_json root _ parsed other s ne id-ne-nil d)
