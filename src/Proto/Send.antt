-- ===== src/Proto/Send.antt =====
-- newt_proto.c: the messages that the library sends. The random words, the base64 encoder and the
-- link are arguments.
use newt_esp.Base.{
  ℕ, ◌+◌, ◌^◌, ◌≤◌, ◌<◌, ◌≡◌, ◌++◌, Option, none, some, arith, leb, if◌then◌else◌, length,
  length-append, Bytes, codes, decimal, ℤ, pos, negsuc, length-digits-le,
}
use newt_esp.Extern.{esp_fail, err_invalid_arg, Base64}
use newt_esp.Proto.ChainId.{chain_id_new, length-chain_id_new}
use newt_esp.Proto.Connect.{key_len}
use newt_esp.Proto.State.{Proto}
use newt_esp.Ws.Envelope.{Link, Sent, unsent, send_envelope}

-- `snprintf(buf, cap, ...)` followed by the test for truncation, then the envelope.
unfoldable pub send_formatted : Link → ℕ → ℕ → Bytes → Bytes → Sent
send_formatted link version cap type_ text =
    if leb cap (length text)
    then unsent esp_fail
    else send_envelope link version (some type_) (some text)

unfoldable pub ping_request_text : Bytes → Bytes
ping_request_text id = codes "{\"noCloud\":false,\"chainId\":\"" ++ (id ++ codes "\"}")

-- `newt_proto_send_ping_request`
unfoldable pub send_ping_request : Link → ℕ → ℕ → Proto → Proto × Sent
unfolding send_formatted
send_ping_request link r0 r1 p =
    let id = chain_id_new r0 r1 in
    (
      record p { inflight_chain_ping_request = id },
      send_formatted link p.config_version 96 (codes "newt/ping/request") (ping_request_text id),
    )

-- The two formats of `newt_proto_send_register`.
unfoldable pub register_text : ℤ → Bytes → Bytes → Bytes
register_text (pos n) b64 id =
    codes "{\"publicKey\":\""
    ++ (b64
        ++ (codes "\",\"pingResults\":[{\"exitNodeId\":"
            ++ (decimal n
                ++ (codes
                      ",\"latencyMs\":1,\"weight\":1,\"exitNodeName\":\"\",\"endpoint\":\"\",\"wasPreviouslyConnected\":false}],\"newtVersion\":\"\",\"chainId\":\""
                    ++ (id ++ codes "\"}")))))
register_text (negsuc n) b64 id =
    codes "{\"publicKey\":\""
    ++ (b64
        ++ (codes "\",\"pingResults\":[],\"newtVersion\":\"\",\"chainId\":\""
            ++ (id ++ codes "\"}")))

-- `newt_proto_send_register`; the key is `none` for a null pointer.
unfoldable pub send_register : Base64 → Link → ℕ → ℕ → Option Bytes → Proto → Proto × Sent
unfolding send_formatted
send_register b link r0 r1 none p = (p, unsent err_invalid_arg)
send_register b link r0 r1 (some local_pubkey) p = elim (b.encode 64 local_pubkey) [
  | none ↦ (p, unsent esp_fail)
  | some b64 ↦
      let id = chain_id_new r0 r1 in
      (
        record p { inflight_chain_register = id },
        send_formatted link p.config_version 512 (codes "newt/wg/register")
            (register_text p.chosen_exit_node_id b64 id),
      )
]

-- `newt_proto_send_ping` and `newt_proto_send_disconnecting`
unfoldable pub send_ping : Link → Proto → Sent
send_ping link p =
    send_envelope link p.config_version (some (codes "newt/ping")) (some (codes "{}"))

unfoldable pub send_disconnecting : Link → Proto → Sent
send_disconnecting link p =
    send_envelope link p.config_version (some (codes "newt/disconnecting")) (some (codes "{}"))

-- The ping request always fits its buffer, so it is sent whole, under a new id.
pub send_ping_request-fits :
    (link : Link) (r0 r1 : ℕ) (p : Proto)
    → send_ping_request link r0 r1 p ≡ (
      record p { inflight_chain_ping_request = chain_id_new r0 r1 },
      send_envelope link p.config_version
          (some (codes "newt/ping/request"))
          (some (ping_request_text (chain_id_new r0 r1))),
    )
unfolding send_ping_request ping_request_text
send_ping_request-fits link r0 r1 p =
    ground (arith, length-chain_id_new r0 r1, length-append (chain_id_new r0 r1) (codes "\"}"))

-- An exit node id is an `int`.
abbrev pub IsInt : ℤ → Type 0
IsInt (pos n) = n < 2 ^ 31
IsInt (negsuc n) = n < 2 ^ 31

length-decimal-int : (n : ℕ) → n < 2 ^ 31 → length (decimal n) ≤ 10
unfolding decimal
length-decimal-int n h = length-digits-le 20 10 n (omega arith) (omega arith)

length-register_text :
    (z : ℤ) (b64 id : Bytes)
    → IsInt z
    → length (register_text z b64 id) ≤ length b64 + length id + 200
unfolding register_text
length-register_text (pos n) b64 id h = simp length-append (omega (arith, length-decimal-int n h))
length-register_text (negsuc n) b64 id h = simp length-append (omega arith)

-- With a key of the right length the registration always fits its buffer, whichever exit node is
-- chosen: it is sent whole, under a new id, and the call never fails for a truncated payload.
pub send_register-fits :
    (b : Base64) (link : Link) (r0 r1 : ℕ) (local_pubkey b64 : Bytes) (p : Proto)
    → length local_pubkey ≡ key_len
    → b.encode 64 local_pubkey ≡ some b64
    → IsInt p.chosen_exit_node_id
    → send_register b link r0 r1 (some local_pubkey) p ≡ (
      record p { inflight_chain_register = chain_id_new r0 r1 },
      send_envelope link p.config_version
          (some (codes "newt/wg/register"))
          (some (register_text p.chosen_exit_node_id b64 (chain_id_new r0 r1))),
    )
unfolding send_register
send_register-fits b link r0 r1 local_pubkey b64 p l e h = ground (
  arith,
  b.length-encode 64 local_pubkey b64 e,
  length-chain_id_new r0 r1,
  length-register_text p.chosen_exit_node_id b64 (chain_id_new r0 r1) h,
)
