-- ===== src/Proto/Tests.antt =====
-- Runs of newt_proto.c on concrete messages, and instances of the theorems on it.
use newt_esp.Base.{
  ℕ, ◌≡◌, ◌≢◌, refl, ap, or_else, get_elem?, true, List, [], ◌∷◌, none, some, arith, length, Bytes,
  codes, bytes_eq, decimal, split_last, strtol, read_digits, pos, negsuc,
}
use newt_esp.Extern.Sample.{
  Json, str, num, obj, arr, end, member, Items, nil, cons, sample_json, sample_base64, fill_bytes,
}
use newt_esp.Extern.{esp_ok, Cjson}
use newt_esp.Proto.ChainId.{chain_id_new, words_of, words_of-chain_id_new, check_chain}
use newt_esp.Proto.Connect.{
  IsConfig, read_config, read_fields, fill, deliver, handle_wg_connect, handle_wg_connect-IsConfig,
  handle_wg_connect_refused,
}
use newt_esp.Proto.Endpoint.{host_port, host_port-print, Form}
use newt_esp.Proto.Exchange.{send_register-handle_wg_connect, send_register-handle_wg_connect_other}
use newt_esp.Proto.ExitNodes.{
  handle_exit_nodes, handle_exit_nodes_chosen, handle_exit_nodes_dropped,
}
use newt_esp.Proto.Message.{
  handle_message, handle_message-Effect, Effect, run, config_version-run, Message,
}
use newt_esp.Proto.Send.{
  send_ping_request, send_ping_request-fits, send_register, send_register-fits, register_text,
}
use newt_esp.Proto.State.{WgConnect, wg_connect, exit_nodes, Proto, outcome, string_member}
use newt_esp.Ws.Envelope.{Link, send_envelope}

abbrev pub key_text : Bytes
key_text = codes "AAAAAAAAAAAAAAAAAAAAAAAAAAAAAAAAAAAAAAAAAAA="

abbrev pub id_text : Bytes
id_text = codes "0123456789abcdef"

abbrev pub connect_with : Bytes → Json
connect_with id = obj (
    member (codes "chainId") (str id) (
      member (codes "endpoint") (str (codes "vpn.example.org:51820")) (
        member (codes "publicKey") (str key_text) (
          member (codes "serverIP") (str (codes "100.89.128.1"))
            (member (codes "tunnelIP") (str (codes "100.89.128.4")) end)))))

abbrev pub nodes : Items
nodes = cons (obj (member (codes "exitNodeId") (num 3) end)) nil

abbrev pub answer_with : Bytes → Json
answer_with id =
    obj (member (codes "chainId") (str id) (member (codes "exitNodes") (arr nodes) end))

abbrev pub json : Cjson
json = sample_json (
    (codes "connect", connect_with id_text)
    ∷ (codes "bad", obj end)
    ∷ (codes "answer", answer_with id_text)
    ∷ [])

abbrev pub state : Proto
state = record {
  cb = record {
    on_wg_connect = true;
    on_wg_reconnect = true;
    on_wg_terminate = true;
    on_exit_nodes = true;
  };
  config_version = 4;
  inflight_chain_register = id_text;
  inflight_chain_ping_request = id_text;
  chosen_exit_node_id = negsuc 0;
}

abbrev pub config : WgConnect
config = record {
  endpoint = codes "vpn.example.org";
  endpoint_port = 51820;
  server_pubkey =
      7 ∷ 7 ∷ 7 ∷ 7 ∷ 7 ∷ 7 ∷ 7 ∷ 7 ∷ 7 ∷ 7 ∷ 7 ∷ 7 ∷ 7 ∷ 7 ∷ 7 ∷ 7 ∷ 7 ∷ 7 ∷ 7 ∷ 7 ∷ 7 ∷ 7 ∷ 7 ∷ 7
      ∷ 7 ∷ 7 ∷ 7 ∷ 7 ∷ 7 ∷ 7 ∷ 7 ∷ 7 ∷ [];
  server_ip = codes "100.89.128.1";
  tunnel_ip = codes "100.89.128.4";
}

abbrev link : Link
link = record { client = true; connected = true; memory = true; send_ok = true }

read_config_run : read_config json sample_base64 (connect_with id_text) ≡ some config
unfolding read_config read_fields fill sample_base64 bytes_eq host_port strtol split_last
    read_digits
read_config_run = refl

pub handle_wg_connect_run :
    handle_wg_connect json sample_base64 (codes "connect") state
    ≡ outcome (record state { inflight_chain_register = [] }) (wg_connect config ∷ []) esp_ok
unfolding handle_wg_connect deliver read_config read_fields fill sample_base64 bytes_eq host_port
    strtol split_last read_digits check_chain
handle_wg_connect_run = refl

handle_wg_connect-IsConfig_example : IsConfig config
handle_wg_connect-IsConfig_example =
    handle_wg_connect-IsConfig json sample_base64 (codes "connect") state config
      (ap (λ o. o.calls) handle_wg_connect_run)

refused : (handle_wg_connect json sample_base64 (codes "bad") state).ret ≢ esp_ok
unfolding handle_wg_connect deliver read_config check_chain bytes_eq
refused e = cc

handle_wg_connect_refused_example :
    ((handle_wg_connect json sample_base64 (codes "bad") state).calls ≡ [])
    × ((handle_wg_connect json sample_base64 (codes "bad") state).proto ≡ state)
handle_wg_connect_refused_example =
    handle_wg_connect_refused json sample_base64 (codes "bad") state refused

handle_exit_nodes_chosen_example :
    handle_exit_nodes json (codes "answer") state
    ≡ outcome
        (record state { inflight_chain_ping_request = []; chosen_exit_node_id = pos 3 })
        (exit_nodes ∷ [])
        esp_ok
unfolding bytes_eq
handle_exit_nodes_chosen_example =
    handle_exit_nodes_chosen json (codes "answer") (answer_with id_text) state refl (arr nodes)
      (obj (member (codes "exitNodeId") (num 3) end)) (num 3) []
      (record { valueint = pos 3; valuedouble_u64 = 3 }) refl (λ e. cc) refl refl refl refl

handle_exit_nodes_dropped_example :
    handle_exit_nodes json
      (codes "answer")
      (record state { inflight_chain_ping_request = codes "00" })
    ≡ outcome (record state { inflight_chain_ping_request = codes "00" }) [] esp_ok
unfolding bytes_eq
handle_exit_nodes_dropped_example =
    handle_exit_nodes_dropped json (codes "answer") (answer_with id_text)
      (record state { inflight_chain_ping_request = codes "00" }) refl id_text refl (λ e. cc)
      (λ e. cc) (λ e. cc)

handle_message-Effect_example :
    Effect
      (codes "newt/wg/terminate")
      9
      state
      (handle_message json sample_base64 (some (codes "newt/wg/terminate")) none 9 state)
handle_message-Effect_example =
    handle_message-Effect json sample_base64 (codes "newt/wg/terminate") none 9 state

abbrev history : List Message
history = (codes "pong", none, 7) ∷ (codes "newt/sync", none, 5) ∷ []

config_version-run_example : (run json sample_base64 history state).config_version ≡ 7
config_version-run_example = config_version-run json sample_base64 history state

host_port-print_example : host_port (codes "[fd00::1]:51820") ≡ some (codes "fd00::1", 51820)
unfolding decimal
host_port-print_example =
    host_port-print Form.bracket (codes "fd00::1") 51820 (omega arith) (omega arith) (ground arith)
      (omega arith) (omega arith)

words_of-chain_id_new_example :
    (length (chain_id_new 0x12345678 0xffffffff) ≡ 16)
    × (words_of (chain_id_new 0x12345678 0xffffffff) ≡ (0x12345678, 0xffffffff))
words_of-chain_id_new_example =
    words_of-chain_id_new 0x12345678 0xffffffff (omega arith) (omega arith)

chain_id_new_run : chain_id_new 0x12345678 0xffffffff ≡ codes "78563412ffffffff"
unfolding chain_id_new
chain_id_new_run = refl

abbrev raw_key : Bytes
raw_key = config.server_pubkey

send_ping_request-fits_example :
    (send_ping_request link 1 2 state).0.inflight_chain_ping_request ≡ chain_id_new 1 2
send_ping_request-fits_example =
    ap (λ x. x.0.inflight_chain_ping_request) (send_ping_request-fits link 1 2 state)

send_register-fits_example : send_register sample_base64 link 1 2 (some raw_key) state ≡ (
  record state { inflight_chain_register = chain_id_new 1 2 },
  send_envelope link 4
      (some (codes "newt/wg/register"))
      (some (register_text (negsuc 0) (fill_bytes 44 b'A') (chain_id_new 1 2))),
)
unfolding sample_base64
send_register-fits_example =
    send_register-fits sample_base64 link 1 2 raw_key (fill_bytes 44 b'A') state refl refl
      (omega arith)

-- The words of the id that the sample's answer carries.
abbrev pub word0 : ℕ
word0 = 0x67452301

abbrev pub word1 : ℕ
word1 = 0xefcdab89

pub answered :
    string_member json (connect_with id_text) (codes "chainId") ≡ some (chain_id_new word0 word1)
unfolding bytes_eq chain_id_new
answered = refl

send_register-handle_wg_connect_example :
    handle_wg_connect json sample_base64
      (codes "connect")
      (send_register sample_base64 link word0 word1 (some raw_key) state).0
    ≡ outcome (record state { inflight_chain_register = [] }) (wg_connect config ∷ []) esp_ok
unfolding bytes_eq sample_base64
send_register-handle_wg_connect_example =
    send_register-handle_wg_connect json sample_base64 link word0 word1 raw_key (fill_bytes 44 b'A')
      state refl refl (omega arith) (codes "connect") (connect_with id_text) refl config answered
      read_config_run

fresh : id_text ≢ chain_id_new 0x10 2
unfolding chain_id_new
fresh e = absurd (omega (arith, ap (λ l. or_else (get_elem? l 0) 0) e))

send_register-handle_wg_connect_other_example :
    handle_wg_connect json sample_base64
      (codes "connect")
      (send_register sample_base64 link 0x10 2 (some raw_key) state).0
    ≡ outcome (send_register sample_base64 link 0x10 2 (some raw_key) state).0 [] esp_ok
unfolding bytes_eq sample_base64
send_register-handle_wg_connect_other_example =
    send_register-handle_wg_connect_other json sample_base64 link 0x10 2 raw_key
      (fill_bytes 44 b'A') state refl refl (omega arith) (codes "connect") (connect_with id_text)
      refl id_text refl (λ e. cc) fresh
