-- ===== src/Newt/ArrivalTests.antt =====
-- Messages on their way to the tasks at concrete texts, and instances of the theorems.
use newt_esp.Base.{
  ◌≡◌, ◌++◌, refl, none, true, false, List, [], ◌∷◌, some, codes, arith, bytes_eq, Bytes,
  split_last, strtol, read_digits,
}
use newt_esp.Extern.{esp_ok, Cjson}
use newt_esp.Extern.Sample.{Json, str, obj, end, member, sample_json, sample_base64, fill_bytes}
use newt_esp.Newt.Arrival.{IsAnswer}
use newt_esp.Newt.Arrival.Exchange.{IsReady, registration_moves, lives-tunnel_init}
use newt_esp.Newt.Delivery.Terminated.{lives-terminated}
use newt_esp.Newt.Live.{Turn, registering, requesting, tunnelling, ended}
use newt_esp.Newt.LiveTests.{begun, turn}
use newt_esp.Newt.Moves.{LiveMove, supervises, reconnects, delivers, pings, Crew, lives}
use newt_esp.Newt.Public.{Newt, no_bits}
use newt_esp.Newt.Rejoin.{awaits}
use newt_esp.Newt.TaskTests.{addresses}
use newt_esp.Proto.ChainId.{chain_id_new}
use newt_esp.Proto.Connect.{read_config, read_fields, fill}
use newt_esp.Proto.Endpoint.{host_port}
use newt_esp.Proto.Tests.{config, connect_with, id_text, word0, word1, answered}
use newt_esp.Wg
use newt_esp.Wg.Address.{read_ip4}
use newt_esp.Wg.State.{TunnelConfig, tunnel_init}
use newt_esp.Wg.Tests.{answering}

abbrev first : Bytes
first = codes "{\"type\":\"newt/wg"

abbrev second : Bytes
second = codes "/connect\"}"

abbrev message : Json
message = obj (
    member (codes "type") (str (codes "newt/wg/connect"))
      (member (codes "data") (connect_with id_text) end))

-- The sample prints every object as "{}".
abbrev json : Cjson
json = sample_json ((first ++ second, message) ∷ (codes "{}", connect_with id_text) ∷ [])

abbrev linked : Newt
linked = record begun { ws = record begun.ws { client = true; on_msg = true; queue = some [] } }

abbrev asks : Turn
asks = record turn { r0 = word0; r1 = word1 }

linked-IsReady : IsReady json sample_base64 read_ip4 linked
unfolding sample_base64
linked-IsReady = record {
  bits = no_bits;
  b64 = fill_bytes 44 b'A';
  held = refl;
  going = refl;
  client = refl;
  queue = refl;
  on_msg = refl;
  no_stop = refl;
  priv_whole = refl;
  public_whole = refl;
  encodes = refl;
  int = omega arith;
  callback = refl;
}

message-read_config : read_config json sample_base64 (connect_with id_text) ≡ some config
unfolding read_config read_fields fill sample_base64 bytes_eq host_port strtol split_last
    read_digits
message-read_config = refl

message-IsAnswer :
    IsAnswer json sample_base64 read_ip4 (first ++ second) (chain_id_new word0 word1) config
unfolding bytes_eq
message-IsAnswer = record {
  root = message;
  jdata = connect_with id_text;
  printed = codes "{}";
  inner = connect_with id_text;
  parsed = refl;
  is_connect = refl;
  member = refl;
  object = refl;
  prints = refl;
  parsed_again = refl;
  chain = answered;
  config = message-read_config;
}

lives-tunnel_init_example :
    let s =
      lives json sample_base64 read_ip4
        (registration_moves json sample_base64 read_ip4 asks turn true linked
          (awaits ∷ [])
          first
          second
          []
          config)
        (record { newt = linked; phase = registering; rejoins = awaits ∷ [] }) in
    (s.phase ≡ tunnelling)
    × (s.newt.ws.queue ≡ some [])
    × (s.newt.proto.inflight_chain_register ≡ [])
    × (u : TunnelConfig) × ((Wg.Life.init sample_base64
          (answering esp_ok)
          (some s.newt.wg_cfg)
          (some s.newt.kp)
          s.newt.wg).calls
        ≡ tunnel_init u ∷ [])
    × (u.endpoint ≡ config.endpoint)
    × (u.port ≡ config.endpoint_port)
    × (read_ip4 u.address ≡ some 0x04805964)
    × (read_ip4 u.netmask ≡ some 0xffffffff)
    × (u.persistent_keepalive ≡ 25)
lives-tunnel_init_example =
    lives-tunnel_init json sample_base64 read_ip4 asks turn true linked (awaits ∷ []) first second
      [] config linked-IsReady (omega arith) (omega arith) message-IsAnswer 0x01805964 0x04805964
      (answering esp_ok) (omega arith) (addresses.0, omega arith) (addresses.1, omega arith) refl
      refl

abbrev farewell : Bytes
farewell = codes "{\"type\":\"newt/wg/terminate\"}"

abbrev goodbye : Json
goodbye = obj (member (codes "type") (str (codes "newt/wg/terminate")) end)

abbrev ending : Cjson
ending = sample_json ((farewell, goodbye) ∷ [])

-- The site has just begun when the message waits.
abbrev dismissed : Crew
dismissed = record {
  newt = record linked { ws = record linked.ws { queue = some (some farewell ∷ none ∷ []) } };
  phase = requesting 0;
  rejoins = awaits ∷ [];
}

abbrev turns_left : List (LiveMove ending sample_base64 read_ip4)
turns_left =
    supervises turn
    ∷ supervises turn
    ∷ reconnects 0 turn
    ∷ supervises turn
    ∷ supervises turn
    ∷ pings
    ∷ supervises turn
    ∷ supervises turn
    ∷ supervises turn
    ∷ []

lives-terminated_example :
    let s = lives ending sample_base64 read_ip4 (delivers true ∷ turns_left) dismissed in
    (s.phase ≡ ended) × (s.newt.supervisor ≡ false)
unfolding bytes_eq
lives-terminated_example =
    lives-terminated ending sample_base64 read_ip4 farewell goodbye (none ∷ []) true turns_left
      dismissed no_bits refl refl refl refl refl refl refl refl (omega arith)
