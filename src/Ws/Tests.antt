-- ===== src/Ws/Tests.antt =====
-- Runs of newt_ws.c on concrete input, and instances of the theorems on it.
use newt_esp.Base.{
  ◌≤◌, ◌≡◌, ◌≢◌, refl, true, false, List, [], ◌∷◌, ◌++◌, Option, none, some, arith, length, Bytes,
  codes, bytes_eq, inr, starts_with, strip_slashes, decimal,
}
use newt_esp.Extern.Sample.{Json, str, obj, end, member, sample_json, fill_bytes}
use newt_esp.Extern.{esp_ok, err_invalid_size, Cjson}
use newt_esp.Ws.Assembly.{fragments, receive, received, receive-fragments, receive_large, able}
use newt_esp.Ws.Backoff.{
  connected, ws_event_handler, apply_backoff, failures, apply_backoff-failures,
}
use newt_esp.Ws.Bounds.{IsBounded, handle_text_frame-IsBounded}
use newt_esp.Ws.Delivery.{drain, drain-queue_send, to_list, worker_turn-receive, worker_turn-stop}
use newt_esp.Ws.Envelope.{Link, envelope, send_envelope, send_envelope-fits}
use newt_esp.Ws.Frame.{Frame, handle_text_frame}
use newt_esp.Ws.Life.{WsConfig, InitEnv, init}
use newt_esp.Ws.Lifecycle.{
  IsClosed, After, init-After, LifeCall, inits, starts, steps, IsSettled, steps-IsSettled,
}
use newt_esp.Ws.Mailbox.{Activity, arrives, works, mailbox, websocket}
use newt_esp.Ws.Mailbox.Refines.{websocket_refines}
use newt_esp.Ws.State.{Ws, queue_send}
use newt_esp.Ws.Url.{
  url_encode, url_encode_lem, percent_decode, build_ws_url, build_ws_url-scheme, build_ws_url_long,
  url_max, host_of, url_text,
}
use newt_esp.Ws.Worker.{turned, ended, with_data_len, worker_turn, version_of, deliver}

abbrev pub closed : Ws
closed = record {
  client = false;
  endpoint = none;
  token = none;
  on_msg = false;
  url = none;
  queue = none;
  worker = false;
  worker_done = false;
  worker_stop_requested = false;
  attempt = 0;
  rx_assembly = none;
  rx_assembly_len = 0;
  rx_assembly_cap = 0;
}

-- Open, with a stale fragment in the buffer.
abbrev opened : Ws
opened = record closed {
  client = true;
  on_msg = true;
  queue = some [];
  rx_assembly = some (codes "old");
  rx_assembly_len = 3;
  rx_assembly_cap = 9;
}

abbrev link : Link
link = record { client = true; connected = true; memory = true; send_ok = true }

abbrev pong_text : Bytes
pong_text = codes "{\"type\":\"pong\"}"

receive_run :
    (receive able (fragments 15 0 (codes "{\"type" ∷ codes "\":\"pong\"}" ∷ [])) opened).queue
    ≡ some (some (codes "{\"type\":\"pong\"}") ∷ [])
unfolding receive handle_text_frame
receive_run = refl

send_envelope-fits_example :
    ((send_envelope link 7 (some (codes "newt/ping")) none).ret ≢ err_invalid_size)
    × ((send_envelope link 7 (some (codes "newt/ping")) none).text
        ≡ some (codes "{\"type\":\"newt/ping\",\"data\":{},\"configVersion\":7}"))
unfolding envelope decimal
send_envelope-fits_example = send_envelope-fits link 7 (codes "newt/ping") none

url_encode_lem_example :
    (length (url_encode (codes "a b/c")) ≤ 15)
    × (percent_decode (url_encode (codes "a b/c")) ≡ codes "a b/c")
url_encode_lem_example = url_encode_lem (codes "a b/c") (omega arith)

url_encode_run : url_encode (codes "a b/c") ≡ codes "a%20b%2Fc"
unfolding url_encode
url_encode_run = refl

build_ws_url-scheme_example :
    (build_ws_url true (codes "https://a.b") (codes "t") url_max
      ≡ build_ws_url true (codes "a.b") (codes "t") url_max)
    × (build_ws_url true (codes "http://a.b") (codes "t") url_max
        ≡ build_ws_url true (codes "a.b") (codes "t") url_max)
    × (build_ws_url true (codes "https://a.b/") (codes "t") url_max
        ≡ build_ws_url true (codes "a.b") (codes "t") url_max)
unfolding starts_with
build_ws_url-scheme_example = build_ws_url-scheme true (codes "a.b") (codes "t") url_max refl refl

build_ws_url_run :
    build_ws_url true (codes "https://a.b/") (codes "t") url_max
    ≡ (esp_ok, some (codes "wss://a.b/api/v1/ws?token=t&clientType=newt"))
unfolding build_ws_url host_of starts_with strip_slashes url_text url_encode
build_ws_url_run = refl

build_ws_url_long_example : (build_ws_url true (codes "a.b") (fill_bytes 473 b'A') url_max).1 ≡ none
unfolding fill_bytes
build_ws_url_long_example = build_ws_url_long true (codes "a.b") (fill_bytes 473 b'A') (omega arith)

receive-fragments_example :
    receive able (fragments 15 0 (codes "{\"type" ∷ codes "\":\"pong\"}" ∷ [])) opened
    ≡ received pong_text [] opened
receive-fragments_example =
    receive-fragments (codes "{\"type") (codes "\":\"pong\"}") [] [] opened (omega arith)
      (omega arith) refl

receive_large_example :
    receive able (fragments 70000 0 (codes "ab" ∷ codes "cd" ∷ [])) opened
    ≡ record opened { rx_assembly = none; rx_assembly_len = 0; rx_assembly_cap = 0 }
receive_large_example =
    receive_large able (codes "ab") (codes "cd" ∷ []) 70000 opened (omega arith) (omega arith)
      (omega arith)

-- A fragment that does not fit what is left of the buffer.
abbrev stray : Frame
stray = record { payload_len = 20; payload_offset = 4; text = codes "too long" }

handle_text_frame-IsBounded_example : IsBounded (handle_text_frame able stray opened)
handle_text_frame-IsBounded_example = handle_text_frame-IsBounded able stray opened (omega arith)

apply_backoff-failures_example :
    (apply_backoff (failures 3 (ws_event_handler able connected opened).ws)).timeout ≡ some 10000
apply_backoff-failures_example = apply_backoff-failures able 3 opened refl

abbrev pong : Json
pong = obj (member (codes "type") (str (codes "pong")) (member (codes "data") (obj end) end))

abbrev json : Cjson
json = sample_json ((pong_text, pong) ∷ [])

worker_turn-receive_example :
    (q : List (Option Bytes)) × ((receive able
        (fragments 15 0 (codes "{\"type" ∷ codes "\":\"pong\"}" ∷ []))
        opened).queue
      ≡ some q)
    × (worker_turn json false false true q ≡ (
      turned,
      some (with_data_len (codes "pong") (some (codes "{}")) (version_of json pong)),
      [],
    ))
unfolding bytes_eq
worker_turn-receive_example =
    worker_turn-receive json (codes "{\"type") (codes "\":\"pong\"}") [] opened pong (obj end)
      (codes "pong") (codes "{}") (omega arith) (omega arith) refl refl refl refl refl refl refl

drain-queue_send_example :
    drain json true (queue_send (some (codes "x") ∷ []) (some pong_text))
    ≡ drain json true (some (codes "x") ∷ []) ++ to_list (deliver json true pong_text)
drain-queue_send_example = drain-queue_send json true (some (codes "x") ∷ []) pong_text

worker_turn-stop_example : (worker_turn json false true true (queue_send [] none)).0 ≡ ended
worker_turn-stop_example = worker_turn-stop json false true []

abbrev config : WsConfig
config = record { endpoint = some (codes "https://a.b"); token = some (codes "t"); on_msg = true }

-- Everything succeeds but the last step, the creation of the task.
abbrev pub no_task : InitEnv
no_task = record {
  dup_endpoint = true;
  dup_token = true;
  url_memory = true;
  queue = true;
  semaphore = true;
  client = true;
  register_events = esp_ok;
  task = false;
}

pub closed-IsClosed : IsClosed closed
closed-IsClosed = ground arith

init-After_example : After (init no_task (some config) closed)
init-After_example = init-After no_task (some config) closed closed-IsClosed

abbrev retry : List LifeCall
retry =
    inits no_task (some config)
    ∷ inits (record no_task { task = true }) (some config)
    ∷ starts esp_ok
    ∷ []

steps-IsSettled_example : IsSettled (steps retry closed)
steps-IsSettled_example = steps-IsSettled retry closed (inr closed-IsClosed)

-- Two payloads, the second in pieces with a round of the worker between, then three rounds more.
abbrev activities : List Activity
activities =
    arrives pong_text []
    ∷ arrives (codes "{\"type") ((1, codes "\":\"pong\"}") ∷ [])
    ∷ works
    ∷ works
    ∷ works
    ∷ []

websocket_refines_example : websocket json true activities opened ≡ mailbox json true activities []
websocket_refines_example = websocket_refines json true activities opened [] (omega arith) refl
