-- ===== src/Newt/LiveTests.antt =====
-- Runs of the supervisor beside `newt_stop` at concrete answers, and instances of the theorems.
use newt_esp.Auth.Tests.{json, pieces, token_object, token-Answers}
use newt_esp.Base.{
  starts_with, strip_slashes, bytes_eq, ◌≡◌, refl, true, false, [], ◌∷◌, List, none, some, codes,
  arith, inr,
}
use newt_esp.Extern.{esp_ok}
use newt_esp.Extern.Sample.{sample_base64}
use newt_esp.Newt.Ends.Gone.{lives-gone}
use newt_esp.Newt.Ends.Rejoins.{task_at}
use newt_esp.Newt.Ends.Run.{lives-ended}
use newt_esp.Newt.Live.{Phase, awaiting, requesting, asked, ended, online, supervise, Turn}
use newt_esp.Proto.State.{wg_connect, wg_reconnect}
use newt_esp.Proto.Tests.{config}
use newt_esp.Newt.Moves.{
  LiveMove, supervises, reconnects, stops, calls, peer_up, Crew, live, lives, receive_call, spawned,
  see_peer,
}
use newt_esp.Newt.Rejoin.{clears, awaits, gone, rejoin, rejoin_at}
use newt_esp.Wg.Address.{read_ip4}
use newt_esp.Wg
use newt_esp.Wg.Life.{StartEnv, WgDone, start, connect_loop}
use newt_esp.Ping.Session.{created}
use newt_esp.Newt.Overrun.{Goes, IsOverrun, lives-IsOverrun}
use newt_esp.Newt.Public.{no_bits, stop, Newt}
use newt_esp.Newt.Shutdown.{IsShut}
use newt_esp.Newt.Sound.{IsSound}
use newt_esp.Newt.Sound.Run.{lives-IsSound, lives-IsShut}
use newt_esp.Newt.TaskTests.{site, no_ws, quiet_link}
use newt_esp.Wg.State.{up}
use newt_esp.Wg.Tests.{answering}
use newt_esp.Ws.Life.{InitEnv, init, build_and_create}
use newt_esp.Ws.Lifecycle.{IsClosed}
use newt_esp.Ws.Url.{build_ws_url, host_of, url_text, url_encode}

-- The device before the token has come: the supervisor runs.
abbrev pub begun : Newt
begun = record site { token = []; supervisor = true; ping = record { session = none; cfg = none } }

abbrev made : InitEnv
made = record {
  dup_endpoint = true;
  dup_token = true;
  url_memory = true;
  queue = true;
  semaphore = true;
  client = true;
  register_events = esp_ok;
  task = true;
}

abbrev quick : StartEnv
quick = record {
  connect = λ i. answering esp_ok;
  add_allowed_ip = answering esp_ok;
  semaphore = true;
  task = true;
}

abbrev pub turn : Turn
turn = record {
  http = pieces;
  url_memory = true;
  ws = made;
  client_start = esp_ok;
  connected = false;
  connected_behind = false;
  link = quiet_link;
  r0 = 1;
  r1 = 2;
  tcpip = answering esp_ok;
  wg_start = quick;
  new_session = created 7;
  ping_start = esp_ok;
  task = true;
}

no_ws-IsClosed : IsClosed no_ws
no_ws-IsClosed = ground arith

begun-Goes :
    Goes json sample_base64 read_ip4 turn begun.endpoint begun.newt_id begun.newt_secret
      (codes "tok")
      no_ws
unfolding bytes_eq init build_ws_url host_of url_text url_encode starts_with strip_slashes
    build_and_create
begun-Goes = record {
  object = token_object;
  body = codes "{}";
  printed = refl;
  answers = token-Answers;
  has_token = refl;
  fits = omega arith;
  url = refl;
  inits = refl;
  starts = refl;
  waits = refl;
  waits_behind = refl;
}

-- With no reconnect task, at a phase of the supervisor.
abbrev crew : Newt → Phase → Crew
crew n p = record { newt = n; phase = p; rejoins = [] }

lives-IsOverrun_example :
    let s : Crew = crew begun (awaiting 0 begun.newt_secret) in
    IsShut (lives json sample_base64 read_ip4 (stops quiet_link (answering esp_ok) ∷ []) s).newt
    × IsOverrun (codes "tok") (
        lives json sample_base64 read_ip4
          (stops quiet_link (answering esp_ok)
            ∷ supervises turn
            ∷ supervises turn
            ∷ supervises turn
            ∷ supervises turn
            ∷ [])
          s)
lives-IsOverrun_example =
    lives-IsOverrun json sample_base64 read_ip4 turn quiet_link (answering esp_ok) 0 (codes "tok")
      begun no_bits [] refl no_ws-IsClosed begun-Goes

-- Two reconnect tasks are there when the stop has come, and a third is spawned.
abbrev seven : List (LiveMove json sample_base64 read_ip4)
seven =
    supervises turn
    ∷ reconnects 1 turn
    ∷ supervises turn
    ∷ supervises turn
    ∷ reconnects 1 turn
    ∷ stops quiet_link (answering esp_ok)
    ∷ calls wg_reconnect true
    ∷ reconnects 1 turn
    ∷ supervises turn
    ∷ supervises turn
    ∷ reconnects 0 turn
    ∷ reconnects 1 turn
    ∷ supervises turn
    ∷ supervises turn
    ∷ []

abbrev leaving : Crew
leaving = record {
  newt = record begun { events = some (record no_bits { stop = true }) };
  phase = requesting 0;
  rejoins = awaits ∷ clears ∷ [];
}

lives-ended_example :
    ((lives json sample_base64 read_ip4 seven leaving).phase ≡ ended)
    × ((lives json sample_base64 read_ip4 seven leaving).newt.supervisor ≡ false)
lives-ended_example = lives-ended json sample_base64 read_ip4 seven leaving refl refl (omega arith)

lives-gone_example : task_at (lives json sample_base64 read_ip4 seven leaving).rejoins 1 ≡ gone
lives-gone_example =
    lives-gone json sample_base64 read_ip4 1 seven leaving refl refl (omega arith) (omega arith)

begun-IsSound : IsSound (begun, requesting 0)
begun-IsSound = record {
  ws = inr no_ws-IsClosed;
  token = omega arith;
  handle = refl;
  bits = no_bits;
  held = refl;
  authed = refl;
  connected = refl;
  kept_open = refl;
  given = refl;
  configured = refl;
}

lives-IsSound_example :
    let s = lives json sample_base64 read_ip4 seven (crew begun (requesting 0)) in
    IsSound (s.newt, s.phase)
lives-IsSound_example =
    lives-IsSound json sample_base64 read_ip4 seven (crew begun (requesting 0)) begun-IsSound

-- The way online from the wait behind the ping request: the configuration comes while the supervisor
-- waits for it, and the peer is seen behind the first poll.
abbrev onward : List (LiveMove json sample_base64 read_ip4)
onward =
    supervises turn
    ∷ supervises turn
    ∷ calls (wg_connect config) true
    ∷ supervises turn
    ∷ supervises turn
    ∷ supervises turn
    ∷ supervises turn
    ∷ peer_up
    ∷ supervises turn
    ∷ supervises turn
    ∷ []

-- And then round again by one reconnect task.
abbrev round_again : List (LiveMove json sample_base64 read_ip4)
round_again =
    calls wg_reconnect true
    ∷ reconnects 0 turn
    ∷ reconnects 0 turn
    ∷ reconnects 0 turn
    ∷ reconnects 0 turn
    ∷ reconnects 0 turn
    ∷ calls (wg_connect config) true
    ∷ reconnects 0 turn
    ∷ reconnects 0 turn
    ∷ reconnects 0 turn
    ∷ reconnects 0 turn
    ∷ peer_up
    ∷ reconnects 0 turn
    ∷ []

lives_online : (lives json sample_base64 read_ip4 onward (crew begun asked)).phase ≡ online
unfolding lives live supervise sample_base64 receive_call see_peer Wg.Life.init Wg.Life.start
    connect_loop Wg.Life.is_connected
lives_online = refl

lives_reconnected :
    let s = lives json sample_base64 read_ip4 round_again (crew begun online) in
    (s.newt.events ≡ some (record no_bits { wg_configured = true; wg_up = true }))
    × (s.newt.wg.state ≡ up)
    × (s.rejoins ≡ gone ∷ [])
unfolding lives live spawned rejoin_at rejoin sample_base64 receive_call see_peer Wg.Life.init
    Wg.Life.start Wg.Life.stop connect_loop Wg.Life.is_connected
lives_reconnected = (refl, refl, refl)

lives-IsShut_example :
    let n = (lives json sample_base64 read_ip4 onward (crew begun (requesting 0))).newt in
    IsShut (stop quiet_link (answering esp_ok) n).newt
    × ((stop quiet_link (answering esp_ok) n).newt.ws.url ≡ n.ws.url)
lives-IsShut_example =
    lives-IsShut json sample_base64 read_ip4 onward (crew begun (requesting 0)) quiet_link
      (answering esp_ok) begun-IsSound
