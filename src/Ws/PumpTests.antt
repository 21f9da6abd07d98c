-- ===== src/Ws/PumpTests.antt =====
-- Runs of newt_ws.c's worker beside `newt_ws_stop`, and instances of the theorems.
use newt_esp.Base.{
  ◌≡◌, refl, true, false, [], ◌∷◌, List, none, some, codes, arith, starts_with, strip_slashes,
}
use newt_esp.Ws.Drained.{IsDrained, pumps-IsClosed, pumps_given, pumps_late}
use newt_esp.Ws.Life.{InitEnv, WsConfig, init, build_and_create}
use newt_esp.Ws.Orderly.{IsOrderly}
use newt_esp.Ws.Pump.{
  ended, handling, idle, waiting, receiving, Pump, InTurn, PumpMove, works, arrives, stops, opens,
  pump, pumps,
}
use newt_esp.Ws.Tests.{closed, no_task}
use newt_esp.Ws.Url.{build_ws_url, host_of, url_text, url_encode}

abbrev still : Pump
still = record {
  ws = closed;
  worker = ended;
  caller = idle;
  given = false;
  late = false;
  fault = false;
  allocated = 0;
  freed = 0;
}

still-IsOrderly : IsOrderly still
still-IsOrderly = ground arith

abbrev made : InitEnv
made = record no_task { task = true }

abbrev config : WsConfig
config = record { endpoint = some (codes "https://a.b"); token = some (codes "t"); on_msg = true }

-- Two payloads come, and the second is still in the queue when the websocket is stopped.
abbrev day : List PumpMove
day =
    opens made (some config)
    ∷ works
    ∷ works
    ∷ arrives true (codes "one")
    ∷ works
    ∷ arrives true (codes "two")
    ∷ stops false
    ∷ stops false
    ∷ works
    ∷ stops false
    ∷ works
    ∷ works
    ∷ works
    ∷ stops false
    ∷ stops false
    ∷ stops false
    ∷ stops false
    ∷ []

day-run :
    ((pumps day still).late ≡ false)
    × ((pumps day still).caller ≡ idle)
    × ((pumps day still).ws.client ≡ false)
    × ((pumps day still).allocated ≡ 2)
unfolding pumps pump init build_and_create build_ws_url host_of url_text url_encode starts_with
    strip_slashes
day-run = (refl, refl, refl, refl)

day-InTurn : InTurn day still
unfolding pump init build_and_create build_ws_url host_of url_text url_encode starts_with
    strip_slashes
day-InTurn = ground arith

pumps-IsClosed_example :
    ((pumps day still).fault ≡ false)
    × ((pumps day still).caller ≡ idle
        → (pumps day still).ws.client ≡ false
        → IsDrained (pumps day still))
pumps-IsClosed_example = pumps-IsClosed day still day-InTurn still-IsOrderly day-run.0

-- `newt_ws_stop` waits, with a worker that is in the message callback and a queue that holds the stop
-- signal.
abbrev held_up : Pump
held_up = record still {
  ws = record closed {
    endpoint = some (codes "https://a.b");
    token = some (codes "t");
    queue = some (none ∷ []);
    worker = true;
    worker_done = true;
    worker_stop_requested = true;
  };
  worker = handling;
  caller = waiting;
  allocated = 1;
}

held_up-IsOrderly : IsOrderly held_up
held_up-IsOrderly = ground arith

abbrev meanwhile : List PumpMove
meanwhile = works ∷ arrives true (codes "late") ∷ works ∷ works ∷ []

pumps_given_example :
    ((pumps meanwhile held_up).worker ≡ ended)
    × ((pumps meanwhile held_up).given ≡ true)
    × ((pumps meanwhile held_up).late ≡ false)
pumps_given_example =
    pumps_given meanwhile held_up held_up-IsOrderly refl refl (refl, (refl, (refl, (refl, tt))))
      (omega arith)

pumps_late_example :
    let t =
      pumps
        (stops true ∷ stops false ∷ stops false ∷ stops false ∷ works ∷ works ∷ works ∷ [])
        held_up in
    (t.caller ≡ idle) × (t.ws.queue ≡ none) × (t.worker ≡ receiving) × (t.fault ≡ true)
pumps_late_example = pumps_late held_up refl refl refl refl
