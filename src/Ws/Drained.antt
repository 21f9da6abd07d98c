-- ===== src/Ws/Drained.antt =====
-- What `newt_ws_stop` leaves behind, and that its wait for the worker always comes to an end.
use newt_esp.Base.{ℕ, suc, ◌≤◌, ◌≡◌, Bool, true, false, List, [], ◌∷◌, none, some, arith, inr, ◌∙◌}
use newt_esp.Proto.State.{Proto}
use newt_esp.Ws.Envelope.{Link}
use newt_esp.Ws.Life.{stop}
use newt_esp.Ws.Lifecycle.{IsClosed, IsOpen}
use newt_esp.Ws.Orderly.{IsOrderly, pumps-IsOrderly, worker_move-IsOrderly}
use newt_esp.Ws.Pump.{
  WorkerAt, checking, receiving, taken, handling, giving, ended, idle, waiting, Pump, worker_move,
  event_move, PumpMove, works, arrives, stops, opens, pump, pumps, InTurn,
}

-- What is left where nothing is open.
pub record IsDrained (s : Pump) : Type 0 where
  worker : s.worker ≡ ended
  ws : IsClosed s.ws
  payloads : s.allocated ≡ s.freed

IsOrderly-IsDrained : (s : Pump) → IsOrderly s → IsClosed s.ws → IsDrained s
IsOrderly-IsDrained s v k = let over : s.worker ≡ ended = ground arith in ground arith

-- Whatever the worker, the client's task and the callers of `newt_ws_init` and `newt_ws_stop` do and
-- however their moves fall, as long as no wait for the worker is given up and `newt_ws_init` is called
-- only where no `newt_ws_stop` is under way: no queue and no semaphore is used that does not exist; and
-- where the client is gone and no `newt_ws_stop` is under way, the worker has ended, no handle and no
-- copied text is held, and the payloads freed are as many as those allocated.
pub pumps-IsClosed :
    (ms : List PumpMove) (s : Pump)
    → InTurn ms s
    → IsOrderly s
    → (pumps ms s).late ≡ false
    → ((pumps ms s).fault ≡ false)
      × ((pumps ms s).caller ≡ idle → (pumps ms s).ws.client ≡ false → IsDrained (pumps ms s))
pumps-IsClosed ms s f v late =
    let w = pumps-IsOrderly ms s f v late in
    (w.faultless, λ i c. IsOrderly-IsDrained (pumps ms s) w (w.closed i c))

-- The moves of the worker until it has given the semaphore, once it is asked to stop.
abbrev left_of : WorkerAt → ℕ
left_of checking = 2
left_of receiving = 3
left_of (taken m) = 2
left_of handling = 3
left_of giving = 1
left_of ended = 0

-- `newt_ws_stop` waits, and the worker has `m` moves left at most.
record Waning (m : ℕ) (s : Pump) : Type 0 where
  orderly : IsOrderly s
  waits : s.caller ≡ waiting
  due : left_of s.worker ≤ m
  in_time : s.late ≡ false

works-due :
    (m : ℕ) (s : Pump)
    → IsOrderly s
    → s.caller ≡ waiting
    → left_of s.worker ≤ suc m
    → (left_of (worker_move s).worker ≤ m)
      × ((worker_move s).caller ≡ waiting)
      × ((worker_move s).late ≡ s.late)
unfolding worker_move
works-due m s v w l = ground arith

works-Waning : (m : ℕ) (s : Pump) → Waning (suc m) s → Waning m (worker_move s)
works-Waning m s v =
    let (l, w, e) = works-due m s v.orderly v.waits v.due in
    record {
      orderly = worker_move-IsOrderly s v.orderly;
      waits = w;
      due = l;
      in_time = e ∙ v.in_time;
    }

-- Nothing arrives meanwhile.
event_move-waiting :
    (memory : Bool) (buf : List ℕ) (s : Pump)
    → IsOrderly s
    → s.caller ≡ waiting
    → event_move memory buf s ≡ s
unfolding event_move
event_move-waiting memory buf s v w = ground arith

-- The moves of the worker in a run in which `newt_ws_stop` makes none and nothing is opened.
abbrev pub works_of : List PumpMove → ℕ
works_of [] = 0
works_of (works ∷ ms) = suc (works_of ms)
works_of (_ ∷ ms) = works_of ms

abbrev pub is_wait : PumpMove → Bool
is_wait (stops over) = false
is_wait (opens env cfg) = false
is_wait _ = true

abbrev pub AllWait : List PumpMove → Type 0
AllWait [] = Unit {0}
AllWait (m ∷ ms) = (is_wait m ≡ true) × AllWait ms

pumps-Waning :
    (ms : List PumpMove) (s : Pump) → AllWait ms → Waning (works_of ms) s → Waning 0 (pumps ms s)
unfolding pumps pump
pumps-Waning [] s a v = v
pumps-Waning (works ∷ ms) s a v = pumps-Waning ms _ a.1 (works-Waning (works_of ms) s v)
pumps-Waning (arrives memory buf ∷ ms) s a v =
    rw (event_move-waiting memory buf s v.orderly v.waits) (pumps-Waning ms s a.1 v)
pumps-Waning (opens env cfg ∷ ms) s a v = cc (a.0)
pumps-Waning (stops over ∷ ms) s a v = cc (a.0)

left_of-le : (w : WorkerAt) → left_of w ≤ 3
left_of-le w = ground arith

given_of : (s : Pump) → Waning 0 s → (s.worker ≡ ended) × (s.given ≡ true) × (s.late ≡ false)
given_of s v =
    let o = v.orderly in
    let d = v.due in
    let w = v.waits in
    let e : s.worker ≡ ended = ground arith in (e, o.signed e ((o.asked (inr w)).0), v.in_time)

-- While `newt_ws_stop` waits, three moves of the worker are enough, wherever it was, whatever the
-- client's task tries meanwhile, and also where the queue was full and the stop signal found no place
-- in it: then the semaphore is given, so that the wait can be over before its time.
pub pumps_given :
    (ms : List PumpMove) (s : Pump)
    → IsOrderly s
    → s.caller ≡ waiting
    → s.late ≡ false
    → AllWait ms
    → 3 ≤ works_of ms
    → ((pumps ms s).worker ≡ ended) × ((pumps ms s).given ≡ true) × ((pumps ms s).late ≡ false)
pumps_given ms s v w l a k = given_of _ (
    pumps-Waning ms s a
      (record { orderly = v; waits = w; due = omega (arith, left_of-le s.worker); in_time = l }))

-- A wait that is given up while the worker is in the message callback, as it is when the callback
-- itself calls `newt_stop`: the worker then finds no request to stop and receives from the queue that
-- was deleted.
pub pumps_late :
    (s : Pump)
    → s.worker ≡ handling
    → s.caller ≡ waiting
    → s.ws.worker_done ≡ true
    → s.given ≡ false
    → let t =
        pumps
          (stops true ∷ stops false ∷ stops false ∷ stops false ∷ works ∷ works ∷ works ∷ [])
          s in
      (t.caller ≡ idle) × (t.ws.queue ≡ none) × (t.worker ≡ receiving) × (t.fault ≡ true)
unfolding pumps pump
pumps_late s h w d g = ground arith

-- Undisturbed, with the worker blocked on the empty queue, the moves of `newt_ws_stop` come to the
-- state that the whole function gives.
pub pumps-stop :
    (link : Link) (p : Proto) (s : Pump)
    → IsOpen s.ws
    → s.ws.queue ≡ some []
    → s.worker ≡ receiving
    → s.caller ≡ idle
    → s.given ≡ false
    → (pumps
        (stops false
          ∷ stops false
          ∷ stops false
          ∷ works
          ∷ works
          ∷ works
          ∷ stops false
          ∷ stops false
          ∷ stops false
          ∷ stops false
          ∷ [])
        s).ws
      ≡ (stop link p s.ws).1
unfolding pumps pump stop
pumps-stop link p s o q w c g = ground (arith, o.client, o.worker, o.worker_done)
