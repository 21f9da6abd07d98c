-- ===== src/Ws/Orderly.antt =====
-- `newt_ws_stop` leaves no worker and no payload behind. This rests on its wait for the worker, which
-- always comes to an end by itself.
use newt_esp.Base.{
  ℕ, ◌+◌, ◌≡◌, ◌≢◌, refl, Bool, true, false, not, ◌&&◌, List, [], ◌∷◌, ◌++◌, Option, none, some,
  Bytes, arith, is_some, ◌⊎◌, inl, inr, Option-cases, Bool-cases, if◌then◌else◌,
}
use newt_esp.Extern.{EspErr, esp_ok, is_ok}
use newt_esp.Ws.Life
use newt_esp.Ws.Life.{InitEnv, WsConfig}
use newt_esp.Ws.Lifecycle.{IsClosed, IsOpen, After, init-After}
use newt_esp.Ws.Lifecycle.Opening.{init-queue, init_open}
use newt_esp.Ws.Pump.{
  WorkerAt, checking, receiving, taken, handling, ended, CallerAt, idle, signalling, waiting,
  releasing, draining, freeing, Pump, held, queued, queued?, receive_move, take_move, worker_move,
  event_move, stopping_move, opening_move, PumpMove, works, arrives, stops, opens, pump, pumps,
  is_idle, opens_ws, InTurn,
}
use newt_esp.Ws.State.{Ws, queue_send, queue_send?}

-- The payload that the worker holds.
abbrev pub in_hand : WorkerAt → ℕ
in_hand (taken m) = held m
in_hand handling = 1
in_hand _ = 0

-- How far `newt_ws_stop` is.
abbrev pub past_wait : CallerAt → Bool
past_wait releasing = true
past_wait draining = true
past_wait freeing = true
past_wait _ = false

abbrev pub filled? : Option (List (Option Bytes)) → Bool
filled? none = false
filled? (some []) = false
filled? (some (m ∷ q)) = true

pub record IsOrderly (s : Pump) : Type 0 where
  pub faultless : s.fault ≡ false
  pub counted : s.allocated ≡ s.freed + queued? s.ws.queue + in_hand s.worker
  pub handled : s.worker ≢ ended → s.ws.worker ≡ true
  pub guarded : s.ws.worker ≡ true → s.ws.worker_done ≡ true
  pub served : s.ws.worker ≡ true → is_some s.ws.queue ≡ true
  pub pending : s.worker ≢ ended → s.given ≡ false
  pub signed : s.worker ≡ ended → s.ws.worker ≡ true → s.given ≡ true
  pub fresh : s.ws.worker ≡ false → s.given ≡ false
  pub resting : s.ws.client ≡ true → s.caller ≡ idle
  pub opened : s.caller ≡ idle → s.ws.client ≡ true → IsOpen s.ws
  pub closed : s.caller ≡ idle → s.ws.client ≡ false → IsClosed s.ws
  pub asked :
      (s.caller ≡ signalling) ⊎ (s.caller ≡ waiting)
      → (s.ws.worker ≡ true) × (s.ws.worker_stop_requested ≡ true)
  pub woken : s.caller ≡ waiting → s.worker ≡ receiving → filled? s.ws.queue ≡ true
  pub alone : past_wait s.caller ≡ true → s.ws.worker ≡ false
  pub released : (s.caller ≡ draining) ⊎ (s.caller ≡ freeing) → s.ws.worker_done ≡ false
  pub emptied : s.caller ≡ freeing → s.ws.queue ≡ none

take_move-IsOrderly :
    (m : Option Bytes) (s : Pump) → s.worker ≡ taken m → IsOrderly s → IsOrderly (take_move m s)
unfolding take_move
take_move-IsOrderly m s e v = ground arith

receive_move-IsOrderly :
    (s : Pump) → s.worker ≡ receiving → IsOrderly s → IsOrderly (receive_move s)
unfolding receive_move
receive_move-IsOrderly s e v = ground arith

pub worker_move-IsOrderly : (s : Pump) → IsOrderly s → IsOrderly (worker_move s)
unfolding worker_move
worker_move-IsOrderly s v = ground arith

queued-append :
    (q : List (Option Bytes)) (m : Option Bytes) → queued (q ++ m ∷ []) ≡ queued q + held m
queued-append [] m = omega arith
queued-append (x ∷ q) m = omega (arith, queued-append q m)

sent-counted : (q : List (Option Bytes)) → queued (queue_send q none) ≡ queued q
sent-counted q = ground (arith, queued-append q none)

-- The stop signal holds no payload, and wakes the worker whether it finds a place or not.
stop_signal :
    (o : Option (List (Option Bytes)))
    → (queued? (queue_send? o none) ≡ queued? o)
      × (filled? (queue_send? o none) ≡ is_some o)
      × (is_some (queue_send? o none) ≡ is_some o)
stop_signal none = (refl, refl, refl)
stop_signal (some []) = (refl, refl, refl)
stop_signal (some (m ∷ q)) = (sent-counted (m ∷ q), ground arith, ground arith)

pub event_move-IsOrderly :
    (memory : Bool) (buf : Bytes) (s : Pump) → IsOrderly s → IsOrderly (event_move memory buf s)
unfolding event_move
event_move-IsOrderly memory buf s v = elim (Option-cases s.ws.queue) [
  | inl e ↦ ground arith
  | inr (q, e) ↦ ground (arith, queued-append q (some buf))
]

stopping_move-IsOrderly :
    (over : Bool) (s : Pump)
    → IsOrderly s
    → (stopping_move over s).late ≡ false
    → IsOrderly (stopping_move over s)
unfolding stopping_move
stopping_move-IsOrderly over s v h = ground (arith, stop_signal s.ws.queue)

abbrev opened_with : Ws × EspErr → Pump → Pump
opened_with r s = record s {
  ws = r.0;
  worker = if is_ok r.1 then checking else s.worker;
  given = if is_ok r.1 then false else s.given;
}

-- Where nothing was held, all is as new.
made-IsOrderly :
    (r : Ws × EspErr) (s : Pump)
    → IsOrderly s
    → s.caller ≡ idle
    → s.ws.client ≡ false
    → After r
    → (r.1 ≡ esp_ok → r.0.queue ≡ some [])
    → IsOrderly (opened_with r s)
made-IsOrderly r s v i n (inl (good, o)) q = let e = q good in ground arith
made-IsOrderly r s v i n (inr (bad, o)) q = ground arith

-- Where it was open, nothing changes.
same-IsOrderly :
    (r : Ws × EspErr) (s : Pump)
    → IsOrderly s
    → r.0 ≡ s.ws
    → is_ok r.1 ≡ false
    → IsOrderly (opened_with r s)
same-IsOrderly r s v e f = rw (e, f) v

idle_of : (at : CallerAt) → not (is_idle at) ≡ false → at ≡ idle
idle_of at h = ground arith

pub opening_move-IsOrderly :
    (env : InitEnv) (cfg : Option WsConfig) (s : Pump)
    → s.caller ≡ idle
    → IsOrderly s
    → IsOrderly (opening_move env cfg s)
unfolding opening_move
opening_move-IsOrderly env cfg s i v = elim (Bool-cases s.ws.client) [
  | inl ready ↦
      let (kept, failed) = init_open env cfg s.ws (v.opened i ready) in
      same-IsOrderly (Life.init env cfg s.ws) s v kept failed
  | inr shut ↦
      made-IsOrderly (Life.init env cfg s.ws) s v i shut (init-After env cfg s.ws (v.closed i shut))
        (init-queue env cfg s.ws)
]

pump-IsOrderly :
    (m : PumpMove) (s : Pump)
    → (opens_ws m && not (is_idle s.caller)) ≡ false
    → IsOrderly s
    → (pump m s).late ≡ false
    → IsOrderly (pump m s)
unfolding pump
pump-IsOrderly works s f v h = worker_move-IsOrderly s v
pump-IsOrderly (arrives memory buf) s f v h = event_move-IsOrderly memory buf s v
pump-IsOrderly (stops over) s f v h = stopping_move-IsOrderly over s v h
pump-IsOrderly (opens env cfg) s f v h = opening_move-IsOrderly env cfg s (idle_of s.caller f) v

late-pump : (m : PumpMove) (s : Pump) → s.late ≡ true → (pump m s).late ≡ true
unfolding pump
late-pump m s h = ground arith

late-pumps : (ms : List PumpMove) (s : Pump) → s.late ≡ true → (pumps ms s).late ≡ true
unfolding pumps
late-pumps [] s h = h
late-pumps (m ∷ ms) s h = late-pumps ms (pump m s) (late-pump m s h)

pub pumps-IsOrderly :
    (ms : List PumpMove) (s : Pump)
    → InTurn ms s
    → IsOrderly s
    → (pumps ms s).late ≡ false
    → IsOrderly (pumps ms s)
unfolding pumps
pumps-IsOrderly [] s f v h = v
pumps-IsOrderly (m ∷ ms) s f v h = elim (Bool-cases (pump m s).late) [
  | inl overdue ↦ let l = late-pumps ms (pump m s) overdue in cc
  | inr in_time ↦ pumps-IsOrderly ms (pump m s) f.1 (pump-IsOrderly m s f.0 v in_time) h
]
