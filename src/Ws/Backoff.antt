-- ===== src/Ws/Backoff.antt =====
-- newt_ws.c, `apply_backoff` and `ws_event_handler`.
use newt_esp.Base.{
  ℕ, zero, suc, ◌+◌, ◌-◌, ◌≤◌, min, ◌≡◌, refl, ap, ◌∙◌, Bool, true, List, [], ◌∷◌, Option, none,
  some, arith, ltb, leb, ◌==◌, if◌then◌else◌, length, get_elem?,
}
use newt_esp.Ws.Frame.{Frame, Heap, handle_text_frame}
use newt_esp.Ws.State.{Ws}

-- `s_backoff_ms` and `s_backoff_n`
abbrev pub backoff_ms : List ℕ
backoff_ms = 1000 ∷ 2000 ∷ 5000 ∷ 10000 ∷ 30000 ∷ []

abbrev pub backoff_n : ℕ
backoff_n = length backoff_ms

-- `s_backoff_ms[i]`; `none` is an index out of range.
abbrev pub backoff_at : ℕ → Option ℕ
backoff_at = get_elem? backoff_ms

-- A handler's result: the state, and the reconnect timeout set on the client, if any.
pub record Handled : Type 0 where
  pub ws : Ws
  pub timeout : Option ℕ

abbrev timeout_if : Bool → Option ℕ → Option ℕ
timeout_if client wait = if client then wait else none

-- `apply_backoff`
unfoldable pub apply_backoff : Ws → Handled
apply_backoff w =
    let idx = if leb backoff_n w.attempt then backoff_n - 1 else w.attempt in
    record {
      ws = if ltb w.attempt (backoff_n - 1) then record w { attempt = w.attempt + 1 } else w;
      timeout = timeout_if w.client (backoff_at idx);
    }

-- The events that the client delivers; `other` stands for all other ids.
pub data Event : Type 0 where
  connected disconnected error other : Event
  received_data : Option (ℕ × Frame) → Event

-- The data event, by its op code.
unfoldable pub handle_data : Heap → Option (ℕ × Frame) → Ws → Handled
handle_data h none w = record { ws = w; timeout = none }
handle_data h (some (op_code, d)) w = record {
  ws = if op_code == 1 then handle_text_frame h d w else w;
  timeout = none;
}

-- `ws_event_handler`
unfoldable pub ws_event_handler : Heap → Event → Ws → Handled
unfolding apply_backoff handle_data
ws_event_handler h connected w = record {
  ws = record w { attempt = 0 };
  timeout = timeout_if w.client (backoff_at 0);
}
ws_event_handler h disconnected w = apply_backoff w
ws_event_handler h error w = apply_backoff w
ws_event_handler h (received_data d) w = handle_data h d w
ws_event_handler h other w = record { ws = w; timeout = none }

-- The state after `n` failures in a row.
pub failures : ℕ → Ws → Ws
failures zero w = w
failures (suc n) w = failures n (apply_backoff w).ws

apply_backoff-attempt :
    (w : Ws)
    → w.attempt ≤ 4
    → ((apply_backoff w).ws.attempt ≡ min (w.attempt + 1) 4)
      × ((apply_backoff w).ws.client ≡ w.client)
unfolding apply_backoff
apply_backoff-attempt w h = ground arith

failures-attempt :
    (n : ℕ) (w : Ws)
    → w.attempt ≤ 4
    → ((failures n w).attempt ≡ min (w.attempt + n) 4) × ((failures n w).client ≡ w.client)
unfolding failures
failures-attempt zero w h = (omega arith, refl)
failures-attempt (suc n) w h =
    let (a, c) = apply_backoff-attempt w h in
    let (a', c') = failures-attempt n (apply_backoff w).ws (omega arith) in (omega arith, c' ∙ c)

-- The wait before the attempt behind the (n + 1)th failure in a row, in milliseconds.
abbrev pub schedule : ℕ → ℕ
schedule zero = 1000
schedule (suc zero) = 2000
schedule (suc (suc zero)) = 5000
schedule (suc (suc (suc zero))) = 10000
schedule (suc (suc (suc (suc n)))) = 30000

backoff_at-min : (n : ℕ) → backoff_at (min n 4) ≡ some (schedule n)
backoff_at-min zero = refl
backoff_at-min (suc zero) = refl
backoff_at-min (suc (suc zero)) = refl
backoff_at-min (suc (suc (suc zero))) = refl
backoff_at-min (suc (suc (suc (suc n)))) =
    let e : min (suc (suc (suc (suc n)))) 4 ≡ 4 = omega arith in rw e

apply_backoff-timeout :
    (w : Ws) → w.attempt ≤ 4 → w.client ≡ true → (apply_backoff w).timeout ≡ backoff_at w.attempt
unfolding apply_backoff
apply_backoff-timeout w h c = ground arith

-- After a connection, the failures that follow in a row wait by the schedule, and never read the
-- table out of range.
pub apply_backoff-failures :
    (h : Heap) (n : ℕ) (w : Ws)
    → w.client ≡ true
    → (apply_backoff (failures n (ws_event_handler h connected w).ws)).timeout ≡ some (schedule n)
unfolding ws_event_handler
apply_backoff-failures h n w c =
    let start = record w { attempt = 0 } in
    let (a, c') = failures-attempt n start (omega arith) in
    let e : (failures n start).attempt ≡ min n 4 = omega arith in
    apply_backoff-timeout (failures n start) (omega arith) (c' ∙ c)
    ∙ ap backoff_at e
    ∙ backoff_at-min n
