-- ===== src/Ws/State.antt =====
-- newt_ws.c: the static variables. Handles are flags or options; a buffer is the bytes written so far.
use newt_esp.Base.{
  ℕ, Bool, List, [], Option, none, some, Bytes, length, ltb, if◌then◌else◌, ◌∷◌, ◌++◌,
}

-- `WS_QUEUE_DEPTH` and `WS_RX_MAX`
abbrev pub queue_depth : ℕ
queue_depth = 8

abbrev pub rx_max : ℕ
rx_max = 65536

pub record Ws : Type 0 where
  pub client : Bool
  pub endpoint : Option Bytes
  pub token : Option Bytes
  pub on_msg : Bool
  pub url : Option Bytes
  -- The queue's content, oldest first; a message without a buffer is the stop signal.
  pub queue : Option (List (Option Bytes))
  pub worker : Bool
  pub worker_done : Bool
  pub worker_stop_requested : Bool
  pub attempt : ℕ
  pub rx_assembly : Option Bytes
  pub rx_assembly_len : ℕ
  pub rx_assembly_cap : ℕ

-- `xQueueSend` with no wait: nothing is added to a full queue.
abbrev pub queue_send : List (Option Bytes) → Option Bytes → List (Option Bytes)
queue_send q m = if ltb (length q) queue_depth then q ++ m ∷ [] else q

abbrev pub queue_send? : Option (List (Option Bytes)) → Option Bytes → Option (List (Option Bytes))
queue_send? none m = none
queue_send? (some q) m = some (queue_send q m)
