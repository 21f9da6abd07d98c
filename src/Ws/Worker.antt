-- ===== src/Ws/Worker.antt =====
-- newt_ws.c, `worker_task`: queued text is parsed and handed to the message callback, which in
-- newt.c is `cb_ws_msg` and calls `newt_proto_handle_message`.
use newt_esp.Base.{
  ℕ, Bool, ◌||◌, List, [], ◌∷◌, Option, none, some, if◌then◌else◌, length, Bytes, codes, is_some,
  ◌>>=◌,
}
use newt_esp.Extern.{Cjson}
use newt_esp.Proto.State.{string_member}

-- The arguments of one call of `on_msg`.
pub record Delivered : Type 0 where
  pub type_ : Bytes
  pub data_json : Bytes
  pub data_len : ℕ
  pub config_version : ℕ

-- `data_str ? data_str : "{}"` with its length
abbrev pub with_data_len : Bytes → Option Bytes → ℕ → Delivered
with_data_len t none v = record {
  type_ = t;
  data_json = codes "{}";
  data_len = 2;
  config_version = v;
}
with_data_len t (some d) v = record {
  type_ = t;
  data_json = d;
  data_len = length d;
  config_version = v;
}

-- How one round of the loop ends: it blocks on the empty queue, goes round again, or the task
-- gives its semaphore and ends.
pub data Turn : Type 0 where
  blocked turned ended : Turn

module _ (c : Cjson) where
  -- Objects and arrays are printed again; anything else is no data.
  unfoldable pub data_of : c.Item → Option Bytes
  data_of root = elim (c.get_item root (codes "data")) [
    | none ↦ none
    | some j ↦ if c.is_object j || is_some (c.array_of j) then c.print_unformatted j else none
  ]

  unfoldable pub version_of : c.Item → ℕ
  version_of root = elim (c.get_item root (codes "configVersion") >>= c.number_of) [
    | none ↦ 0
    | some n ↦ n.valuedouble_u64
  ]

  -- The flag says whether `on_msg` is set.
  unfoldable pub deliver_root : Bool → c.Item → Option Delivered
  unfolding data_of version_of
  deliver_root on_msg root = elim (string_member c root (codes "type")) [
    | none ↦ none
    | some t ↦ if on_msg then some (with_data_len t (data_of root) (version_of root)) else none
  ]

  unfoldable pub deliver : Bool → Bytes → Option Delivered
  unfolding deliver_root
  deliver on_msg buf = elim (c.parse buf) [ none ↦ none | some root ↦ deliver_root on_msg root ]

  -- A message from the queue. The flag is the stop request as read behind the receive.
  unfoldable pub take_message : Bool → Bool → Option Bytes → Turn × Option Delivered
  unfolding deliver
  take_message stop on_msg m =
      if stop
      then (ended, none)
      else elim m [ none ↦ (turned, none) | some buf ↦ (turned, deliver on_msg buf) ]

  -- One round of the loop. The flags are the stop request as read before and behind the receive,
  -- which another task may set in between.
  unfoldable pub worker_turn :
      Bool → Bool → Bool → List (Option Bytes) → Turn × Option Delivered × List (Option Bytes)
  unfolding take_message
  worker_turn before behind on_msg q = if before then (ended, none, q) else elim q [
    | [] ↦ (blocked, none, [])
    | m ∷ rest ↦ let (turn, d) = take_message behind on_msg m in (turn, d, rest)
  ]
