-- ===== src/Proto/State.antt =====
-- newt_proto.c: the static state of the protocol, its callbacks and its initialisation.
use newt_esp.Base.{ℕ, Bool, List, [], ◌∷◌, Option, none, some, Bytes, ℤ, negsuc, if◌then◌else◌}
use newt_esp.Extern.{EspErr, esp_ok, err_invalid_arg, Cjson}

-- `newt_proto_wg_connect_t`
pub record WgConnect : Type 0 where
  pub endpoint : Bytes
  pub endpoint_port : ℕ
  pub server_pubkey : Bytes
  pub server_ip : Bytes
  pub tunnel_ip : Bytes

-- `newt_proto_callbacks_t`: which of the pointers are set.
pub record Callbacks : Type 0 where
  pub on_wg_connect : Bool
  pub on_wg_reconnect : Bool
  pub on_wg_terminate : Bool
  pub on_exit_nodes : Bool

-- A call of a callback, which leaves the protocol's state alone.
pub data Call : Type 0 where
  wg_connect : WgConnect → Call
  wg_reconnect wg_terminate exit_nodes : Call

-- The static variables. A buffer whose first character is zero is the empty text.
pub record Proto : Type 0 where
  pub cb : Callbacks
  pub config_version : ℕ
  pub inflight_chain_register : Bytes
  pub inflight_chain_ping_request : Bytes
  pub chosen_exit_node_id : ℤ

pub record Outcome : Type 0 where
  pub proto : Proto
  pub calls : List Call
  pub ret : EspErr

abbrev pub outcome : Proto → List Call → EspErr → Outcome
outcome p calls e = record { proto = p; calls = calls; ret = e }

-- `if (s_cb.f != NULL) s_cb.f(...)`
abbrev pub call_if : Bool → Call → List Call
call_if set call = if set then call ∷ [] else []

-- `newt_proto_init`
unfoldable pub init : Option Callbacks → Proto → Outcome
init none p = outcome p [] err_invalid_arg
init (some cb) p =
    outcome
      (record {
        cb = cb;
        config_version = 0;
        inflight_chain_register = [];
        inflight_chain_ping_request = [];
        chosen_exit_node_id = negsuc 0;
      })
      [] esp_ok

-- The string member `key` of an object.
abbrev pub string_member : (c : Cjson) → c.Item → Bytes → Option Bytes
string_member c root key = elim (c.get_item root key) [ none ↦ none | some i ↦ c.string_of i ]
