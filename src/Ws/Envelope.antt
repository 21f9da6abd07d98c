-- ===== src/Ws/Envelope.antt =====
-- newt_ws.c, `newt_ws_send_envelope`: one JSON envelope on the websocket.
use newt_esp.Base.{
  ℕ, ◌+◌, ◌≤◌, ◌≡◌, ◌≢◌, Bool, not, ◌&&◌, ◌||◌, [], ◌∷◌, ◌++◌, Option, none, some, arith, leb,
  if◌then◌else◌, length, length-append, Bytes, codes, decimal, length-decimal,
}
use newt_esp.Extern.{
  EspErr, esp_ok, esp_fail, err_no_mem, err_invalid_arg, err_invalid_state, err_invalid_size,
}

-- What the websocket client and the allocator answer during one call: whether `s_client` is set
-- and connected, whether `malloc` succeeds, and whether the send returns a number that is not
-- negative.
pub record Link : Type 0 where
  pub client : Bool
  pub connected : Bool
  pub memory : Bool
  pub send_ok : Bool

-- The text handed to `esp_websocket_client_send_text`, if any, and the returned error.
pub record Sent : Type 0 where
  pub text : Option Bytes
  pub ret : EspErr

abbrev pub unsent : EspErr → Sent
unsent e = record { text = none; ret = e }

-- The format `{"type":"%s","data":%s,"configVersion":%llu}`.
unfoldable pub envelope : Bytes → Bytes → ℕ → Bytes
envelope type_ body version =
    codes "{\"type\":\""
    ++ (type_
        ++ (codes "\",\"data\":"
            ++ (body ++ (codes ",\"configVersion\":" ++ (decimal version ++ codes "}")))))

-- `(data_json && *data_json) ? data_json : "{}"`
abbrev pub body_of : Option Bytes → Bytes
body_of none = codes "{}"
body_of (some []) = codes "{}"
body_of (some (c ∷ cs)) = c ∷ cs

-- The part behind the guards: size, allocation, formatting, sending.
unfoldable pub send_text : Link → ℕ → Bytes → Bytes → Sent
send_text link version type_ body =
    let need = length type_ + length body + 64 in
    let env = envelope type_ body version in
    if not link.memory
    then unsent err_no_mem
    else if leb need (length env)
    then unsent err_invalid_size
    else record { text = some env; ret = if link.send_ok then esp_ok else esp_fail }

unfoldable pub send_envelope : Link → ℕ → Option Bytes → Option Bytes → Sent
unfolding send_text
send_envelope link version none data_json = unsent err_invalid_arg
send_envelope link version (some type_) data_json =
    if not link.client || not link.connected
    then unsent err_invalid_state
    else send_text link version type_ (body_of data_json)

pub length-envelope :
    (type_ body : Bytes) (version : ℕ)
    → length (envelope type_ body version) ≤ length type_ + length body + 56
unfolding envelope
length-envelope type_ body version = omega (
  arith,
  length-decimal version,
  length-append type_ (
      codes "\",\"data\":"
      ++ (body ++ (codes ",\"configVersion\":" ++ (decimal version ++ codes "}")))),
  length-append body (codes ",\"configVersion\":" ++ (decimal version ++ codes "}")),
  length-append (decimal version) (codes "}"),
)

-- The allocated size always holds the formatted envelope: whatever the type, the data and the
-- version, ESP_ERR_INVALID_SIZE is never returned, and the text handed to the client is the whole
-- formatted envelope when the client is there and connected and memory is there, and none if not.
pub send_envelope-fits :
    (link : Link) (version : ℕ) (type_ : Bytes) (data_json : Option Bytes)
    → ((send_envelope link version (some type_) data_json).ret ≢ err_invalid_size)
      × ((send_envelope link version (some type_) data_json).text ≡ (
          if link.client && link.connected && link.memory
          then some (envelope type_ (body_of data_json) version)
          else none))
unfolding send_envelope
send_envelope-fits link version type_ data_json =
    ground (arith, length-envelope type_ (body_of data_json) version)
