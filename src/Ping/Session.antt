-- ===== src/Ping/Session.antt =====
-- newt_ping.c: the session handle over `newt_ping_init`, `newt_ping_start` and `newt_ping_stop`.
-- The ping library enters by its answers, and the calls made to it are listed.
use newt_esp.Base.{ℕ, Bool, List, [], ◌∷◌, Option, none, some, if◌then◌else◌}
use newt_esp.Extern.{EspErr, esp_ok, err_invalid_arg, err_invalid_state}

-- `newt_ping_config_t`: the target is its 32 bits, and `on_reply` says whether it is set.
pub record PingConfig : Type 0 where
  pub target : ℕ
  pub interval_ms : ℕ
  pub timeout_ms : ℕ
  pub max_attempts : ℕ
  pub on_reply : Bool

-- `s_ping` and `s_cfg`, which is zero before the first configuration.
pub record Ping : Type 0 where
  pub session : Option ℕ
  pub cfg : Option PingConfig

-- What `esp_ping_new_session` answers: a handle, which is not null, or an error, which leaves the
-- handle of the caller as it was.
pub data NewSession : Type 0 where
  created : ℕ → NewSession
  failed : EspErr → NewSession

-- The calls of the ping library that touch a session.
pub data PingCall : Type 0 where
  new_session : ℕ → PingConfig → PingCall
  start_session : ℕ → PingCall
  stop_session : ℕ → PingCall
  delete_session : ℕ → PingCall

pub record Done : Type 0 where
  pub ping : Ping
  pub ret : EspErr
  pub calls : List PingCall

abbrev pub done : Ping → EspErr → List PingCall → Done
done s e xs = record { ping = s; ret = e; calls = xs }

-- `newt_ping_init`; the configuration is kept also when no session is made.
unfoldable pub init : NewSession → Option PingConfig → Ping → Done
init answer none s = done s err_invalid_arg []
init (created h) (some cfg) s =
    done (record { session = some h; cfg = some cfg }) esp_ok (new_session h cfg ∷ [])
init (failed e) (some cfg) s = done (record s { cfg = some cfg }) e []

-- `newt_ping_start`, with the answer of `esp_ping_start`
unfoldable pub start : EspErr → Ping → Done
start answer s = elim s.session [
  | none ↦ done s err_invalid_state []
  | some h ↦ done s answer (start_session h ∷ [])
]

-- `newt_ping_stop`
unfoldable pub stop : Ping → Done
stop s = elim s.session [
  | none ↦ done s esp_ok []
  | some h ↦ done (record s { session = none }) esp_ok (stop_session h ∷ delete_session h ∷ [])
]

-- `on_ping_success`: the address and the time of the reply, as the callback gets them.
unfoldable pub on_ping_success : ℕ → ℕ → Ping → Option (ℕ × ℕ)
on_ping_success from elapsed_ms s = elim s.cfg [
  | none ↦ none
  | some cfg ↦ if cfg.on_reply then some (from, elapsed_ms) else none
]
