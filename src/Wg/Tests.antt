-- ===== src/Wg/Tests.antt =====
-- newt_wg.c: runs at concrete inputs, and instances of the theorems on them.
use newt_esp.Base.{
  decimal, ℕ, suc, ◌++◌, ◌<◌, ◌≡◌, ◌≢◌, refl, true, false, [], ◌∷◌, List, none, some, Bytes, codes,
  length, arith, if◌then◌else◌, ltb,
}
use newt_esp.Extern.{EspErr, esp_ok, esp_fail, err_retry}
use newt_esp.Extern.Sample.{fill_bytes, get_elem?-fill_bytes, sample_nvs, get_blob}
use newt_esp.Wg.Address.{ip4_to_str, ip4_to_str-fits, read_ip4}
use newt_esp.Wg.Connect.{Settles, start-Settles, attempts_of, reaches, added}
use newt_esp.Wg.KeyPair.{
  IsKey, Keeps, load_or_generate_keypair-Keeps, load_or_generate_keypair_again,
}
use newt_esp.Wg.Keys.{Keypair, load_or_generate_keypair}
use newt_esp.Wg.Life.{WgDone, StartEnv, connect_answer, connect_loop, start}
use newt_esp.Wg.Poller.{
  System, asking, ended, idle, waiting, InTurn, Turn, polls, stops, inits, starts, move, run,
}
use newt_esp.Wg.Quiet.{IsQuiet, run-IsQuiet, run_late}
use newt_esp.Wg.State.{Wg, down, handshaking, up, TcpipEnv}

ip4_to_str_text : ip4_to_str 0x018c5964 ≡ codes "100.89.140.1"
unfolding ip4_to_str decimal
ip4_to_str_text = refl

ip4_to_str-fits_example :
    (length (ip4_to_str 0xffffffff) < 16) × (read_ip4 (ip4_to_str 0xffffffff) ≡ some 0xffffffff)
ip4_to_str-fits_example = ip4_to_str-fits 0xffffffff (omega arith)

abbrev pub boot : Wg
boot = record {
  priv_b64 = [];
  pub_b64 = [];
  server_pub_b64 = [];
  addr_str = [];
  mask_str = [];
  server_ip_str = codes "100.89.128.1";
  endpoint = [];
  port = 0;
  keepalive = 0;
  state = down;
  tunnel_ip = 0;
  local_pub = [];
  poller = false;
  poller_done = false;
  poller_stop_requested = false;
}

abbrev pub answering : EspErr → TcpipEnv
answering e = record { semaphore = true; callback = true; result = e }

-- Three requests for a retry, then the connection is made.
abbrev slow : StartEnv
slow = record {
  connect = λ i. answering (if ltb i 3 then err_retry else esp_ok);
  add_allowed_ip = answering esp_ok;
  semaphore = true;
  task = true;
}

start-Settles_example :
    (n : ℕ) × (d : WgDone) × Settles (connect_answer slow) 0 n
    × (start slow boot ≡ some d)
    × (connect_answer slow n ≢ esp_ok
        → (d.ret ≡ esp_fail) × (d.wg ≡ boot) × (d.calls ≡ attempts_of slow (suc n)))
    × (connect_answer slow n ≡ esp_ok
        → (d.wg.state ≡ handshaking)
          × (d.calls ≡ attempts_of slow (suc n) ++ reaches slow.add_allowed_ip (added boot)))
start-Settles_example = start-Settles slow boot

-- A library that always asks for a retry is asked eleven times.
connect_loop_retry : connect_loop 11 0 (λ i. err_retry) ≡ some (false, 11)
unfolding connect_loop
connect_loop_retry = refl

abbrev pub curve : Bytes → Bytes → Bytes
curve n p = fill_bytes 32 5

abbrev pub old : Keypair
old = record { priv = []; public = [] }

pub random-IsKey : IsKey (fill_bytes 32 255)
unfolding fill_bytes
random-IsKey = record {
  whole = refl;
  bytes = λ i b h. omega (arith, get_elem?-fill_bytes 32 255 i b h);
}

made :
    (load_or_generate_keypair sample_nvs esp_ok curve (fill_bytes 32 255) none (some old) []).ret
    ≡ esp_ok
unfolding load_or_generate_keypair get_blob
made = refl

load_or_generate_keypair-Keeps_example :
    Keeps sample_nvs curve none
      (fill_bytes 32 255)
      (load_or_generate_keypair sample_nvs esp_ok curve (fill_bytes 32 255) none (some old) [])
load_or_generate_keypair-Keeps_example =
    load_or_generate_keypair-Keeps sample_nvs curve esp_ok (fill_bytes 32 255) none (some old) []
      random-IsKey made

load_or_generate_keypair_again_example :
    load_or_generate_keypair sample_nvs esp_ok curve
      (fill_bytes 32 9)
      (load_or_generate_keypair sample_nvs esp_ok curve
        (fill_bytes 32 255)
        none
        (some old)
        []).store
      (some old)
      []
    ≡ load_or_generate_keypair sample_nvs esp_ok curve (fill_bytes 32 255) none (some old) []
load_or_generate_keypair_again_example =
    load_or_generate_keypair_again sample_nvs curve esp_ok (fill_bytes 32 255) (fill_bytes 32 9)
      none old old [] [] random-IsKey made

abbrev off : System
off = record {
  wg = boot;
  poller = ended;
  caller = idle;
  given = false;
  late = false;
  fault = false;
}

off-IsQuiet : IsQuiet off
off-IsQuiet = ground arith

-- Up, stopped while the poller sleeps, and started again.
abbrev turns : List Turn
turns =
    inits
    ∷ starts slow
    ∷ polls false
    ∷ stops false
    ∷ stops false
    ∷ polls false
    ∷ polls false
    ∷ stops false
    ∷ stops false
    ∷ stops false
    ∷ inits
    ∷ starts slow
    ∷ []

turns-InTurn : InTurn turns off
unfolding move
turns-InTurn = ground arith

run-IsQuiet_example : IsQuiet (run turns off)
unfolding run move
run-IsQuiet_example = run-IsQuiet turns off turns-InTurn off-IsQuiet refl

abbrev stuck : System
stuck = record {
  wg = record boot { state = handshaking; poller = true; poller_done = true };
  poller = asking;
  caller = waiting;
  given = false;
  late = false;
  fault = false;
}

run_late_example :
    let t = run (stops true ∷ stops false ∷ stops false ∷ polls true ∷ polls true ∷ []) stuck in
    (t.caller ≡ idle) × (t.wg.poller ≡ false) × (t.wg.state ≡ up) × (t.fault ≡ true)
run_late_example = run_late stuck refl refl refl refl
