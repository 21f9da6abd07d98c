-- ===== src/Auth/Response.antt =====
-- newt_auth.c, `resp_append` and `http_event_cb`: the response buffer that grows with the data.
use newt_esp.Base.{
  ℕ, zero, suc, ◌+◌, ◌*◌, Bool, true, false, List, [], ◌∷◌, ◌++◌, Option, none, some, ltb, ◌==◌,
  if◌then◌else◌, length, Bytes, ◌>>=◌, or_else,
}
use newt_esp.Extern.{EspErr, esp_ok, err_no_mem}

-- `RESP_INIT_CAP` and `RESP_MAX_CAP`
abbrev pub init_cap : ℕ
init_cap = 1024

abbrev pub max_cap : ℕ
max_cap = 8192

-- `http_resp_t`; the buffer is the bytes that it holds before the terminator.
pub record Response : Type 0 where
  pub buf : Option Bytes
  pub len : ℕ
  pub cap : ℕ
  pub oom : Bool

-- `{0}`
abbrev pub no_response : Response
no_response = record { buf = none; len = 0; cap = 0; oom = false }

-- `while (nc < need) nc *= 2;` with fuel; `none` means that the fuel ran out.
unfoldable pub double_until : ℕ → ℕ → ℕ → Option ℕ
double_until zero need nc = none
double_until (suc fuel) need nc =
    let rest = double_until fuel need (nc * 2) in if ltb nc need then rest else some nc

-- Enough for every request of at most `max_cap` bytes, from any capacity but zero.
abbrev pub growth_fuel : ℕ
growth_fuel = 14

-- The copy, where the capacity is enough.
unfoldable pub store : Response → Bytes → Response
store r text = record r { buf = some (or_else r.buf [] ++ text); len = r.len + length text }

-- With the new capacity; the flag says whether `realloc` succeeds.
unfoldable pub reallocate : Bool → ℕ → Response → Bytes → Response × EspErr
unfolding store
reallocate memory nc r text =
    if memory
    then (store (record r { cap = if ltb max_cap nc then max_cap else nc }) text, esp_ok)
    else (record r { oom = true }, err_no_mem)

-- `resp_append`
unfoldable pub resp_append : Bool → Response → Bytes → Option (Response × EspErr)
unfolding store reallocate
resp_append memory r text =
    let need = r.len + length text + 1 in
    if ltb max_cap need
    then some (record r { oom = true }, err_no_mem)
    else if ltb r.cap need
    then (double_until growth_fuel need (if r.cap == 0 then init_cap else r.cap) >>= λ nc.
        some (reallocate memory nc r text))
    else some (store r text, esp_ok)

-- One event of the HTTP client: data with the answer of `realloc`, or any other.
pub data HttpEvent : Type 0 where
  on_data : Bool → Bytes → HttpEvent
  other_event : HttpEvent

-- `http_event_cb`
unfoldable pub http_event_cb : HttpEvent → Response → Option Response
http_event_cb other_event r = some r
http_event_cb (on_data memory []) r = some r
http_event_cb (on_data memory (x ∷ xs)) r = resp_append memory r (x ∷ xs) >>= λ done. some done.0

unfoldable pub perform_events : List HttpEvent → Response → Option Response
perform_events [] r = some r
perform_events (e ∷ es) r = http_event_cb e r >>= perform_events es
