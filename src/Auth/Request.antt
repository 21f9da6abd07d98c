-- ===== src/Auth/Request.antt =====
-- newt_auth.c, `do_post`, `build_url` and `copy_field`.
use newt_esp.Base.{
  ℕ, ◌+◌, Bool, not, List, ◌++◌, Option, none, some, ltb, if◌then◌else◌, length, Bytes, ◌>>=◌,
  strip_slashes,
}
use newt_esp.Auth.Response.{Response, no_response, HttpEvent, perform_events}
use newt_esp.Extern.{
  EspErr, esp_ok, esp_fail, err_no_mem, err_invalid_response, err_invalid_size, is_ok, Cjson,
}
use newt_esp.Proto.State.{string_member}

-- What the HTTP client answers to one request.
pub record HttpEnv : Type 0 where
  pub client : Bool
  pub events : List HttpEvent
  pub performed : EspErr
  pub status : ℕ

pub record Posted : Type 0 where
  pub response : Response
  pub status : ℕ
  pub ret : EspErr

-- `do_post`, from the empty response; `none` would be a loop that does not end.
unfoldable pub do_post : HttpEnv → Option Posted
do_post env =
    if not env.client
    then some (record { response = no_response; status = 0; ret = esp_fail })
    else perform_events env.events no_response >>= λ r. some (
        if not (is_ok env.performed)
        then record { response = r; status = 0; ret = env.performed }
        else record {
          response = r;
          status = env.status;
          ret = if r.oom then err_no_mem else esp_ok;
        })

-- `build_url`; the flag says whether `malloc` succeeds.
unfoldable pub build_url : Bool → Bytes → Bytes → Option Bytes
build_url memory endpoint path = if memory then some (strip_slashes endpoint ++ path) else none

-- A value, or the error that is returned in its place.
pub data Result {ℓ} (A : Type ℓ) : Type ℓ where
  ok : A → Result A
  err : EspErr → Result A

-- `copy_field`: the text that is written to `out` with its terminator.
unfoldable pub copy_field : (c : Cjson) → c.Item → Bytes → ℕ → Result Bytes
copy_field c item key out_size = elim (string_member c item key) [
  | none ↦ err err_invalid_response
  | some v ↦ if ltb out_size (length v + 1) then err err_invalid_size else ok v
]
