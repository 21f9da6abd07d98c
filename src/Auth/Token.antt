-- ===== src/Auth/Token.antt =====
-- newt_auth.c, `newt_auth_get_token` and `newt_auth_register_with_provisioning_key`. The buffers
-- that hold a secret are listed as they are when they are freed.
use newt_esp.Base.{
  ℕ, zero, suc, Bool, true, not, ◌||◌, List, [], ◌∷◌, ◌++◌, Option, none, some, ◌==◌, if◌then◌else◌,
  length, Bytes, ◌>>=◌, drop, codes,
}
use newt_esp.Auth.Request.{HttpEnv, Posted, do_post, build_url, Result, ok, err, copy_field}
use newt_esp.Auth.Response.{Response}
use newt_esp.Extern.{
  EspErr, esp_ok, esp_fail, err_no_mem, err_invalid_arg, err_invalid_response, err_not_allowed,
  is_ok, Cjson,
}

abbrev pub zeros : ℕ → Bytes
zeros zero = []
zeros (suc n) = 0 ∷ zeros n

-- `mbedtls_platform_zeroize(b, n)`
abbrev pub zeroize : ℕ → Bytes → Bytes
zeroize n b = zeros n ++ drop n b

-- `if (r.buf) { zeroize(r.buf, r.len); free(r.buf); }`
abbrev pub wipe : Response → List Bytes
wipe r = elim r.buf [ none ↦ [] | some b ↦ zeroize r.len b ∷ [] ]

-- `(status == 401 || status == 403) ? ESP_ERR_NOT_ALLOWED : ESP_FAIL`
unfoldable pub status_error : ℕ → EspErr
status_error status = if status == 401 || status == 403 then err_not_allowed else esp_fail

module _ (c : Cjson) where
  -- The member `data` of the parsed response; a null buffer parses to nothing.
  unfoldable pub data_object : Option Bytes → Result c.Item
  data_object none = err err_invalid_response
  data_object (some b) = elim (c.parse b) [
    | none ↦ err err_invalid_response
    | some root ↦ elim (c.get_item root (codes "data")) [
      | none ↦ err err_invalid_response
      | some d ↦ if c.is_object d then ok d else err err_invalid_response
    ]
  ]

  -- What follows the request, by its result and status. The second part is what the response's buffer
  -- holds when it is freed, on each of the three ways.
  unfoldable pub read_response : (ℕ → Bool) → Posted → Result c.Item × List Bytes
  unfolding data_object status_error
  read_response accepts posted =
      if not (is_ok posted.ret)
      then (err posted.ret, wipe posted.response)
      else if not (accepts posted.status)
      then (err (status_error posted.status), wipe posted.response)
      else (data_object posted.response.buf, wipe posted.response)

  -- Both functions from the printed body on: URL, request, response. The second part is what the
  -- freed buffers hold: the body is freed where the URL cannot be made, or behind the request.
  unfoldable pub exchange :
      HttpEnv → Bool → Bytes → Bytes → Bytes → (ℕ → Bool) → Option (Result c.Item × List Bytes)
  unfolding read_response
  exchange env url_memory endpoint path body accepts = elim (build_url url_memory endpoint path) [
    | none ↦ some (err err_no_mem, zeroize (length body) body ∷ [])
    | some url ↦ do_post env >>= λ posted.
        let (r, freed) = read_response accepts posted in
        some (r, zeroize (length body) body ∷ freed)
  ]

-- What a call leaves: the result with the texts written to the caller's buffers, and the freed
-- buffers.
pub record Fetched : Type 0 where
  pub ret : EspErr
  pub written : List Bytes
  pub freed : List Bytes

abbrev pub failed : EspErr → List Bytes → Fetched
failed e freed = record { ret = e; written = []; freed = freed }

abbrev pub one_field : Result Bytes → List Bytes → Fetched
one_field (ok v) freed = record { ret = esp_ok; written = v ∷ []; freed = freed }
one_field (err e) freed = failed e freed

-- The second field is copied only behind the first, which stays written if the second fails.
abbrev pub two_fields : Result Bytes → Result Bytes → List Bytes → Fetched
two_fields (err e) second freed = failed e freed
two_fields (ok v) (ok s) freed = record { ret = esp_ok; written = v ∷ s ∷ []; freed = freed }
two_fields (ok v) (err e) freed = record { ret = e; written = v ∷ []; freed = freed }

abbrev pub accepts_token : ℕ → Bool
accepts_token status = status == 200

abbrev pub accepts_register : ℕ → Bool
accepts_register status = status == 201 || status == 200

-- `newt_auth_get_token`; `none` is a null pointer, and `out` says whether the output is given. The
-- length written to `out_token_len` is that of the text.
unfoldable pub get_token :
    Cjson → HttpEnv → Bool → Option Bytes → Option Bytes → Option Bytes → Bool → ℕ → Option Fetched
unfolding exchange
get_token c env url_memory (some endpoint) (some newt_id) (some newt_secret) true out_size =
    if out_size == 0
    then some (failed err_invalid_arg [])
    else elim (c.print_strings ((codes "newtId", newt_id) ∷ (codes "secret", newt_secret) ∷ [])) [
      | none ↦ some (failed err_no_mem [])
      | some body ↦
          exchange c env url_memory endpoint (codes "/api/v1/auth/newt/get-token") body
            accepts_token
          >>= λ x. some (elim x.0 [
            | err e ↦ failed e x.1
            | ok d ↦ one_field (copy_field c d (codes "token") out_size) x.1
          ])
    ]
get_token c env url_memory _ _ _ _ out_size = some (failed err_invalid_arg [])

-- `if (name && name[0])`
abbrev pub name_member : Option Bytes → List (Bytes × Bytes)
name_member none = []
name_member (some []) = []
name_member (some (x ∷ xs)) = (codes "name", x ∷ xs) ∷ []

-- `newt_auth_register_with_provisioning_key`
unfoldable pub register_with_provisioning_key :
    Cjson
    → HttpEnv
    → Bool
    → Option Bytes
    → Option Bytes
    → Option Bytes
    → Bool
    → ℕ
    → Bool
    → ℕ
    → Option Fetched
unfolding exchange
register_with_provisioning_key c env url_memory (some endpoint) (some key) name true id_size true
      secret_size =
    if id_size == 0 || secret_size == 0
    then some (failed err_invalid_arg [])
    else elim (c.print_strings ((codes "provisioningKey", key) ∷ name_member name)) [
      | none ↦ some (failed err_no_mem [])
      | some body ↦
          exchange c env url_memory endpoint (codes "/api/v1/auth/newt/register") body
            accepts_register
          >>= λ x. some (elim x.0 [
            | err e ↦ failed e x.1
            | ok d ↦
                two_fields (copy_field c d (codes "newtId") id_size)
                  (copy_field c d (codes "secret") secret_size) x.1
          ])
    ]
register_with_provisioning_key c env url_memory _ _ name _ id_size _ secret_size =
    some (failed err_invalid_arg [])
