-- ===== src/Auth/Fetch.antt =====
-- What the two calls of newt_auth.c write when the server answers.
use newt_esp.Auth.Complete.{arrived, content}
use newt_esp.Auth.Complete.Room.{AllAble, do_post-ret}
use newt_esp.Auth.Response.{max_cap}
use newt_esp.Auth.Request.{HttpEnv, Posted, do_post, build_url, ok, err, copy_field}
use newt_esp.Auth.Token.{
  zeroize, wipe, data_object, read_response, exchange, Fetched, accepts_token, accepts_register,
  get_token, name_member, register_with_provisioning_key,
}
use newt_esp.Auth.Wiping.{do_post_complete}
use newt_esp.Base.{
  ℕ, ◌<◌, ◌≤◌, ◌≡◌, ◌≢◌, refl, ap, sym, ◌∙◌, ◌⊎◌, inl, inr, true, false, Bool, List, [], ◌∷◌,
  Option, none, some, arith, length, Bytes, codes, or_else, ◌==◌, ◌||◌,
}
use newt_esp.Extern.{esp_ok, err_invalid_size, Cjson}
use newt_esp.Proto.State.{string_member}

module _ (c : Cjson) (env : HttpEnv) where
  -- The client is there and its call succeeds, with memory for every piece and a response of less than
  -- 8192 bytes; the status is one that the call accepts, and the text that arrived is a document whose
  -- member `data` is the object `d`.
  pub record Answers (accepts : ℕ → Bool) (d : c.Item) : Type 0 where
    pub root : c.Item
    pub client : env.client ≡ true
    pub performed : env.performed ≡ esp_ok
    pub able : AllAble env.events
    pub fits : length (arrived env.events) < max_cap
    pub accepted : accepts env.status ≡ true
    pub some_text : arrived env.events ≢ []
    pub parsed : c.parse (arrived env.events) ≡ some root
    pub has_data : c.get_item root (codes "data") ≡ some d
    pub object : c.is_object d ≡ true

  data_object_lem :
      (buf : Option Bytes) (text : Bytes) (root d : c.Item)
      → or_else buf [] ≡ text
      → text ≢ []
      → c.parse text ≡ some root
      → c.get_item root (codes "data") ≡ some d
      → c.is_object d ≡ true
      → data_object c buf ≡ ok d
  unfolding data_object
  data_object_lem none text root d e n p m o = absurd (n (sym e))
  data_object_lem (some b) text root d e n p m o =
      rw e (rw (p, data_object) (rw (m, data_object) (rw o)))

  module _ {accepts : ℕ → Bool} {d : c.Item} (a : Answers accepts d) where
    whole_response :
        (posted : Posted)
        → do_post env ≡ some posted
        → posted.ret ≡ esp_ok
        → content posted.response ≡ arrived env.events
    whole_response posted e good =
        let (posted', e', s, w) = do_post_complete env in
        let same : posted' ≡ posted = cc (e', e) in go posted' same w
      where
        go :
            (posted' : Posted)
            → posted' ≡ posted
            → (posted'.ret ≢ esp_ok) ⊎ (content posted'.response ≡ arrived env.events)
            → content posted.response ≡ arrived env.events
        go posted' same (inl bad) = absurd (bad (ap (λ x. x.ret) same ∙ good))
        go posted' same (inr all) = ap (λ x. content x.response) (sym same) ∙ all

    read_response_lem :
        (posted : Posted)
        → posted.ret ≡ esp_ok
        → posted.status ≡ env.status
        → content posted.response ≡ arrived env.events
        → read_response c accepts posted ≡ (ok d, wipe posted.response)
    unfolding read_response
    read_response_lem posted good status whole =
        rw (good, status, a.accepted)
          (ap (λ r. (r, wipe posted.response))
            (data_object_lem posted.response.buf (arrived env.events) a.root d whole a.some_text
              a.parsed a.has_data a.object))

    exchange_lem :
        (endpoint path body : Bytes)
        → (freed : List Bytes) × (exchange c env true endpoint path body accepts
            ≡ some (ok d, freed))
    unfolding exchange build_url
    exchange_lem endpoint path body =
        let (posted, e, good, status) = do_post-ret env a.client a.performed a.able a.fits in
        let whole = whole_response posted e good in
        (
          zeroize (length body) body ∷ wipe posted.response,
          rw e (
              ap (λ r. some (r.0, zeroize (length body) body ∷ r.1))
                (read_response_lem posted good status whole)),
        )

  copy_field_fits :
      (d : c.Item) (key text : Bytes) (size : ℕ)
      → string_member c d key ≡ some text
      → length text < size
      → copy_field c d key size ≡ ok text
  unfolding copy_field
  copy_field_fits d key text size m l = rw (m, copy_field) (ground arith)

  -- When memory is there and the client's call ends with ESP_OK, status 200 and a response of less than
  -- 8192 bytes, and that response is a document whose member `data` has a string `token` that fits the
  -- buffer, fetching the token returns ESP_OK and writes that token, whatever the pieces in which the
  -- response arrived.
  pub get_token-Answers :
      (endpoint newt_id newt_secret body text : Bytes) (size : ℕ) (d : c.Item)
      → c.print_strings ((codes "newtId", newt_id) ∷ (codes "secret", newt_secret) ∷ []) ≡ some body
      → Answers accepts_token d
      → string_member c d (codes "token") ≡ some text
      → length text < size
      → (f : Fetched) × (get_token c env true
            (some endpoint)
            (some newt_id)
            (some newt_secret)
            true
            size
          ≡ some f)
        × (f.ret ≡ esp_ok)
        × (f.written ≡ text ∷ [])
  unfolding get_token
  get_token-Answers endpoint newt_id newt_secret body text size d p a m l =
      let (freed, e) = exchange_lem a endpoint (codes "/api/v1/auth/newt/get-token") body in
      let positive : (size == 0) ≡ false = ground arith in
      (
        record { ret = esp_ok; written = text ∷ []; freed = freed },
        rw (positive, p, get_token, e) (rw (copy_field_fits d (codes "token") text size m l)),
        refl,
        refl,
      )

  -- A registration that is answered with both fields, each within its buffer, writes both.
  pub register-Answers :
      (endpoint key body id secret : Bytes) (name : Option Bytes) (id_size secret_size : ℕ)
      (d : c.Item)
      → c.print_strings ((codes "provisioningKey", key) ∷ name_member name) ≡ some body
      → Answers accepts_register d
      → string_member c d (codes "newtId") ≡ some id
      → length id < id_size
      → string_member c d (codes "secret") ≡ some secret
      → length secret < secret_size
      → (f : Fetched) × (register_with_provisioning_key c env true
            (some endpoint)
            (some key)
            name
            true
            id_size
            true
            secret_size
          ≡ some f)
        × (f.ret ≡ esp_ok)
        × (f.written ≡ id ∷ secret ∷ [])
  unfolding register_with_provisioning_key
  register-Answers endpoint key body id secret name id_size secret_size d p a m l n k =
      let (freed, e) = exchange_lem a endpoint (codes "/api/v1/auth/newt/register") body in
      let positive : (id_size == 0 || secret_size == 0) ≡ false = ground arith in
      (
        record { ret = esp_ok; written = id ∷ secret ∷ []; freed = freed },
        rw (positive, p, register_with_provisioning_key, e)
            (rw (
              copy_field_fits d (codes "newtId") id id_size m l,
              copy_field_fits d (codes "secret") secret secret_size n k,
            )),
        refl,
        refl,
      )

  -- A secret that does not fit: the call fails, and the id is written all the same.
  pub register_partial :
      (endpoint key body id secret : Bytes) (name : Option Bytes) (id_size secret_size : ℕ)
      (d : c.Item)
      → c.print_strings ((codes "provisioningKey", key) ∷ name_member name) ≡ some body
      → Answers accepts_register d
      → string_member c d (codes "newtId") ≡ some id
      → length id < id_size
      → string_member c d (codes "secret") ≡ some secret
      → 0 < secret_size
      → secret_size ≤ length secret
      → (f : Fetched) × (register_with_provisioning_key c env true
            (some endpoint)
            (some key)
            name
            true
            id_size
            true
            secret_size
          ≡ some f)
        × (f.ret ≡ err_invalid_size)
        × (f.written ≡ id ∷ [])
  unfolding register_with_provisioning_key copy_field
  register_partial endpoint key body id secret name id_size secret_size d p a m l n z k =
      let (freed, e) = exchange_lem a endpoint (codes "/api/v1/auth/newt/register") body in
      let positive : (id_size == 0 || secret_size == 0) ≡ false = ground arith in
      let long : copy_field c d (codes "secret") secret_size ≡ err err_invalid_size =
        rw (n, copy_field) (ground arith) in
      (
        record { ret = err_invalid_size; written = id ∷ []; freed = freed },
        rw (positive, p, register_with_provisioning_key, e)
            (rw (copy_field_fits d (codes "newtId") id id_size m l, long)),
        refl,
        refl,
      )
