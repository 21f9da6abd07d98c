-- ===== src/Auth/Wiping.antt =====
-- What a fetch leaves behind: every freed buffer is cleared, on every path, and what it returns
-- fits and comes from the complete response.
pub mod Freed
use newt_esp.Base.{
  ℕ, zero, suc, ◌<◌, ◌≡◌, ◌≢◌, refl, ◌⊎◌, inl, inr, Bool, true, false, List, [], ◌∷◌, Option, none,
  some, arith, ◌==◌, if◌then◌else◌, length, Bytes, drop, codes, Every, Bool-cases, Option-cases,
  append-nil,
}
use newt_esp.Auth.Complete.{arrived, content, perform_events_complete}
use newt_esp.Auth.Growth.{IsSound, BufferOk}
use newt_esp.Auth.Request.{HttpEnv, Posted, do_post, build_url, Result, ok, err, copy_field}
use newt_esp.Auth.Response.{Response, HttpEvent, no_response}
use newt_esp.Auth.Token.{
  zeros, zeroize, wipe, read_response, exchange, Fetched, failed, one_field, accepts_token,
  get_token,
}
use newt_esp.Extern.{EspErr, esp_ok, esp_fail, err_no_mem, err_invalid_arg, is_ok, Cjson}

abbrev pub IsCleared : Bytes → Type 0
IsCleared = Every (λ x. x ≡ 0)

zeros-IsCleared : (n : ℕ) → IsCleared (zeros n)
zeros-IsCleared zero = tt
zeros-IsCleared (suc n) = (refl, zeros-IsCleared n)

drop_all : (b : Bytes) → drop (length b) b ≡ []
drop_all [] = refl
drop_all (x ∷ b) = drop_all b

zeroize-IsCleared : (n : ℕ) (b : Bytes) → length b ≡ n → IsCleared (zeroize n b)
zeroize-IsCleared n b h =
    rw (← h, drop_all b, append-nil (zeros (length b))) (zeros-IsCleared (length b))

abbrev pub AllCleared : List Bytes → Type 0
AllCleared = Every IsCleared

abbrev wiped : ℕ → Option Bytes → List Bytes
wiped n none = []
wiped n (some b) = zeroize n b ∷ []

wiped-AllCleared : (o : Option Bytes) (len cap : ℕ) → BufferOk o len cap → AllCleared (wiped len o)
wiped-AllCleared none len cap v = tt
wiped-AllCleared (some b) len cap v = (zeroize-IsCleared len b v.0, tt)

wipe-wiped :
    (o : Option Bytes) (n : ℕ) (v : Bool) (cap : ℕ)
    → wipe (record { buf = o; len = n; cap = cap; oom = v }) ≡ wiped n o
wipe-wiped none n v cap = refl
wipe-wiped (some b) n v cap = refl

wipe-AllCleared : (r : Response) → IsSound r → AllCleared (wipe r)
wipe-AllCleared r v = rw (wipe-wiped r.buf r.len r.oom r.cap) (wiped-AllCleared r.buf r.len r.cap v)

is_ok-ne : (e : EspErr) → is_ok e ≡ false → e ≢ esp_ok
is_ok-ne e h = ground arith

whole :
    (r : Response) (es : List HttpEvent)
    → ((r.oom ≡ true) ⊎ ((r.oom ≡ false) × (content r ≡ arrived es)))
    → (((if r.oom then err_no_mem else esp_ok) ≢ esp_ok) ⊎ (content r ≡ arrived es))
whole r es (inl marked) = inl (ground arith)
whole r es (inr (clean, c)) = inr c

-- A request ends, its response is sound, and one that is returned without error is all that arrived.
pub do_post_complete :
    (env : HttpEnv)
    → (posted : Posted) × (do_post env ≡ some posted)
      × IsSound posted.response
      × ((posted.ret ≢ esp_ok) ⊎ (content posted.response ≡ arrived env.events))
unfolding do_post
do_post_complete env = elim (Bool-cases env.client) [
  | inr gone ↦ (
    record { response = no_response; status = 0; ret = esp_fail },
    rw (gone, do_post),
    (refl, refl),
    inl (λ e. cc),
  )
  | inl there ↦
      let (r, e, s, w) = perform_events_complete env.events in
      elim (Bool-cases (is_ok env.performed)) [
        | inr bad ↦ (
          record { response = r; status = 0; ret = env.performed },
          rw (there, do_post, e, bad),
          s,
          inl (is_ok-ne env.performed bad),
        )
        | inl good ↦ (
          record { response = r; status = env.status; ret = if r.oom then err_no_mem else esp_ok },
          rw (there, do_post, e, good),
          s,
          whole r env.events w,
        )
      ]
]

module _ (c : Cjson) (env : HttpEnv) (url_memory : Bool) where
  -- On each of its three ways the response is wiped.
  read_response-wipe :
      (accepts : ℕ → Bool) (posted : Posted)
      → (read_response c accepts posted).1 ≡ wipe posted.response
  unfolding read_response
  read_response-wipe accepts posted = ground arith

  exchange-AllCleared :
      (endpoint path body : Bytes) (accepts : ℕ → Bool)
      → (x : Result c.Item × List Bytes) × (exchange c env url_memory endpoint path body accepts
          ≡ some x)
        × AllCleared x.1
  unfolding exchange
  exchange-AllCleared endpoint path body accepts =
      let cleared = zeroize-IsCleared (length body) body refl in
      elim (Option-cases (build_url url_memory endpoint path)) [
        | inl e ↦
            ((err err_no_mem, zeroize (length body) body ∷ []), rw (e, exchange), (cleared, tt))
        | inr (url, e) ↦
            let (posted, h, s, w) = do_post_complete env in
            (
              (
                (read_response c accepts posted).0,
                zeroize (length body) body ∷ (read_response c accepts posted).1,
              ),
              rw (e, exchange, h),
              (cleared, rw (read_response-wipe accepts posted) (wipe-AllCleared posted.response s)),
            )
      ]

  -- What is known of every fetch: the freed buffers are cleared and the written texts fit.
  abbrev pub Clean : ℕ → Option Fetched → Type 0
  Clean size r =
      (f : Fetched) × (r ≡ some f) × AllCleared f.freed × Every (λ v. length v < size) f.written

  copied-fits :
      (d : c.Item) (key : Bytes) (size : ℕ) (freed : List Bytes)
      → AllCleared freed
      → Every (λ v. length v < size) (one_field (copy_field c d key size) freed).written
        × AllCleared (one_field (copy_field c d key size) freed).freed
  unfolding copy_field
  copied-fits d key size freed h = ground arith

  read_token :
      (size : ℕ) (x : Result c.Item × List Bytes)
      → AllCleared x.1
      → Clean size (
          some (elim x.0 [
            | err e ↦ failed e x.1
            | ok d ↦ one_field (copy_field c d (codes "token") size) x.1
          ]))
  read_token size (err e, freed) h = (failed e freed, refl, h, tt)
  read_token size (ok d, freed) h =
      let (f, a) = copied-fits d (codes "token") size freed h in
      (one_field (copy_field c d (codes "token") size) freed, refl, a, f)

  -- Fetching a token always ends; on every path, errors included, what is listed as freed is cleared,
  -- and a token that is written fits its buffer.
  pub get_token-Clean :
      (endpoint newt_id newt_secret : Option Bytes) (out : Bool) (size : ℕ)
      → Clean size (get_token c env url_memory endpoint newt_id newt_secret out size)
  unfolding get_token
  get_token-Clean (some e) (some i) (some s) true size = elim (Bool-cases (size == 0)) [
    | inl z ↦ (failed err_invalid_arg [], rw (z, get_token), tt, tt)
    | inr n ↦
        elim (Option-cases (c.print_strings ((codes "newtId", i) ∷ (codes "secret", s) ∷ []))) [
          | inl p ↦ (failed err_no_mem [], rw (n, get_token, p), tt, tt)
          | inr (body, p) ↦
              let (x, h, a) =
                exchange-AllCleared e (codes "/api/v1/auth/newt/get-token") body accepts_token in
              let (f, r, g, w) = read_token size x a in (f, rw (n, get_token, p, h) r, g, w)
        ]
  ]
  get_token-Clean _ _ _ _ size = (failed err_invalid_arg [], refl, tt, tt)
