-- ===== src/Auth/Complete/Room.antt =====
-- A response of less than `max_cap` bytes is never marked, where memory is there.
use newt_esp.Base.{
  ℕ, ◌+◌, ◌≤◌, ◌≡◌, refl, ap, sym, ◌∙◌, true, false, List, [], ◌∷◌, Option, none, some, arith,
  length, length-append, Bytes, Option-cases, inl, inr, or_else, ◌==◌, if◌then◌else◌, ◌<◌,
}
use newt_esp.Extern.{EspErr, esp_ok}
use newt_esp.Auth.Complete.{arrived, content}
use newt_esp.Auth.Growth.{IsSound, BufferOk, Appended, stored, refused, resp_append-Appended}
use newt_esp.Auth.Request.{HttpEnv, Posted, do_post}
use newt_esp.Auth.Response.{
  Response, no_response, HttpEvent, on_data, other_event, http_event_cb, perform_events,
  resp_append, reallocate, double_until, growth_fuel, init_cap, max_cap,
}

-- Memory is there for every piece.
abbrev pub AllAble : List HttpEvent → Type 0
AllAble [] = Unit {0}
AllAble (on_data memory text ∷ es) = (memory ≡ true) × AllAble es
AllAble (other_event ∷ es) = AllAble es

resp_append-ret :
    (r : Response) (text : Bytes) (out : Response × EspErr)
    → r.len + length text + 1 ≤ max_cap
    → resp_append true r text ≡ some out
    → out.1 ≡ esp_ok
unfolding resp_append reallocate
resp_append-ret r text out l h =
    elim (Option-cases (
      double_until growth_fuel (r.len + length text + 1)
        (if r.cap == 0 then init_cap else r.cap))) [
          | inl e ↦ ground arith
          | inr (nc, e) ↦ ground arith
        ]

length-content : (o : Option Bytes) (len cap : ℕ) → BufferOk o len cap → length (or_else o []) ≡ len
length-content none len cap v = sym v.0
length-content (some b) len cap v = v.0

-- Sound, not marked, with `n` bytes.
record IsClean (n : ℕ) (r : Response) : Type 0 where
  sound : IsSound r
  unmarked : r.oom ≡ false
  holds : length (content r) ≡ n

Appended-IsClean :
    (n : ℕ) (r : Response) (text : Bytes) {r' : Response} {e : EspErr}
    → IsClean n r
    → Appended r text r' e
    → e ≡ esp_ok
    → IsClean (n + length text) r'
Appended-IsClean n r text v (stored s b o) g = record {
  sound = s;
  unmarked = o ∙ v.unmarked;
  holds =
      ap (λ x. length (or_else x [])) b
      ∙ length-append (content r) text
      ∙ ap (λ k. k + length text) v.holds;
}
Appended-IsClean n r text v (refused e) g = cc

perform_events-unmarked :
    (es : List HttpEvent) (n : ℕ) (r : Response)
    → AllAble es
    → n + length (arrived es) + 1 ≤ max_cap
    → IsClean n r
    → (r' : Response) × (perform_events es r ≡ some r') × (r'.oom ≡ false)
unfolding perform_events http_event_cb
perform_events-unmarked [] n r a l v = (r, refl, v.unmarked)
perform_events-unmarked (other_event ∷ es) n r a l v = perform_events-unmarked es n r a l v
perform_events-unmarked (on_data memory [] ∷ es) n r a l v = perform_events-unmarked es n r a.1 l v
perform_events-unmarked (on_data memory (x ∷ xs) ∷ es) n r a l v =
    let len = length-content r.buf r.len r.cap v.sound in
    let split = length-append (x ∷ xs) (arrived es) in
    let (out, e, w) = resp_append-Appended true r (x ∷ xs) v.sound in
    let ret = resp_append-ret r (x ∷ xs) out (omega (arith, len, v.holds, split, l)) e in
    let (r', h, u) =
      perform_events-unmarked es (n + length (x ∷ xs)) out.0 a.1 (omega (arith, split, l))
        (Appended-IsClean n r (x ∷ xs) v w ret) in
    (r', rw (a.0, e) h, u)

-- Such a request ends with ESP_OK and the server's status, if the client's call does.
pub do_post-ret :
    (env : HttpEnv)
    → env.client ≡ true
    → env.performed ≡ esp_ok
    → AllAble env.events
    → length (arrived env.events) < max_cap
    → (posted : Posted) × (do_post env ≡ some posted)
      × (posted.ret ≡ esp_ok)
      × (posted.status ≡ env.status)
unfolding do_post
do_post-ret env there good a l =
    let (r, h, u) =
      perform_events-unmarked env.events 0 no_response a (omega (arith, l))
        (record { sound = (refl, refl); unmarked = refl; holds = refl }) in
    (
      record { response = r; status = env.status; ret = esp_ok },
      rw (there, do_post, h, good, u) refl,
      refl,
      refl,
    )
