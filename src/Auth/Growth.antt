-- ===== src/Auth/Growth.antt =====
-- The response buffer: the doubling loop ends, the buffer is never overrun, and a response that is
-- not marked as too large is complete.
use newt_esp.Base.{
  ℕ, zero, suc, ◌+◌, ◌*◌, ◌^◌, ◌≤◌, ◌<◌, ◌≡◌, refl, ap, Bool, true, false, [], ◌++◌, Option, none,
  some, arith, ltb, ◌==◌, if◌then◌else◌, length, length-append, Bytes, or_else, ◌⊎◌, inl, inr,
  Bool-cases,
}
use native.Mathlib.Nat.{pow-suc}
use newt_esp.Extern.{EspErr, esp_ok, err_no_mem}
use newt_esp.Auth.Response.{
  Response, max_cap, init_cap, double_until, store, reallocate, resp_append,
}

-- The loop ends with a capacity that is enough, at once or below twice what is needed.
pub double_until_enough :
    (fuel need nc : ℕ)
    → need ≤ nc * 2 ^ fuel
    → (c : ℕ) × (double_until (suc fuel) need nc ≡ some c)
      × (need ≤ c)
      × ((c ≡ nc) ⊎ (c < 2 * need))
unfolding double_until
double_until_enough zero need nc h = (nc, ground arith, omega arith, inl refl)
double_until_enough (suc fuel) need nc h = elim (Bool-cases (ltb nc need)) [
  | inr done ↦ (nc, rw done, ground arith, inl refl)
  | inl more ↦
      let (c, e, n, b) =
        double_until_enough fuel need (nc * 2)
          (omega (arith, pow-suc 2 fuel, ap (λ (t : ℕ). nc * t) (pow-suc 2 fuel))) in
      (c, rw (more, double_until) e, n, inr (ground arith))
]

-- The buffer and its numbers agree, and the terminator has a place within the allocated bytes.
abbrev pub BufferOk : Option Bytes → ℕ → ℕ → Type 0
BufferOk none len cap = (len ≡ 0) × (cap ≡ 0)
BufferOk (some b) len cap = (length b ≡ len) × (len < cap) × (cap ≤ max_cap)

abbrev pub IsSound : Response → Type 0
IsSound r = BufferOk r.buf r.len r.cap

-- What `resp_append` comes to: the text is behind the old content, or the response is marked.
pub data Appended (r : Response) (text : Bytes) : Response → EspErr → Type 0 where
  stored :
      {r' : Response}
      → IsSound r'
      → r'.buf ≡ some (or_else r.buf [] ++ text)
      → r'.oom ≡ r.oom
      → Appended r text r' esp_ok
  refused : {r' : Response} → r' ≡ record r { oom = true } → Appended r text r' err_no_mem

store-IsSound :
    (r : Response) (text : Bytes) (cap : ℕ)
    → IsSound r
    → r.len + length text < cap
    → cap ≤ max_cap
    → IsSound (store (record r { cap = cap }) text)
unfolding store
store-IsSound r text cap v h m = ground (arith, length-append (or_else r.buf []) text)

cap-le : (o : Option Bytes) (len cap : ℕ) → BufferOk o len cap → cap ≤ max_cap
cap-le none len cap v = omega arith
cap-le (some b) len cap v = omega arith

reallocate-Appended :
    (memory : Bool) (nc : ℕ) (r : Response) (text : Bytes)
    → IsSound r
    → r.len + length text + 1 ≤ nc
    → r.len + length text + 1 ≤ max_cap
    → Appended r text (reallocate memory nc r text).0 (reallocate memory nc r text).1
unfolding reallocate
reallocate-Appended false nc r text v h m = refused refl
reallocate-Appended true nc r text v h m =
    stored
      (store-IsSound r text (if ltb max_cap nc then max_cap else nc) v (ground arith)
        (ground arith))
      refl refl

abbrev Done : Bool → Response → Bytes → Type 0
Done memory r text =
    (out : Response × EspErr) × (resp_append memory r text ≡ some out) × Appended r text out.0 out.1

grow-Done :
    (memory : Bool) (r : Response) (text : Bytes)
    → IsSound r
    → ltb max_cap (r.len + length text + 1) ≡ false
    → ltb r.cap (r.len + length text + 1) ≡ true
    → Done memory r text
unfolding resp_append
grow-Done memory r text v fits more =
    let start = if r.cap == 0 then init_cap else r.cap in
    let (nc, e, n, b) = double_until_enough 13 (r.len + length text + 1) start (ground arith) in
    (
      reallocate memory nc r text,
      rw (fits, more, resp_append, e),
      reallocate-Appended memory nc r text v n (ground arith),
    )

-- Appending always ends. Either the text stands behind the old content, in a buffer of at most
-- `max_cap` bytes with a place for the terminator, or the response is marked and nothing else of it
-- changes.
pub resp_append-Appended :
    (memory : Bool) (r : Response) (text : Bytes)
    → IsSound r
    → (out : Response × EspErr) × (resp_append memory r text ≡ some out)
      × Appended r text out.0 out.1
unfolding resp_append
resp_append-Appended memory r text v = elim (Bool-cases (ltb max_cap (r.len + length text + 1))) [
  | inl large ↦ ((record r { oom = true }, err_no_mem), rw large, refused refl)
  | inr fits ↦ elim (Bool-cases (ltb r.cap (r.len + length text + 1))) [
    | inl more ↦ grow-Done memory r text v fits more
    | inr room ↦ (
      (store r text, esp_ok),
      rw (fits, room),
      stored (store-IsSound r text r.cap v (ground arith) (cap-le r.buf r.len r.cap v)) refl refl,
    )
  ]
]
