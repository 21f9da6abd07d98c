-- ===== src/Newt/Sound/Reach.antt =====
-- The supervisor's moves from the request for the token to the wait for the configuration.
use newt_esp.Auth.Token.{Fetched}
use newt_esp.Base.{
  ℕ, ◌+◌, ◌<◌, ◌⊎◌, ◌≡◌, refl, Bool, true, List, [], ◌∷◌, some, arith, Every, Bytes, length,
  Bool-cases, inl, inr,
}
use newt_esp.Extern.{EspErr, esp_ok, is_ok}
use newt_esp.Newt.Live.{
  awaiting, opening, starting, polling, asking, configuring, tunnelling, token_max, written_or,
  with_bits, finish, answered, open_live, start_live, poll_live, configured_live,
}
use newt_esp.Newt.Public.{EventBits, Newt}
use newt_esp.Ws.Life.{InitEnv}
use newt_esp.Ws.State.{Ws}
use newt_esp.Ws
use newt_esp.Ws.Lifecycle.{init-IsSettled, start-IsSettled, init_ok-IsOpen}
use newt_esp.Newt.Sound.{IsSound, moved, finish-IsSound, with_ws}

written_or-lt :
    (written : List Bytes) (old : Bytes)
    → Every (λ v. length v < token_max) written
    → length old < token_max
    → length (written_or written old) < token_max
written_or-lt [] old e h = h
written_or-lt (v ∷ vs) old e h = e.0

pub answered-IsSound :
    (k : ℕ) (f : Fetched) (n : Newt) (secret : Bytes)
    → Every (λ v. length v < token_max) f.written
    → IsSound (n, awaiting k secret)
    → IsSound (answered k f n)
unfolding answered
answered-IsSound k f n secret e v =
    let fits = written_or-lt f.written n.token e v.token in
    elim (Bool-cases (is_ok f.ret)) [
      | inl good ↦
          rw (good, answered, v.held)
            (record {
              ws = v.ws;
              token = fits;
              handle = v.handle;
              bits = record v.bits { authed = true };
              held = refl;
              authed = refl;
              connected = refl;
              kept_open = refl;
              given = v.given;
              configured = refl;
            })
      | inr bad ↦
          rw (bad, answered)
            (record {
              ws = v.ws;
              token = fits;
              handle = v.handle;
              bits = v.bits;
              held = v.held;
              authed = refl;
              connected = refl;
              kept_open = refl;
              given = v.given;
              configured = refl;
            })
    ]

is_ok-eq : (e : EspErr) → is_ok e ≡ true → e ≡ esp_ok
is_ok-eq e h = ground arith

pub open_live-IsSound :
    (env : InitEnv) (n : Newt) → IsSound (n, opening) → IsSound (open_live env n)
unfolding open_live
open_live-IsSound env n v =
    let r =
      Ws.Life.init env
        (some (record { endpoint = some n.endpoint; token = some n.token; on_msg = true })) n.ws in
    let s = init-IsSettled env _ n.ws v.ws in
    elim (Bool-cases (is_ok r.1)) [
      | inl good ↦
          let o = init_ok-IsOpen env n.endpoint n.token n.ws v.ws (is_ok-eq r.1 good) in
          rw (good, open_live) (with_ws n opening starting r.0 v s refl refl refl o.client refl)
      | inr bad ↦
          rw (bad, open_live)
            (finish-IsSound _ opening (with_ws n opening opening r.0 v s refl refl refl refl refl))
    ]

start_ok-client :
    (answer : EspErr) (w : Ws)
    → is_ok (Ws.Life.start answer w).1 ≡ true
    → (Ws.Life.start answer w).0.client ≡ true
unfolding Ws.Life.start
start_ok-client answer w h = ground arith

pub start_live-IsSound :
    (answer : EspErr) (n : Newt) → IsSound (n, starting) → IsSound (start_live answer n)
unfolding start_live
start_live-IsSound answer n v =
    let r = Ws.Life.start answer n.ws in
    let s = start-IsSettled answer n.ws v.ws in
    elim (Bool-cases (is_ok r.1)) [
      | inl good ↦
          rw (good, start_live)
            (with_ws n starting (polling 0) r.0 v s refl refl refl
              (start_ok-client answer n.ws good) refl)
      | inr bad ↦
          rw (bad, start_live)
            (finish-IsSound _ opening (with_ws n starting opening r.0 v s refl refl refl refl refl))
    ]

poll_live-cases :
    (connected behind : Bool) (k : ℕ) (n : Newt)
    → (poll_live connected behind k n ≡ finish n)
      ⊎ (poll_live connected behind k n ≡ (n, polling (k + 1)))
      ⊎ (poll_live connected behind k n
          ≡ (with_bits (λ bits. record bits { ws_conn = true }) n, asking))
unfolding poll_live
poll_live-cases connected behind k n = ground arith

linked-IsSound :
    (k : ℕ) (n : Newt)
    → IsSound (n, polling k)
    → IsSound (with_bits (λ bits. record bits { ws_conn = true }) n, asking)
linked-IsSound k n v = rw v.held (record {
  ws = v.ws;
  token = v.token;
  handle = v.handle;
  bits = record v.bits { ws_conn = true };
  held = refl;
  authed = v.authed;
  connected = refl;
  kept_open = v.kept_open;
  given = v.given;
  configured = v.configured;
})

pub poll_live-IsSound :
    (connected behind : Bool) (k : ℕ) (n : Newt)
    → IsSound (n, polling k)
    → IsSound (poll_live connected behind k n)
unfolding poll_live
poll_live-IsSound connected behind k n v = elim (poll_live-cases connected behind k n) [
  | inl over ↦ rw over (finish-IsSound n (polling k) v)
  | inr (inl again) ↦ rw again (moved n (polling k) (polling (k + 1)) v refl refl refl refl refl)
  | inr (inr linked) ↦ rw linked (linked-IsSound k n v)
]

configured_live-cases :
    (n : Newt) (bits : EventBits)
    → n.events ≡ some bits
    → (configured_live n ≡ finish n)
      ⊎ ((configured_live n ≡ (n, tunnelling)) × (bits.wg_configured ≡ true))
unfolding configured_live
configured_live-cases n bits e = ground arith

go_on-IsSound :
    (n : Newt) (v : IsSound (n, configuring))
    → v.bits.wg_configured ≡ true
    → IsSound (n, tunnelling)
go_on-IsSound n v h = record {
  ws = v.ws;
  token = v.token;
  handle = v.handle;
  bits = v.bits;
  held = v.held;
  authed = v.authed;
  connected = v.connected;
  kept_open = v.kept_open;
  given = v.given;
  configured = let g = v.given in ground arith;
}

pub configured_live-IsSound : (n : Newt) → IsSound (n, configuring) → IsSound (configured_live n)
configured_live-IsSound n v = elim (configured_live-cases n v.bits v.held) [
  | inl over ↦ rw over (finish-IsSound n configuring v)
  | inr (go_on, h) ↦ rw go_on (go_on-IsSound n v h)
]
