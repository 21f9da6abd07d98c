-- ===== src/Newt/Sound/Raise.antt =====
-- The supervisor's moves from the configuration to the periodic ping.
use newt_esp.Base.{Option-cases, ℕ, ◌+◌, ◌⊎◌, ◌≡◌, refl, Bool, true, some, arith, inl, inr}
use newt_esp.Extern.{EspErr, is_ok, Base64}
use newt_esp.Newt.Live.{
  tunnelling, raising, climbing, pinging, online, with_bits, finish, tunnel_live, raise_live,
  climb_live, ping_live,
}
use newt_esp.Ping.Session.{NewSession}
use newt_esp.Wg
use newt_esp.Wg.Life.{StartEnv}
use newt_esp.Wg.State.{TcpipEnv}
use newt_esp.Newt.Public.{Newt}
use newt_esp.Newt.Sound.{IsSound, moved, finish-IsSound, frame, with_wg, either-IsSound}

pub tunnel_live-IsSound :
    (b : Base64) (env : TcpipEnv) (n : Newt)
    → IsSound (n, tunnelling)
    → IsSound (tunnel_live b env n)
unfolding tunnel_live
tunnel_live-IsSound b env n v =
    let d = Wg.Life.init b env (some n.wg_cfg) (some n.kp) n.wg in
    either-IsSound (is_ok d.ret) _ _
      (with_wg n raising d.wg (moved n tunnelling raising v refl refl refl refl refl))
      (finish-IsSound _ tunnelling (with_wg n tunnelling d.wg v))

pub raise_live-IsSound :
    (env : StartEnv) (n : Newt) → IsSound (n, raising) → IsSound (raise_live env n)
unfolding raise_live
raise_live-IsSound env n v = elim (Option-cases (Wg.Life.start env n.wg)) [
  | inl e ↦ rw (e, raise_live) v
  | inr (d, e) ↦
      rw (e, raise_live)
        (either-IsSound (is_ok d.ret) _ _
          (with_wg n (climbing 0) d.wg (moved n raising (climbing 0) v refl refl refl refl refl))
          (finish-IsSound _ raising (with_wg n raising d.wg v)))
]

climb_live-cases :
    (k : ℕ) (n : Newt)
    → (climb_live k n ≡ finish n)
      ⊎ (climb_live k n ≡ (n, climbing (k + 1)))
      ⊎ (climb_live k n ≡ (with_bits (λ bits. record bits { wg_up = true }) n, pinging))
unfolding climb_live
climb_live-cases k n = ground arith

raised-IsSound :
    (k : ℕ) (n : Newt)
    → IsSound (n, climbing k)
    → IsSound (with_bits (λ bits. record bits { wg_up = true }) n, pinging)
raised-IsSound k n v = rw v.held (record {
  ws = v.ws;
  token = v.token;
  handle = v.handle;
  bits = record v.bits { wg_up = true };
  held = refl;
  authed = v.authed;
  connected = v.connected;
  kept_open = v.kept_open;
  given = v.given;
  configured = v.configured;
})

pub climb_live-IsSound : (k : ℕ) (n : Newt) → IsSound (n, climbing k) → IsSound (climb_live k n)
climb_live-IsSound k n v = elim (climb_live-cases k n) [
  | inl over ↦ rw over (finish-IsSound n (climbing k) v)
  | inr (inl again) ↦ rw again (moved n (climbing k) (climbing (k + 1)) v refl refl refl refl refl)
  | inr (inr raised) ↦ rw raised (raised-IsSound k n v)
]

pub ping_live-IsSound :
    (answer : NewSession) (started : EspErr) (task : Bool) (n : Newt)
    → IsSound (n, pinging)
    → IsSound (ping_live answer started task n)
unfolding ping_live
ping_live-IsSound answer started task n v =
    frame n _ online (moved n pinging online v refl refl refl refl refl) refl refl refl refl refl
