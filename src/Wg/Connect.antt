-- ===== src/Wg/Connect.antt =====
-- `newt_wg_start` always returns: the loop of connection attempts ends after eleven at most.
use newt_esp.Base.{
  ℕ, zero, suc, ◌+◌, ◌≤◌, ◌<◌, ◌≡◌, ◌≢◌, refl, ap, ◌∙◌, List, [], ◌∷◌, ◌++◌, ◌&&◌, if◌then◌else◌,
  true, false, ◌⊎◌, inl, inr, arith, ltb, some, Bool-cases,
}
use newt_esp.Extern.{EspErr, esp_ok, esp_fail, err_retry, is_ok}
use newt_esp.Wg.Life.{
  WgDone, is_retry, connect_loop, StartEnv, connect_answer, finish_start, connect_calls, start,
}
use newt_esp.Wg.State.{
  Wg, handshaking, TcpipEnv, TunnelCall, tunnel_connect, tunnel_add_allowed_ip, wg_call_on_tcpip,
}

-- Call number `n` is the first from number `i` on whose answer asks for no retry, or number ten.
pub record Settles (answer : ℕ → EspErr) (i n : ℕ) : Type 0 where
  pub from : i ≤ n
  pub within : n ≤ 10
  pub retried : (j : ℕ) → i ≤ j → j < n → answer j ≡ err_retry
  pub settled : (answer n ≢ err_retry) ⊎ (n ≡ 10)

retry_iff : (e : EspErr) → is_retry e ≡ true → e ≡ err_retry
retry_iff e h = ground arith

not_retry : (e : EspErr) → is_retry e ≡ false → e ≢ err_retry
not_retry e h = ground arith

Settles-here :
    (i : ℕ) (answer : ℕ → EspErr) → i ≤ 10 → (answer i ≢ err_retry) ⊎ (i ≡ 10) → Settles answer i i
Settles-here i answer h s = record {
  from = omega arith;
  within = h;
  retried = λ j lo hi. absurd (omega arith);
  settled = s;
}

Settles-later :
    (i n : ℕ) (answer : ℕ → EspErr)
    → answer i ≡ err_retry
    → Settles answer (i + 1) n
    → Settles answer i n
Settles-later i n answer r s = record {
  from = omega (arith, s.from);
  within = s.within;
  retried = λ j lo hi. ground (arith, s.retried j);
  settled = s.settled;
}

connect_loop-Settles :
    (fuel i : ℕ) (answer : ℕ → EspErr)
    → i ≤ 10
    → 11 ≤ fuel + i
    → (n : ℕ) × Settles answer i n × (connect_loop fuel i answer ≡ some (is_ok (answer n), suc n))
unfolding connect_loop
connect_loop-Settles zero i answer h f = absurd (omega arith)
connect_loop-Settles (suc fuel) i answer h f = elim (Bool-cases (is_retry (answer i))) [
  | inr other ↦ (i, Settles-here i answer h (inl (not_retry (answer i) other)), ground arith)
  | inl again ↦ elim (Bool-cases (ltb i 10)) [
    | inl more ↦
        let (n, s, e) = connect_loop-Settles fuel (i + 1) answer (ground arith) (omega arith) in
        let retry = retry_iff (answer i) again in
        (n, Settles-later i n answer retry s, rw (retry, more) e)
    | inr last ↦ (
      i,
      Settles-here i answer h (inr (ground arith)),
      rw (retry_iff (answer i) again, last) (ground arith),
    )
  ]
]

-- A call reaches the library where its semaphore is made and the TCP/IP task takes it.
abbrev pub reaches : TcpipEnv → TunnelCall → List TunnelCall
reaches env call = if env.semaphore && env.callback then call ∷ [] else []

-- The attempts that reach it, `n` in all.
abbrev pub attempts_of : StartEnv → ℕ → List TunnelCall
attempts_of env zero = []
attempts_of env (suc n) = attempts_of env n ++ reaches (env.connect n) tunnel_connect

abbrev pub added : Wg → TunnelCall
added w = tunnel_add_allowed_ip w.server_ip_str

call-reaches :
    (env : TcpipEnv) (call : TunnelCall) → (wg_call_on_tcpip env call).1 ≡ reaches env call
unfolding wg_call_on_tcpip
call-reaches env call = ground arith

connect_calls-attempts_of : (env : StartEnv) (n : ℕ) → connect_calls env n ≡ attempts_of env n
connect_calls-attempts_of env zero = refl
connect_calls-attempts_of env (suc n) =
    ap (λ cs. cs ++ (wg_call_on_tcpip (env.connect n) tunnel_connect).1)
      (connect_calls-attempts_of env n)
    ∙ ap (◌++◌ (attempts_of env n)) (call-reaches (env.connect n) tunnel_connect)

finish_start_failed :
    (env : StartEnv) (w : Wg) (e : EspErr) (n : ℕ)
    → e ≢ esp_ok
    → ((finish_start env w (is_ok e, n)).ret ≡ esp_fail)
      × ((finish_start env w (is_ok e, n)).wg ≡ w)
      × ((finish_start env w (is_ok e, n)).calls ≡ attempts_of env n)
unfolding finish_start
finish_start_failed env w esp_ok n h = absurd (h refl)
finish_start_failed env w _ n h = (refl, refl, connect_calls-attempts_of env n)

finish_start_connected :
    (env : StartEnv) (w : Wg) (e : EspErr) (n : ℕ)
    → e ≡ esp_ok
    → ((finish_start env w (is_ok e, n)).wg.state ≡ handshaking)
      × ((finish_start env w (is_ok e, n)).calls
          ≡ attempts_of env n ++ reaches env.add_allowed_ip (added w))
unfolding finish_start
finish_start_connected env w esp_ok n h =
    let e = connect_calls-attempts_of env n in
    (
      ground arith,
      ap (◌++◌ (connect_calls env n)) (call-reaches env.add_allowed_ip (added w))
          ∙ ap (λ cs. cs ++ reaches env.add_allowed_ip (added w)) e,
    )
finish_start_connected env w _ n h = cc

-- `newt_wg_start` always returns, whatever the library answers. It tries to connect until an answer
-- asks for no retry, eleven times at most, and the calls that reach the library are those of these
-- attempts, behind which, once connected, come those that add the server's address. Unless the last
-- answer is ESP_OK it fails and changes nothing, and if it is, the state is that of a handshake.
pub start-Settles :
    (env : StartEnv) (w : Wg)
    → (n : ℕ) × (d : WgDone) × Settles (connect_answer env) 0 n
      × (start env w ≡ some d)
      × (connect_answer env n ≢ esp_ok
          → (d.ret ≡ esp_fail) × (d.wg ≡ w) × (d.calls ≡ attempts_of env (suc n)))
      × (connect_answer env n ≡ esp_ok
          → (d.wg.state ≡ handshaking)
            × (d.calls ≡ attempts_of env (suc n) ++ reaches env.add_allowed_ip (added w)))
unfolding start
start-Settles env w =
    let (n, s, e) = connect_loop-Settles 11 0 (connect_answer env) (omega arith) (omega arith) in
    (
      n,
      finish_start env w (is_ok (connect_answer env n), suc n),
      s,
      rw (e, start),
      finish_start_failed env w (connect_answer env n) (suc n),
      finish_start_connected env w (connect_answer env n) (suc n),
    )
