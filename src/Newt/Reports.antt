-- ===== src/Newt/Reports.antt =====
-- What `reconnect_task` tells, and how often `periodic_ping_task` sends.
use newt_esp.Base.{
  ℕ, zero, suc, ◌+◌, ◌<◌, ◌≡◌, refl, ap, ◌∙◌, Bool, true, false, ◌||◌, List, [], ◌∷◌, ◌++◌, ◌⊎◌,
  inl, inr, arith, Bool-cases,
}
use newt_esp.Extern.{is_ok}
use newt_esp.Newt.Order.{told}
use newt_esp.Newt.Reconnect.{
  ReconnectEnv, delay_loop, back_online, restart_wg, reconfigure, reconnect_task,
  periodic_ping_task,
}
use newt_esp.Newt.Supervisor.{
  NewtEvent, registered, wg_configured, wg_handshaked, online, error, Action, send_ping,
}

told-delay_loop :
    (rounds i : ℕ) (up stop : ℕ → Bool) (acts : List Action)
    → told (delay_loop rounds i up stop ++ acts) ≡ told acts
unfolding delay_loop
told-delay_loop zero i up stop acts = refl
told-delay_loop (suc rounds) i up stop acts = elim (Bool-cases (up i || stop i)) [
  | inl over ↦ rw over
  | inr more ↦ rw more (told-delay_loop rounds (i + 1) up stop acts)
]

-- All events of the way back, in their order.
abbrev pub way_back : List NewtEvent
way_back = wg_configured ∷ registered ∷ wg_handshaked ∷ online ∷ []

-- The way back is told whole, with the tunnel up, or one error ends it.
abbrev pub Reported : ReconnectEnv → List NewtEvent → Type 0
Reported env es =
    ((es ≡ way_back) × (env.wg_up_behind ≡ true))
    ⊎ (es ≡ error ∷ [])
    ⊎ (es ≡ wg_configured ∷ error ∷ [])

abbrev Restarted : ReconnectEnv → List NewtEvent → Type 0
Restarted env es =
    ((es ≡ registered ∷ wg_handshaked ∷ online ∷ []) × (env.wg_up_behind ≡ true))
    ⊎ (es ≡ error ∷ [])

back_online-Restarted :
    (env : ReconnectEnv) → env.stop_behind ≡ false → Restarted env (told (back_online env))
unfolding back_online
back_online-Restarted env h = elim (Bool-cases env.wg_up_behind) [
  | inl up ↦ rw (h, up) (inl (refl, refl))
  | inr not_up ↦ rw (h, not_up) (inr refl)
]

restart_wg-Restarted :
    (env : ReconnectEnv) → env.stop_behind ≡ false → Restarted env (told (restart_wg env))
unfolding restart_wg
restart_wg-Restarted env h = elim (Bool-cases (is_ok env.wg_start)) [
  | inr failed ↦ rw failed (inr refl)
  | inl started ↦
      rw (started, told-delay_loop 120 0 env.wg_up_at env.stop_at (back_online env))
        (back_online-Restarted env h)
]

widen :
    (env : ReconnectEnv) (es : List NewtEvent)
    → Restarted env es
    → Reported env (wg_configured ∷ es)
widen env es (inl (e, up)) = inl (ap (◌∷◌ wg_configured) e, up)
widen env es (inr e) = inr (inr (ap (◌∷◌ wg_configured) e))

reconfigure-Reported :
    (env : ReconnectEnv)
    → env.stop_register ≡ false
    → env.stop_behind ≡ false
    → Reported env (told (reconfigure env))
unfolding reconfigure
reconfigure-Reported env r h = elim (Bool-cases env.configured) [
  | inr unconfigured ↦ rw (r, unconfigured) (inr (inl refl))
  | inl configured ↦ elim (Bool-cases (is_ok env.wg_init)) [
    | inr failed ↦ rw (r, configured, failed) (inr (inl refl))
    | inl ready ↦ rw (r, configured, ready) (widen env _ (restart_wg-Restarted env h))
  ]
]

-- Without a stop, a reconnection never ends in silence: it tells the whole way back, with the tunnel
-- up, or exactly one error.
pub reconnect_task-Reported :
    (env : ReconnectEnv)
    → env.stop_request ≡ false
    → env.stop_register ≡ false
    → env.stop_behind ≡ false
    → Reported env (told (reconnect_task env))
unfolding reconnect_task
reconnect_task-Reported env q r h = rw q (reconfigure-Reported env r h)

-- `n` pings.
abbrev pub pings : ℕ → List Action
pings zero = []
pings (suc n) = send_ping ∷ pings n

-- The ping task sends one ping for each wait in which no stop came, and ends with the first stop.
pub periodic_ping_task-pings :
    (rounds i n : ℕ) (stop : ℕ → Bool)
    → n < rounds
    → ((j : ℕ) → j < n → stop (i + j) ≡ false)
    → stop (i + n) ≡ true
    → periodic_ping_task rounds i stop ≡ (true, pings n)
unfolding periodic_ping_task
periodic_ping_task-pings zero i n stop lt quiet h = absurd (omega arith)
periodic_ping_task-pings (suc rounds) i zero stop lt quiet h =
    let here : stop i ≡ true = ap stop (omega arith) ∙ h in rw here
periodic_ping_task-pings (suc rounds) i (suc n) stop lt quiet h =
    let here : stop i ≡ false = ap stop (omega arith) ∙ quiet 0 (omega arith) in
    let ih =
      periodic_ping_task-pings rounds (i + 1) n stop (omega arith)
        (λ j l. ap stop (omega arith) ∙ quiet (suc j) (omega arith)) (ap stop (omega arith) ∙ h) in
    rw (here, ih)
