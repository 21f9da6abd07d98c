-- ===== src/App/Clock.antt =====
-- The library is initialised only with the clock set, and the wait for it ends.
use newt_esp.Base.{
  ℕ, zero, suc, ◌+◌, ◌≤◌, ◌<◌, ◌≡◌, ◌⊎◌, refl, sym, ap, subst, ◌∙◌, le→ltb_false, lt→ltb, Bool,
  true, false, List, [], ◌∷◌, arith, ltb, if◌then◌else◌, Bool-cases, inl, inr,
}
use newt_esp.App.Boot.{
  BootAction, init_nvs, erase_nvs, init_netif, create_loop, register_wifi, register_ip, init_wifi,
  set_wifi_mode, set_wifi_config, start_wifi, wait_second, abort, restart, init_newt, NvsFlash,
  usable, stale, broken, BootEnv, checked, epoch_min, clock_loop, waits, start_library, synchronise,
  connect_wifi, app_main,
}
use newt_esp.Extern.{EspErr, is_ok}

abbrev pub initialises : List BootAction → Bool
initialises [] = false
initialises (init_newt ∷ acts) = true
initialises (_ ∷ acts) = initialises acts

-- The seconds waited for the clock.
abbrev pub seconds : List BootAction → ℕ
seconds [] = 0
seconds (wait_second ∷ acts) = suc (seconds acts)
seconds (_ ∷ acts) = seconds acts

clock_loop-le :
    (rounds i : ℕ) (time : ℕ → ℕ) (now : ℕ) → (clock_loop rounds i time now).1 ≤ i + rounds
unfolding clock_loop
clock_loop-le zero i time now = omega arith
clock_loop-le (suc rounds) i time now = ground (arith, clock_loop-le rounds (i + 1) time (time i))

-- The clock behind the loop is the one before it or one that a read has shown.
clock_loop-read :
    (rounds i : ℕ) (time : ℕ → ℕ) (now : ℕ)
    → epoch_min ≤ (clock_loop rounds i time now).0
    → (epoch_min ≤ now) ⊎ ((j : ℕ) × (i ≤ j) × (j < i + rounds) × (epoch_min ≤ time j))
unfolding clock_loop
clock_loop-read zero i time now h = inl h
clock_loop-read (suc rounds) i time now h = elim (Bool-cases (ltb now epoch_min)) [
  | inr late ↦ inl (ground arith)
  | inl early ↦ elim (clock_loop-read rounds (i + 1) time (time i) (rw (early, clock_loop) at h)) [
    | inl here ↦ inr (i, omega arith, omega arith, here)
    | inr (j, l, k, e) ↦ inr (j, omega arith, omega arith, e)
  ]
]

clock_loop_here :
    (rounds i : ℕ) (time : ℕ → ℕ) (now : ℕ)
    → epoch_min ≤ now
    → clock_loop rounds i time now ≡ (now, i)
unfolding clock_loop
clock_loop_here zero i time now h = refl
clock_loop_here (suc rounds) i time now h = rw (le→ltb_false now epoch_min h)

-- The reads before number `n` show a time that is too early.
pub clock_loop_set :
    (rounds i n : ℕ) (time : ℕ → ℕ) (now : ℕ)
    → now < epoch_min
    → n < rounds
    → ((j : ℕ) → j < n → time (i + j) < epoch_min)
    → epoch_min ≤ time (i + n)
    → clock_loop rounds i time now ≡ (time (i + n), suc (i + n))
unfolding clock_loop
clock_loop_set zero i n time now low lt early set = absurd (omega arith)
clock_loop_set (suc rounds) i zero time now low lt early set =
    let here : epoch_min ≤ time i = subst (λ k. epoch_min ≤ time k) (omega arith) set in
    rw (lt→ltb now epoch_min low) (
      clock_loop_here rounds (i + 1) time (time i) here
      ∙ ap (λ m. (time i, m)) (omega arith)
      ∙ ap (λ k. (time k, suc k)) (omega arith))
clock_loop_set (suc rounds) i (suc n) time now low lt early set =
    let first : time i < epoch_min =
      subst (λ k. time k < epoch_min) (omega arith) (early 0 (omega arith)) in
    rw (lt→ltb now epoch_min low) (
      clock_loop_set rounds (i + 1) n time (time i) first (omega arith)
        (λ j l. subst (λ k. time k < epoch_min) (omega arith) (early (suc j) (omega arith)))
        (subst (λ k. epoch_min ≤ time k) (omega arith) set)
      ∙ ap (λ k. (time k, suc k)) (omega arith))

pub initialises-waits :
    (n : ℕ) (acts : List BootAction) → initialises (waits n acts) ≡ initialises acts
initialises-waits zero acts = refl
initialises-waits (suc n) acts = initialises-waits n acts

pub seconds-waits : (n : ℕ) (acts : List BootAction) → seconds (waits n acts) ≡ n + seconds acts
seconds-waits zero acts = omega arith
seconds-waits (suc n) acts = omega (arith, seconds-waits n acts)

abbrev Synced : BootEnv → List BootAction → Type 0
Synced env acts =
    (initialises acts ≡ true → (i : ℕ) × (i < 60) × (epoch_min ≤ env.time i)) × (seconds acts ≤ 60)

pub seconds-start_library : (env : BootEnv) → seconds (start_library env) ≡ 0
unfolding start_library
seconds-start_library env = ground arith

behind_clock :
    (env : BootEnv) (now : ℕ)
    → let acts : List BootAction = if ltb now epoch_min then restart ∷ [] else start_library env in
      (initialises acts ≡ true → epoch_min ≤ now) × (seconds acts ≡ 0)
behind_clock env now = elim (Bool-cases (ltb now epoch_min)) [
  | inl early ↦ rw early ((λ h. cc), refl)
  | inr set ↦ ((λ h. ground arith), rw set (seconds-start_library env))
]

shown :
    (time : ℕ → ℕ)
    → epoch_min ≤ (clock_loop 60 0 time 0).0
    → (i : ℕ) × (i < 60) × (epoch_min ≤ time i)
shown time h = elim (clock_loop-read 60 0 time 0 h) [
  | inl early ↦ absurd (omega (arith, early))
  | inr (i, _, l, e) ↦ (i, omega (arith, l), e)
]

synchronise-Synced : (env : BootEnv) → Synced env (synchronise env)
unfolding synchronise
synchronise-Synced env =
    let (safe, quick) = behind_clock env (clock_loop 60 0 env.time 0).0 in
    (
      (λ h. shown env.time (safe (sym (initialises-waits (clock_loop 60 0 env.time 0).1 _) ∙ h))),
      omega (
        arith,
        quick,
        clock_loop-le 60 0 env.time 0,
        seconds-waits (clock_loop 60 0 env.time 0).1 (
            if ltb (clock_loop 60 0 env.time 0).0 epoch_min
            then restart ∷ []
            else start_library env),
      ),
    )

cons-Synced :
    (env : BootEnv) (call : BootAction) (rest : List BootAction)
    → initialises (call ∷ []) ≡ false
    → seconds (call ∷ []) ≡ 0
    → Synced env rest
    → Synced env (call ∷ rest)
cons-Synced env init_newt rest h k v = cc
cons-Synced env wait_second rest h k v = absurd (omega (arith, k))
cons-Synced env _ rest h k v = v

checked-Synced :
    (env : BootEnv) (call : BootAction) (e : EspErr) (rest : List BootAction)
    → initialises (call ∷ []) ≡ false
    → seconds (call ∷ []) ≡ 0
    → Synced env rest
    → Synced env (checked call e rest)
checked-Synced env call e rest h k v = elim (Bool-cases (is_ok e)) [
  | inl good ↦ rw good (cons-Synced env call rest h k v)
  | inr bad ↦ rw bad (cons-Synced env call (abort ∷ []) h k ((λ x. cc), omega arith))
]

connect_wifi-Synced : (env : BootEnv) → Synced env (connect_wifi env)
unfolding connect_wifi
connect_wifi-Synced env = checked-Synced env init_netif env.netif _ refl refl (
    checked-Synced env create_loop env.event_loop _ refl refl (
      checked-Synced env register_wifi env.wifi_handler _ refl refl (
        checked-Synced env register_ip env.ip_handler _ refl refl (
          checked-Synced env init_wifi env.wifi_init _ refl refl (
            checked-Synced env set_wifi_mode env.wifi_mode _ refl refl (
              checked-Synced env set_wifi_config env.wifi_config _ refl refl (
                checked-Synced env start_wifi env.wifi_start _ refl refl
                  (synchronise-Synced env))))))))

-- Whatever the calls answer, the wait for the clock is at most 60 seconds, and the library is
-- initialised only if one of the first 60 reads of the clock has shown 1700000000 or later.
pub app_main-Synced :
    (env : BootEnv)
    → (initialises (app_main env) ≡ true → (i : ℕ) × (i < 60) × (epoch_min ≤ env.time i))
      × (seconds (app_main env) ≤ 60)
unfolding app_main
app_main-Synced env = go env.nvs
  where
    go :
        (nvs : NvsFlash)
        → Synced env (
            init_nvs ∷ elim nvs [
              | stale ↦
                  checked erase_nvs env.nvs_erase
                    (checked init_nvs env.nvs_again (connect_wifi env))
              | _ ↦ connect_wifi env
            ])
    go stale =
        checked-Synced env erase_nvs env.nvs_erase _ refl refl
          (checked-Synced env init_nvs env.nvs_again _ refl refl (connect_wifi-Synced env))
    go usable = connect_wifi-Synced env
    go broken = connect_wifi-Synced env
