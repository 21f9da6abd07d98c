-- ===== src/Newt/Twice.antt =====
-- newt.c, `cb_wg_reconnect` and `reconnect_task`: two reconnect tasks at a time.
use newt_esp.Base.{
  ◌≡◌, refl, ℕ, Option, Bytes, append_assoc, Bool, true, false, List, [], ◌∷◌, ◌++◌, if◌then◌else◌,
}
use newt_esp.Extern.{esp_ok, is_ok, Cjson, Base64}
use newt_esp.Newt.Moves.{Crew, calls, live, lives, spawned}
use newt_esp.Newt.Rejoin.{clears}
use newt_esp.Proto.State.{wg_reconnect}
use newt_esp.Newt.Reconnect.{ReconnectEnv, reconnect_task, delay_loop, back_online}
use newt_esp.Newt.Supervisor.{
  wg_configured, error, bit_wg_configured, bit_wg_up, Action, emit, clear_bit, send_ping_request,
  send_register, init_wg, start_wg, stop_wg,
}

-- What two tasks do, in one of the orders that the scheduler may choose.
pub data Interleaves : List Action → List Action → List Action → Type 0 where
  both_done : Interleaves [] [] []
  first :
      {xs ys zs : List Action} (a : Action)
      → Interleaves xs ys zs
      → Interleaves (a ∷ xs) ys (a ∷ zs)
  second :
      {xs ys zs : List Action} (a : Action)
      → Interleaves xs ys zs
      → Interleaves xs (a ∷ ys) (a ∷ zs)

-- The interface is started twice with no stop between; the flag says whether it is started already.
abbrev pub doubled : Bool → List Action → Bool
doubled running [] = false
doubled running (start_wg ∷ acts) = if running then true else doubled true acts
doubled running (stop_wg ∷ acts) = doubled false acts
doubled running (_ ∷ acts) = doubled running acts

-- The answers let the task come to `newt_wg_start`.
pub record ComesToStart (env : ReconnectEnv) : Type 0 where
  pub request : env.stop_request ≡ false
  pub register : env.stop_register ≡ false
  pub configured : env.configured ≡ true
  pub ready : env.wg_init ≡ esp_ok

abbrev tail : ReconnectEnv → List Action
tail env =
    if is_ok env.wg_start
    then delay_loop 120 0 env.wg_up_at env.stop_at ++ back_online env
    else emit error ∷ []

abbrev way : List Action → List Action
way behind =
    clear_bit bit_wg_up
    ∷ clear_bit bit_wg_configured
    ∷ stop_wg
    ∷ send_ping_request
    ∷ send_register
    ∷ init_wg
    ∷ emit wg_configured
    ∷ start_wg
    ∷ behind

reconnect_task-way : (env : ReconnectEnv) → ComesToStart env → reconnect_task env ≡ way (tail env)
unfolding reconnect_task
reconnect_task-way env v = rw (v.request, v.register, v.configured, v.ready)

only_second : (ys : List Action) → Interleaves [] ys ys
only_second [] = both_done
only_second (a ∷ ys) = second a (only_second ys)

one_by_one : (xs ys : List Action) → Interleaves xs ys (xs ++ ys)
one_by_one [] ys = only_second ys
one_by_one (a ∷ xs) ys = first a (one_by_one xs ys)

-- The first task stops the interface, then the second runs to its start, then the first goes on.
abbrev crossed : List Action → List Action → List Action
crossed xs ys =
    clear_bit bit_wg_up
    ∷ clear_bit bit_wg_configured
    ∷ stop_wg
    ∷ way (send_ping_request ∷ send_register ∷ init_wg ∷ emit wg_configured ∷ start_wg ∷ (xs ++ ys))

crossed-Interleaves : (xs ys : List Action) → Interleaves (way xs) (way ys) (crossed xs ys)
crossed-Interleaves xs ys = first _ (
    first _ (
      first _ (
        second _ (
          second _ (
            second _ (
              second _ (
                second _ (
                  second _ (
                    second _ (
                      second _ (
                        first _
                          (first _ (first _ (first _ (first _ (one_by_one xs ys))))))))))))))))

module _ (c : Cjson) (b : Base64) (inet_pton : Bytes → Option ℕ) where
  both_start :
      (s : Crew)
      → (lives c b inet_pton (calls wg_reconnect true ∷ calls wg_reconnect true ∷ []) s).rejoins
        ≡ s.rejoins ++ clears ∷ clears ∷ []
  unfolding lives live spawned
  both_start s = append_assoc s.rejoins (clears ∷ []) (clears ∷ [])

  -- Whatever runs already, two calls of `cb_wg_reconnect` one behind the other start two reconnect
  -- tasks, where the tasks can be made. And two such tasks that both come to `newt_wg_start` can start
  -- the interface twice with no stop between, whatever they do behind it: there is an order of their
  -- actions in which they do.
  pub reconnect_task_twice :
      (s : Crew) (env other : ReconnectEnv)
      → ComesToStart env
      → ComesToStart other
      → ((lives c b inet_pton (calls wg_reconnect true ∷ calls wg_reconnect true ∷ []) s).rejoins
          ≡ s.rejoins ++ clears ∷ clears ∷ [])
        × (acts : List Action) × Interleaves (reconnect_task env) (reconnect_task other) acts
        × (doubled false acts ≡ true)
  reconnect_task_twice s env other v w = (
    both_start s,
    crossed (tail env) (tail other),
    rw (reconnect_task-way env v, reconnect_task-way other w)
        (crossed-Interleaves (tail env) (tail other)),
    refl,
  )
