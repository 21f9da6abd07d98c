-- ===== src/Newt/Rejoin.antt =====
-- newt.c, `reconnect_task` on the static variables: each move is one call or wait of the task.
-- Reconnect has the same task as the trace of its actions. What is sent and told is left out here.
use newt_esp.Base.{
  ℕ, zero, suc, ◌+◌, true, false, not, ◌&&◌, List, [], ◌∷◌, none, some, ltb, if◌then◌else◌,
}
use newt_esp.Extern.{is_ok, Base64}
use newt_esp.Newt.Live.{Turn, with_bits}
use newt_esp.Newt.Public.{Newt}
use newt_esp.Newt.Shutdown.{stop_bit}
use newt_esp.Proto.Send.{send_ping_request, send_register}
use newt_esp.Wg
use newt_esp.Wg.Life.{StartEnv}
use newt_esp.Wg.State.{TcpipEnv}

-- Where the task is.
pub data Rejoin : Type 0 where
  clears halts asks rests enrols awaits inits raises : Rejoin
  climbs : ℕ → Rejoin
  gone : Rejoin

-- Behind the registration: the wait for the configuration.
unfoldable pub await_again : Newt → Newt × Rejoin
await_again n = elim n.events [
  | none ↦ (n, gone)
  | some bits ↦
      if bits.stop then (n, gone) else if bits.wg_configured then (n, inits) else (n, gone)
]

-- `newt_wg_init` and `newt_wg_start`
unfoldable pub init_again : Base64 → TcpipEnv → Newt → Newt × Rejoin
init_again b env n =
    let d = Wg.Life.init b env (some n.wg_cfg) (some n.kp) n.wg in
    (record n { wg = d.wg }, if is_ok d.ret then raises else gone)

unfoldable pub raise_again : StartEnv → Newt → Newt × Rejoin
raise_again env n = elim (Wg.Life.start env n.wg) [
  | none ↦ (n, raises)
  | some d ↦ (record n { wg = d.wg }, if is_ok d.ret then climbs 0 else gone)
]

-- One round of the loop that waits for the handshake, and what follows the last one. The state and
-- the stop bit are read once a move.
unfoldable pub climb_again : ℕ → Newt → Newt × Rejoin
climb_again k n =
    if not (Wg.Life.is_connected n.wg) && ltb k 120 && not (stop_bit n)
    then (n, climbs (k + 1))
    else if stop_bit n
    then (n, gone)
    else if Wg.Life.is_connected n.wg
    then (with_bits (λ bits. record bits { wg_up = true }) n, gone)
    else (n, gone)

module _ (b : Base64) where
  -- One move of `reconnect_task`.
  unfoldable pub rejoin : Turn → Rejoin → Newt → Newt × Rejoin
  unfolding await_again init_again raise_again climb_again
  rejoin t clears n =
      (with_bits (λ bits. record bits { wg_up = false; wg_configured = false }) n, halts)
  rejoin t halts n = (record n { wg = (Wg.Life.stop t.tcpip n.wg).wg }, asks)
  rejoin t asks n = (record n { proto = (send_ping_request t.link t.r0 t.r1 n.proto).0 }, rests)
  rejoin t rests n = if stop_bit n then (n, gone) else (n, enrols)
  rejoin t enrols n =
      (record n { proto = (send_register b t.link t.r0 t.r1 (some n.kp.public) n.proto).0 }, awaits)
  rejoin t awaits n = await_again n
  rejoin t inits n = init_again b t.tcpip n
  rejoin t raises n = raise_again t.wg_start n
  rejoin t (climbs k) n = climb_again k n
  rejoin t gone n = (n, gone)

  -- The move of the task with a number; a number that stands for none moves nothing.
  unfoldable pub rejoin_at : ℕ → Turn → List Rejoin → Newt → Newt × List Rejoin
  rejoin_at i t [] n = (n, [])
  rejoin_at zero t (r ∷ rs) n = let (n', r') = rejoin t r n in (n', r' ∷ rs)
  rejoin_at (suc i) t (r ∷ rs) n = let (n', rs') = rejoin_at i t rs n in (n', r ∷ rs')
