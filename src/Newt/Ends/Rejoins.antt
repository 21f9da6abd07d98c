-- ===== src/Newt/Ends/Rejoins.antt =====
-- A reconnect task behind a stop.
use newt_esp.Base.{
  ℕ, zero, suc, ◌≤◌, ◌<◌, ◌≡◌, ◌≢◌, refl, true, List, [], ◌∷◌, ◌++◌, some, arith, length, ap,
}
use newt_esp.Extern.{Base64}
use newt_esp.Newt.Ends.Beside.{Kept}
use newt_esp.Newt.Live.{Turn}
use newt_esp.Newt.Public.{Newt}
use newt_esp.Newt.Rejoin.{
  Rejoin, clears, halts, asks, rests, enrols, awaits, inits, raises, climbs, gone, await_again,
  init_again, raise_again, climb_again, rejoin, rejoin_at,
}
use newt_esp.Newt.Shutdown.{stop_bit}
use newt_esp.Wg
use newt_esp.Wg.Connect.{start-Settles}
use newt_esp.Wg.Life.{StartEnv, WgDone}
use newt_esp.Wg.State.{TcpipEnv}

-- The moves that a task at this point makes at most, once the stop bit is set.
abbrev pub left_of : Rejoin → ℕ
left_of clears = 4
left_of halts = 3
left_of asks = 2
left_of rests = 1
left_of enrols = 2
left_of awaits = 1
left_of inits = 3
left_of raises = 2
left_of (climbs k) = 1
left_of gone = 0

-- The task with a number; a number that stands for none is a task that is gone.
abbrev pub task_at : List Rejoin → ℕ → Rejoin
task_at [] i = gone
task_at (r ∷ rs) zero = r
task_at (r ∷ rs) (suc i) = task_at rs i

-- It has made a move of its own, behind the stop.
abbrev Moved : ℕ → Newt → Newt × Rejoin → Type 0
Moved m n s = Kept n s.0 × (left_of s.1 ≤ m)

await_again-Moved : (m : ℕ) (n : Newt) → stop_bit n ≡ true → Moved m n (await_again n)
unfolding await_again
await_again-Moved m n s = ground arith

init_again-Moved :
    (m : ℕ) (b : Base64) (env : TcpipEnv) (n : Newt)
    → stop_bit n ≡ true
    → 2 ≤ m
    → Moved m n (init_again b env n)
unfolding init_again
init_again-Moved m b env n s l = ground arith

raised-Moved :
    (m : ℕ) (env : StartEnv) (d : WgDone) (n : Newt)
    → stop_bit n ≡ true
    → 1 ≤ m
    → Wg.Life.start env n.wg ≡ some d
    → Moved m n (raise_again env n)
unfolding raise_again
raised-Moved m env d n s l e = ground arith

raise_again-Moved :
    (m : ℕ) (env : StartEnv) (n : Newt) → stop_bit n ≡ true → 1 ≤ m → Moved m n (raise_again env n)
raise_again-Moved m env n s l =
    let (_, d, _, e, _, _) = start-Settles env n.wg in raised-Moved m env d n s l e

climb_again-Moved : (m k : ℕ) (n : Newt) → stop_bit n ≡ true → Moved m n (climb_again k n)
unfolding climb_again
climb_again-Moved m k n s = ground arith

module _ (b : Base64) where
  rejoin-Moved :
      (m : ℕ) (t : Turn) (r : Rejoin) (n : Newt)
      → stop_bit n ≡ true
      → left_of r ≤ suc m
      → Moved m n (rejoin b t r n)
  unfolding rejoin
  rejoin-Moved m t clears n s l = ground arith
  rejoin-Moved m t halts n s l = (record { stopping = s; handle = refl }, omega arith)
  rejoin-Moved m t asks n s l = (record { stopping = s; handle = refl }, omega arith)
  rejoin-Moved m t rests n s l = ground arith
  rejoin-Moved m t enrols n s l = (record { stopping = s; handle = refl }, omega arith)
  rejoin-Moved m t awaits n s l = await_again-Moved m n s
  rejoin-Moved m t inits n s l = init_again-Moved m b t.tcpip n s (omega arith)
  rejoin-Moved m t raises n s l = raise_again-Moved m t.wg_start n s (omega arith)
  rejoin-Moved m t (climbs k) n s l = climb_again-Moved m k n s
  rejoin-Moved m t gone n s l = (record { stopping = s; handle = refl }, omega arith)

  pub rejoin_at-Kept :
      (i : ℕ) (t : Turn) (rs : List Rejoin) (n : Newt)
      → stop_bit n ≡ true
      → Kept n (rejoin_at b i t rs n).0
  unfolding rejoin_at
  rejoin_at-Kept i t [] n s = record { stopping = s; handle = refl }
  rejoin_at-Kept zero t (r ∷ rs) n s = (rejoin-Moved (left_of r) t r n s (omega arith)).0
  rejoin_at-Kept (suc i) t (r ∷ rs) n s = rejoin_at-Kept i t rs n s

  pub length-rejoin_at :
      (i : ℕ) (t : Turn) (rs : List Rejoin) (n : Newt) → length (rejoin_at b i t rs n).1 ≡ length rs
  unfolding rejoin_at
  length-rejoin_at i t [] n = refl
  length-rejoin_at zero t (r ∷ rs) n = refl
  length-rejoin_at (suc i) t (r ∷ rs) n = ap suc (length-rejoin_at i t rs n)

  -- Its own move brings a task nearer to its end, and no other task's move changes it.
  pub rejoin_at-left_of :
      (i : ℕ) (t : Turn) (rs : List Rejoin) (n : Newt) (m : ℕ)
      → stop_bit n ≡ true
      → left_of (task_at rs i) ≤ suc m
      → left_of (task_at (rejoin_at b i t rs n).1 i) ≤ m
  unfolding rejoin_at
  rejoin_at-left_of i t [] n m s l = omega arith
  rejoin_at-left_of zero t (r ∷ rs) n m s l = (rejoin-Moved m t r n s l).1
  rejoin_at-left_of (suc i) t (r ∷ rs) n m s l = rejoin_at-left_of i t rs n m s l

  pub rejoin_at_other :
      (i j : ℕ) (t : Turn) (rs : List Rejoin) (n : Newt)
      → j ≢ i
      → task_at (rejoin_at b j t rs n).1 i ≡ task_at rs i
  unfolding rejoin_at
  rejoin_at_other i j t [] n d = refl
  rejoin_at_other zero zero t (r ∷ rs) n d = absurd (d refl)
  rejoin_at_other (suc i) zero t (r ∷ rs) n d = refl
  rejoin_at_other zero (suc j) t (r ∷ rs) n d = refl
  rejoin_at_other (suc i) (suc j) t (r ∷ rs) n d = rejoin_at_other i j t rs n (λ e. d (ap suc e))

-- A task that is spawned takes the next number.
pub task_at-append :
    (i : ℕ) (rs more : List Rejoin) → i < length rs → task_at (rs ++ more) i ≡ task_at rs i
task_at-append i [] more h = absurd (omega arith)
task_at-append zero (r ∷ rs) more h = refl
task_at-append (suc i) (r ∷ rs) more h = task_at-append i rs more (omega arith)
