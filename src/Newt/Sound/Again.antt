-- ===== src/Newt/Sound/Again.antt =====
-- The moves of a reconnect task, which keep what the supervisor relies on.
use newt_esp.Base.{
  ℕ, zero, suc, ◌⊎◌, ◌≡◌, refl, true, false, List, [], ◌∷◌, inl, inr, arith, Option-cases,
  if◌then◌else◌,
}
use newt_esp.Extern.{Base64}
use newt_esp.Newt.Live.{Phase, Turn, with_bits}
use newt_esp.Newt.Public.{Newt}
use newt_esp.Newt.Rejoin.{
  Rejoin, clears, halts, asks, rests, enrols, awaits, inits, raises, climbs, gone, await_again,
  raise_again, climb_again, rejoin, rejoin_at,
}
use newt_esp.Newt.Shutdown.{stop_bit}
use newt_esp.Newt.Sound.{IsSound, with_wg, with_proto}
use newt_esp.Wg
use newt_esp.Wg.Life.{StartEnv}

cleared :
    (n : Newt) (p : Phase)
    → IsSound (n, p)
    → IsSound (with_bits (λ bits. record bits { wg_up = false; wg_configured = false }) n, p)
cleared n p v = rw v.held (record {
  ws = v.ws;
  token = v.token;
  handle = v.handle;
  bits = record v.bits { wg_up = false; wg_configured = false };
  held = refl;
  authed = v.authed;
  connected = v.connected;
  kept_open = v.kept_open;
  given = refl;
  configured = v.configured;
})

climbed :
    (n : Newt) (p : Phase)
    → IsSound (n, p)
    → IsSound (with_bits (λ bits. record bits { wg_up = true }) n, p)
climbed n p v = rw v.held (record {
  ws = v.ws;
  token = v.token;
  handle = v.handle;
  bits = record v.bits { wg_up = true };
  held = refl;
  authed = v.authed;
  connected = v.connected;
  kept_open = v.kept_open;
  given = v.given;
  configured = v.configured;
})

climb_again-cases :
    (k : ℕ) (n : Newt)
    → ((climb_again k n).0 ≡ n)
      ⊎ ((climb_again k n).0 ≡ with_bits (λ bits. record bits { wg_up = true }) n)
unfolding climb_again
climb_again-cases k n = ground arith

await_again-same : (n : Newt) → (await_again n).0 ≡ n
unfolding await_again
await_again-same n = ground arith

rests-same :
    (n : Newt) → (if◌then◌else◌ {A = Newt × Rejoin} (stop_bit n) (n, gone) (n, enrols)).0 ≡ n
rests-same n = ground arith

raise_again-IsSound :
    (env : StartEnv) (p : Phase) (n : Newt) → IsSound (n, p) → IsSound ((raise_again env n).0, p)
unfolding raise_again
raise_again-IsSound env p n v = elim (Option-cases (Wg.Life.start env n.wg)) [
  | inl e ↦ rw (e, raise_again) v
  | inr (d, e) ↦ rw (e, raise_again) (with_wg n p d.wg v)
]

module _ (b : Base64) where
  rejoin-IsSound :
      (t : Turn) (r : Rejoin) (p : Phase) (n : Newt)
      → IsSound (n, p)
      → IsSound ((rejoin b t r n).0, p)
  unfolding rejoin
  rejoin-IsSound t clears p n v = cleared n p v
  rejoin-IsSound t halts p n v = with_wg n p _ v
  rejoin-IsSound t asks p n v = with_proto n p _ v
  rejoin-IsSound t rests p n v = rw (rests-same n) v
  rejoin-IsSound t enrols p n v = with_proto n p _ v
  rejoin-IsSound t awaits p n v = rw (await_again-same n) v
  rejoin-IsSound t inits p n v = with_wg n p _ v
  rejoin-IsSound t raises p n v = raise_again-IsSound t.wg_start p n v
  rejoin-IsSound t (climbs k) p n v = elim (climb_again-cases k n) [
    | inl same ↦ rw same v
    | inr up ↦ rw up (climbed n p v)
  ]
  rejoin-IsSound t gone p n v = v

  pub rejoin_at-IsSound :
      (i : ℕ) (t : Turn) (rs : List Rejoin) (p : Phase) (n : Newt)
      → IsSound (n, p)
      → IsSound ((rejoin_at b i t rs n).0, p)
  unfolding rejoin_at
  rejoin_at-IsSound i t [] p n v = v
  rejoin_at-IsSound zero t (r ∷ rs) p n v = rejoin-IsSound t r p n v
  rejoin_at-IsSound (suc i) t (r ∷ rs) p n v = rejoin_at-IsSound i t rs p n v
