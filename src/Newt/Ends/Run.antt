-- ===== src/Newt/Ends/Run.antt =====
-- A run of supervisor_task and the other parts of newt.c behind a stop.
use newt_esp.Auth.Wiping.{get_token-Clean}
use newt_esp.Base.{ℕ, Bytes, Option, suc, ◌≤◌, ◌≡◌, true, false, List, [], ◌∷◌, some, arith, refl}
use newt_esp.Extern.{Cjson, Base64}
use newt_esp.Newt.Live.{
  Phase, requesting, awaiting, resting, opening, starting, polling, asking, asked, registering,
  configuring, tunnelling, raising, climbing, pinging, online, ended, Turn, supervise,
}
use newt_esp.Newt.Ends.Beside.{
  Kept-Leaving, stop-Kept, receive_call-Kept, ping_round-Kept, see_peer-Kept, event_in-Kept,
  same-Kept, remaining-le,
}
use newt_esp.Newt.Delivery.{IsKept, deliver_next-IsKept}
use newt_esp.Newt.Ends.Rejoins.{rejoin_at-Kept}
use newt_esp.Newt.Moves.{
  LiveMove, supervises, reconnects, stops, notifies, delivers, calls, pings, peer_up, Crew, live,
  lives,
}
use newt_esp.Newt.Public.{Newt}
use newt_esp.Newt.Shutdown.{stop_bit}
use newt_esp.Newt.Ends.{
  runs, Leaving, answered-Leaving, open_live-Leaving, start_live-Leaving, poll_live-Leaving,
  configured_live-Leaving, tunnel_live-Leaving, raise_live-Leaving, climb_live-Leaving,
}

module _ (c : Cjson) (b : Base64) (inet_pton : Bytes → Option ℕ) where
  pub supervise-Leaving :
      (m : ℕ) (t : Turn) (p : Phase) (n : Newt)
      → Leaving (suc m) (n, p)
      → Leaving m (supervise c b t p n)
  unfolding supervise
  supervise-Leaving m t (requesting k) n v =
      let s = v.stopping in let d = v.due in let h = v.handle in ground arith
  supervise-Leaving m t (awaiting k secret) n v =
      let (f, e, _, _) =
        get_token-Clean c t.http t.url_memory (some n.endpoint) (some n.newt_id) (some secret) true
          512 in
      rw (e, supervise)
        (answered-Leaving m k f n v.stopping v.handle (let d = v.due in omega arith))
  supervise-Leaving m t (resting k) n v =
      let s = v.stopping in let d = v.due in let h = v.handle in ground arith
  supervise-Leaving m t opening n v =
      open_live-Leaving m t.ws n v.stopping v.handle (let d = v.due in omega arith)
  supervise-Leaving m t starting n v =
      start_live-Leaving m t.client_start n v.stopping v.handle (let d = v.due in omega arith)
  supervise-Leaving m t (polling k) n v =
      poll_live-Leaving m t.connected t.connected_behind k n v.stopping v.handle
        (let d = v.due in omega arith)
  supervise-Leaving m t asking n v = record {
    stopping = v.stopping;
    due = let d = v.due in omega arith;
    handle = v.handle;
  }
  supervise-Leaving m t asked n v =
      let s = v.stopping in let d = v.due in let h = v.handle in ground arith
  supervise-Leaving m t registering n v = record {
    stopping = v.stopping;
    due = let d = v.due in omega arith;
    handle = v.handle;
  }
  supervise-Leaving m t configuring n v = configured_live-Leaving m n v.stopping v.handle
  supervise-Leaving m t tunnelling n v =
      tunnel_live-Leaving m b t.tcpip n v.stopping v.handle (let d = v.due in omega arith)
  supervise-Leaving m t raising n v =
      raise_live-Leaving m t.wg_start n v.stopping v.handle (let d = v.due in omega arith)
  supervise-Leaving m t (climbing k) n v =
      climb_live-Leaving m k n v.stopping v.handle (let d = v.due in omega arith)
  supervise-Leaving m t pinging n v = record {
    stopping = v.stopping;
    due = let d = v.due in omega arith;
    handle = v.handle;
  }
  supervise-Leaving m t online n v =
      let s = v.stopping in let d = v.due in let h = v.handle in ground arith
  supervise-Leaving m t ended n v = record {
    stopping = v.stopping;
    due = omega arith;
    handle = v.handle;
  }

  -- The moves of the supervisor among those of a run.
  abbrev pub turns : List (LiveMove c b inet_pton) → ℕ
  turns [] = 0
  turns (supervises t ∷ ms) = suc (turns ms)
  turns (_ ∷ ms) = turns ms

  delivery-IsKept : (m : ℕ) → IsKept c b inet_pton (λ s. Leaving m (s.newt, s.phase))
  delivery-IsKept m = record {
    called = λ call task s v.
        Kept-Leaving m s.phase s.newt _ v (receive_call-Kept inet_pton call s.newt v.stopping);
    handled =
        λ proto s v. Kept-Leaving m s.phase s.newt _ v (same-Kept s.newt _ v.stopping refl refl);
    received =
        λ q rest s e v. Kept-Leaving m s.phase s.newt _ v (same-Kept s.newt _ v.stopping refl refl);
  }

  lives-Leaving :
      (ms : List (LiveMove c b inet_pton)) (s : Crew)
      → Leaving (turns ms) (s.newt, s.phase)
      → Leaving 0 ((lives c b inet_pton ms s).newt, (lives c b inet_pton ms s).phase)
  unfolding lives live
  lives-Leaving [] s v = v
  lives-Leaving (supervises t ∷ ms) s v =
      lives-Leaving ms _ (supervise-Leaving (turns ms) t s.phase s.newt v)
  lives-Leaving (reconnects i t ∷ ms) s v = lives-Leaving ms _ (
      Kept-Leaving (turns ms) s.phase s.newt _ v (rejoin_at-Kept b i t s.rejoins s.newt v.stopping))
  lives-Leaving (stops link env ∷ ms) s v =
      lives-Leaving ms _
        (Kept-Leaving (turns ms) s.phase s.newt _ v (stop-Kept link env s.newt v.stopping))
  lives-Leaving (notifies h e ∷ ms) s v =
      lives-Leaving ms _
        (Kept-Leaving (turns ms) s.phase s.newt _ v (event_in-Kept h e s.newt v.stopping))
  lives-Leaving (delivers task ∷ ms) s v = lives-Leaving ms _ (
      deliver_next-IsKept c b inet_pton (λ s. Leaving (turns ms) (s.newt, s.phase))
        (delivery-IsKept (turns ms)) task s v)
  lives-Leaving (calls call task ∷ ms) s v = lives-Leaving ms _ (
      Kept-Leaving (turns ms) s.phase s.newt _ v
        (receive_call-Kept inet_pton call s.newt v.stopping))
  lives-Leaving (pings ∷ ms) s v =
      lives-Leaving ms _
        (Kept-Leaving (turns ms) s.phase s.newt _ v (ping_round-Kept s.newt v.stopping))
  lives-Leaving (peer_up ∷ ms) s v =
      lives-Leaving ms _
        (Kept-Leaving (turns ms) s.phase s.newt _ v (see_peer-Kept s.newt v.stopping))

  ended_of : (s : Newt × Phase) → Leaving 0 s → (s.1 ≡ ended) × (s.0.supervisor ≡ false)
  ended_of (n, p) v = let d = v.due in let h = v.handle in ground arith

  -- Once the stop bit is set, the supervisor ends within seven of its own moves, wherever it was and
  -- whatever the calls answer, however reconnect tasks, calls of `newt_stop`, events of the client, rounds of
  -- the worker, callbacks, rounds of the periodic ping and polls fall between; it gives up its handle at the end, so that `newt_start` can
  -- make a new one.
  pub lives-ended :
      (ms : List (LiveMove c b inet_pton)) (s : Crew)
      → stop_bit s.newt ≡ true
      → s.newt.supervisor ≡ runs s.phase
      → 7 ≤ turns ms
      → ((lives c b inet_pton ms s).phase ≡ ended)
        × ((lives c b inet_pton ms s).newt.supervisor ≡ false)
  lives-ended ms s e h l =
      ended_of ((lives c b inet_pton ms s).newt, (lives c b inet_pton ms s).phase)
        (lives-Leaving ms s
          (record { stopping = e; due = omega (arith, remaining-le s.phase); handle = h }))
