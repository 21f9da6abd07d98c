-- ===== src/Newt/Ends/Gone.antt =====
-- Every reconnect task ends behind a stop, whatever the others do.
use newt_esp.Base.{
  ℕ, ◌+◌, ◌≤◌, ◌<◌, ◌≡◌, ◌≢◌, suc, false, List, [], ◌∷◌, ◌++◌, ◌==◌, if◌then◌else◌, Bytes, Option,
  true, arith, refl, length, length-append, Bool-cases, inl, inr,
}
use newt_esp.Extern.{Cjson, Base64}
use newt_esp.Newt.Ends.{runs, Leaving}
use newt_esp.Newt.Ends.Beside.{
  Kept, Kept-Leaving, stop-Kept, receive_call-Kept, ping_round-Kept, see_peer-Kept, event_in-Kept,
  same-Kept, remaining-le,
}
use newt_esp.Newt.Delivery.{IsKept, deliver_next-IsKept}
use newt_esp.Newt.Ends.Rejoins.{
  left_of, task_at, rejoin_at-Kept, length-rejoin_at, rejoin_at-left_of, rejoin_at_other,
  task_at-append,
}
use newt_esp.Newt.Ends.Run.{supervise-Leaving}
use newt_esp.Newt.Live.{Phase, Turn, supervise}
use newt_esp.Newt.Moves.{
  LiveMove, supervises, reconnects, stops, notifies, delivers, calls, pings, peer_up, Crew, spawned,
  live, lives,
}
use newt_esp.Newt.Public.{Newt}
use newt_esp.Newt.Rejoin.{Rejoin, gone, rejoin_at}
use newt_esp.Newt.Shutdown.{stop_bit}

-- The stop bit is set, and the reconnect task `i` has `m` moves of its own left at most.
record Fading (i m : ℕ) (s : Crew) : Type 0 where
  leaving : Leaving 7 (s.newt, s.phase)
  there : i < length s.rejoins
  left : left_of (task_at s.rejoins i) ≤ m

-- Other tasks than the reconnect tasks, which may spawn one.
Kept-Fading :
    (i m : ℕ) (s : Crew) (n' : Newt)
    → Fading i m s
    → Kept s.newt n'
    → Fading i m (record s { newt = n' })
Kept-Fading i m s n' v k = record {
  leaving = Kept-Leaving 7 s.phase s.newt n' v.leaving k;
  there = v.there;
  left = v.left;
}

spawned-Fading :
    (i m : ℕ) (s : Crew) (more : List Rejoin)
    → Fading i m s
    → Fading i m (record s { rejoins = s.rejoins ++ more })
spawned-Fading i m s more v =
    let h = v.there in
    record {
      leaving = v.leaving;
      there = omega (arith, length-append s.rejoins more);
      left = rw (task_at-append i s.rejoins more h) v.left;
    }

widen : (s : Newt × Phase) → Leaving 7 s → Leaving 8 s
widen s v = record { stopping = v.stopping; due = let d = v.due in omega arith; handle = v.handle }

gone_of : (r : Rejoin) → left_of r ≤ 0 → r ≡ gone
gone_of r h = ground arith

own : (i j m l : ℕ) → (j == i) ≡ true → l ≤ (if j == i then 1 else 0) + m → l ≤ suc m
own i j m l e h = ground arith

not_own : (i j m l : ℕ) → (j == i) ≡ false → l ≤ (if j == i then 1 else 0) + m → l ≤ m
not_own i j m l e h = ground arith

apart : (i j : ℕ) → (j == i) ≡ false → j ≢ i
apart i j e = ground arith

module _ (c : Cjson) (b : Base64) (inet_pton : Bytes → Option ℕ) where
  -- The moves of one reconnect task among those of a run.
  abbrev pub turns_of : ℕ → List (LiveMove c b inet_pton) → ℕ
  turns_of i [] = 0
  turns_of i (reconnects j t ∷ ms) = (if j == i then 1 else 0) + turns_of i ms
  turns_of i (_ ∷ ms) = turns_of i ms

  supervise-Fading :
      (i m : ℕ) (t : Turn) (s : Crew)
      → Fading i m s
      → let r = supervise c b t s.phase s.newt in Fading i m (record s { newt = r.0; phase = r.1 })
  supervise-Fading i m t s v = record {
    leaving =
        supervise-Leaving c b inet_pton 7 t s.phase s.newt (widen (s.newt, s.phase) v.leaving);
    there = v.there;
    left = v.left;
  }

  nearer :
      (i j m : ℕ) (t : Turn) (rs : List Rejoin) (n : Newt)
      → stop_bit n ≡ true
      → left_of (task_at rs i) ≤ (if j == i then 1 else 0) + m
      → left_of (task_at (rejoin_at b j t rs n).1 i) ≤ m
  nearer i j m t rs n s l = elim (Bool-cases (j == i)) [
    | inl same ↦
        let e : j ≡ i = ground arith in
        rw e (rejoin_at-left_of b i t rs n m s (own i j m (left_of (task_at rs i)) same l))
    | inr other ↦
        rw (rejoin_at_other b i j t rs n (apart i j other))
          (not_own i j m (left_of (task_at rs i)) other l)
  ]

  rejoin_at-Fading :
      (i j m : ℕ) (t : Turn) (s : Crew)
      → Fading i ((if j == i then 1 else 0) + m) s
      → let r = rejoin_at b j t s.rejoins s.newt in
        Fading i m (record s { newt = r.0; rejoins = r.1 })
  rejoin_at-Fading i j m t s v =
      let h = v.there in
      let e = length-rejoin_at b j t s.rejoins s.newt in
      record {
        leaving =
            Kept-Leaving 7 s.phase s.newt _ v.leaving
              (rejoin_at-Kept b j t s.rejoins s.newt v.leaving.stopping);
        there = omega arith;
        left = nearer i j m t s.rejoins s.newt v.leaving.stopping v.left;
      }

  delivery-IsKept : (i m : ℕ) → IsKept c b inet_pton (Fading i m)
  delivery-IsKept i m = record {
    called = λ call task s v.
        spawned-Fading i m (record s { newt = _ }) (spawned call task)
          (Kept-Fading i m s _ v (receive_call-Kept inet_pton call s.newt v.leaving.stopping));
    handled = λ proto s v. Kept-Fading i m s _ v (same-Kept s.newt _ v.leaving.stopping refl refl);
    received =
        λ q rest s e v. Kept-Fading i m s _ v (same-Kept s.newt _ v.leaving.stopping refl refl);
  }

  lives-Fading :
      (i : ℕ) (ms : List (LiveMove c b inet_pton)) (s : Crew)
      → Fading i (turns_of i ms) s
      → Fading i 0 (lives c b inet_pton ms s)
  unfolding lives live
  lives-Fading i [] s v = v
  lives-Fading i (supervises t ∷ ms) s v =
      lives-Fading i ms _ (supervise-Fading i (turns_of i ms) t s v)
  lives-Fading i (reconnects j t ∷ ms) s v =
      lives-Fading i ms _ (rejoin_at-Fading i j (turns_of i ms) t s v)
  lives-Fading i (stops link env ∷ ms) s v =
      lives-Fading i ms _
        (Kept-Fading i (turns_of i ms) s _ v (stop-Kept link env s.newt v.leaving.stopping))
  lives-Fading i (notifies h e ∷ ms) s v =
      lives-Fading i ms _
        (Kept-Fading i (turns_of i ms) s _ v (event_in-Kept h e s.newt v.leaving.stopping))
  lives-Fading i (delivers task ∷ ms) s v = lives-Fading i ms _ (
      deliver_next-IsKept c b inet_pton (Fading i (turns_of i ms))
        (delivery-IsKept i (turns_of i ms)) task s v)
  lives-Fading i (calls call task ∷ ms) s v =
      lives-Fading i ms _ ((delivery-IsKept i (turns_of i ms)).called call task s v)
  lives-Fading i (pings ∷ ms) s v =
      lives-Fading i ms _
        (Kept-Fading i (turns_of i ms) s _ v (ping_round-Kept s.newt v.leaving.stopping))
  lives-Fading i (peer_up ∷ ms) s v =
      lives-Fading i ms _
        (Kept-Fading i (turns_of i ms) s _ v (see_peer-Kept s.newt v.leaving.stopping))

  left_of-le : (r : Rejoin) → left_of r ≤ 4
  left_of-le r = ground arith

  -- Once the stop bit is set, every reconnect task ends within four of its own moves, wherever it was,
  -- whatever the calls answer and whatever the others do between, who may spawn more of them.
  pub lives-gone :
      (i : ℕ) (ms : List (LiveMove c b inet_pton)) (s : Crew)
      → stop_bit s.newt ≡ true
      → s.newt.supervisor ≡ runs s.phase
      → i < length s.rejoins
      → 4 ≤ turns_of i ms
      → task_at (lives c b inet_pton ms s).rejoins i ≡ gone
  lives-gone i ms s e h l k =
      let v = lives-Fading i ms s (record {
        leaving = record { stopping = e; due = remaining-le s.phase; handle = h };
        there = l;
        left = omega (arith, left_of-le (task_at s.rejoins i));
      }) in
      gone_of _ v.left
