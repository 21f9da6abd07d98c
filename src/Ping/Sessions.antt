-- ===== src/Ping/Sessions.antt =====
-- newt_ping.c: no session is used before it is made or after it is deleted, and none is left over.
use newt_esp.Base.{
  ℕ, ◌≡◌, refl, Bool, true, false, ◌&&◌, ◌||◌, List, [], ◌∷◌, ◌++◌, Option, none, some, arith, ◌==◌,
  if◌then◌else◌, ◌>>=◌,
}
use newt_esp.Extern.{EspErr}
use newt_esp.Ping.Session.{
  PingConfig, Ping, NewSession, created, failed, PingCall, new_session, start_session, stop_session,
  delete_session, Done, init, start, stop,
}

-- The sessions that are live, and one call of the library: a session that is not live must not be
-- touched.
abbrev pub live : ℕ → List ℕ → Bool
live h [] = false
live h (x ∷ xs) = h == x || live h xs

abbrev pub release : ℕ → List ℕ → List ℕ
release h [] = []
release h (x ∷ xs) = if h == x then xs else x ∷ release h xs

abbrev pub touch : PingCall → List ℕ → Option (List ℕ)
touch (new_session h cfg) xs = some (h ∷ xs)
touch (start_session h) xs = if live h xs then some xs else none
touch (stop_session h) xs = if live h xs then some xs else none
touch (delete_session h) xs = if live h xs then some (release h xs) else none

abbrev pub replay : List PingCall → List ℕ → Option (List ℕ)
replay [] xs = some xs
replay (c ∷ cs) xs = touch c xs >>= λ ys. replay cs ys

-- One call of the component, with what the library answers.
pub data PingOp : Type 0 where
  inits : NewSession → Option PingConfig → PingOp
  starts : EspErr → PingOp
  stops : PingOp

abbrev pub perform : PingOp → Ping → Done
perform (inits answer cfg) s = init answer cfg s
perform (starts answer) s = start answer s
perform stops s = stop s

abbrev pub run : List PingOp → Ping → List PingCall
run [] s = []
run (o ∷ os) s = (perform o s).calls ++ run os (perform o s).ping

abbrev pub final : List PingOp → Ping → Ping
final [] s = s
final (o ∷ os) s = final os (perform o s).ping

abbrev pub held : Ping → List ℕ
held s = elim s.session [ none ↦ [] | some h ↦ h ∷ [] ]

-- No session is opened while one is held.
abbrev pub tidy : PingOp → Ping → Bool
tidy (inits answer cfg) s = elim s.session [ none ↦ true | some h ↦ false ]
tidy (starts answer) s = true
tidy stops s = true

abbrev pub all_tidy : List PingOp → Ping → Bool
all_tidy [] s = true
all_tidy (o ∷ os) s = tidy o s && all_tidy os (perform o s).ping

abbrev pub Holds : Ping → List ℕ → Type 0
Holds s xs = elim s.session [ none ↦ true | some h ↦ live h xs ] ≡ true

replay-append :
    (cs ds : List PingCall) (xs : List ℕ)
    → replay (cs ++ ds) xs ≡ (replay cs xs >>= λ ys. replay ds ys)
replay-append [] ds xs = refl
replay-append (c ∷ cs) ds xs = go (touch c xs) (λ ys. replay-append cs ds ys)
  where
    go :
        (o : Option (List ℕ))
        → ((ys : List ℕ) → replay (cs ++ ds) ys ≡ (replay cs ys >>= λ zs. replay ds zs))
        → (o >>= λ ys. replay (cs ++ ds) ys) ≡ ((o >>= λ ys. replay cs ys) >>= λ ys. replay ds ys)
    go none ih = refl
    go (some ys) ih = ih ys

both : (a b : Bool) → (a && b) ≡ true → (a ≡ true) × (b ≡ true)
both true b h = (refl, h)
both false b h = cc

perform-Holds :
    (o : PingOp) (h : Option ℕ) (c : Option PingConfig) (xs : List ℕ)
    → Holds (record { session = h; cfg = c }) xs
    → (ys : List ℕ) × (replay (perform o (record { session = h; cfg = c })).calls xs ≡ some ys)
      × Holds (perform o (record { session = h; cfg = c })).ping ys
unfolding init start stop
perform-Holds (inits answer none) h c xs v = (xs, refl, v)
perform-Holds (inits (created n) (some k)) h c xs v = (n ∷ xs, refl, ground arith)
perform-Holds (inits (failed e) (some k)) h c xs v = (xs, refl, v)
perform-Holds (starts answer) none c xs v = (xs, refl, refl)
perform-Holds (starts answer) (some n) c xs v = (xs, rw v refl, v)
perform-Holds stops none c xs v = (xs, refl, refl)
perform-Holds stops (some n) c xs v = (release n xs, rw v (rw v refl), refl)

perform-tidy :
    (o : PingOp) (h : Option ℕ) (c : Option PingConfig)
    → tidy o (record { session = h; cfg = c }) ≡ true
    → replay
        (perform o (record { session = h; cfg = c })).calls
        (held (record { session = h; cfg = c }))
      ≡ some (held (perform o (record { session = h; cfg = c })).ping)
unfolding init start stop
perform-tidy (inits answer none) h c t = refl
perform-tidy (inits (created n) (some k)) none c t = refl
perform-tidy (inits answer (some k)) (some n) c t = cc
perform-tidy (inits (failed e) (some k)) none c t = refl
perform-tidy (starts answer) none c t = refl
perform-tidy (starts answer) (some n) c t = ground arith
perform-tidy stops none c t = refl
perform-tidy stops (some n) c t = ground arith

-- From a state whose session, if it holds one, is live: whatever calls are made, in whatever order
-- and with whatever answers, no session is started, stopped or deleted before it is made or after it
-- is deleted, and a session that is held at the end is live.
pub run-Holds :
    (os : List PingOp) (s : Ping) (xs : List ℕ)
    → Holds s xs
    → (ys : List ℕ) × (replay (run os s) xs ≡ some ys) × Holds (final os s) ys
run-Holds [] s xs v = (xs, refl, v)
run-Holds (o ∷ os) s xs v =
    let (ys, here, w) = perform-Holds o s.session s.cfg xs v in
    let (zs, rest, u) = run-Holds os (perform o s).ping ys w in
    (zs, rw (replay-append, here) rest, u)

-- A run of calls that opens no session while one is held, from a state whose session is the only one
-- that is live: at the end too the live sessions are the one that is held, or none if none is.
pub run-tidy :
    (os : List PingOp) (s : Ping)
    → all_tidy os s ≡ true
    → replay (run os s) (held s) ≡ some (held (final os s))
run-tidy [] s t = refl
run-tidy (o ∷ os) s t =
    let (one, rest) = both (tidy o s) (all_tidy os (perform o s).ping) t in
    rw (replay-append, perform-tidy o s.session s.cfg one) (run-tidy os (perform o s).ping rest)
