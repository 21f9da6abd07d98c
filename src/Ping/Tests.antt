-- ===== src/Ping/Tests.antt =====
-- newt_ping.c: runs at concrete inputs.
use newt_esp.Base.{ℕ, ◌≡◌, refl, true, List, [], ◌∷◌, none, some}
use newt_esp.Extern.{esp_ok, esp_fail, err_invalid_state}
use newt_esp.Ping.Session.{
  PingConfig, Ping, created, failed, new_session, start_session, stop_session, delete_session, init,
  start, stop, on_ping_success,
}
use newt_esp.Ping.Sessions.{
  PingOp, inits, starts, stops, run, final, replay, held, all_tidy, Holds, run-Holds, run-tidy,
}

abbrev wake : PingConfig
wake = record {
  target = 1;
  interval_ms = 2000;
  timeout_ms = 1000;
  max_attempts = 0;
  on_reply = true;
}

abbrev unset : Ping
unset = record { session = none; cfg = none }

abbrev calls : List PingOp
calls =
    starts esp_ok
    ∷ inits (failed esp_fail) (some wake)
    ∷ inits (created 7) (some wake)
    ∷ starts esp_ok
    ∷ stops
    ∷ stops
    ∷ inits (created 7) (some wake)
    ∷ starts esp_ok
    ∷ []

start-unset : (start esp_ok unset).ret ≡ err_invalid_state
unfolding start
start-unset = refl

run_calls :
    run calls unset
    ≡ new_session 7 wake
      ∷ start_session 7
      ∷ stop_session 7
      ∷ delete_session 7
      ∷ new_session 7 wake
      ∷ start_session 7
      ∷ []
unfolding init start stop
run_calls = refl

reply_before_init : on_ping_success 1 20 unset ≡ none
unfolding on_ping_success
reply_before_init = refl

tidy_calls : all_tidy calls unset ≡ true
unfolding init start stop
tidy_calls = refl

run-Holds_example :
    (ys : List ℕ) × (replay (run calls unset) [] ≡ some ys) × Holds (final calls unset) ys
run-Holds_example = run-Holds calls unset [] refl

run-tidy_example : replay (run calls unset) (held unset) ≡ some (held (final calls unset))
run-tidy_example = run-tidy calls unset tidy_calls
