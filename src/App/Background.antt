-- ===== src/App/Background.antt =====
-- main.c: `heap_probe_task` and `wifi_disconnect_test_task`, as what they call, and the test beside
-- `wifi_event_handler`.
use newt_esp.App.Wifi.{WifiEvent, holds_ip, attempts, wifi_event_handler}
use newt_esp.Base.{ℕ, zero, suc, ◌+◌, ◌≡◌, ap, ◌∙◌, Bool, true, false, List, [], ◌∷◌, arith}

-- Waits are in milliseconds; `read_heap` is one line of the log with both sizes.
pub data TaskAction : Type 0 where
  wait_ms : ℕ → TaskAction
  read_heap wifi_disconnect wifi_connect delete_task : TaskAction

-- `heap_probe_task` never ends; these are its first rounds.
unfoldable pub heap_probe_task : ℕ → List TaskAction
heap_probe_task zero = []
heap_probe_task (suc rounds) = read_heap ∷ wait_ms 60000 ∷ heap_probe_task rounds

abbrev pub wifi_disconnect_test_task : List TaskAction
wifi_disconnect_test_task =
    wait_ms 90000 ∷ wifi_disconnect ∷ wait_ms 20000 ∷ wifi_connect ∷ delete_task ∷ []

-- What happens in time: the task's actions and the events that the handler gets.
pub data Moment : Type 0 where
  acts : TaskAction → Moment
  gets : WifiEvent → Moment

-- The bit WIFI_GOT_IP_BIT and the calls of esp_wifi_connect, the task's own included.
unfoldable pub pass : List Moment → Bool × ℕ → Bool × ℕ
unfolding wifi_event_handler
pass [] s = s
pass (acts wifi_connect ∷ ms) s = pass ms (s.0, suc s.1)
pass (acts _ ∷ ms) s = pass ms s
pass (gets e ∷ ms) s =
    let (bit, connects) = wifi_event_handler e s.0 in pass ms (bit, s.1 + connects)

-- The task's actions and the handler's events of a history.
abbrev pub actions_of : List Moment → List TaskAction
actions_of [] = []
actions_of (acts a ∷ ms) = a ∷ actions_of ms
actions_of (gets e ∷ ms) = actions_of ms

abbrev pub events_of : List Moment → List WifiEvent
events_of [] = []
events_of (acts a ∷ ms) = events_of ms
events_of (gets e ∷ ms) = e ∷ events_of ms

abbrev pub connects_in : List TaskAction → ℕ
connects_in [] = 0
connects_in (wifi_connect ∷ rest) = suc (connects_in rest)
connects_in (_ ∷ rest) = connects_in rest

pass-split :
    (ms : List Moment) (bit : Bool) (n : ℕ)
    → pass ms (bit, n)
      ≡ (holds_ip bit (events_of ms), n + attempts (events_of ms) + connects_in (actions_of ms))
unfolding pass wifi_event_handler
pass-split [] bit n = ground arith
pass-split (acts wifi_connect ∷ ms) bit n = ground (arith, pass-split ms bit (suc n))
pass-split (acts (wait_ms t) ∷ ms) bit n = pass-split ms bit n
pass-split (acts read_heap ∷ ms) bit n = pass-split ms bit n
pass-split (acts wifi_disconnect ∷ ms) bit n = pass-split ms bit n
pass-split (acts delete_task ∷ ms) bit n = pass-split ms bit n
pass-split (gets WifiEvent.sta_start ∷ ms) bit n = ground (arith, pass-split ms bit (n + 1))
pass-split (gets WifiEvent.sta_disconnected ∷ ms) bit n =
    ground (arith, pass-split ms false (n + 1))
pass-split (gets WifiEvent.sta_got_ip ∷ ms) bit n = ground (arith, pass-split ms true (n + 0))
pass-split (gets WifiEvent.other_wifi ∷ ms) bit n = ground (arith, pass-split ms bit (n + 0))

-- Whenever events fall beside the disconnect test, the bit still says whether an address is held, and
-- the test adds one attempt to connect to those of the handler.
pub pass-wifi_disconnect_test_task :
    (ms : List Moment) (bit : Bool) (n : ℕ)
    → actions_of ms ≡ wifi_disconnect_test_task
    → pass ms (bit, n) ≡ (holds_ip bit (events_of ms), n + attempts (events_of ms) + 1)
pass-wifi_disconnect_test_task ms bit n e =
    pass-split ms bit n
    ∙ ap (λ rest. (holds_ip bit (events_of ms), n + attempts (events_of ms) + connects_in rest)) e
