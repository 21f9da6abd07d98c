-- ===== src/App/Wifi.antt =====
-- main.c: `wifi_event_handler` and `newt_evt_cb`, with the state that each keeps.
use newt_esp.Base.{
  ℕ, suc, ◌+◌, ◌≡◌, refl, ap, Bool, true, false, List, [], ◌∷◌, ◌++◌, arith, if◌then◌else◌,
}
use newt_esp.Newt.Supervisor.{NewtEvent, online}

-- The events that the handler tells apart.
pub data WifiEvent : Type 0 where
  sta_start sta_disconnected sta_got_ip other_wifi : WifiEvent

-- The bit WIFI_GOT_IP_BIT behind an event, and how often it calls esp_wifi_connect.
unfoldable pub wifi_event_handler : WifiEvent → Bool → Bool × ℕ
wifi_event_handler sta_start bit = (bit, 1)
wifi_event_handler sta_disconnected bit = (false, 1)
wifi_event_handler sta_got_ip bit = (true, 0)
wifi_event_handler other_wifi bit = (bit, 0)

abbrev pub handle_all : List WifiEvent → Bool × ℕ → Bool × ℕ
handle_all [] s = s
handle_all (e ∷ es) s =
    let (bit, connects) = wifi_event_handler e s.0 in handle_all es (bit, s.1 + connects)

-- What the application does on an event of the library.
pub data AppAction : Type 0 where
  spawn_heap_probe spawn_disconnect_test start_httpd register_uri : AppAction

-- `newt_evt_cb`: whether it is built with the disconnect test, whether the server starts, the event,
-- and the flag `started`.
unfoldable pub newt_evt_cb : Bool → Bool → NewtEvent → Bool → Bool × List AppAction
newt_evt_cb test httpd_ok online started = (
  true,
  (if started then [] else spawn_heap_probe ∷ (if test then spawn_disconnect_test ∷ [] else []))
      ++ start_httpd ∷ (if httpd_ok then register_uri ∷ [] else []),
)
newt_evt_cb test httpd_ok _ started = (started, [])

abbrev pub on_events : Bool → List (NewtEvent × Bool) → Bool → List AppAction
on_events test [] started = []
on_events test ((e, httpd_ok) ∷ es) started =
    let (again, acts) = newt_evt_cb test httpd_ok e started in acts ++ on_events test es again

-- How often the probe is started.
abbrev pub probes : List AppAction → ℕ
probes [] = 0
probes (spawn_heap_probe ∷ acts) = suc (probes acts)
probes (_ ∷ acts) = probes acts

abbrev pub gets_online : List (NewtEvent × Bool) → Bool
gets_online [] = false
gets_online ((online, _) ∷ es) = true
gets_online (_ ∷ es) = gets_online es

-- The address is held after the events: of those that lose or get it, the last one got it; `held` is
-- for the time before.
abbrev pub holds_ip : Bool → List WifiEvent → Bool
holds_ip held [] = held
holds_ip held (sta_disconnected ∷ es) = holds_ip false es
holds_ip held (sta_got_ip ∷ es) = holds_ip true es
holds_ip held (_ ∷ es) = holds_ip held es

abbrev pub attempts : List WifiEvent → ℕ
attempts [] = 0
attempts (sta_start ∷ es) = suc (attempts es)
attempts (sta_disconnected ∷ es) = suc (attempts es)
attempts (_ ∷ es) = attempts es

-- After any events the bit says whether an address is held, and each start and each loss of the
-- connection has led to one attempt to connect.
pub handle_all-holds_ip :
    (es : List WifiEvent) (bit : Bool) (n : ℕ)
    → handle_all es (bit, n) ≡ (holds_ip bit es, n + attempts es)
unfolding wifi_event_handler
handle_all-holds_ip [] bit n = ground arith
handle_all-holds_ip (sta_start ∷ es) bit n = ground (arith, handle_all-holds_ip es bit (n + 1))
handle_all-holds_ip (sta_disconnected ∷ es) bit n =
    ground (arith, handle_all-holds_ip es false (n + 1))
handle_all-holds_ip (sta_got_ip ∷ es) bit n = ground (arith, handle_all-holds_ip es true (n + 0))
handle_all-holds_ip (other_wifi ∷ es) bit n = ground (arith, handle_all-holds_ip es bit (n + 0))

probes-append : (xs ys : List AppAction) → probes (xs ++ ys) ≡ probes xs + probes ys
probes-append [] ys = omega arith
probes-append (spawn_heap_probe ∷ xs) ys = omega (arith, probes-append xs ys)
probes-append (spawn_disconnect_test ∷ xs) ys = probes-append xs ys
probes-append (start_httpd ∷ xs) ys = probes-append xs ys
probes-append (register_uri ∷ xs) ys = probes-append xs ys

probes-started : (test : Bool) (es : List (NewtEvent × Bool)) → probes (on_events test es true) ≡ 0
unfolding newt_evt_cb
probes-started test [] = refl
probes-started test ((online, true) ∷ es) = probes-started test es
probes-started test ((online, false) ∷ es) = probes-started test es
probes-started test ((_, ok) ∷ es) = probes-started test es

-- Whatever the library tells and whether or not the server starts, the heap probe is started exactly
-- once if the site ever gets online, and never if not.
pub probes-on_events :
    (test : Bool) (es : List (NewtEvent × Bool))
    → probes (on_events test es false) ≡ (if gets_online es then 1 else 0)
unfolding newt_evt_cb
probes-on_events test [] = refl
probes-on_events true ((online, true) ∷ es) = ap suc (probes-started true es)
probes-on_events true ((online, false) ∷ es) = ap suc (probes-started true es)
probes-on_events false ((online, true) ∷ es) = ap suc (probes-started false es)
probes-on_events false ((online, false) ∷ es) = ap suc (probes-started false es)
probes-on_events test ((_, ok) ∷ es) = probes-on_events test es
