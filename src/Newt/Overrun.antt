-- ===== src/Newt/Overrun.antt =====
-- `newt_stop` while the supervisor waits for the token.
use newt_esp.Auth.Fetch.{Answers, get_token-Answers}
use newt_esp.Auth.Token.{Fetched, accepts_token, get_token}
use newt_esp.Base.{
  Option, List, ℕ, ◌<◌, ◌≡◌, refl, true, false, [], ◌∷◌, some, arith, inl, inr, Bytes, codes,
  length, ◌∙◌,
}
use newt_esp.Extern.{EspErr, esp_ok, Cjson, Base64}
use newt_esp.Newt.Live.{
  awaiting, opening, starting, polling, ended, Turn, finish, answered, open_live, start_live,
  poll_live, supervise,
}
use newt_esp.Newt.Moves.{supervises, stops, Crew, live, lives}
use newt_esp.Newt.Public.{Newt, stop, stop_parts, EventBits}
use newt_esp.Newt.Rejoin.{Rejoin}
use newt_esp.Newt.Shutdown.{stop_bit, IsShut, stop-IsShut}
use newt_esp.Proto.State.{string_member}
use newt_esp.Wg.State.{TcpipEnv}
use newt_esp.Ws
use newt_esp.Ws.Envelope.{Link}
use newt_esp.Ws.Life.{WsConfig, InitEnv, init, start, is_connected}
use newt_esp.Ws.Lifecycle.{IsOpen, IsClosed, After, init-After, start-IsOpen}
use newt_esp.Ws.State.{Ws}

-- The websocket's configuration that the supervisor gives with a token.
abbrev pub config_with : Newt → Bytes → WsConfig
config_with n token = record { endpoint = some n.endpoint; token = some token; on_msg = true }

-- What stays behind: no supervisor and the stop bit set, but the websocket running and the token in
-- its buffer.
pub record IsOverrun (token : Bytes) (s : Crew) : Type 0 where
  pub over : s.phase ≡ ended
  pub handle : s.newt.supervisor ≡ false
  pub stopping : stop_bit s.newt ≡ true
  pub ws : IsOpen s.newt.ws
  pub token_left : s.newt.token ≡ token
  pub secret : s.newt.newt_secret ≡ []

After-IsOpen : (r : Ws × EspErr) → After r → r.1 ≡ esp_ok → IsOpen r.0
After-IsOpen r (inl h) e = h.1
After-IsOpen r (inr h) e = absurd (h.0 e)

start_open : (w : Ws) → IsOpen w → (start esp_ok w).1 ≡ esp_ok
unfolding start
start_open w o = rw o.client refl

module _ (t : Turn) where
  -- The stop bit is set, nothing runs, and the token is there: what the supervisor does next.
  open_starting :
      (n : Newt)
      → (init t.ws (some (config_with n n.token)) n.ws).1 ≡ esp_ok
      → open_live t.ws n
        ≡ (record n { ws = (init t.ws (some (config_with n n.token)) n.ws).0 }, starting)
  unfolding open_live
  open_starting n e = rw e refl

  start_polling :
      (n : Newt)
      → IsOpen n.ws
      → start_live esp_ok n ≡ (record n { ws = (start esp_ok n.ws).0 }, polling 0)
  unfolding start_live
  start_polling n o = rw (start_open n.ws o) refl

  poll_finish : (n : Newt) → stop_bit n ≡ true → poll_live false false 0 n ≡ finish n
  unfolding poll_live is_connected
  poll_finish n s = ground arith

answered_ok :
    (k : ℕ) (f : Fetched) (n : Newt) (text : Bytes) (bits : EventBits)
    → f.ret ≡ esp_ok
    → f.written ≡ text ∷ []
    → n.events ≡ some bits
    → answered k f n
      ≡ (record n { token = text; events = some (record bits { authed = true }) }, opening)
unfolding answered
answered_ok k f n text bits r w e = ground arith

module _ (c : Cjson) (b : Base64) (inet_pton : Bytes → Option ℕ) (t : Turn) where
  -- What the moves behind the request meet: the server answers with the token `text`, the websocket
  -- is made and started, and is not connected yet at the first poll.
  pub record Goes (endpoint newt_id secret text : Bytes) (w : Ws) : Type 0 where
    pub object : c.Item
    pub body : Bytes
    pub printed :
        c.print_strings ((codes "newtId", newt_id) ∷ (codes "secret", secret) ∷ []) ≡ some body
    pub answers : Answers c t.http accepts_token object
    pub has_token : string_member c object (codes "token") ≡ some text
    pub fits : length text < 512
    pub url : t.url_memory ≡ true
    pub inits :
        (init t.ws
          (some (record { endpoint = some endpoint; token = some text; on_msg = true }))
          w).1
        ≡ esp_ok
    pub starts : t.client_start ≡ esp_ok
    pub waits : t.connected ≡ false
    pub waits_behind : t.connected_behind ≡ false

  supervise_awaiting :
      (k : ℕ) (secret : Bytes) (n : Newt) (f : Fetched)
      → get_token c t.http t.url_memory (some n.endpoint) (some n.newt_id) (some secret) true 512
        ≡ some f
      → supervise c b t (awaiting k secret) n ≡ answered k f n
  unfolding supervise get_token
  supervise_awaiting k secret n f e = rw (e, supervise) refl

  answered_live :
      (k : ℕ) (secret text : Bytes) (n : Newt) (bits : EventBits)
      → Goes n.endpoint n.newt_id secret text n.ws
      → n.events ≡ some bits
      → supervise c b t (awaiting k secret) n
        ≡ (record n { token = text; events = some (record bits { authed = true }) }, opening)
  answered_live k secret text n bits g e =
      let (f, called, good, out) =
        get_token-Answers c t.http n.endpoint n.newt_id secret g.body text 512 g.object g.printed
          g.answers g.has_token g.fits in
      supervise_awaiting k secret n f (rw g.url called) ∙ answered_ok k f n text bits good out e

  -- The state behind the four moves.
  supervise-IsOverrun :
      (k : ℕ) (secret text : Bytes) (n : Newt) (bits : EventBits) (rs : List Rejoin)
      → Goes n.endpoint n.newt_id secret text n.ws
      → n.events ≡ some bits
      → bits.stop ≡ true
      → n.newt_secret ≡ []
      → IsClosed n.ws
      → IsOverrun text (
          lives c b inet_pton
            (supervises t ∷ supervises t ∷ supervises t ∷ supervises t ∷ [])
            (record { newt = n; phase = awaiting k secret; rejoins = rs }))
  unfolding lives live supervise finish
  supervise-IsOverrun k secret text n bits rs g e s z v =
      let n1 = record n { token = text; events = some (record bits { authed = true }) } in
      let w2 = (init t.ws (some (config_with n1 text)) n.ws).0 in
      let n2 = record n1 { ws = w2 } in
      let o2 = After-IsOpen _ (init-After t.ws (some (config_with n1 text)) n.ws v) g.inits in
      let n3 = record n2 { ws = (start esp_ok w2).0 } in
      rw (answered_live k secret text n bits g e) (
        rw (open_starting t n1 g.inits) (
          rw (g.starts, start_polling t n2 o2)
            (rw (g.waits, g.waits_behind, poll_finish t n3 s)
              (record {
                over = refl;
                handle = refl;
                stopping = s;
                ws = start-IsOpen esp_ok w2 o2;
                token_left = refl;
                secret = z;
              }))))

-- What a `newt_stop` with no websocket open leaves of the fields that the supervisor uses.
stop_idle :
    (link : Link) (tcpip : TcpipEnv) (n : Newt) (bits : EventBits)
    → n.events ≡ some bits
    → IsClosed n.ws
    → ((stop link tcpip n).newt.endpoint ≡ n.endpoint)
      × ((stop link tcpip n).newt.newt_id ≡ n.newt_id)
      × ((stop link tcpip n).newt.ws ≡ n.ws)
      × ((stop link tcpip n).newt.events ≡ some (record bits { stop = true }))
      × ((stop link tcpip n).newt.newt_secret ≡ [])
unfolding stop stop_parts Ws.Life.stop
stop_idle link tcpip n bits e v =
    let closed = v.client in (ground arith, ground arith, ground arith, ground arith, ground arith)

-- A request for the token is under way, with no websocket open, when `newt_stop` runs, which clears the
-- variables of the handles and of the secrets. Then the answer comes, with status 200, less than 8192
-- bytes and a token of less than 512 characters; memory is there, and `newt_ws_init` and
-- `newt_ws_start` succeed with that token, but the client is not connected yet at the first poll. The
-- supervisor, which looks at the stop bit only behind a failed request and in its waits, ends at that
-- poll: the websocket stays open, with its worker and its client, and the token stays in memory.
pub lives-IsOverrun :
    (c : Cjson) (b : Base64) (inet_pton : Bytes → Option ℕ) (t : Turn) (link : Link)
    (tcpip : TcpipEnv) (k : ℕ) (text : Bytes) (n : Newt) (bits : EventBits) (rs : List Rejoin)
    → n.events ≡ some bits
    → IsClosed n.ws
    → Goes c b inet_pton t n.endpoint n.newt_id n.newt_secret text n.ws
    → let s : Crew = record { newt = n; phase = awaiting k n.newt_secret; rejoins = rs } in
      IsShut (lives c b inet_pton (stops link tcpip ∷ []) s).newt
      × IsOverrun text (
          lives c b inet_pton
            (stops link tcpip ∷ supervises t ∷ supervises t ∷ supervises t ∷ supervises t ∷ [])
            s)
unfolding lives live
lives-IsOverrun c b inet_pton t link tcpip k text n bits rs e v g =
    let (same_endpoint, same_id, same_ws, kept, cleared) = stop_idle link tcpip n bits e v in
    (
      stop-IsShut link tcpip bits n e (inr v),
      supervise-IsOverrun c b inet_pton t k n.newt_secret text (stop link tcpip n).newt
          (record bits { stop = true }) rs (rw (same_endpoint, same_id, same_ws) g) kept refl
          cleared (rw same_ws v),
    )
