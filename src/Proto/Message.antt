-- ===== src/Proto/Message.antt =====
-- newt_proto.c, `newt_proto_handle_message`: the dispatch on the message type.
use newt_esp.Base.{
  ℕ, max, ◌≡◌, refl, ap, ◌∙◌, ◌⊎◌, inl, inr, Bool, true, false, List, [], ◌∷◌, Option, none, some,
  arith, ltb, if◌then◌else◌, Bytes, codes, bytes_eq, bytes_eq_iff, Bool-cases,
}
use newt_esp.Extern.{EspErr, esp_ok, err_invalid_arg, Cjson, Base64}
use newt_esp.Proto.Connect.{handle_wg_connect, handle_wg_connect-frame}
use newt_esp.Proto.ExitNodes.{handle_exit_nodes, handle_exit_nodes-frame}
use newt_esp.Proto.State.{
  WgConnect, Call, wg_connect, exit_nodes, wg_reconnect, wg_terminate, Proto, Outcome, outcome,
  call_if,
}

-- `if (config_version > s_config_version) s_config_version = config_version;`
unfoldable pub note_version : ℕ → Proto → Proto
note_version v p = if ltb p.config_version v then record p { config_version = v } else p

-- A handler that wants the data.
unfoldable pub with_data : Option Bytes → (Bytes → Proto → Outcome) → Proto → Outcome
with_data none f p = outcome p [] err_invalid_arg
with_data (some d) f p = f d p

module _ (c : Cjson) (b : Base64) where
  unfoldable pub dispatch : Bytes → Option Bytes → Proto → Outcome
  unfolding with_data
  dispatch type_ data_json p =
      if bytes_eq type_ (codes "newt/wg/connect")
      then with_data data_json (handle_wg_connect c b) p
      else if bytes_eq type_ (codes "newt/wg/reconnect")
      then outcome p (call_if p.cb.on_wg_reconnect wg_reconnect) esp_ok
      else if bytes_eq type_ (codes "newt/wg/terminate")
      then outcome p (call_if p.cb.on_wg_terminate wg_terminate) esp_ok
      else if bytes_eq type_ (codes "newt/ping/exitNodes")
      then with_data data_json (handle_exit_nodes c) p
      else outcome p [] esp_ok

  unfoldable pub handle_message : Option Bytes → Option Bytes → ℕ → Proto → Outcome
  unfolding dispatch note_version
  handle_message none data_json version p = outcome p [] err_invalid_arg
  handle_message (some type_) data_json version p =
      dispatch type_ data_json (note_version version p)

-- What the type of a message must be for each call.
abbrev pub Asks : Bytes → Call → Type 0
Asks t (wg_connect _) = t ≡ codes "newt/wg/connect"
Asks t wg_reconnect = t ≡ codes "newt/wg/reconnect"
Asks t wg_terminate = t ≡ codes "newt/wg/terminate"
Asks t exit_nodes = t ≡ codes "newt/ping/exitNodes"

-- At most one call is made, one that the type asks for.
abbrev pub Asked : Bytes → List Call → Type 0
Asked t calls = (calls ≡ []) ⊎ ((call : Call) × (calls ≡ call ∷ []) × Asks t call)

-- What a message of type `t` may do: the version is the greater one, the callbacks stay, the id of a
-- registration changes by a connect message only, the id of a ping request and the chosen node by an
-- answer only.
pub record Effect (t : Bytes) (v : ℕ) (p : Proto) (o : Outcome) : Type 0 where
  pub version : o.proto.config_version ≡ max p.config_version v
  pub asked : Asked t o.calls
  pub callbacks : o.proto.cb ≡ p.cb
  pub register_id :
      (t ≡ codes "newt/wg/connect") ⊎ (o.proto.inflight_chain_register ≡ p.inflight_chain_register)
  pub request_id :
      (t ≡ codes "newt/ping/exitNodes")
      ⊎ ((o.proto.inflight_chain_ping_request ≡ p.inflight_chain_ping_request)
          × (o.proto.chosen_exit_node_id ≡ p.chosen_exit_node_id))

-- A message as the worker hands it over: type, data, version.
abbrev pub Message : Type 0
Message = Bytes × Option Bytes × ℕ

abbrev pub newest : List Message → ℕ
newest [] = 0
newest ((_, _, v) ∷ ms) = max v (newest ms)

-- The state after the version is noted, which every handler starts from.
pub note_version-max :
    (v : ℕ) (p : Proto) → note_version v p ≡ record p { config_version = max p.config_version v }
unfolding note_version
note_version-max v p = ground arith

call_if-Asked : (t : Bytes) (set : Bool) (call : Call) → Asks t call → Asked t (call_if set call)
call_if-Asked t true call h = inr (call, refl, h)
call_if-Asked t false call h = inl refl

module _ (c : Cjson) (b : Base64) where
  idle-Effect :
      (t : Bytes) (v : ℕ) (p : Proto) (calls : List Call) (e : EspErr)
      → Asked t calls
      → Effect t v p (outcome (note_version v p) calls e)
  idle-Effect t v p calls e h = record {
    version = ap (λ q. q.config_version) (note_version-max v p);
    asked = h;
    callbacks = ap (λ q. q.cb) (note_version-max v p);
    register_id = inr (ap (λ q. q.inflight_chain_register) (note_version-max v p));
    request_id = inr (
      ap (λ q. q.inflight_chain_ping_request) (note_version-max v p),
      ap (λ q. q.chosen_exit_node_id) (note_version-max v p),
    );
  }

  connect-Effect :
      (t d : Bytes) (v : ℕ) (p : Proto)
      → t ≡ codes "newt/wg/connect"
      → Effect t v p (handle_wg_connect c b d (note_version v p))
  connect-Effect t d v p h =
      let noted = note_version-max v p in
      let (kept, calls) = handle_wg_connect-frame c b d (note_version v p) in
      record {
        version = ap (λ q. q.config_version) kept ∙ ap (λ q. q.config_version) noted;
        asked = connects calls;
        callbacks = ap (λ q. q.cb) kept ∙ ap (λ q. q.cb) noted;
        register_id = inl h;
        request_id = inr (
          ap (λ q. q.inflight_chain_ping_request) kept
              ∙ ap (λ q. q.inflight_chain_ping_request) noted,
          ap (λ q. q.chosen_exit_node_id) kept ∙ ap (λ q. q.chosen_exit_node_id) noted,
        );
      }
    where
      connects :
          (handle_wg_connect c b d (note_version v p)).calls ≡ []
            ⊎ ((w : WgConnect) × ((handle_wg_connect c b d (note_version v p)).calls
                  ≡ wg_connect w ∷ []))
          → Asked t (handle_wg_connect c b d (note_version v p)).calls
      connects (inl e) = inl e
      connects (inr (w, e)) = inr (wg_connect w, e, h)

  exit_nodes-Effect :
      (t d : Bytes) (v : ℕ) (p : Proto)
      → t ≡ codes "newt/ping/exitNodes"
      → Effect t v p (handle_exit_nodes c d (note_version v p))
  exit_nodes-Effect t d v p h =
      let noted = note_version-max v p in
      let (kept, calls) = handle_exit_nodes-frame c d (note_version v p) in
      record {
        version = ap (λ q. q.config_version) kept ∙ ap (λ q. q.config_version) noted;
        asked = answers calls;
        callbacks = ap (λ q. q.cb) kept ∙ ap (λ q. q.cb) noted;
        register_id =
            inr (
              ap (λ q. q.inflight_chain_register) kept ∙ ap (λ q. q.inflight_chain_register) noted);
        request_id = inl h;
      }
    where
      answers :
          (handle_exit_nodes c d (note_version v p)).calls ≡ []
            ⊎ ((handle_exit_nodes c d (note_version v p)).calls ≡ exit_nodes ∷ [])
          → Asked t (handle_exit_nodes c d (note_version v p)).calls
      answers (inl e) = inl e
      answers (inr e) = inr (exit_nodes, e, h)

  with_data-Effect :
      (t : Bytes) (data_json : Option Bytes) (v : ℕ) (p : Proto) (f : Bytes → Proto → Outcome)
      → ((d : Bytes) → Effect t v p (f d (note_version v p)))
      → Effect t v p (with_data data_json f (note_version v p))
  unfolding with_data
  with_data-Effect t none v p f h = idle-Effect t v p [] err_invalid_arg (inl refl)
  with_data-Effect t (some d) v p f h = h d

  type_is : (t s : Bytes) → bytes_eq t s ≡ true → t ≡ s
  type_is t s = (bytes_eq_iff t s).0

  -- Whatever a message with a type holds, the version becomes the greater of the two and the callbacks
  -- stay as they are; at most one is called, the one that the type asks for; the id of a registration
  -- changes only by a `newt/wg/connect` message, and the id of a ping request and the chosen node only
  -- by a `newt/ping/exitNodes` message.
  pub handle_message-Effect :
      (t : Bytes) (data_json : Option Bytes) (v : ℕ) (p : Proto)
      → Effect t v p (handle_message c b (some t) data_json v p)
  unfolding handle_message
  handle_message-Effect t data_json v p = elim (Bool-cases (bytes_eq t (codes "newt/wg/connect"))) [
    | inl e ↦ rw e (
        with_data-Effect t data_json v p (handle_wg_connect c b)
          λ d. connect-Effect t d v p (type_is t _ e))
    | inr n1 ↦ elim (Bool-cases (bytes_eq t (codes "newt/wg/reconnect"))) [
      | inl e ↦
          rw (n1, e) (idle-Effect t v p _ esp_ok (call_if-Asked t _ wg_reconnect (type_is t _ e)))
      | inr n2 ↦ elim (Bool-cases (bytes_eq t (codes "newt/wg/terminate"))) [
        | inl e ↦
            rw (n1, n2, e)
              (idle-Effect t v p _ esp_ok (call_if-Asked t _ wg_terminate (type_is t _ e)))
        | inr n3 ↦ elim (Bool-cases (bytes_eq t (codes "newt/ping/exitNodes"))) [
          | inl e ↦
              rw (n1, n2, n3, e)
                (with_data-Effect t data_json v p (handle_exit_nodes c)
                  λ d. exit_nodes-Effect t d v p (type_is t _ e))
          | inr n4 ↦ rw (n1, n2, n3, n4) (idle-Effect t v p [] esp_ok (inl refl))
        ]
      ]
    ]
  ]

  pub run : List Message → Proto → Proto
  run [] p = p
  run ((t, d, v) ∷ ms) p = run ms (handle_message c b (some t) d v p).proto

  -- After any history of messages the version is the greatest one seen, in whatever order they came.
  pub config_version-run :
      (ms : List Message) (p : Proto) → (run ms p).config_version ≡ max p.config_version (newest ms)
  unfolding run
  config_version-run [] p = omega arith
  config_version-run ((t, d, v) ∷ ms) p = omega (
    arith,
    config_version-run ms (handle_message c b (some t) d v p).proto,
    (handle_message-Effect t d v p).version,
  )
