-- ===== src/Ws/Delivery.antt =====
-- From the fragments of a frame through the queue and the worker to the protocol's handler
-- (newt_ws.c, newt.c `cb_ws_msg`, newt_proto.c).
use newt_esp.Base.{
  ◌≤◌, ◌≡◌, refl, ap, ◌∙◌, sym, Bool, true, false, List, [], ◌∷◌, ◌++◌, Option, none, some, arith,
  ltb, if◌then◌else◌, length, Bytes, codes, append-nil, append_assoc, Bool-cases, inl, inr,
}
use newt_esp.Extern.{Cjson, Base64}
use newt_esp.Proto.Message.{handle_message}
use newt_esp.Proto.State.{Proto, Outcome, string_member}
use newt_esp.Ws.Assembly.{fragments, concat, receive, receive-fragments, able, AllFilled}
use newt_esp.Ws.State.{Ws, queue_depth, rx_max, queue_send}
use newt_esp.Ws.Worker.{
  Delivered, with_data_len, version_of, deliver_root, deliver, turned, ended, take_message,
  worker_turn,
}

abbrev pub to_list {ℓ} : {A : Type ℓ} → Option A → List A
to_list none = []
to_list (some a) = a ∷ []

module _ (c : Cjson) where
  -- The messages that the worker hands over from a queue, when no stop is requested.
  pub drain : Bool → List (Option Bytes) → List Delivered
  drain on_msg [] = []
  drain on_msg (m ∷ q) = to_list (take_message c false on_msg m).1 ++ drain on_msg q

  drain-append :
      (on_msg : Bool) (q r : List (Option Bytes))
      → drain on_msg (q ++ r) ≡ drain on_msg q ++ drain on_msg r
  unfolding drain
  drain-append on_msg [] r = refl
  drain-append on_msg (m ∷ q) r =
      ap (◌++◌ (to_list (take_message c false on_msg m).1)) (drain-append on_msg q r)
      ∙ sym (
          append_assoc (to_list (take_message c false on_msg m).1) (drain on_msg q)
            (drain on_msg r))

  -- A round of the loop hands over the first message and leaves the rest, so the rounds drain the
  -- queue in its order.
  pub worker_turn-drain :
      (on_msg : Bool) (m : Option Bytes) (q : List (Option Bytes))
      → ((worker_turn c false false on_msg (m ∷ q)).2 ≡ q)
        × (drain on_msg (m ∷ q)
            ≡ to_list (worker_turn c false false on_msg (m ∷ q)).1
              ++ drain on_msg (worker_turn c false false on_msg (m ∷ q)).2)
  unfolding drain worker_turn
  worker_turn-drain on_msg m q = (refl, refl)

  -- A text that is queued is handed over behind all that the queue held; on a full queue it is lost
  -- and the rest stays as it was.
  pub drain-queue_send :
      (on_msg : Bool) (q : List (Option Bytes)) (buf : Bytes)
      → drain on_msg (queue_send q (some buf)) ≡ (
          if ltb (length q) queue_depth
          then drain on_msg q ++ to_list (deliver c on_msg buf)
          else drain on_msg q)
  unfolding drain take_message
  drain-queue_send on_msg q buf = elim (Bool-cases (ltb (length q) queue_depth)) [
    | inl room ↦ rw room (
        drain-append on_msg q (some buf ∷ [])
        ∙ ap (◌++◌ (drain on_msg q)) (append-nil (to_list (deliver c on_msg buf))))
    | inr full ↦ rw full
  ]

-- `cb_ws_msg`
unfoldable pub cb_ws_msg : Cjson → Base64 → Delivered → Proto → Outcome
cb_ws_msg c b d = handle_message c b (some d.type_) (some d.data_json) d.config_version

module _ (c : Cjson) where
  -- The length that goes with the data is the length of the data.
  deliver-data_len :
      (on_msg : Bool) (buf : Bytes) (d : Delivered)
      → deliver c on_msg buf ≡ some d
      → d.data_len ≡ length d.data_json
  unfolding deliver deliver_root
  deliver-data_len on_msg buf d h = ground arith

  -- A payload that comes in pieces to an empty queue is what the worker parses next: its type, its
  -- data printed again and its version are handed over, and the queue is empty again.
  pub worker_turn-receive :
      (first second : Bytes) (rest : List Bytes) (w : Ws) (root jdata : c.Item) (t printed : Bytes)
      → AllFilled (first ∷ second ∷ rest)
      → length (concat (first ∷ second ∷ rest)) ≤ rx_max
      → w.queue ≡ some []
      → w.on_msg ≡ true
      → c.parse (concat (first ∷ second ∷ rest)) ≡ some root
      → string_member c root (codes "type") ≡ some t
      → c.get_item root (codes "data") ≡ some jdata
      → c.is_object jdata ≡ true
      → c.print_unformatted jdata ≡ some printed
      → (q : List (Option Bytes)) × ((receive able
            (fragments (length (concat (first ∷ second ∷ rest))) 0 (first ∷ second ∷ rest))
            w).queue
          ≡ some q)
        × (worker_turn c false false w.on_msg q
            ≡ (turned, some (with_data_len t (some printed) (version_of c root)), []))
  unfolding worker_turn
  worker_turn-receive first second rest w root jdata t printed f m e o h1 h2 h3 h4 h5 = (
    queue_send [] (some (concat (first ∷ second ∷ rest))),
    ap (λ x. x.queue) (receive-fragments first second rest [] w f m e),
    ground arith,
  )

  -- The stop signal wakes the worker whatever the queue holds: behind it the queue is not empty, so
  -- with the stop requested the next round ends the task.
  pub worker_turn-stop :
      (before on_msg : Bool) (q : List (Option Bytes))
      → (worker_turn c before true on_msg (queue_send q none)).0 ≡ ended
  unfolding worker_turn
  worker_turn-stop before on_msg [] = ground arith
  worker_turn-stop before on_msg (m ∷ q) = ground arith
