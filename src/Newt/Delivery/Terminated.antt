-- ===== src/Newt/Delivery/Terminated.antt =====
-- newt_proto.c, the message `newt/wg/terminate`, with `cb_wg_terminate` of newt.c: the tasks end.
use newt_esp.Base.{
  ℕ, ◌≤◌, ◌≡◌, refl, ap, ◌∙◌, sym, Bool, true, false, List, [], ◌∷◌, Option, none, some, arith,
  Bytes, codes, max, bytes_eq,
}
use newt_esp.Extern.{Cjson, Base64, esp_ok}
use newt_esp.Newt.Delivery.{deliver_next-some}
use newt_esp.Newt.Ends.{runs}
use newt_esp.Newt.Ends.Run.{turns, lives-ended}
use newt_esp.Newt.Live.{ended}
use newt_esp.Newt.Moves.{
  LiveMove, delivers, Crew, receive_call, receive_calls, hand_over, hand_over?, taken, deliver_next,
  live, lives,
}
use newt_esp.Newt.Public.{EventBits}
use newt_esp.Newt.Shutdown.{stop_bit}
use newt_esp.Proto.Message.{dispatch, handle_message, note_version, note_version-max}
use newt_esp.Proto.State.{Proto, outcome, wg_terminate, call_if, string_member}
use newt_esp.Ws.Worker.{Delivered, with_data_len, version_of, data_of, deliver, deliver_root}

with_data_len-type : (t : Bytes) (d : Option Bytes) (v : ℕ) → (with_data_len t d v).type_ ≡ t
with_data_len-type t none v = refl
with_data_len-type t (some d) v = refl

module _ (c : Cjson) (b : Base64) (inet_pton : Bytes → Option ℕ) where
  dispatch-terminate :
      (d : Option Bytes) (p : Proto)
      → dispatch c b (codes "newt/wg/terminate") d p
        ≡ outcome p (call_if p.cb.on_wg_terminate wg_terminate) esp_ok
  unfolding dispatch bytes_eq
  dispatch-terminate d p = refl

  handle_message-terminate :
      (d : Option Bytes) (v : ℕ) (p : Proto)
      → p.cb.on_wg_terminate ≡ true
      → handle_message c b (some (codes "newt/wg/terminate")) d v p
        ≡ outcome (record p { config_version = max p.config_version v }) (wg_terminate ∷ []) esp_ok
  unfolding handle_message
  handle_message-terminate d v p h =
      dispatch-terminate d (note_version v p) ∙ rw (note_version-max v p) (rw h refl)

  -- What the worker hands over from a text of that type, whatever its data.
  deliver-terminate :
      (payload : Bytes) (root : c.Item)
      → c.parse payload ≡ some root
      → string_member c root (codes "type") ≡ some (codes "newt/wg/terminate")
      → deliver c true payload
        ≡ some (with_data_len (codes "newt/wg/terminate") (data_of c root) (version_of c root))
  unfolding deliver deliver_root
  deliver-terminate payload root h k = ground arith

  -- The stop bit is set and the supervisor is where it was.
  record IsTold (s s' : Crew) : Type 0 where
    stopping : stop_bit s'.newt ≡ true
    handle : s'.newt.supervisor ≡ s.newt.supervisor
    phase : s'.phase ≡ s.phase

  hand_over-terminate :
      (m : Delivered) (task : Bool) (s : Crew) (bits : EventBits)
      → m.type_ ≡ codes "newt/wg/terminate"
      → s.newt.proto.cb.on_wg_terminate ≡ true
      → s.newt.events ≡ some bits
      → IsTold s (hand_over c b inet_pton task m s)
  unfolding hand_over receive_calls receive_call
  hand_over-terminate m task s bits e h k =
      rw (e, hand_over, handle_message-terminate (some m.data_json) m.config_version s.newt.proto h)
        (record { stopping = rw k refl; handle = rw k refl; phase = refl })

  deliver_next-terminate :
      (payload : Bytes) (root : c.Item) (q : List (Option Bytes)) (task : Bool) (s : Crew)
      (bits : EventBits)
      → c.parse payload ≡ some root
      → string_member c root (codes "type") ≡ some (codes "newt/wg/terminate")
      → s.newt.ws.queue ≡ some (some payload ∷ q)
      → s.newt.ws.on_msg ≡ true
      → s.newt.ws.worker_stop_requested ≡ false
      → s.newt.proto.cb.on_wg_terminate ≡ true
      → s.newt.events ≡ some bits
      → IsTold s (deliver_next c b inet_pton task s)
  unfolding hand_over?
  deliver_next-terminate payload root q task s bits h k e o r cb held =
      let m = with_data_len (codes "newt/wg/terminate") (data_of c root) (version_of c root) in
      let v =
        hand_over-terminate m task (taken c b inet_pton q s) bits
          (with_data_len-type (codes "newt/wg/terminate") (data_of c root) (version_of c root)) cb
          held in
      rw
        (deliver_next-some c b inet_pton payload q task s e o r, deliver-terminate payload root h k)
        (record { stopping = v.stopping; handle = v.handle; phase = v.phase })

  -- A `newt/wg/terminate` message, whatever its data, is next in the websocket's queue, with no stop of
  -- the worker requested and both callbacks set. Once the worker has taken it, the supervisor ends
  -- within seven of its own moves, wherever it was and whatever the others do between, and gives up
  -- its handle.
  pub lives-terminated :
      (payload : Bytes) (root : c.Item) (q : List (Option Bytes)) (task : Bool)
      (ms : List (LiveMove c b inet_pton)) (s : Crew) (bits : EventBits)
      → c.parse payload ≡ some root
      → string_member c root (codes "type") ≡ some (codes "newt/wg/terminate")
      → s.newt.ws.queue ≡ some (some payload ∷ q)
      → s.newt.ws.on_msg ≡ true
      → s.newt.ws.worker_stop_requested ≡ false
      → s.newt.proto.cb.on_wg_terminate ≡ true
      → s.newt.events ≡ some bits
      → s.newt.supervisor ≡ runs s.phase
      → 7 ≤ turns c b inet_pton ms
      → let s' = lives c b inet_pton (delivers task ∷ ms) s in
        (s'.phase ≡ ended) × (s'.newt.supervisor ≡ false)
  unfolding lives live
  lives-terminated payload root q task ms s bits h k e o r cb held handle l =
      let v = deliver_next-terminate payload root q task s bits h k e o r cb held in
      lives-ended c b inet_pton ms (deliver_next c b inet_pton task s) v.stopping
        (v.handle ∙ handle ∙ ap runs (sym v.phase)) l
