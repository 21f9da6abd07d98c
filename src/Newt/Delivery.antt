-- ===== src/Newt/Delivery.antt =====
-- newt.c, `cb_ws_msg` in a round of the websocket's worker: what its three kinds of change keep, the
-- round keeps; Terminated has the round that ends the site.
pub mod Terminated
use newt_esp.Base.{
  ℕ, Bool, List, [], ◌∷◌, ◌++◌, Option, none, some, Bytes, ◌≡◌, Option-cases, true, false, arith,
  inl, inr,
}
use newt_esp.Extern.{Cjson, Base64}
use newt_esp.Newt.Moves.{
  Crew, receive_call, spawned, receive_calls, hand_over, hand_over?, taken, deliver_next,
}
use newt_esp.Proto.Message.{handle_message}
use newt_esp.Proto.State.{Call, Proto}
use newt_esp.Ws.Worker.{Delivered, deliver, worker_turn}

module _ (c : Cjson) (b : Base64) (inet_pton : Bytes → Option ℕ) where
  -- A callback, a change of the protocol's state and a receive from the queue keep `P`.
  pub record IsKept (P : Crew → Type 0) : Type 0 where
    pub called :
        (call : Call) (task : Bool) (s : Crew)
        → P s
        → P (record s {
          newt = receive_call inet_pton call s.newt;
          rejoins = s.rejoins ++ spawned call task;
        })
    pub handled :
        (proto : Proto) (s : Crew) → P s → P (record s { newt = record s.newt { proto = proto } })
    pub received :
        (q rest : List (Option Bytes)) (s : Crew)
        → s.newt.ws.queue ≡ some q
        → P s
        → P (taken c b inet_pton rest s)

  module _ (P : Crew → Type 0) (k : IsKept P) (task : Bool) where
    receive_calls-IsKept :
        (cs : List Call) (s : Crew) → P s → P (receive_calls c b inet_pton task cs s)
    unfolding receive_calls
    receive_calls-IsKept [] s v = v
    receive_calls-IsKept (call ∷ cs) s v = receive_calls-IsKept cs _ (k.called call task s v)

    hand_over?-IsKept :
        (m : Option Delivered) (s : Crew) → P s → P (hand_over? c b inet_pton task m s)
    unfolding hand_over? hand_over
    hand_over?-IsKept none s v = v
    hand_over?-IsKept (some m) s v =
        let o =
          handle_message c b (some m.type_) (some m.data_json) m.config_version s.newt.proto in
        receive_calls-IsKept o.calls _ (k.handled o.proto s v)

    pub deliver_next-IsKept : (s : Crew) → P s → P (deliver_next c b inet_pton task s)
    unfolding deliver_next
    deliver_next-IsKept s v = elim (Option-cases s.newt.ws.queue) [
      | inl e ↦ rw (e, deliver_next) v
      | inr (q, e) ↦
          let r =
            worker_turn c s.newt.ws.worker_stop_requested s.newt.ws.worker_stop_requested
              s.newt.ws.on_msg q in
          rw (e, deliver_next) (hand_over?-IsKept r.1 _ (k.received q r.2 s e v))
    ]

  -- A round at a payload of the queue, with the callback set and no stop requested.
  pub deliver_next-some :
      (payload : Bytes) (q : List (Option Bytes)) (task : Bool) (s : Crew)
      → s.newt.ws.queue ≡ some (some payload ∷ q)
      → s.newt.ws.on_msg ≡ true
      → s.newt.ws.worker_stop_requested ≡ false
      → deliver_next c b inet_pton task s
        ≡ hand_over? c b inet_pton task (deliver c true payload) (taken c b inet_pton q s)
  unfolding deliver_next worker_turn
  deliver_next-some payload q task s e o r = ground arith
