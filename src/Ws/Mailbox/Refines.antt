-- ===== src/Ws/Mailbox/Refines.antt =====
-- newt_ws.c's event handler and worker implement the mailbox.
use newt_esp.Base.{ℕ, zero, suc, ◌≡◌, refl, Bool, List, [], ◌∷◌, ◌++◌, arith, length, Bytes}
use newt_esp.Extern.{Cjson}
use newt_esp.Ws.Assembly.{concat}
use newt_esp.Ws.Delivery.{to_list}
use newt_esp.Ws.Mailbox.{
  Activity, arrives, works, texts, accept, hands, hands_between, mailbox, work, rounds, feed,
  websocket, AllSent, Holds, receive-Holds,
}
use newt_esp.Ws.Mailbox.Between.{rounds_between, feed-receive}
use newt_esp.Ws.State.{Ws}
use newt_esp.Ws.Worker.{Delivered, deliver, take_message, worker_turn}

module _ (c : Cjson) (on_msg : Bool) where
  -- What is handed over, and the mailbox that is left.
  Left : List Delivered × Ws → List Delivered × List Bytes → Type 0
  Left r s = (r.0 ≡ s.0) × Holds r.1 s.1

  work_empty : (w : Ws) → Holds w [] → ((work c on_msg w).0 ≡ []) × Holds (work c on_msg w).1 []
  unfolding work worker_turn
  work_empty w h = ground arith

  work_next :
      (w : Ws) (payload : Bytes) (box : List Bytes)
      → Holds w (payload ∷ box)
      → ((work c on_msg w).0 ≡ to_list (deliver c on_msg payload)) × Holds (work c on_msg w).1 box
  unfolding work worker_turn take_message
  work_next w payload box h = ground arith

  rounds_empty : (n : ℕ) (w : Ws) → Holds w [] → Left (rounds c on_msg n w) ([], [])
  unfolding Left
  rounds_empty zero w h = (refl, h)
  rounds_empty (suc n) w h =
      let (told, kept) = work_empty w h in
      let (more, left) = rounds_empty n (work c on_msg w).1 kept in (rw (told, more) refl, left)

  rounds-hands :
      (n : ℕ) (w : Ws) (box : List Bytes)
      → Holds w box
      → Left (rounds c on_msg n w) (hands c on_msg n box)
  unfolding Left
  rounds-hands zero w box h = (refl, h)
  rounds-hands (suc n) w [] h = rounds_empty (suc n) w h
  rounds-hands (suc n) w (payload ∷ box) h =
      let (told, kept) = work_next w payload box h in
      let (more, left) = rounds-hands n (work c on_msg w).1 box kept in (rw (told, more) refl, left)

  rounds_between-hands :
      (rest : List (ℕ × Bytes)) (w : Ws) (box : List Bytes)
      → Holds w box
      → Left (rounds_between c on_msg rest w) (hands_between c on_msg rest box)
  unfolding Left
  rounds_between-hands [] w box h = (refl, h)
  rounds_between-hands ((n, ch) ∷ rest) w box h =
      let (told, kept) = rounds-hands n w box h in
      let (more, left) =
        rounds_between-hands rest (rounds c on_msg n w).1 (hands c on_msg n box).1 kept in
      (rw (told, more) refl, left)

  feed-Left :
      (first : Bytes) (rest : List (ℕ × Bytes)) (w : Ws) (box : List Bytes)
      → AllSent (arrives first rest ∷ [])
      → Holds w box
      → Left (feed c on_msg (length (concat (first ∷ texts rest))) 0 ((0, first) ∷ rest) w) (
        (hands_between c on_msg rest box).0,
        accept (hands_between c on_msg rest box).1 first (texts rest),
      )
  unfolding Left
  feed-Left first rest w box s h =
      let (told, kept) = rounds_between-hands rest w box h in
      rw (feed-receive c on_msg first rest w s.0)
        (told, receive-Holds first (texts rest) _ (hands_between c on_msg rest box).1 s.0 kept)

  both : (xs ys xs' ys' : List Delivered) → xs ≡ xs' → ys ≡ ys' → xs ++ ys ≡ xs' ++ ys'
  both xs ys xs' ys' e h = rw (e, h) refl

  -- Whatever payloads come, in whatever pieces that are not empty, one payload behind the other, and
  -- whenever the worker makes its rounds, between the pieces of a payload too: with memory there and no
  -- stop requested, the websocket hands over what the mailbox does, no payload twice, none in part,
  -- none out of order, and loses only what the mailbox loses.
  pub websocket_refines :
      (acts : List Activity) (w : Ws) (box : List Bytes)
      → AllSent acts
      → Holds w box
      → websocket c on_msg acts w ≡ mailbox c on_msg acts box
  unfolding websocket Left
  websocket_refines [] w box s h = refl
  websocket_refines (arrives first rest ∷ acts) w box s h =
      let (told, kept) = feed-Left first rest w box (s.0, tt) h in
      both _ _ _ _ told (websocket_refines acts _ _ s.1 kept)
  websocket_refines (works ∷ acts) w box s h =
      let (told, kept) = rounds-hands 1 w box h in
      both _ _ _ _ told (websocket_refines acts _ _ s kept)
