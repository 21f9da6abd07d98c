-- ===== src/Ws/Mailbox.antt =====
-- newt_ws.c as a mailbox: the event handler and the worker together implement a bounded queue of
-- payloads, whatever the pieces in which the payloads come.
pub mod Between
pub mod Refines
use newt_esp.Base.{
  ℕ, zero, suc, ◌+◌, ◌≤◌, ◌<◌, ◌≡◌, refl, ap, sym, ◌∙◌, Bool, false, List, [], ◌∷◌, ◌++◌, map, none,
  some, arith, ltb, leb, ◌&&◌, if◌then◌else◌, length, length-append, append-nil, Bytes, Every,
  Bool-cases, inl, inr, leb→le,
}
use newt_esp.Extern.{Cjson}
use newt_esp.Ws.Assembly.{
  fragments, concat, receive, receive-fragments, receive_large, able, AllFilled,
}
use newt_esp.Ws.Delivery.{to_list}
use newt_esp.Ws.Frame.{handle_text_frame}
use newt_esp.Ws.State.{Ws, queue_depth, rx_max, queue_send}
use newt_esp.Ws.Worker.{Delivered, deliver, take_message, worker_turn}

-- What happens, in order: a payload comes in one piece or more, each further piece behind a number of
-- rounds of the worker, or the worker makes a round.
pub data Activity : Type 0 where
  arrives : Bytes → List (ℕ × Bytes) → Activity
  works : Activity

abbrev pub texts : List (ℕ × Bytes) → List Bytes
texts [] = []
texts ((n, ch) ∷ rest) = ch ∷ texts rest

-- The mailbox: the payloads that wait. A full one loses what comes, and so does any one when a payload
-- in pieces is too large.
abbrev pub put : List Bytes → Bytes → List Bytes
put box payload = if ltb (length box) queue_depth then box ++ payload ∷ [] else box

abbrev pub accept : List Bytes → Bytes → List Bytes → List Bytes
accept box first [] = put box first
accept box first (second ∷ rest) =
    if leb (length (concat (first ∷ second ∷ rest))) rx_max
    then put box (concat (first ∷ second ∷ rest))
    else box

module _ (c : Cjson) (on_msg : Bool) where
  -- The messages that a mailbox hands over in `n` rounds, and what is left in it; an empty one hands
  -- over nothing.
  abbrev pub hands : ℕ → List Bytes → List Delivered × List Bytes
  hands zero box = ([], box)
  hands (suc n) [] = ([], [])
  hands (suc n) (payload ∷ box) =
      let (told, left) = hands n box in (to_list (deliver c on_msg payload) ++ told, left)

  -- In the rounds between the pieces of a payload.
  abbrev pub hands_between : List (ℕ × Bytes) → List Bytes → List Delivered × List Bytes
  hands_between [] box = ([], box)
  hands_between ((n, ch) ∷ rest) box =
      let (told, left) = hands n box in
      let (more, end) = hands_between rest left in (told ++ more, end)

  -- The messages handed over by a mailbox, which gets a payload with its last piece.
  abbrev pub mailbox : List Activity → List Bytes → List Delivered
  mailbox [] box = []
  mailbox (arrives first rest ∷ acts) box =
      let (told, left) = hands_between rest box in
      told ++ mailbox acts (accept left first (texts rest))
  mailbox (works ∷ acts) box = let (told, left) = hands 1 box in told ++ mailbox acts left

  -- A round of the worker on the queue as it is.
  unfoldable pub work : Ws → List Delivered × Ws
  work w = elim w.queue [
    | none ↦ ([], w)
    | some q ↦
        let (turn, d, rest) = worker_turn c false false on_msg q in
        (to_list d, record w { queue = some rest })
  ]

  abbrev pub rounds : ℕ → Ws → List Delivered × Ws
  rounds zero w = ([], w)
  rounds (suc n) w = let (told, w') = work w in let (more, w'') = rounds n w' in (told ++ more, w'')

  -- The pieces of a payload of `total` bytes from an offset on, each behind its rounds.
  abbrev pub feed : ℕ → ℕ → List (ℕ × Bytes) → Ws → List Delivered × Ws
  feed total offset [] w = ([], w)
  feed total offset ((n, ch) ∷ rest) w =
      let (told, w') = rounds n w in
      let (more, w'') = feed total (offset + length ch) rest (
        handle_text_frame able (record { payload_len = total; payload_offset = offset; text = ch })
          w') in
      (told ++ more, w'')

  -- The same activities on the websocket.
  unfoldable pub websocket : List Activity → Ws → List Delivered
  unfolding work
  websocket [] w = []
  websocket (arrives first rest ∷ acts) w =
      let (told, w') = feed (length (concat (first ∷ texts rest))) 0 ((0, first) ∷ rest) w in
      told ++ websocket acts w'
  websocket (works ∷ acts) w = let (told, w') = rounds 1 w in told ++ websocket acts w'

abbrev pub AllSent : List Activity → Type 0
AllSent [] = Unit {0}
AllSent (arrives first rest ∷ acts) = AllFilled (first ∷ texts rest) × AllSent acts
AllSent (works ∷ acts) = AllSent acts

-- The queue of the websocket holds the payloads of the mailbox.
abbrev pub Holds : Ws → List Bytes → Type 0
Holds w box = w.queue ≡ some (map some box)

length-map : (box : List Bytes) → length (map some box) ≡ length box
length-map [] = refl
length-map (p ∷ box) = ap suc (length-map box)

map-append : (box rest : List Bytes) → map some (box ++ rest) ≡ map some box ++ map some rest
map-append [] rest = refl
map-append (p ∷ box) rest = ap (◌∷◌ (some p)) (map-append box rest)

queue_send-put :
    (box : List Bytes) (p : Bytes) → queue_send (map some box) (some p) ≡ map some (put box p)
queue_send-put box p = elim (Bool-cases (ltb (length box) queue_depth)) [
  | inl room ↦ rw (length-map box, room) (sym (map-append box (p ∷ [])))
  | inr full ↦ rw (length-map box, full)
]

handle_text_frame_whole :
    (text : Bytes) (w : Ws) (box : List Bytes)
    → Holds w box
    → Holds
        (handle_text_frame able
          (record { payload_len = length (text ++ []); payload_offset = 0; text = text })
          w)
        (put box text)
unfolding handle_text_frame
handle_text_frame_whole text w box h =
    let whole : (ltb 0 (length (text ++ [])) && ltb (length text) (length (text ++ []))) ≡ false =
      rw (append-nil text) (ground arith) in
    rw whole (rw h (ap some (queue_send-put box text)))

-- Each piece is smaller than a whole that has `more` beside the pieces.
Every-lt :
    (total more : ℕ) (pieces : List Bytes)
    → 0 < more
    → length (concat pieces) + more ≤ total
    → Every (λ ch. length ch < total) pieces
Every-lt total more [] p h = tt
Every-lt total more (ch ∷ pieces) p h = (
  omega (arith, length-append ch (concat pieces)),
  Every-lt total (more + length ch) pieces (omega arith)
      (omega (arith, length-append ch (concat pieces))),
)

receive_pieces :
    (first second : Bytes) (rest : List Bytes) (w : Ws) (box : List Bytes)
    → AllFilled (first ∷ second ∷ rest)
    → Holds w box
    → Holds
        (receive able
          (fragments (length (concat (first ∷ second ∷ rest))) 0 (first ∷ second ∷ rest))
          w)
        (accept box first (second ∷ rest))
receive_pieces first second rest w box f h =
    let total = length (concat (first ∷ second ∷ rest)) in
    elim (Bool-cases (leb total rx_max)) [
      | inl fits ↦ rw fits (
          ap (λ x. x.queue)
            (receive-fragments first second rest (map some box) w f (leb→le total rx_max fits) h)
          ∙ ap some (queue_send-put box (concat (first ∷ second ∷ rest))))
      | inr large ↦ rw large (
          ap (λ x. x.queue)
            (receive_large able first (second ∷ rest) total w f.0
              (
                omega (
                  arith,
                  f.1,
                  length-append first (concat (second ∷ rest)),
                  length-append second (concat rest),
                ),
                Every-lt total (length first) (second ∷ rest) f.0
                    (omega (arith, length-append first (concat (second ∷ rest)))),
              )
              (ground arith))
          ∙ h)
    ]

receive-Holds :
    (first : Bytes) (rest : List Bytes) (w : Ws) (box : List Bytes)
    → AllFilled (first ∷ rest)
    → Holds w box
    → Holds
        (receive able (fragments (length (concat (first ∷ rest))) 0 (first ∷ rest)) w)
        (accept box first rest)
unfolding receive
receive-Holds first [] w box f h = handle_text_frame_whole first w box h
receive-Holds first (second ∷ rest) w box f h = receive_pieces first second rest w box f h
