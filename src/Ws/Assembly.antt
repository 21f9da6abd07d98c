-- ===== src/Ws/Assembly.antt =====
-- The payload that a complete sequence of fragments puts into the queue.
use newt_esp.Base.{
  ℕ, ◌+◌, ◌≤◌, ◌<◌, ◌≡◌, refl, ap, ◌∙◌, true, List, [], ◌∷◌, ◌++◌, Option, none, some, arith,
  length, length-append, append-nil, append_assoc, Bytes, Every,
}
use newt_esp.Ws.Bounds.{freed}
use newt_esp.Ws.Frame.{Frame, Heap, handle_text_frame}
use newt_esp.Ws.State.{Ws, rx_max, queue_send}

-- The events by which the client passes on a payload in pieces.
abbrev pub fragments : ℕ → ℕ → List Bytes → List Frame
fragments total offset [] = []
fragments total offset (ch ∷ rest) =
    record { payload_len = total; payload_offset = offset; text = ch }
    ∷ fragments total (offset + length ch) rest

abbrev pub concat : List Bytes → Bytes
concat [] = []
concat (ch ∷ rest) = ch ++ concat rest

unfoldable pub receive : Heap → List Frame → Ws → Ws
receive h [] w = w
receive h (d ∷ ds) w = receive h ds (handle_text_frame h d w)

-- The state once the payload is queued.
abbrev pub received : Bytes → List (Option Bytes) → Ws → Ws
received payload q w = record w {
  queue = some (queue_send q (some payload));
  rx_assembly = none;
  rx_assembly_len = 0;
  rx_assembly_cap = 0;
}

abbrev pub holding : Bytes → ℕ → Ws → Ws
holding buf total w = record w {
  rx_assembly = some buf;
  rx_assembly_len = length buf;
  rx_assembly_cap = total;
}

abbrev pub able : Heap
able = record { assembly = true; copy = true }

-- A fragment behind the first, which is not the last one.
pub handle_text_frame_more :
    (total offset : ℕ) (buf ch : Bytes) (w : Ws)
    → 0 < offset
    → length buf + length ch < total
    → handle_text_frame able
        (record { payload_len = total; payload_offset = offset; text = ch })
        (holding buf total w)
      ≡ holding (buf ++ ch) total w
unfolding handle_text_frame
handle_text_frame_more total offset buf ch w o l = ground (arith, length-append buf ch)

handle_text_frame_last :
    (total offset : ℕ) (buf ch : Bytes) (q : List (Option Bytes)) (w : Ws)
    → 0 < offset
    → 0 < length buf
    → length buf + length ch ≡ total
    → w.queue ≡ some q
    → handle_text_frame able
        (record { payload_len = total; payload_offset = offset; text = ch })
        (holding buf total w)
      ≡ received (buf ++ ch) q w
unfolding handle_text_frame
handle_text_frame_last total offset buf ch q w o p l e = ground (arith, length-append buf ch)

pub handle_text_frame_first :
    (total : ℕ) (ch : Bytes) (w : Ws)
    → 0 < length ch
    → length ch < total
    → total ≤ rx_max
    → handle_text_frame able (record { payload_len = total; payload_offset = 0; text = ch }) w
      ≡ holding ch total w
unfolding handle_text_frame
handle_text_frame_first total ch w p l m = ground arith

abbrev pub AllFilled : List Bytes → Type 0
AllFilled = Every (λ ch. 0 < length ch)

receive-holding :
    (rest : List Bytes) (total offset : ℕ) (buf ch : Bytes) (q : List (Option Bytes)) (w : Ws)
    → 0 < offset
    → 0 < length buf
    → AllFilled (ch ∷ rest)
    → length buf + length (concat (ch ∷ rest)) ≡ total
    → w.queue ≡ some q
    → receive able (fragments total offset (ch ∷ rest)) (holding buf total w)
      ≡ received (buf ++ concat (ch ∷ rest)) q w
unfolding receive
receive-holding [] total offset buf ch q w o p f l e =
    rw (append-nil ch)
      (handle_text_frame_last total offset buf ch q w o p (omega (arith, length-append ch [])) e)
receive-holding (ch' ∷ rest) total offset buf ch q w o p f l e =
    ap (receive able (fragments total (offset + length ch) (ch' ∷ rest))) (
      handle_text_frame_more total offset buf ch w o (
        omega
          (arith, length-append ch (concat (ch' ∷ rest)), length-append ch' (concat rest), f.1.0)))
    ∙ (receive-holding rest total (offset + length ch) (buf ++ ch) ch' q w (omega arith)
          (omega (arith, length-append buf ch)) f.1
          (omega (arith, length-append buf ch, length-append ch (concat (ch' ∷ rest)))) e
        ∙ ap (λ t. received t q w) (append_assoc buf ch (concat (ch' ∷ rest))))

-- A payload in two or more pieces that are not empty is sent to the queue whole and once, when it is
-- within the limit and memory is there, whatever an earlier frame left in the buffer: it stands behind
-- what the queue held, or is lost where the queue was full.
pub receive-fragments :
    (first second : Bytes) (rest : List Bytes) (q : List (Option Bytes)) (w : Ws)
    → AllFilled (first ∷ second ∷ rest)
    → length (concat (first ∷ second ∷ rest)) ≤ rx_max
    → w.queue ≡ some q
    → receive able (fragments (length (concat (first ∷ second ∷ rest))) 0 (first ∷ second ∷ rest)) w
      ≡ received (concat (first ∷ second ∷ rest)) q w
unfolding receive
receive-fragments first second rest q w f m e =
    let total = length (concat (first ∷ second ∷ rest)) in
    ap (receive able (fragments total (0 + length first) (second ∷ rest))) (
      handle_text_frame_first total first w f.0
        (omega (
          arith,
          length-append first (concat (second ∷ rest)),
          length-append second (concat rest),
          f.1.0,
        ))
        m)
    ∙ (receive-holding rest total (0 + length first) first second q w (omega arith) f.0 f.1
        (omega (arith, length-append first (concat (second ∷ rest)))) e)

pub handle_text_frame_skip :
    (h : Heap) (d : Frame) (w : Ws)
    → length d.text < d.payload_len
    → 0 < d.payload_offset
    → handle_text_frame h d (freed w) ≡ freed w
unfolding handle_text_frame
handle_text_frame_skip h d w l o = ground arith

pub handle_text_frame_large :
    (h : Heap) (d : Frame) (w : Ws)
    → length d.text < d.payload_len
    → d.payload_offset ≡ 0
    → rx_max < d.payload_len
    → handle_text_frame h d w ≡ freed w
unfolding handle_text_frame
handle_text_frame_large h d w l o m = ground arith

receive_skip :
    (h : Heap) (rest : List Bytes) (total offset : ℕ) (w : Ws)
    → 0 < offset
    → Every (λ ch. length ch < total) rest
    → receive h (fragments total offset rest) (freed w) ≡ freed w
unfolding receive
receive_skip h [] total offset w o f = refl
receive_skip h (ch ∷ rest) total offset w o f =
    ap (receive h (fragments total (offset + length ch) rest)) (
      handle_text_frame_skip h (record { payload_len = total; payload_offset = offset; text = ch })
        w f.0 o)
    ∙ (receive_skip h rest total (offset + length ch) w (omega arith) f.1)

-- A payload above the limit is dropped with all its pieces: nothing is queued and the buffer is
-- left empty.
pub receive_large :
    (h : Heap) (first : Bytes) (rest : List Bytes) (total : ℕ) (w : Ws)
    → 0 < length first
    → Every (λ ch. length ch < total) (first ∷ rest)
    → rx_max < total
    → receive h (fragments total 0 (first ∷ rest)) w
      ≡ record w { rx_assembly = none; rx_assembly_len = 0; rx_assembly_cap = 0 }
unfolding receive
receive_large h first rest total w p f m =
    ap (receive h (fragments total (0 + length first) rest)) (
      handle_text_frame_large h (record { payload_len = total; payload_offset = 0; text = first }) w
        f.0 refl m)
    ∙ (receive_skip h rest total (0 + length first) w (omega arith) f.1)
