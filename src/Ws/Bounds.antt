-- ===== src/Ws/Bounds.antt =====
-- The bounds that hold of the assembly buffer and the queue after every frame.
use newt_esp.Base.{
  ℕ, ◌≤◌, ◌<◌, ◌≡◌, refl, ◌&&◌, inl, inr, List, [], ◌∷◌, ◌++◌, Option, none, some, arith, ltb, ◌==◌,
  length, length-append, Bytes, Bool-cases,
}
use newt_esp.Ws.Frame.{
  Frame, Heap, enqueue_payload, begin_assembly, append_fragment, handle_text_frame,
}
use newt_esp.Ws.State.{Ws, queue_depth, rx_max, queue_send?}

-- A buffer holds as many bytes as its length says, fewer than its capacity, which is within the
-- limit; without a buffer both numbers are zero.
abbrev pub RxOk : Option Bytes → ℕ → ℕ → Type 0
RxOk none len cap = (len ≡ 0) × (cap ≡ 0)
RxOk (some buf) len cap = (length buf ≡ len) × (len < cap) × (cap ≤ rx_max)

abbrev pub QueueOk : Option (List (Option Bytes)) → Type 0
QueueOk none = Unit
QueueOk (some q) = length q ≤ queue_depth

pub record IsBounded (w : Ws) : Type 0 where
  pub rx : RxOk w.rx_assembly w.rx_assembly_len w.rx_assembly_cap
  pub queue : QueueOk w.queue

queue_send?-QueueOk :
    (q : Option (List (Option Bytes))) (m : Option Bytes) → QueueOk q → QueueOk (queue_send? q m)
queue_send?-QueueOk none m h = tt
queue_send?-QueueOk (some q) m h = ground (arith, length-append q (m ∷ []))

enqueue_payload-IsBounded :
    (h : Heap) (buf : Bytes) (w : Ws) → IsBounded w → IsBounded (enqueue_payload h buf w)
unfolding enqueue_payload
enqueue_payload-IsBounded h buf w v = elim (Bool-cases h.copy) [
  | inl e ↦
      rw (e, enqueue_payload)
        (record { rx = v.rx; queue = queue_send?-QueueOk w.queue (some buf) v.queue })
  | inr e ↦ rw (e, enqueue_payload) v
]

append_fragment-IsBounded :
    (h : Heap) (d : Frame) (buf : Bytes) (w : Ws)
    → w.rx_assembly ≡ some buf
    → IsBounded w
    → IsBounded (append_fragment h d (some buf) w)
unfolding append_fragment enqueue_payload
append_fragment-IsBounded h d buf w e v = ground (
  arith,
  length-append buf d.text,
  queue_send?-QueueOk w.queue (some (buf ++ d.text)) v.queue,
  queue_send?-QueueOk w.queue (some buf) v.queue,
)

append-IsBounded :
    (h : Heap) (d : Frame) (o : Option Bytes) (w : Ws)
    → w.rx_assembly ≡ o
    → IsBounded w
    → IsBounded (append_fragment h d o w)
append-IsBounded h d none w e v = unfold append_fragment in v
append-IsBounded h d (some buf) w e v = append_fragment-IsBounded h d buf w e v

abbrev pub freed : Ws → Ws
freed w = record w { rx_assembly = none; rx_assembly_len = 0; rx_assembly_cap = 0 }

abbrev begun : Frame → Ws → Ws
begun d w = record w { rx_assembly = some []; rx_assembly_len = 0; rx_assembly_cap = d.payload_len }

-- Whatever frames arrive and whichever allocations fail, the buffer is never overrun and the queue
-- never exceeds its depth.
pub handle_text_frame-IsBounded :
    (h : Heap) (d : Frame) (w : Ws) → IsBounded w → IsBounded (handle_text_frame h d w)
unfolding handle_text_frame
handle_text_frame-IsBounded h d w v =
    elim (Bool-cases (ltb 0 d.payload_len && ltb (length d.text) d.payload_len)) [
      | inr whole ↦ rw (whole, handle_text_frame) (enqueue_payload-IsBounded h d.text w v)
      | inl part ↦ elim (Bool-cases (d.payload_offset == 0)) [
        | inr later ↦
            rw (part, later, handle_text_frame) (append-IsBounded h d w.rx_assembly w refl v)
        | inl first ↦ elim (Bool-cases (ltb rx_max d.payload_len)) [
          | inl large ↦
              rw (part, first, large, handle_text_frame, begin_assembly)
                (record { rx = (refl, refl); queue = v.queue })
          | inr fits ↦ elim (Bool-cases h.assembly) [
            | inr full ↦
                rw (part, first, fits, full, handle_text_frame, begin_assembly)
                  (record { rx = (refl, refl); queue = v.queue })
            | inl got ↦
                rw (part, first, fits, got, handle_text_frame, begin_assembly)
                  (append-IsBounded h d (some []) (begun d w) refl
                    (record { rx = (refl, ground arith, ground arith); queue = v.queue }))
          ]
        ]
      ]
    ]
