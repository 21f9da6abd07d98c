-- ===== src/Ws/Frame.antt =====
-- newt_ws.c, `enqueue_payload` and `handle_text_frame`: received text, whole or in fragments.
use newt_esp.Base.{
  ℕ, ◌+◌, Bool, true, false, ◌&&◌, [], ◌++◌, Option, none, some, ltb, leb, ◌==◌, if◌then◌else◌,
  length, Bytes,
}
use newt_esp.Ws.State.{Ws, rx_max, queue_send?}

-- The fields of `esp_websocket_event_data_t` that are read; the lengths are not negative, and the
-- text holds `data_len` bytes.
pub record Frame : Type 0 where
  pub payload_len : ℕ
  pub payload_offset : ℕ
  pub text : Bytes

-- Whether the two allocations of one call succeed: the assembly buffer and the queued copy.
pub record Heap : Type 0 where
  pub assembly : Bool
  pub copy : Bool

-- `enqueue_payload`
unfoldable pub enqueue_payload : Heap → Bytes → Ws → Ws
enqueue_payload h buf w = if h.copy then record w { queue = queue_send? w.queue (some buf) } else w

-- The branch at offset 0: the old buffer is freed and one for the whole payload is allocated.
-- The flag says whether the handler goes on.
unfoldable pub begin_assembly : Heap → Frame → Ws → Ws × Bool
begin_assembly h d w =
    let freed = record w { rx_assembly = none; rx_assembly_len = 0; rx_assembly_cap = 0 } in
    if ltb rx_max d.payload_len
    then (freed, false)
    else if h.assembly
    then (record freed { rx_assembly = some []; rx_assembly_cap = d.payload_len }, true)
    else (freed, false)

-- The copy, if the fragment fits.
unfoldable pub copy_fragment : Frame → Bytes → Ws → Ws
copy_fragment d buf w =
    if leb (w.rx_assembly_len + length d.text) w.rx_assembly_cap
    then record w {
      rx_assembly = some (buf ++ d.text);
      rx_assembly_len = w.rx_assembly_len + length d.text;
    }
    else w

-- A full buffer is queued and freed.
unfoldable pub finish_assembly : Heap → Option Bytes → Ws → Ws
unfolding enqueue_payload
finish_assembly h none w = w
finish_assembly h (some buf) w =
    if leb w.rx_assembly_cap w.rx_assembly_len
    then record (enqueue_payload h buf w) {
      rx_assembly = none;
      rx_assembly_len = 0;
      rx_assembly_cap = 0;
    }
    else w

unfoldable pub append_fragment : Heap → Frame → Option Bytes → Ws → Ws
unfolding copy_fragment finish_assembly
append_fragment h d none w = w
append_fragment h d (some buf) w =
    let w' = copy_fragment d buf w in finish_assembly h w'.rx_assembly w'

unfoldable pub handle_text_frame : Heap → Frame → Ws → Ws
unfolding begin_assembly append_fragment enqueue_payload
handle_text_frame h d w =
    if ltb 0 d.payload_len && ltb (length d.text) d.payload_len
    then (let (w', go_on) = if d.payload_offset == 0 then begin_assembly h d w else (w, true) in
        if go_on then append_fragment h d w'.rx_assembly w' else w')
    else enqueue_payload h d.text w
