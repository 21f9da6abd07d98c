-- ===== src/Ws/Mailbox/Between.antt =====
-- Rounds of newt_ws.c's worker between the pieces of a payload come to the same as rounds before it.
use newt_esp.Base.{
  ℕ, zero, suc, ◌+◌, ◌<◌, ◌≡◌, refl, ap, sym, ◌∙◌, Bool, List, [], ◌∷◌, ◌++◌, Option, none, some,
  arith, leb, length, length-append, Bytes, Every, Bool-cases, inl, inr, leb→le,
}
use newt_esp.Extern.{Cjson}
use newt_esp.Ws.Assembly.{
  fragments, concat, receive, receive_large, able, holding, AllFilled, handle_text_frame_more,
  handle_text_frame_first, handle_text_frame_skip, handle_text_frame_large,
}
use newt_esp.Ws.Bounds.{freed}
use newt_esp.Ws.Frame.{handle_text_frame}
use newt_esp.Ws.Mailbox.{texts, work, rounds, feed, Every-lt}
use newt_esp.Ws.State.{Ws, rx_max}
use newt_esp.Ws.Worker.{Delivered}

-- The websocket with another state of the assembly.
abbrev assembling : Option Bytes → ℕ → ℕ → Ws → Ws
assembling buf len cap w = record w {
  rx_assembly = buf;
  rx_assembly_len = len;
  rx_assembly_cap = cap;
}

module _ (c : Cjson) (on_msg : Bool) where
  work-assembling :
      (buf : Option Bytes) (len cap : ℕ) (w : Ws)
      → work c on_msg (assembling buf len cap w)
        ≡ ((work c on_msg w).0, assembling buf len cap (work c on_msg w).1)
  unfolding work
  work-assembling buf len cap w = ground arith

  rounds-assembling :
      (n : ℕ) (buf : Option Bytes) (len cap : ℕ) (w : Ws)
      → rounds c on_msg n (assembling buf len cap w)
        ≡ ((rounds c on_msg n w).0, assembling buf len cap (rounds c on_msg n w).1)
  rounds-assembling zero buf len cap w = refl
  rounds-assembling (suc n) buf len cap w =
      ap (λ r. (r.0 ++ (rounds c on_msg n r.1).0, (rounds c on_msg n r.1).1))
        (work-assembling buf len cap w)
      ∙ ap (λ r. ((work c on_msg w).0 ++ r.0, r.1))
          (rounds-assembling n buf len cap (work c on_msg w).1)

  -- All rounds between the pieces, without the pieces.
  abbrev pub rounds_between : List (ℕ × Bytes) → Ws → List Delivered × Ws
  rounds_between [] w = ([], w)
  rounds_between ((n, ch) ∷ rest) w =
      let (told, w') = rounds c on_msg n w in
      let (more, w'') = rounds_between rest w' in (told ++ more, w'')

  -- Behind the rounds, a piece that leaves the assembly as `buf'`.
  feed_step :
      (total offset n : ℕ) (ch : Bytes) (rest : List (ℕ × Bytes)) (buf buf' : Option Bytes)
      (len cap len' cap' : ℕ) (w : Ws)
      → ((v : Ws)
          → handle_text_frame able
              (record { payload_len = total; payload_offset = offset; text = ch })
              (assembling buf len cap v)
            ≡ assembling buf' len' cap' v)
      → feed c on_msg total offset ((n, ch) ∷ rest) (assembling buf len cap w) ≡ (
        (rounds c on_msg n w).0
            ++ (feed c on_msg total
                (offset + length ch)
                rest
                (assembling buf' len' cap' (rounds c on_msg n w).1)).0,
        (feed c on_msg total
            (offset + length ch)
            rest
            (assembling buf' len' cap' (rounds c on_msg n w).1)).1,
      )
  feed_step total offset n ch rest buf buf' len cap len' cap' w h =
      ap
        (λ r. (
          r.0
              ++ (feed c on_msg total (offset + length ch) rest (
                  handle_text_frame able
                    (record { payload_len = total; payload_offset = offset; text = ch }) r.1)).0,
          (feed c on_msg total (offset + length ch) rest (
              handle_text_frame able
                (record { payload_len = total; payload_offset = offset; text = ch }) r.1)).1,
        ))
        (rounds-assembling n buf len cap w)
      ∙ ap
          (λ v. (
            (rounds c on_msg n w).0 ++ (feed c on_msg total (offset + length ch) rest v).0,
            (feed c on_msg total (offset + length ch) rest v).1,
          ))
          (h (rounds c on_msg n w).1)

  feed-holding :
      (rest : List (ℕ × Bytes)) (total offset n : ℕ) (buf ch : Bytes) (w : Ws)
      → 0 < offset
      → AllFilled (ch ∷ texts rest)
      → length buf + length (concat (ch ∷ texts rest)) ≡ total
      → feed c on_msg total offset ((n, ch) ∷ rest) (holding buf total w) ≡ (
        (rounds_between ((n, ch) ∷ rest) w).0,
        receive able
            (fragments total offset (ch ∷ texts rest))
            (holding buf total (rounds_between ((n, ch) ∷ rest) w).1),
      )
  unfolding receive
  feed-holding [] total offset n buf ch w o f l =
      ap
        (λ r. (
          r.0 ++ [],
          handle_text_frame able
              (record { payload_len = total; payload_offset = offset; text = ch }) r.1,
        ))
        (rounds-assembling n (some buf) (length buf) total w)
  feed-holding ((m, ch') ∷ rest) total offset n buf ch w o f l =
      let more = λ (v : Ws). handle_text_frame_more total offset buf ch v o (
        omega (
          arith,
          length-append ch (concat (ch' ∷ texts rest)),
          length-append ch' (concat (texts rest)),
          f.1.0,
        )) in
      let w1 = (rounds c on_msg n w).1 in
      feed_step total offset n ch ((m, ch') ∷ rest) (some buf) (some (buf ++ ch)) (length buf) total
        (length (buf ++ ch)) total w more
      ∙ ap (λ r. ((rounds c on_msg n w).0 ++ r.0, r.1))
          (feed-holding rest total (offset + length ch) m (buf ++ ch) ch' w1 (omega arith) f.1
            (omega (arith, length-append buf ch, length-append ch (concat (ch' ∷ texts rest)))))
      ∙ ap
          (λ v. (
            (rounds_between ((n, ch) ∷ (m, ch') ∷ rest) w).0,
            receive able (fragments total (offset + length ch) (ch' ∷ texts rest)) v,
          ))
          (sym (more (rounds_between ((m, ch') ∷ rest) w1).1))

  -- Of a payload that is too large nothing is kept.
  feed-freed :
      (rest : List (ℕ × Bytes)) (total offset : ℕ) (w : Ws)
      → 0 < offset
      → Every (λ ch. length ch < total) (texts rest)
      → feed c on_msg total offset rest (freed w)
        ≡ ((rounds_between rest w).0, freed (rounds_between rest w).1)
  feed-freed [] total offset w o f = refl
  feed-freed ((n, ch) ∷ rest) total offset w o f =
      feed_step total offset n ch rest none none 0 0 0 0 w (λ v.
        handle_text_frame_skip able
          (record { payload_len = total; payload_offset = offset; text = ch }) v f.0 o)
      ∙ ap (λ r. ((rounds c on_msg n w).0 ++ r.0, r.1))
          (feed-freed rest total (offset + length ch) (rounds c on_msg n w).1 (omega arith) f.1)

  -- The pieces of a payload with rounds between them come to the rounds and then the whole payload.
  pub feed-receive :
      (first : Bytes) (rest : List (ℕ × Bytes)) (w : Ws)
      → AllFilled (first ∷ texts rest)
      → feed c on_msg (length (concat (first ∷ texts rest))) 0 ((0, first) ∷ rest) w ≡ (
        (rounds_between rest w).0,
        receive able
            (fragments (length (concat (first ∷ texts rest))) 0 (first ∷ texts rest))
            (rounds_between rest w).1,
      )
  unfolding receive
  feed-receive first [] w f = refl
  feed-receive first ((n, second) ∷ rest) w f =
      let total = length (concat (first ∷ second ∷ texts rest)) in
      let w' = (rounds_between ((n, second) ∷ rest) w).1 in
      let told = (rounds_between ((n, second) ∷ rest) w).0 in
      let split = length-append first (concat (second ∷ texts rest)) in
      let split' = length-append second (concat (texts rest)) in
      elim (Bool-cases (leb total rx_max)) [
        | inl fits ↦
            let start = λ (v : Ws).
              handle_text_frame_first total first v f.0 (omega (arith, split, split', f.1.0))
                (leb→le total rx_max fits) in
            ap (feed c on_msg total (0 + length first) ((n, second) ∷ rest)) (start w)
            ∙ feed-holding rest total (0 + length first) n first second w (omega (arith, f.0)) f.1
                (omega (arith, split))
            ∙ ap
                (λ v.
                  (told, receive able (fragments total (0 + length first) (second ∷ texts rest)) v))
                (sym (start w'))
        | inr large ↦
            let small =
              Every-lt total (length first) (second ∷ texts rest) f.0 (omega (arith, split)) in
            let less : length first < total = omega (arith, split, split', f.1.0) in
            let over : rx_max < total = ground arith in
            ap (feed c on_msg total (0 + length first) ((n, second) ∷ rest)) (
              handle_text_frame_large able
                (record { payload_len = total; payload_offset = 0; text = first }) w less refl over)
            ∙ feed-freed ((n, second) ∷ rest) total (0 + length first) w (omega (arith, f.0)) small
            ∙ ap (λ v. (told, v))
                (sym
                  (receive_large able first (second ∷ texts rest) total w' f.0 (less, small) over))
      ]
