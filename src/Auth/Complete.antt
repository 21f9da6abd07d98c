-- ===== src/Auth/Complete.antt =====
-- A response that is not marked as too large holds all the data that arrived.
pub mod Room
use newt_esp.Base.{
  ◌≡◌, refl, ap, sym, ◌∙◌, true, false, List, [], ◌∷◌, ◌++◌, some, Bytes, or_else, append_assoc,
  append-nil, ◌⊎◌, inl, inr,
}
use newt_esp.Extern.{EspErr}
use newt_esp.Auth.Growth.{IsSound, Appended, stored, refused, resp_append-Appended}
use newt_esp.Auth.Response.{
  Response, no_response, HttpEvent, on_data, other_event, http_event_cb, perform_events,
}

-- The data of a list of events, in order.
abbrev pub arrived : List HttpEvent → Bytes
arrived [] = []
arrived (on_data memory text ∷ es) = text ++ arrived es
arrived (other_event ∷ es) = arrived es

abbrev pub content : Response → Bytes
content r = or_else r.buf []

-- Marked, or grown by `text`.
abbrev pub Grown : Response → Bytes → Response → Type 0
Grown r text r' = (r'.oom ≡ true) ⊎ ((r'.oom ≡ r.oom) × (content r' ≡ content r ++ text))

Appended-Grown :
    (r : Response) (text : Bytes) {r' : Response} {e : EspErr}
    → IsSound r
    → Appended r text r' e
    → IsSound r' × Grown r text r'
Appended-Grown r text v (stored s b o) = (s, inr (o, ap (λ x. or_else x []) b))
Appended-Grown r text v (refused e) = (rw e v, inl (rw e))

abbrev Handled : HttpEvent → Response → Type 0
Handled e r =
    (r' : Response) × (http_event_cb e r ≡ some r') × IsSound r' × Grown r (arrived (e ∷ [])) r'

handled : (e : HttpEvent) (r : Response) → IsSound r → Handled e r
unfolding http_event_cb
handled other_event r v = (r, refl, v, inr (refl, sym (append-nil (content r))))
handled (on_data memory []) r v = (r, refl, v, inr (refl, sym (append-nil (content r))))
handled (on_data memory (x ∷ xs)) r v =
    let (out, e, a) = resp_append-Appended memory r (x ∷ xs) v in
    let (s, w) = Appended-Grown r (x ∷ xs) v a in (out.0, rw e, s, rw (append-nil xs) w)

arrived-cons :
    (e : HttpEvent) (es : List HttpEvent) → arrived (e ∷ []) ++ arrived es ≡ arrived (e ∷ es)
arrived-cons (on_data memory text) es = rw (append-nil text)
arrived-cons other_event es = refl

Grown-trans : (r a b : Response) (s t : Bytes) → Grown r s a → Grown a t b → Grown r (s ++ t) b
Grown-trans r a b s t g (inl h) = inl h
Grown-trans r a b s t (inl g) (inr (o, c)) = inl (o ∙ g)
Grown-trans r a b s t (inr (o, c)) (inr (o', c')) =
    inr (o' ∙ o, c' ∙ ap (λ x. x ++ t) c ∙ append_assoc (content r) s t)

perform_events-Grown :
    (es : List HttpEvent) (r : Response)
    → IsSound r
    → (r' : Response) × (perform_events es r ≡ some r') × IsSound r' × Grown r (arrived es) r'
unfolding perform_events
perform_events-Grown [] r v = (r, refl, v, inr (refl, sym (append-nil (content r))))
perform_events-Grown (e ∷ es) r v =
    let (a, h, s, g) = handled e r v in
    let (b, h', s', g') = perform_events-Grown es a s in
    (
      b,
      rw h h',
      s',
      rw (← arrived-cons e es) (Grown-trans r a b (arrived (e ∷ [])) (arrived es) g g'),
    )

-- Receiving a response always ends, with a buffer that is sound; and unless the response is marked
-- as too large, it is all the data of the events, in order.
pub perform_events_complete :
    (es : List HttpEvent)
    → (r : Response) × (perform_events es no_response ≡ some r)
      × IsSound r
      × ((r.oom ≡ true) ⊎ ((r.oom ≡ false) × (content r ≡ arrived es)))
perform_events_complete es = perform_events-Grown es no_response (refl, refl)
