-- ===== src/Newt/Reactions.antt =====
-- What a message does to the tasks: newt_proto.c `newt_proto_handle_message` with the callbacks of
-- newt.c.
use newt_esp.Base.{
  ℕ, ◌≡◌, ◌↔◌, ◌∙◌, refl, Bool, true, false, ◌++◌, List, [], ◌∷◌, Option, some, Bytes, codes,
  bytes_eq, arith, inl, inr,
}
use newt_esp.Extern.{Cjson, Base64}
use newt_esp.Newt.Public.{Reaction, creates_task, sets_stop, react, newt_callbacks}
use newt_esp.Newt.Moves.{spawned}
use newt_esp.Newt.Rejoin.{Rejoin, clears}
use newt_esp.Proto.Message.{handle_message, dispatch, note_version, handle_message-Effect, Asked}
use newt_esp.Proto.State.{Proto, Call, wg_connect, wg_reconnect, wg_terminate, exit_nodes}

-- The reactions to the calls of a message.
abbrev pub reactions : List Call → List Reaction
reactions [] = []
reactions (call ∷ calls) = react call ∷ reactions calls

-- The reconnect tasks that the calls of a message start.
abbrev pub started : Bool → List Call → List Rejoin
started task [] = []
started task (call ∷ calls) = spawned call task ++ started task calls

started-false : (calls : List Call) → started false calls ≡ []
unfolding spawned react
started-false [] = refl
started-false (wg_connect cfg ∷ calls) = started-false calls
started-false (wg_reconnect ∷ calls) = started-false calls
started-false (wg_terminate ∷ calls) = started-false calls
started-false (exit_nodes ∷ calls) = started-false calls

creates-started :
    (calls : List Call) → reactions calls ≡ creates_task ∷ [] → started true calls ≡ clears ∷ []
unfolding spawned react
creates-started [] h = cc
creates-started (wg_reconnect ∷ []) h = refl
creates-started (wg_reconnect ∷ _ ∷ calls) h = cc
creates-started (wg_connect cfg ∷ calls) h = cc
creates-started (wg_terminate ∷ calls) h = cc
creates-started (exit_nodes ∷ calls) h = cc

Asked-started :
    (t : Bytes) (calls : List Call)
    → Asked t calls
    → started true calls ≡ clears ∷ []
    → t ≡ codes "newt/wg/reconnect"
unfolding spawned react
Asked-started t calls (inl e) h = cc (rw e at h)
Asked-started t calls (inr (wg_reconnect, e, asks)) h = asks
Asked-started t calls (inr (call, e, asks)) h = cc (rw e at h)

Asked-terminate :
    (t : Bytes) (calls : List Call)
    → Asked t calls
    → reactions calls ≡ sets_stop ∷ []
    → t ≡ codes "newt/wg/terminate"
unfolding react
Asked-terminate t calls (inl e) h = cc (rw e at h)
Asked-terminate t calls (inr (wg_terminate, e, asks)) h = asks
Asked-terminate t calls (inr (call, e, asks)) h = cc (rw e at h)

noted_callbacks : (v : ℕ) (p : Proto) → (note_version v p).cb ≡ p.cb
unfolding note_version
noted_callbacks v p = ground arith

module _ (c : Cjson) (b : Base64) where
  dispatch_reconnect :
      (data_json : Option Bytes) (p : Proto)
      → p.cb ≡ newt_callbacks
      → reactions (dispatch c b (codes "newt/wg/reconnect") data_json p).calls ≡ creates_task ∷ []
  unfolding dispatch bytes_eq react
  dispatch_reconnect data_json p h = rw h

  dispatch_terminate :
      (data_json : Option Bytes) (p : Proto)
      → p.cb ≡ newt_callbacks
      → reactions (dispatch c b (codes "newt/wg/terminate") data_json p).calls ≡ sets_stop ∷ []
  unfolding dispatch bytes_eq react
  dispatch_terminate data_json p h = rw h

  told_reconnect :
      (t : Bytes) (data_json : Option Bytes) (v : ℕ) (p : Proto)
      → p.cb ≡ newt_callbacks
      → t ≡ codes "newt/wg/reconnect"
      → reactions (handle_message c b (some t) data_json v p).calls ≡ creates_task ∷ []
  unfolding handle_message
  told_reconnect t data_json v p h e =
      rw e (dispatch_reconnect data_json (note_version v p) (noted_callbacks v p ∙ h))

  told_terminate :
      (t : Bytes) (data_json : Option Bytes) (v : ℕ) (p : Proto)
      → p.cb ≡ newt_callbacks
      → t ≡ codes "newt/wg/terminate"
      → reactions (handle_message c b (some t) data_json v p).calls ≡ sets_stop ∷ []
  unfolding handle_message
  told_terminate t data_json v p h e =
      rw e (dispatch_terminate data_json (note_version v p) (noted_callbacks v p ∙ h))

  -- With the callbacks of newt.c, a message starts one reconnect task exactly when it asks for one and
  -- the task can be made, and none where it cannot, which nothing tells; and it sets the stop bit
  -- exactly when it asks to terminate; and the callbacks stay, so that the same holds of the next
  -- message.
  pub react-handle_message :
      (t : Bytes) (data_json : Option Bytes) (v : ℕ) (p : Proto)
      → p.cb ≡ newt_callbacks
      → let o = handle_message c b (some t) data_json v p in
        ((started true o.calls ≡ clears ∷ []) ↔ (t ≡ codes "newt/wg/reconnect"))
        × (started false o.calls ≡ [])
        × ((reactions o.calls ≡ sets_stop ∷ []) ↔ (t ≡ codes "newt/wg/terminate"))
        × (o.proto.cb ≡ newt_callbacks)
  react-handle_message t data_json v p h =
      let effect = handle_message-Effect c b t data_json v p in
      (
        (
          Asked-started t _ effect.asked,
          (λ e. creates-started _ (told_reconnect t data_json v p h e)),
        ),
        started-false _,
        (Asked-terminate t _ effect.asked, told_terminate t data_json v p h),
        effect.callbacks ∙ h,
      )
