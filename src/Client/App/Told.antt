-- ===== src/Client/App/Told.antt =====
-- A reply that no window of its module throws on.
use qt_chatting.Prelude.{◌≡◌, refl, String, false, Option, some, List, [], ◌∷◌, map}
use qt_chatting.Protocol.{register_mod, resetpwd_mod}
use qt_chatting.Client.App.{App, each, each_next, with_register, with_reset, deliver, reply_arrives}
use qt_chatting.Client.Http.{Awaited, on_finished-returned, signal_of-register, signal_of-reset}
use qt_chatting.Client.Qt.{Qt, success}
use qt_chatting.Client.Register.{RegisterWidget, slot_reg_finish}
use qt_chatting.Client.Reset.{ResetWidget, slot_reset_finish}

each-map :
    {W : Type 0} (f : W → Option W) (t : W → W)
    → ((w : W) → f w ≡ some (t w))
    → (ws : List W) → each f ws ≡ some (map t ws)
unfolding each each_next
each-map f t does [] = refl
each-map f t does (w ∷ ws) = rw (does w, each-map f t does ws) refl

module _ (q : Qt) (prefix : String) (r : Awaited) (text : String) (a : App) where
  pub reply_arrives-register :
      (t : RegisterWidget → RegisterWidget)
      → r.module_of ≡ register_mod
      → ((w : RegisterWidget) → slot_reg_finish q prefix r.req_id text success w ≡ some (t w))
      → reply_arrives q prefix r false text a
        ≡ some (record a { register_windows = map t a.register_windows })
  unfolding reply_arrives deliver with_register
  reply_arrives-register t mine does =
      rw
        (
          on_finished-returned r text,
          signal_of-register r.module_of mine,
          each-map (slot_reg_finish q prefix r.req_id text success) t does a.register_windows,
        )
        refl

  pub reply_arrives-reset :
      (t : ResetWidget → ResetWidget)
      → r.module_of ≡ resetpwd_mod
      → ((w : ResetWidget) → slot_reset_finish q prefix r.req_id text success w ≡ some (t w))
      → reply_arrives q prefix r false text a
        ≡ some (record a { reset_windows = map t a.reset_windows })
  unfolding reply_arrives deliver with_reset
  reply_arrives-reset t mine does =
      rw
        (
          on_finished-returned r text,
          signal_of-reset r.module_of mine,
          each-map (slot_reset_finish q prefix r.req_id text success) t does a.reset_windows,
        )
        refl
